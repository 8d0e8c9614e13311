-- ===== src/Users/Listing.antt =====
-- The listings of the users.
use protos.Base.{
  ℕ, suc, ◌+◌, ◌-◌, ◌≤◌, ◌<◌, Bool, true, false, ◌&&◌, List, [], ◌∷◌, Option, ◌≡◌, refl, sym, ap,
  ◌∙◌, arith, ◌==◌, ltb, length, take, if◌then◌else◌, dec_lt, ℕ_discrete, Bool-cases, inl, inr, ◌≢◌,
}
use protos.Base.Int.{ℤ, pos, negsuc}
use protos.Users.{User, list_from, get_all, get_all_logged_in}

-- The names of the users that `keep` picks.
unfoldable pub names : (User → Bool) → List User → List (Option (List ℕ))
names keep [] = []
names keep (x ∷ users) = let rest = names keep users in if keep x then x.username ∷ rest else rest

-- All names if they are fewer than the size; otherwise as many as the size, and -1.
abbrev pub limited : ℕ → ℕ → List (Option (List ℕ)) → List (Option (List ℕ)) × ℤ
limited size i ns =
    if ltb (i + length ns) size then (ns, pos (i + length ns)) else (take (size - i) ns, negsuc 0)

abbrev Listed : Type 0
Listed = List (Option (List ℕ)) × ℤ

abbrev counted : List (Option (List ℕ)) → ℕ → Listed
counted ns k = (ns, pos k)

abbrev full : List (Option (List ℕ)) → Listed
full ns = (ns, negsuc 0)

limited-room :
    (size i : ℕ) (ns : List (Option (List ℕ)))
    → i + length ns < size
    → limited size i ns ≡ (ns, pos (i + length ns))
limited-room size i ns h = let test : ltb (i + length ns) size ≡ true = ground arith in rw test refl

limited-full :
    (size i : ℕ) (ns : List (Option (List ℕ)))
    → size ≤ i + length ns
    → limited size i ns ≡ (take (size - i) ns, negsuc 0)
limited-full size i ns h =
    let test : ltb (i + length ns) size ≡ false = ground arith in rw test refl

-- One more name in front of a listing.
abbrev named : Option (List ℕ) → Listed → Listed
named u r = (u ∷ r.0, r.1)

limited-cons :
    (size i : ℕ) (u : Option (List ℕ)) (ns : List (Option (List ℕ)))
    → i + 1 < size
    → named u (limited size (i + 1) ns) ≡ limited size i (u ∷ ns)
limited-cons size i u ns h = elim (dec_lt (i + 1 + length ns) size) [
  | yes l ↦
      ap (named u) (limited-room size (i + 1) ns l)
      ∙ ap (λ k. counted (u ∷ ns) k) (omega arith)
      ∙ sym (limited-room size i (u ∷ ns) (omega (arith, l)))
  | no n ↦
      ap (named u) (limited-full size (i + 1) ns (omega (arith, n)))
      ∙ ap (λ k. full (take k (u ∷ ns))) {x = suc (size - (i + 1))} {y = size - i} (omega arith)
      ∙ sym (limited-full size i (u ∷ ns) (omega (arith, n)))
]

module _ (keep : User → Bool) (size i : ℕ) (x : User) (users : List User) where
  list_from-last :
      keep x ≡ true → i + 1 ≡ size → list_from keep size i (x ∷ users) ≡ full (x.username ∷ [])
  unfolding list_from
  list_from-last k e = let test : (i + 1 == size) ≡ true = ground arith in rw (k, test) refl

  list_from-kept :
      keep x ≡ true
      → i + 1 ≢ size
      → list_from keep size i (x ∷ users) ≡ named x.username (list_from keep size (i + 1) users)
  unfolding list_from
  list_from-kept k n = let test : (i + 1 == size) ≡ false = ground arith in rw (k, test) refl

  list_from-skipped :
      keep x ≡ false → list_from keep size i (x ∷ users) ≡ list_from keep size i users
  unfolding list_from
  list_from-skipped k = rw k refl

  names-kept : keep x ≡ true → names keep (x ∷ users) ≡ x.username ∷ names keep users
  unfolding names
  names-kept k = rw k refl

  names-skipped : keep x ≡ false → names keep (x ∷ users) ≡ names keep users
  unfolding names
  names-skipped k = rw k refl

module _ (keep : User → Bool) (size : ℕ) where
  list_from_lem :
      (i : ℕ) (users : List User)
      → i < size
      → list_from keep size i users ≡ limited size i (names keep users)
  list_from_lem i [] h =
      unfold list_from names in
      ap (counted []) {x = i} {y = i + 0} (omega arith)
      ∙ sym (limited-room size i [] (omega (arith, h)))
  list_from_lem i (x ∷ users) h = elim (Bool-cases (keep x)) [
    | inl k ↦ elim (ℕ_discrete (i + 1) size) [
      | yes e ↦
          list_from-last keep size i x users k e
          ∙ ap (λ j. full (take j (x.username ∷ names keep users))) {x = 1} {y = size - i}
              (omega (arith, e))
          ∙ sym (limited-full size i (x.username ∷ names keep users) (omega (arith, e)))
          ∙ ap (limited size i) (sym (names-kept keep size i x users k))
      | no n ↦
          list_from-kept keep size i x users k n
          ∙ ap (named x.username) (list_from_lem (i + 1) users (omega (arith, n, h)))
          ∙ limited-cons size i x.username (names keep users) (omega (arith, n, h))
          ∙ ap (limited size i) (sym (names-kept keep size i x users k))
    ]
    | inr k ↦
        list_from-skipped keep size i x users k
        ∙ list_from_lem i users h
        ∙ ap (limited size i) (sym (names-skipped keep size i x users k))
  ]

-- Into an array of at least one place, each of the two listings writes the names of the users in
-- use (of those logged in, for the first) in order, and returns how many, if they are fewer than
-- the places; otherwise it fills the array with the first of them and returns -1.
pub get_all_lem :
    (size : ℕ) (users : List User)
    → 0 < size
    → (get_all_logged_in size users
        ≡ limited size 0 (names (λ x. x.in_use && x.is_logged_in) users))
      × (get_all size users ≡ limited size 0 (names (λ x. x.in_use) users))
unfolding get_all_logged_in get_all
get_all_lem size users h = (list_from_lem _ size 0 users h, list_from_lem _ size 0 users h)
