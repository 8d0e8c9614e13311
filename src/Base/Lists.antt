-- ===== src/Base/Lists.antt =====
-- Byte arrays as lists with native indices, and a run of consecutive writes.
use Prim.Native.Nat.{ℕ, zero, suc, ◌+◌, ◌≤◌, ◌<◌}
use mathlib.Core.Logic.{◌≢◌}
use mathlib.Core.Path.{◌≡◌, refl, ap, ◌∙◌}
use mathlib.Core.List.{List, [], ◌∷◌, ◌++◌, append-nil}
use mathlib.Core.Option.{Option, none, some}
use native.Mathlib.Omega.{arith}
use native.Mathlib.Nat.{add-zero}

module _ {ℓ} {A : Type ℓ} where
  abbrev pub length : List A → ℕ
  length [] = 0
  length (_ ∷ xs) = suc (length xs)

  abbrev pub get_elem? : List A → ℕ → Option A
  get_elem? [] _ = none
  get_elem? (x ∷ _) zero = some x
  get_elem? (_ ∷ xs) (suc i) = get_elem? xs i

  -- A write out of bounds changes nothing; the modules that write prove their indices in range.
  abbrev pub set : List A → ℕ → A → List A
  set [] _ _ = []
  set (_ ∷ xs) zero v = v ∷ xs
  set (x ∷ xs) (suc i) v = x ∷ set xs i v

  abbrev pub take : ℕ → List A → List A
  take zero _ = []
  take (suc n) [] = []
  take (suc n) (x ∷ xs) = x ∷ take n xs

  abbrev pub drop : ℕ → List A → List A
  drop zero xs = xs
  drop (suc n) [] = []
  drop (suc n) (_ ∷ xs) = drop n xs

  -- `memset` of a fresh array. Shut, so that tactics do not write the array out.
  unfoldable pub replicate : ℕ → A → List A
  replicate zero a = []
  replicate (suc n) a = a ∷ replicate n a

  -- The writes `a[i] = x0; a[i + 1] = x1; ...`.
  unfoldable pub store : List A → ℕ → List A → List A
  store a i [] = a
  store a i (x ∷ xs) = store (set a i x) (i + 1) xs

module _ {ℓ} {A : Type ℓ} where
  pub length-append : (xs ys : List A) → length (xs ++ ys) ≡ length xs + length ys
  length-append [] ys = omega arith
  length-append (x ∷ xs) ys = omega (arith, length-append xs ys)

  pub length-set : (xs : List A) (i : ℕ) (v : A) → length (set xs i v) ≡ length xs
  length-set [] i v = refl
  length-set (x ∷ xs) zero v = refl
  length-set (x ∷ xs) (suc i) v = ap suc (length-set xs i v)

  pub length-replicate : (n : ℕ) (a : A) → length (replicate n a) ≡ n
  unfolding replicate
  length-replicate zero a = refl
  length-replicate (suc n) a = ap suc (length-replicate n a)

  pub length-take : (n : ℕ) (xs : List A) → n ≤ length xs → length (take n xs) ≡ n
  length-take zero xs h = refl
  length-take (suc n) [] h = absurd (omega arith)
  length-take (suc n) (x ∷ xs) h = omega (arith, length-take n xs)

  pub take-append-drop : (n : ℕ) (xs : List A) → take n xs ++ drop n xs ≡ xs
  take-append-drop zero xs = refl
  take-append-drop (suc n) [] = refl
  take-append-drop (suc n) (x ∷ xs) = ap (λ t. x ∷ t) (take-append-drop n xs)

  pub take-length_append : (xs ys : List A) → take (length xs) (xs ++ ys) ≡ xs
  take-length_append [] ys = refl
  take-length_append (x ∷ xs) ys = ap (λ t. x ∷ t) (take-length_append xs ys)

  pub length-store : (a : List A) (i : ℕ) (xs : List A) → length (store a i xs) ≡ length a
  unfolding store
  length-store a i [] = refl
  length-store a i (x ∷ xs) = length-store (set a i x) (i + 1) xs ∙ length-set a i x

  -- One more write at the end of a run of writes from 0.
  pub store-concat :
      (a : List A) (i : ℕ) (xs : List A) (c : A)
      → store a i (xs ++ c ∷ []) ≡ set (store a i xs) (i + length xs) c
  unfolding store
  store-concat a i [] c = ap (λ k. set a k c) (omega arith)
  store-concat a i (x ∷ xs) c =
      store-concat (set a i x) (i + 1) xs c
      ∙ ap (λ k. set (store (set a i x) (i + 1) xs) k c) (omega arith)

  take-set :
      (a : List A) (i : ℕ) (v : A) → i < length a → take (suc i) (set a i v) ≡ take i a ++ v ∷ []
  take-set [] i v h = absurd (omega arith)
  take-set (x ∷ a) zero v h = refl
  take-set (x ∷ a) (suc i) v h = ap (λ t. x ∷ t) (take-set a i v (omega arith))

  cons-append : (ys : List A) (x : A) (xs : List A) → (ys ++ x ∷ []) ++ xs ≡ ys ++ x ∷ xs
  cons-append [] x xs = refl
  cons-append (y ∷ ys) x xs = ap (λ t. y ∷ t) (cons-append ys x xs)

  -- The prefix that ends with a run of writes is what stood before it and then the values.
  pub take-store :
      (a : List A) (i : ℕ) (xs : List A)
      → i + length xs ≤ length a
      → take (i + length xs) (store a i xs) ≡ take i a ++ xs
  unfolding store
  take-store a i [] h = ap (λ k. take k a) (add-zero i) ∙ nil_lem (take i a)
    where
      nil_lem : (l : List A) → l ≡ l ++ []
      nil_lem l = simp append-nil
  take-store a i (x ∷ xs) h =
      let step : take (i + 1 + length xs) (store (set a i x) (i + 1) xs)
          ≡ take (i + 1) (set a i x) ++ xs =
        take-store (set a i x) (i + 1) xs (omega (arith, length-set a i x)) in
      ap (λ k. take k (store (set a i x) (i + 1) xs)) (omega arith)
      ∙ step
      ∙ ap (λ k. take k (set a i x) ++ xs) {y = suc i} (omega arith)
      ∙ ap (λ t. t ++ xs) (take-set a i x (omega arith))
      ∙ cons-append (take i a) x xs

  pub take-store_start :
      (a xs : List A) → length xs ≤ length a → take (length xs) (store a 0 xs) ≡ xs
  take-store_start a xs h =
      ap (λ k. take k (store a 0 xs)) {x = length xs} {y = 0 + length xs} (omega arith)
      ∙ take-store a 0 xs (omega arith)

  pub get_elem?-replicate : (n : ℕ) (a : A) (i : ℕ) → i < n → get_elem? (replicate n a) i ≡ some a
  unfolding replicate
  get_elem?-replicate zero a i h = elim h [ ]
  get_elem?-replicate (suc n) a zero h = refl
  get_elem?-replicate (suc n) a (suc i) h = get_elem?-replicate n a i (omega arith)

  pub get_elem?-set_ne :
      (xs : List A) (i j : ℕ) (v : A) → i ≢ j → get_elem? (set xs i v) j ≡ get_elem? xs j
  get_elem?-set_ne [] i j v h = refl
  get_elem?-set_ne (x ∷ xs) zero zero v h = absurd (h refl)
  get_elem?-set_ne (x ∷ xs) zero (suc j) v h = refl
  get_elem?-set_ne (x ∷ xs) (suc i) zero v h = refl
  get_elem?-set_ne (x ∷ xs) (suc i) (suc j) v h = get_elem?-set_ne xs i j v (λ e. h (ap suc e))

  pub get_elem?-set_self :
      (xs : List A) (i : ℕ) (v : A) → i < length xs → get_elem? (set xs i v) i ≡ some v
  get_elem?-set_self [] i v h = elim h [ ]
  get_elem?-set_self (x ∷ xs) zero v h = refl
  get_elem?-set_self (x ∷ xs) (suc i) v h = get_elem?-set_self xs i v (omega arith)

  -- A run of writes leaves what lies behind it alone.
  pub get_elem?-store :
      (a : List A) (i : ℕ) (xs : List A) (j : ℕ)
      → i + length xs ≤ j
      → get_elem? (store a i xs) j ≡ get_elem? a j
  unfolding store
  get_elem?-store a i [] j h = refl
  get_elem?-store a i (x ∷ xs) j h =
      get_elem?-store (set a i x) (i + 1) xs j (omega arith)
      ∙ get_elem?-set_ne a i j x (omega arith)

-- The values that a `uint8_t` can hold.
abbrev pub IsBytes : List ℕ → Type 0
IsBytes [] = Unit
IsBytes (c ∷ cs) = (c < 256) × IsBytes cs

pub IsBytes-drop : (xs ys : List ℕ) → IsBytes (xs ++ ys) → IsBytes ys
IsBytes-drop [] ys h = h
IsBytes-drop (x ∷ xs) ys h = IsBytes-drop xs ys h.1
