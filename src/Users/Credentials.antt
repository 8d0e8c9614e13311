-- ===== src/Users/Credentials.antt =====
-- Who the users with a name and a password are, said of the strings that the blocks of memory hold.
use protos.Base.{ℕ, suc, Bool, true, false, ◌&&◌, List, [], ◌∷◌, ◌++◌, some, ◌≡◌, ap, arith, length}
use protos.Base.Fallible.{>>=-eq-some}
use protos.Users.{User, same_string, is_authorized}
use protos.Users.Strings.{HoldSame, same_string-HoldSame, same_string-differ}

-- A user in use, whose blocks hold the same two strings as `name` and `secret`.
pub record HasBoth (name secret : List ℕ) (x : User) : Type 0 where
  pub name_block : List ℕ
  pub secret_block : List ℕ
  pub used : x.in_use ≡ true
  pub name_at : x.username ≡ some name_block
  pub secret_at : x.password ≡ some secret_block
  pub same_name : HoldSame name_block name
  pub same_secret : HoldSame secret_block secret

-- No user of the list is one.
abbrev pub NoneHas : List ℕ → List ℕ → List User → Type 0
NoneHas name secret [] = Unit
NoneHas name secret (x ∷ users) = (¬ HasBoth name secret x) × NoneHas name secret users

module _ (name secret : List ℕ) (x : User) where
  -- The two comparisons, of blocks that are there.
  compared :
      {b : Bool}
      → is_authorized x name secret ≡ some b
      → (n : List ℕ) × (p : List ℕ) × (s : Bool) × (t : Bool) × (x.username ≡ some n)
        × (x.password ≡ some p)
        × (same_string n name ≡ some s)
        × (same_string p secret ≡ some t)
        × (s && t ≡ b)
  unfolding is_authorized
  compared h =
      let (n, u, e) = >>=-eq-some x.username _ h in
      let (s, m, f) = >>=-eq-some (same_string n name) _ e in
      let (p, v, g) = >>=-eq-some x.password _ f in
      let (t, k, i) = >>=-eq-some (same_string p secret) _ g in (n, p, s, t, u, v, m, k, cc)

  pub authorized-HasBoth :
      x.in_use ≡ true → is_authorized x name secret ≡ some true → HasBoth name secret x
  authorized-HasBoth used h = both (compared h)
    where
      both :
          ((n : List ℕ) × (p : List ℕ) × (s : Bool) × (t : Bool) × (x.username ≡ some n)
            × (x.password ≡ some p)
            × (same_string n name ≡ some s)
            × (same_string p secret ≡ some t)
            × (s && t ≡ true))
          → HasBoth name secret x
      both (n, p, true, true, u, v, m, k, e) = record {
        name_block = n;
        secret_block = p;
        used = used;
        name_at = u;
        secret_at = v;
        same_name = same_string-HoldSame n name m;
        same_secret = same_string-HoldSame p secret k;
      }
      both (n, p, true, false, u, v, m, k, e) = absurd (cc)
      both (n, p, false, t, u, v, m, k, e) = absurd (cc)

  pub refused-HasBoth : is_authorized x name secret ≡ some false → ¬ HasBoth name secret x
  refused-HasBoth h x_has = neither (compared h)
    where
      neither :
          ((n : List ℕ) × (p : List ℕ) × (s : Bool) × (t : Bool) × (x.username ≡ some n)
            × (x.password ≡ some p)
            × (same_string n name ≡ some s)
            × (same_string p secret ≡ some t)
            × (s && t ≡ false))
          → ⊥
      neither (n, p, true, true, u, v, m, k, e) = cc
      neither (n, p, false, t, u, v, m, k, e) =
          let same : n ≡ x_has.name_block = cc in
          same_string-differ n name m (rw same x_has.same_name)
      neither (n, p, true, false, u, v, m, k, e) =
          let same : p ≡ x_has.secret_block = cc in
          same_string-differ p secret k (rw same x_has.same_secret)

  pub unused-HasBoth : x.in_use ≡ false → ¬ HasBoth name secret x
  unused-HasBoth e x_has = let used = x_has.used in cc

-- The index of the first user of the list who has both.
pub record IsFirst (name secret : List ℕ) (users : List User) (i : ℕ) : Type 0 where
  pub before : List User
  pub user : User
  pub after : List User
  pub at : users ≡ before ++ user ∷ after
  pub place : i ≡ length before
  pub has : HasBoth name secret user
  pub none_before : NoneHas name secret before

pub IsFirst-behind :
    {name secret : List ℕ} {users : List User} {i : ℕ} (x : User)
    → ¬ HasBoth name secret x
    → IsFirst name secret users i
    → IsFirst name secret (x ∷ users) (suc i)
IsFirst-behind x n f = record {
  before = x ∷ f.before;
  user = f.user;
  after = f.after;
  at = ap (λ k. x ∷ k) f.at;
  place = omega (arith, f.place);
  has = f.has;
  none_before = (n, f.none_before);
}
