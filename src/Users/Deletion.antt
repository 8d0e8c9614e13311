-- ===== src/Users/Deletion.antt =====
-- Deleting a user.
use mathlib.Core.Path.{subst}
use protos.Base.{
  ℕ, Bool, true, false, List, [], ◌∷◌, ◌++◌, Option, none, some, ◌≡◌, ◌≢◌, refl, ap, arith, inl,
  inr, Bool-cases,
}
use protos.Base.Fallible.{◌>>=◌}
use protos.Users.Strings.{HoldSame, same_string-HoldSame, same_string-differ}
use protos.Users.{
  User, blank, same_string, Deleted, removed, missing, logged_in, delete_from, delete_user,
}

-- A user with this name, said of the strings that the blocks hold, and users with other names.
abbrev pub HasName : List ℕ → User → Type 0
HasName name x = (n : List ℕ) × (x.username ≡ some n) × HoldSame n name

abbrev pub HaveOthers : List ℕ → List User → Type 0
HaveOthers name [] = Unit
HaveOthers name (x ∷ users) =
    ((n : List ℕ) × (x.username ≡ some n) × (¬ HoldSame n name)) × HaveOthers name users

-- What a deletion has found, and what it made of the list.
pub data Outcome (name : List ℕ) (users : List User) : Deleted → List User → Type 0 where
  was_removed :
      {d : Deleted} {users' : List User} (before : List User) (x : User) (after : List User)
      → d ≡ removed
      → users ≡ before ++ x ∷ after
      → HasName name x
      → HaveOthers name before
      → x.is_logged_in ≡ false
      → users' ≡ before ++ blank ∷ after
      → Outcome name users d users'
  was_logged_in :
      {d : Deleted} {users' : List User} (before : List User) (x : User) (after : List User)
      → d ≡ logged_in
      → users ≡ before ++ x ∷ after
      → HasName name x
      → HaveOthers name before
      → x.is_logged_in ≡ true
      → users' ≡ users
      → Outcome name users d users'
  was_missing :
      {d : Deleted} {users' : List User}
      → d ≡ missing
      → HaveOthers name users
      → users' ≡ users
      → Outcome name users d users'
  first_was_deleted :
      {d : Deleted} {users' : List User} (x : User) (after : List User)
      → d ≡ missing
      → users ≡ x ∷ after
      → x.username ≡ none
      → users' ≡ users
      → Outcome name users d users'

-- A node with another name, in front of what the loop has found behind it.
Outcome-behind :
    {name : List ℕ} {users users' : List User} {d : Deleted} (x : User)
    → ((n : List ℕ) × (x.username ≡ some n) × (¬ HoldSame n name))
    → ((y : User) (after : List User) → users ≡ y ∷ after → y.username ≢ none)
    → Outcome name users d users'
    → Outcome name (x ∷ users) d (x ∷ users')
Outcome-behind x other named (was_removed before y after e at has others l c) =
    was_removed (x ∷ before) y after e (ap (λ k. x ∷ k) at) has (other, others) l
      (ap (λ k. x ∷ k) c)
Outcome-behind x other named (was_logged_in before y after e at has others l c) =
    was_logged_in (x ∷ before) y after e (ap (λ k. x ∷ k) at) has (other, others) l
      (ap (λ k. x ∷ k) c)
Outcome-behind x other named (was_missing e others c) =
    was_missing e (other, others) (ap (λ k. x ∷ k) c)
Outcome-behind x other named (first_was_deleted y after e at u c) = absurd (named y after at u)

module _ (name : List ℕ) where
  -- What the loop does at a node named `n`, by the comparison with the name.
  delete_here :
      (x : User) (users : List User) (n : List ℕ) {d : Deleted} {users' : List User}
      → x.username ≡ some n
      → same_string n name ≡ some true
      → delete_from name (x ∷ users) ≡ some (d, users')
      → Outcome name (x ∷ users) d users'
  delete_here x users n {d} {users'} u m e = elim (Bool-cases x.is_logged_in) [
    | inl l ↦ was_logged_in [] x users (kept l).0 refl has tt l (kept l).1
    | inr l ↦ was_removed [] x users (gone l).0 refl has tt l (gone l).1
  ]
    where
      has : HasName name x
      has = (n, u, same_string-HoldSame n name m)

      kept : x.is_logged_in ≡ true → (d ≡ logged_in) × (users' ≡ x ∷ users)
      kept l = unfold delete_from in ground (arith, u, m, l, e)

      gone : x.is_logged_in ≡ false → (d ≡ removed) × (users' ≡ blank ∷ users)
      gone l = unfold delete_from in ground (arith, u, m, l, e)

  delete_later :
      (x : User) (users : List User) (n : List ℕ) {d : Deleted} {users' : List User}
      → x.username ≡ some n
      → same_string n name ≡ some false
      → delete_from name (x ∷ users) ≡ some (d, users')
      → (l : List User) × (delete_from name users ≡ some (d, l)) × (x ∷ l ≡ users')
  delete_later x users n {d} {users'} u m e = go (delete_from name users) refl
    where
      go :
          (r : Option (Deleted × List User))
          → delete_from name users ≡ r
          → (l : List User) × (delete_from name users ≡ some (d, l)) × (x ∷ l ≡ users')
      go none f = absurd (unfold delete_from in ground (arith, u, m, e, f))
      go (some (d', l)) f = (
        l,
        unfold delete_from in ground (arith, u, m, e, f),
        unfold delete_from in ground (arith, u, m, e, f),
      )

  -- The loop does not return from a node without a name.
  first_is_named :
      (users : List User) {r : Deleted × List User}
      → delete_from name users ≡ some r
      → (y : User) (after : List User) → users ≡ y ∷ after
      → y.username ≢ none
  first_is_named users h y after at u =
      let found = rw at at h in unfold delete_from in ground (arith, u, found)

  -- One round of the loop, from the outcome of the rounds behind it.
  node-Outcome :
      (x : User) (users : List User) {d : Deleted} {users' : List User}
      → ((l : List User) → delete_from name users ≡ some (d, l) → Outcome name users d l)
      → delete_from name (x ∷ users) ≡ some (d, users')
      → Outcome name (x ∷ users) d users'
  node-Outcome x users {d} {users'} ih e = named x.username refl
    where
      compared :
          (n : List ℕ) (b : Option Bool)
          → x.username ≡ some n
          → same_string n name ≡ b
          → Outcome name (x ∷ users) d users'
      compared n none u m = absurd (unfold delete_from in ground (arith, u, m, e))
      compared n (some true) u m = delete_here x users n u m e
      compared n (some false) u m =
          let (l, f, same) = delete_later x users n u m e in
          subst (Outcome name (x ∷ users) d) same
            (Outcome-behind x (n, u, same_string-differ n name m) (first_is_named users f) (ih l f))

      named : (o : Option (List ℕ)) → x.username ≡ o → Outcome name (x ∷ users) d users'
      named none u = absurd (unfold delete_from in ground (arith, u, e))
      named (some n) u = compared n (same_string n name) u refl

  delete_from-Outcome :
      (users : List User) {d : Deleted} {users' : List User}
      → delete_from name users ≡ some (d, users')
      → Outcome name users d users'
  delete_from-Outcome [] {d} {users'} e =
      was_missing {d = d} {users' = users'} (unfold delete_from in ground arith) tt
        (unfold delete_from in ground arith)
  delete_from-Outcome (x ∷ users) e = node-Outcome x users (λ l. delete_from-Outcome users) e

  -- A deletion that returns has one of four outcomes. The first node with that name is of a user
  -- who is not logged in, and is wiped; or it is of a user who is logged in, and nothing is
  -- changed; or all nodes have other names, and nothing is changed; or the first node has no name,
  -- and DOESNT_EXIST is returned without a look at the others.
  pub delete_user-Outcome :
      (users : List User) {d : Deleted} {users' : List User}
      → delete_user name users ≡ some (d, users')
      → Outcome name users d users'
  delete_user-Outcome [] e = absurd (unfold delete_user in ground arith)
  delete_user-Outcome (x ∷ users) {d} {users'} e = named x.username refl
    where
      named : (o : Option (List ℕ)) → x.username ≡ o → Outcome name (x ∷ users) d users'
      named none u =
          first_was_deleted {d = d} {users' = users'} x users
            (unfold delete_user in ground (arith, u, e)) refl u
            (unfold delete_user in ground (arith, u, e))
      named (some n) u =
          delete_from-Outcome (x ∷ users) (unfold delete_user in ground (arith, u, e))

-- Once the first user of the list has been deleted, no name is ever found again: a further
-- deletion reports it missing, whatever users stand behind the first.
delete_user_after_first :
    (name other : List ℕ) (x : User) (users : List User) (n : List ℕ)
    → x.username ≡ some n
    → same_string n name ≡ some true
    → x.is_logged_in ≡ false
    → (delete_user name (x ∷ users) >>= λ r. delete_user other r.1) ≡ some (missing, blank ∷ users)
unfolding delete_user delete_from
delete_user_after_first name other x users n u m l = ground (arith, u, m, l)

-- Nodes that have a name, other than this.
abbrev pub AreNamed : List ℕ → List User → Type 0
AreNamed name [] = Unit
AreNamed name (x ∷ users) =
    ((n : List ℕ) × (x.username ≡ some n) × (same_string n name ≡ some false)) × AreNamed name users

module _ (name : List ℕ) (after : List User) where
  delete_from_past :
      (us : List User) → AreNamed name us → delete_from name (us ++ blank ∷ after) ≡ none
  delete_from_past [] h = unfold delete_from in refl
  delete_from_past (y ∷ us) h = passed (delete_from_past us h.1)
    where
      passed :
          delete_from name (us ++ blank ∷ after) ≡ none
          → delete_from name (y ∷ (us ++ blank ∷ after)) ≡ none
      passed ih = let (n, u, m) = h.0 in unfold delete_from in ground (arith, u, m, ih)

-- A deletion that has to pass the node of a user deleted earlier compares a null pointer: it
-- does not return, whatever stands behind that node.
pub delete_user_past_deleted :
    (name : List ℕ) (z : User) (before after : List User)
    → AreNamed name (z ∷ before)
    → delete_user name (z ∷ (before ++ blank ∷ after)) ≡ none
unfolding delete_user
delete_user_past_deleted name z before after b =
    let (n, u, m) = b.0 in ground (arith, u, delete_from_past name after (z ∷ before) b)
