-- ===== src/Users/Login.antt =====
-- Loading a user, and logging in as that user.
use protos.Base.{
  ℕ, Bool, true, false, List, [], ◌∷◌, ◌++◌, Option, none, some, ◌≡◌, refl, ap, arith, length,
}
use protos.Base.Fallible.{◌>>=◌, >>=-eq-some}
use protos.Users.{
  User, blank, same_string, copy_terminated, copy_unterminated, occupy, fresh_user,
  load_single_user, is_authorized, behind, log_in,
}
use protos.Users.Credentials.{HasBoth, NoneHas, authorized-HasBoth, refused-HasBoth, unused-HasBoth}
use protos.Users.Strings.{
  Holds, copy_terminated-Holds, copy_unterminated-overruns, same_string-Holds,
}

-- Users in use whose credentials are others than these.
abbrev pub AreOthers : List ℕ → List ℕ → List User → Type 0
AreOthers name secret [] = Unit
AreOthers name secret (x ∷ users) =
    (x.in_use ≡ true) × (is_authorized x name secret ≡ some false) × AreOthers name secret users

module _ (name secret : List ℕ) {n p : List ℕ} (is_name : Holds name n)
    (is_secret : Holds secret p) where
  occupied :
      (x : User)
      → (u : User) × (occupy x name secret ≡ some u)
        × (u.in_use ≡ true)
        × (is_authorized u name secret ≡ some true)
  occupied x =
      let (c, e, h) = copy_terminated-Holds is_name in
      let (d, f, k) = copy_terminated-Holds is_secret in
      (
        record x { username = some c; password = some d; in_use = true },
        made c d e f,
        refl,
        granted c d ((same_string-Holds h is_name).1 refl) ((same_string-Holds k is_secret).1 refl),
      )
    where
      made :
          (c d : List ℕ)
          → copy_terminated name ≡ some c
          → copy_terminated secret ≡ some d
          → occupy x name secret
            ≡ some (record x { username = some c; password = some d; in_use = true })
      made c d e f = unfold occupy in rw (e, f)

      granted :
          (c d : List ℕ)
          → same_string c name ≡ some true
          → same_string d secret ≡ some true
          → is_authorized
              (record x { username = some c; password = some d; in_use = true })
              name
              secret
            ≡ some true
      granted c d e f = unfold is_authorized in rw (e, f)

  load_free :
      (before : List User) (x u : User) (after : List User)
      → AreOthers name secret before
      → x.in_use ≡ false
      → occupy x name secret ≡ some u
      → load_single_user name secret (before ++ x ∷ after) ≡ some (before ++ u ∷ after)
  unfolding load_single_user
  load_free [] x u [] b h e = rw (h, e)
  load_free [] x u (y ∷ after) b h e = rw (h, e)
  load_free (z ∷ []) x u after b h e = rw (b.0, load_free [] x u after tt h e)
  load_free (z ∷ y ∷ before) x u after b h e = rw (b.0, load_free (y ∷ before) x u after (b.2) h e)

  log_in_first :
      (before : List User) (u : User) (after : List User)
      → AreOthers name secret before
      → u.in_use ≡ true
      → is_authorized u name secret ≡ some true
      → log_in name secret (before ++ u ∷ after)
        ≡ some (some (length before), before ++ record u { is_logged_in = true } ∷ after)
  unfolding log_in
  log_in_first [] u after b h e = ground (arith, h, e)
  log_in_first (z ∷ before) u after b h e =
      let ih = log_in_first before u after b.2 h e in ground (arith, ih, b.0, b.1)

  -- A user loaded while a slot is free, behind users in use with other credentials, can log in:
  -- the login marks that slot, returns it, and leaves the others alone.
  pub log_in-load_single_user :
      (before : List User) (x : User) (after : List User)
      → AreOthers name secret before
      → x.in_use ≡ false
      → (u : User) × (load_single_user name secret (before ++ x ∷ after)
          ≡ some (before ++ u ∷ after))
        × (log_in name secret (before ++ u ∷ after)
            ≡ some (some (length before), before ++ record u { is_logged_in = true } ∷ after))
  log_in-load_single_user before x after b h =
      let (u, e, used, granted) = occupied x in
      (u, load_free before x u after b h e, log_in_first before u after b used granted)

  added :
      (u : User) × (fresh_user name secret ≡ some u)
      × (u.in_use ≡ true)
      × (is_authorized u name secret ≡ none)
  added =
      let (c, e, over) = copy_unterminated-overruns is_name in
      let (d, f, over') = copy_unterminated-overruns is_secret in
      (
        record blank { username = some c; password = some d; in_use = true },
        made c d e f,
        refl,
        stuck c d over,
      )
    where
      made :
          (c d : List ℕ)
          → copy_unterminated name ≡ some c
          → copy_unterminated secret ≡ some d
          → fresh_user name secret
            ≡ some (record blank { username = some c; password = some d; in_use = true })
      made c d e f = unfold fresh_user in rw (e, f)

      stuck :
          (c d : List ℕ)
          → same_string c name ≡ none
          → is_authorized
              (record blank { username = some c; password = some d; in_use = true })
              name
              secret
            ≡ none
      stuck c d e = unfold is_authorized in rw e

  load_full :
      (z : User) (before : List User) (u : User)
      → AreOthers name secret (z ∷ before)
      → fresh_user name secret ≡ some u
      → load_single_user name secret (z ∷ before) ≡ some (z ∷ (before ++ u ∷ []))
  unfolding load_single_user
  load_full z [] u b e = rw (b.0, e)
  load_full z (y ∷ before) u b e = rw (b.0, load_full y before u b.2 e)

  log_in_overrun :
      (before : List User) (u : User)
      → AreOthers name secret before
      → u.in_use ≡ true
      → is_authorized u name secret ≡ none
      → log_in name secret (before ++ u ∷ []) ≡ none
  unfolding log_in
  log_in_overrun [] u b h e = ground (arith, h, e)
  log_in_overrun (z ∷ before) u b h e =
      let ih = log_in_overrun before u b.2 h e in ground (arith, ih, b.0, b.1)

  -- With no slot free the user goes into a node at the end, whose strings are copied without
  -- their terminators: logging in as that user reads behind the block that holds the name.
  pub log_in_appended-overruns :
      (z : User) (before : List User)
      → AreOthers name secret (z ∷ before)
      → (u : User) × (load_single_user name secret (z ∷ before) ≡ some (z ∷ (before ++ u ∷ [])))
        × (log_in name secret (z ∷ (before ++ u ∷ [])) ≡ none)
  log_in_appended-overruns z before b =
      let (u, e, used, stuck) = added in
      (u, load_full z before u b e, log_in_overrun (z ∷ before) u b used stuck)

-- What a login has found, and what it made of the list: the first user who has the name and the
-- password is marked, at its place; or no user has both, and nothing is changed.
pub data Found (name secret : List ℕ) (users : List User) : Option ℕ → List User → Type 0 where
  granted :
      {found : Option ℕ} {users' : List User} (before : List User) (x : User) (after : List User)
      → users ≡ before ++ x ∷ after
      → found ≡ some (length before)
      → HasBoth name secret x
      → NoneHas name secret before
      → users' ≡ before ++ record x { is_logged_in = true } ∷ after
      → Found name secret users found users'
  refused :
      {found : Option ℕ} {users' : List User}
      → found ≡ none
      → NoneHas name secret users
      → users' ≡ users
      → Found name secret users found users'

module _ (name secret : List ℕ) where
  -- The result for the users behind one who does not have both, as one for all of them.
  Found-behind :
      (x : User) (users : List User) (r : Option ℕ × List User) {found : Option ℕ}
      {users' : List User}
      → ¬ HasBoth name secret x
      → Found name secret users r.0 r.1
      → behind x r ≡ some (found, users')
      → Found name secret (x ∷ users) found users'
  Found-behind x users (f, l) {found} {users'} n
        (granted before y after at place has none_before marked) e =
      let here : found ≡ some (length (x ∷ before)) = ground (arith, place, e) in
      let made : users' ≡ x ∷ (before ++ record y { is_logged_in = true } ∷ after) =
        ground (arith, marked, e) in
      granted (x ∷ before) y after (ap (λ k. x ∷ k) at) here has (n, none_before) made
  Found-behind x users (f, l) {found} {users'} n (refused place nobody same) e =
      let nowhere : found ≡ none = ground (arith, place, e) in
      let kept : users' ≡ x ∷ users = ground (arith, same, e) in refused nowhere (n, nobody) kept

  log_in_later-Found :
      (x : User) (users : List User) {found : Option ℕ} {users' : List User}
      → ((r : Option ℕ × List User)
          → log_in name secret users ≡ some r
          → Found name secret users r.0 r.1)
      → ¬ HasBoth name secret x
      → log_in name secret users >>= behind x ≡ some (found, users')
      → Found name secret (x ∷ users) found users'
  log_in_later-Found x users ih n h =
      let (r, e, f) = >>=-eq-some (log_in name secret users) (behind x) h in
      Found-behind x users r n (ih r e) f

  log_in_node-Found :
      (x : User) (users : List User) {found : Option ℕ} {users' : List User} (used : Bool)
      (authorized : Option Bool)
      → x.in_use ≡ used
      → is_authorized x name secret ≡ authorized
      → ((r : Option ℕ × List User)
          → log_in name secret users ≡ some r
          → Found name secret users r.0 r.1)
      → log_in name secret (x ∷ users) ≡ some (found, users')
      → Found name secret (x ∷ users) found users'
  unfolding log_in
  log_in_node-Found x users false a u e ih h =
      log_in_later-Found x users ih (unused-HasBoth name secret x u) (ground arith)
  log_in_node-Found x users true none u e ih h = absurd (ground arith)
  log_in_node-Found x users true (some false) u e ih h =
      log_in_later-Found x users ih (refused-HasBoth name secret x e) (ground arith)
  log_in_node-Found x users true (some true) u e ih h =
      granted [] x users refl (ground arith) (authorized-HasBoth name secret x u e) tt
        (ground arith)

  -- A login that returns has found the first user in use who has this name and this password,
  -- returns that user's place, and changes nothing but the mark of that user; or it has found that
  -- no user in use has both, and changed nothing.
  pub log_in-Found :
      (users : List User) {found : Option ℕ} {users' : List User}
      → log_in name secret users ≡ some (found, users')
      → Found name secret users found users'
  log_in-Found [] {found} {users'} h =
      let nowhere : found ≡ none = unfold log_in in ground (arith, h) in
      let kept : users' ≡ [] = unfold log_in in ground (arith, h) in refused nowhere tt kept
  log_in-Found (x ∷ users) h =
      log_in_node-Found x users x.in_use (is_authorized x name secret) refl refl
        (λ r. log_in-Found users) h
