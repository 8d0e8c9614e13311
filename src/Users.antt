-- ===== src/Users.antt =====
-- socks5d/lib/socks5/socks5_users.c: the list of users. A string is the block of memory that
-- holds it; `none` is what the C leaves undefined: a read behind a block, or through a null
-- pointer, and also a failed assertion. A null argument is not modelled: each function returns at
-- once on one, but for `DeleteSocks5User`, which goes on.
pub mod Strings
pub mod Credentials
pub mod Login
pub mod Deletion
pub mod Listing
mod Tests
use protos.Base.{
  ℕ, zero, suc, ◌+◌, Bool, true, false, not, ◌&&◌, List, [], ◌∷◌, ◌++◌, Option, none, some, ◌==◌,
  if◌then◌else◌, take,
}
use protos.Base.Fallible.{◌>>=◌}
use protos.Base.Int.{ℤ, pos, negsuc}

-- `strcmp` is zero: the blocks are read up to the first difference or the end of the strings.
unfoldable pub same_string : List ℕ → List ℕ → Option Bool
same_string [] ys = none
same_string (x ∷ xs) [] = none
same_string (x ∷ xs) (y ∷ ys) =
    let rest = same_string xs ys in
    if x == y then (if x == 0 then some true else rest) else some false

-- `strlen`
unfoldable pub string_length : List ℕ → Option ℕ
string_length [] = none
string_length (x ∷ xs) =
    let rest = string_length xs in if x == 0 then some 0 else (rest >>= λ n. some (n + 1))

-- `calloc(n + 1)` and `strncpy` of the `n` characters of the string.
unfoldable pub copy_terminated : List ℕ → Option (List ℕ)
unfolding string_length
copy_terminated s = string_length s >>= λ n. some (take n s ++ 0 ∷ [])

-- `calloc(n)` and `strncpy` of the `n` characters: the block ends with the last of them.
unfoldable pub copy_unterminated : List ℕ → Option (List ℕ)
unfolding string_length
copy_unterminated s = string_length s >>= λ n. some (take n s)

-- `Socks5User`. A null pointer is `none`; the list stands for the `Next` pointers.
pub record User : Type 0 where
  pub username : Option (List ℕ)
  pub password : Option (List ℕ)
  pub in_use : Bool
  pub is_logged_in : Bool

-- `calloc` of a user.
abbrev pub blank : User
blank = record { username = none; password = none; in_use = false; is_logged_in = false }

-- The slot `x` taken by a user.
unfoldable pub occupy : User → List ℕ → List ℕ → Option User
unfolding copy_terminated
occupy x name secret = copy_terminated name >>= λ n. copy_terminated secret >>= λ p.
    some (record x { username = some n; password = some p; in_use = true })

-- The node that `LoadSingleUser` adds behind the last.
unfoldable pub fresh_user : List ℕ → List ℕ → Option User
unfolding copy_unterminated
fresh_user name secret = copy_unterminated name >>= λ n. copy_unterminated secret >>= λ p.
    some (record blank { username = some n; password = some p; in_use = true })

-- `LoadSingleUser`: the first free slot, or a node at the end. An empty list fails the assertion.
unfoldable pub load_single_user : List ℕ → List ℕ → List User → Option (List User)
unfolding occupy fresh_user
load_single_user name secret [] = none
load_single_user name secret (x ∷ []) =
    if not x.in_use
    then (occupy x name secret >>= λ u. some (u ∷ []))
    else (fresh_user name secret >>= λ u. some (x ∷ u ∷ []))
load_single_user name secret (x ∷ y ∷ rest) =
    let later = load_single_user name secret (y ∷ rest) in
    if not x.in_use
    then (occupy x name secret >>= λ u. some (u ∷ y ∷ rest))
    else (later >>= λ l. some (x ∷ l))

-- `LoadSocks5Users` over the pairs of its two arrays; `[]` is the null list of the first call.
unfoldable pub load_all : List (List ℕ × List ℕ) → List User → Option (List User)
load_all [] users = some users
load_all ((name, secret) ∷ more) users = elim (load_single_user name secret users) [
  | none ↦ none
  | some l ↦ load_all more l
]

unfoldable pub load_users : List (List ℕ × List ℕ) → List User → Option (List User)
unfolding load_all
load_users pairs [] = load_all pairs (blank ∷ [])
load_users pairs (x ∷ users) = load_all pairs (x ∷ users)

-- The two comparisons of `LogInSocks5User`, both made.
unfoldable pub is_authorized : User → List ℕ → List ℕ → Option Bool
unfolding same_string
is_authorized x name secret = x.username >>= λ n.
    same_string n name >>= λ a. x.password >>= λ p. same_string p secret >>= λ b. some (a && b)

-- A result for the users behind `x`, as one for `x` and them.
abbrev pub behind : User → Option ℕ × List User → Option (Option ℕ × List User)
behind x r = some (elim r.0 [ none ↦ none | some i ↦ some (suc i) ], x ∷ r.1)

-- `LogInSocks5User`: the index of the user that it marks and returns, if there is one.
unfoldable pub log_in : List ℕ → List ℕ → List User → Option (Option ℕ × List User)
log_in name secret [] = some (none, [])
log_in name secret (x ∷ users) =
    let later = log_in name secret users >>= behind x in
    if not x.in_use
    then later
    else (is_authorized x name secret >>= λ authorized.
        if authorized then some (some 0, record x { is_logged_in = true } ∷ users) else later)

-- `LogOutSocks5User` of the user at an index.
unfoldable pub log_out : ℕ → List User → List User
log_out i [] = []
log_out zero (x ∷ users) = record x { is_logged_in = false } ∷ users
log_out (suc i) (x ∷ users) = x ∷ log_out i users

-- What `DeleteSocks5User` returns: OK, DOESNT_EXIST, LOGGED_IN.
pub data Deleted : Type 0 where
  removed missing logged_in : Deleted

-- Its loop.
unfoldable pub delete_from : List ℕ → List User → Option (Deleted × List User)
unfolding same_string
delete_from name [] = some (missing, [])
delete_from name (x ∷ users) =
    let later = delete_from name users >>= λ r. some (r.0, x ∷ r.1) in
    x.username >>= λ n. same_string n name >>= λ is_user.
    if is_user && not x.is_logged_in
    then some (
      removed,
      record { username = none; password = none; in_use = false; is_logged_in = false } ∷ users,
    )
    else if is_user
    then some (logged_in, x ∷ users)
    else later

-- `DeleteSocks5User`: it looks at the first node's name before the loop.
unfoldable pub delete_user : List ℕ → List User → Option (Deleted × List User)
unfolding delete_from
delete_user name [] = none
delete_user name (x ∷ users) = elim x.username [
  | none ↦ some (missing, x ∷ users)
  | some n ↦ delete_from name (x ∷ users)
]

-- `GetAllLoggedInSocks5Users` and `GetAllSocks5Users`, for the users that `keep` picks, with `i`
-- names written to the array of `size`: the names that are still written, and the result.
unfoldable pub list_from : (User → Bool) → ℕ → ℕ → List User → List (Option (List ℕ)) × ℤ
list_from keep size i [] = ([], pos i)
list_from keep size i (x ∷ users) =
    let skipped = list_from keep size i users in
    let rest = list_from keep size (i + 1) users in
    if keep x
    then (if i + 1 == size then (x.username ∷ [], negsuc 0) else (x.username ∷ rest.0, rest.1))
    else skipped

unfoldable pub get_all_logged_in : ℕ → List User → List (Option (List ℕ)) × ℤ
unfolding list_from
get_all_logged_in size users = list_from (λ x. x.in_use && x.is_logged_in) size 0 users

unfoldable pub get_all : ℕ → List User → List (Option (List ℕ)) × ℤ
unfolding list_from
get_all size users = list_from (λ x. x.in_use) size 0 users
