-- ===== src/Users/Tests.antt =====
-- Users "a", "b" and "c", whose passwords are their names.
use protos.Base.{ℕ, true, false, List, [], ◌∷◌, ◌++◌, none, some, ◌≡◌, refl, arith}
use protos.Users.{
  User, blank, removed, load_single_user, log_in, delete_user, delete_from, is_authorized,
  same_string, get_all, get_all_logged_in,
}
use protos.Users.Strings.{Holds, ends, char}
use protos.Users.Login.{Found, log_in-load_single_user, log_in_appended-overruns, log_in-Found}
use mathlib.Core.Bool.{◌&&◌}
use protos.Users.Listing.{limited, names, get_all_lem}
use protos.Users.Deletion.{Outcome, delete_user-Outcome, delete_user_past_deleted}

-- The string of one character.
abbrev string : ℕ → List ℕ
string c = c ∷ 0 ∷ []

abbrev user : ℕ → User
user c = record {
  username = some (string c);
  password = some (string c);
  in_use = true;
  is_logged_in = false;
}

string-Holds : Holds (string 97) (97 ∷ [])
string-Holds = char (omega arith) (ends refl)

log_in-load_single_user_example :
    (u : User) × (load_single_user (string 97) (string 97) (user 98 ∷ blank ∷ user 99 ∷ [])
      ≡ some (user 98 ∷ u ∷ user 99 ∷ []))
    × (log_in (string 97) (string 97) (user 98 ∷ u ∷ user 99 ∷ [])
        ≡ some (some 1, user 98 ∷ record u { is_logged_in = true } ∷ user 99 ∷ []))
unfolding is_authorized same_string
log_in-load_single_user_example =
    log_in-load_single_user (string 97) (string 97) string-Holds string-Holds (user 98 ∷ []) blank
      (user 99 ∷ []) (refl, refl, tt) refl

log_in_appended-overruns_example :
    (u : User) × (load_single_user (string 97) (string 97) (user 98 ∷ [])
      ≡ some (user 98 ∷ ([] ++ u ∷ [])))
    × (log_in (string 97) (string 97) (user 98 ∷ ([] ++ u ∷ [])) ≡ none)
unfolding is_authorized same_string
log_in_appended-overruns_example =
    log_in_appended-overruns (string 97) (string 97) string-Holds string-Holds (user 98) []
      (refl, refl, tt)

log_in-Found_example :
    Found
      (string 97)
      (string 97)
      (user 98 ∷ user 97 ∷ [])
      (some 1)
      (user 98 ∷ record (user 97) { is_logged_in = true } ∷ [])
unfolding log_in is_authorized same_string
log_in-Found_example = log_in-Found (string 97) (string 97) (user 98 ∷ user 97 ∷ []) refl

delete_user-Outcome_example :
    Outcome (string 97) (user 98 ∷ user 97 ∷ []) removed (user 98 ∷ blank ∷ [])
unfolding delete_user delete_from same_string
delete_user-Outcome_example = delete_user-Outcome (string 97) (user 98 ∷ user 97 ∷ []) refl

delete_user_past_deleted_example :
    delete_user (string 99) (user 97 ∷ ([] ++ blank ∷ user 99 ∷ [])) ≡ none
unfolding same_string
delete_user_past_deleted_example =
    delete_user_past_deleted (string 99) (user 97) [] (user 99 ∷ []) ((string 97, refl, refl), tt)

get_all_lem_example :
    (get_all_logged_in 2 (user 98 ∷ user 97 ∷ [])
      ≡ limited 2 0 (names (λ x. x.in_use && x.is_logged_in) (user 98 ∷ user 97 ∷ [])))
    × (get_all 2 (user 98 ∷ user 97 ∷ [])
        ≡ limited 2 0 (names (λ x. x.in_use) (user 98 ∷ user 97 ∷ [])))
get_all_lem_example = get_all_lem 2 (user 98 ∷ user 97 ∷ []) (omega arith)
