-- ===== src/Lulu/Messages/Fit.antt =====
-- Which replies are no longer than the room that they are built for.
use protos.Base.{
  ℕ, ◌≤◌, Bool, true, false, ◌||◌, ◌&&◌, List, [], ◌∷◌, ◌++◌, none, some, ◌≡◌, length,
}
use protos.Base.Fallible.{◌>>=◌}
use protos.Users.{User}
use protos.Lulu.Messages.{
  Server, Reply, fill_text, no_users_text, build_list_users_response, in_array,
}

-- A reply is no longer than the room.
abbrev pub Fits : ℕ → Reply → Type 0
Fits room none = Unit
Fits room (some (bs, s)) = length bs ≤ room

-- Whether a user in use is logged in.
unfoldable pub any_logged_in : List User → Bool
any_logged_in [] = false
any_logged_in (x ∷ users) = x.in_use && x.is_logged_in || any_logged_in users

-- With nobody logged in the reply is the same for every room; otherwise it is no longer than that.
abbrev pub FitsWithUsers : ℕ → Server → Type 0
FitsWithUsers room s =
    (any_logged_in s.users ≡ false → build_list_users_response room s ≡ some (no_users_text, s))
    × (any_logged_in s.users ≡ true → Fits room (build_list_users_response room s))

module _ (print_number : ℕ → List ℕ) (room : ℕ) (s : Server) where
  abbrev metrics_text : List ℕ → List ℕ → List ℕ → List ℕ
  metrics_text bytes current historical =
      b'+' ∷ (historical ++ b'|' ∷ (current ++ b'|' ∷ (bytes ++ b'\r' ∷ b'\n' ∷ [])))

  abbrev with_current : List ℕ → List ℕ → Reply
  with_current bytes current = in_array 11 (print_number s.historical_connections) >>= λ historical.
      some (fill_text room (metrics_text bytes current historical), s)

  abbrev with_bytes : List ℕ → Reply
  with_bytes bytes = in_array 11 (print_number s.current_connections) >>= with_current bytes
