-- ===== src/Lulu/Messages.antt =====
-- socks5d/lib/lulu/lulu_messages.c: the replies, for the number of bytes that may be written. A
-- builder gives the bytes that it writes from `buffer[0]` on, which are as many as it returns, and
-- what it makes of the server's settings. `none` is a read or a write outside an array.
-- `print_number` stands for the C library's `%lu` and `%ld`.
pub mod Fit
use protos.Base.{
  ℕ, ◌+◌, ◌-◌, ◌*◌, Bool, true, false, ◌||◌, List, [], ◌∷◌, ◌++◌, Option, none, some, ◌==◌, ltb,
  leb, length, take, if◌then◌else◌,
}
use protos.Base.Fallible.{◌>>=◌}
use protos.Base.Int.{ℤ, pos, negsuc}
use protos.Users.{
  User, Deleted, removed, missing, logged_in, string_length, same_string, load_single_user,
  delete_user, get_all, get_all_logged_in,
}

-- What the management protocol reads and writes of the SOCKS5 server: `socksMaxTimeout`,
-- `targetBufferSize`, the metrics and the users. The timeout is a `time_t`, and never negative.
pub record Server : Type 0 where
  pub timeout : ℕ
  pub target_buffer_size : ℕ
  pub historical_connections : ℕ
  pub current_connections : ℕ
  pub bytes_transferred : ℕ
  pub users : List User

-- What a builder gives.
abbrev pub Reply : Type 0
Reply = Option (List ℕ × Server)

abbrev pub ok_text : List ℕ
ok_text = b'+' ∷ b'O' ∷ b'K' ∷ b'\r' ∷ b'\n' ∷ []

abbrev pub authentication_error_text : List ℕ
authentication_error_text =
    b'-' ∷ b'A' ∷ b'U' ∷ b'T' ∷ b'H' ∷ b'E' ∷ b'N' ∷ b'T' ∷ b'I' ∷ b'C' ∷ b'A' ∷ b'T' ∷ b'I' ∷ b'O'
    ∷ b'N' ∷ b' ' ∷ b'E' ∷ b'R' ∷ b'R' ∷ b'O' ∷ b'R' ∷ b'\r' ∷ b'\n' ∷ []

abbrev pub goodbye_text : List ℕ
goodbye_text = b'+' ∷ b'G' ∷ b'O' ∷ b'O' ∷ b'D' ∷ b'B' ∷ b'Y' ∷ b'E' ∷ b'\r' ∷ b'\n' ∷ []

abbrev pub not_recognised_text : List ℕ
not_recognised_text =
    b'-' ∷ b'N' ∷ b'O' ∷ b'T' ∷ b' ' ∷ b'R' ∷ b'E' ∷ b'C' ∷ b'O' ∷ b'G' ∷ b'N' ∷ b'I' ∷ b'S' ∷ b'E'
    ∷ b'D' ∷ b'\r' ∷ b'\n' ∷ []

abbrev pub invalid_buffer_size_text : List ℕ
invalid_buffer_size_text =
    b'-' ∷ b'I' ∷ b'N' ∷ b'V' ∷ b'A' ∷ b'L' ∷ b'I' ∷ b'D' ∷ b' ' ∷ b'B' ∷ b'U' ∷ b'F' ∷ b'F' ∷ b'E'
    ∷ b'R' ∷ b' ' ∷ b'S' ∷ b'I' ∷ b'Z' ∷ b'E' ∷ b'\r' ∷ b'\n' ∷ []

abbrev pub user_exists_text : List ℕ
user_exists_text =
    b'-' ∷ b'U' ∷ b'S' ∷ b'E' ∷ b'R' ∷ b' ' ∷ b'E' ∷ b'X' ∷ b'I' ∷ b'S' ∷ b'T' ∷ b'S' ∷ b'\r'
    ∷ b'\n' ∷ []

abbrev pub user_doesnt_exist_text : List ℕ
user_doesnt_exist_text =
    b'-' ∷ b'U' ∷ b'S' ∷ b'E' ∷ b'R' ∷ b' ' ∷ b'D' ∷ b'O' ∷ b'E' ∷ b'S' ∷ b'N' ∷ b'T' ∷ b' ' ∷ b'E'
    ∷ b'X' ∷ b'I' ∷ b'S' ∷ b'T' ∷ b'\r' ∷ b'\n' ∷ []

abbrev pub user_logged_in_text : List ℕ
user_logged_in_text =
    b'-' ∷ b'U' ∷ b'S' ∷ b'E' ∷ b'R' ∷ b' ' ∷ b'L' ∷ b'O' ∷ b'G' ∷ b'G' ∷ b'E' ∷ b'D' ∷ b' ' ∷ b'I'
    ∷ b'N' ∷ b'\r' ∷ b'\n' ∷ []

abbrev pub no_users_text : List ℕ
no_users_text = b'+' ∷ b'N' ∷ b'O' ∷ b' ' ∷ b'U' ∷ b'S' ∷ b'E' ∷ b'R' ∷ b'S' ∷ b'\r' ∷ b'\n' ∷ []

-- The length check and `fillBuffer` of a whole text.
unfoldable pub fill_text : ℕ → List ℕ → List ℕ
fill_text room text = if ltb room (length text) then [] else text

-- `BuildClientHelloResponse`
unfoldable pub build_hello_response : ℕ → Bool → List ℕ
unfolding fill_text
build_hello_response room succeeded =
    if succeeded then fill_text room ok_text else fill_text room authentication_error_text

-- `BuildClientGoodbyeResponse`
unfoldable pub build_goodbye_response : ℕ → List ℕ
unfolding fill_text
build_goodbye_response room = fill_text room goodbye_text

-- `BuildClientNotRecognisedResponse`
unfoldable pub build_not_recognised_response : ℕ → List ℕ
unfolding fill_text
build_not_recognised_response room = fill_text room not_recognised_text

-- `BuildClientSetTimeoutResponse`: the timeout is set first.
unfoldable pub build_set_timeout_response : ℕ → ℕ → Server → Reply
unfolding fill_text
build_set_timeout_response timeout room s =
    some (fill_text room ok_text, record s { timeout = timeout })

-- `SetSocks5BufferSize`
unfoldable pub set_buffer_size : ℕ → Server → Server
set_buffer_size size s = if leb size 0 then s else record s { target_buffer_size = size }

-- `BuildClientSetBufferSizeResponse`
unfoldable pub build_set_buffer_size_response : ℕ → ℕ → Server → Reply
unfolding fill_text set_buffer_size
build_set_buffer_size_response size room s =
    if leb size 0 || leb 10000000000 size
    then some (fill_text room invalid_buffer_size_text, s)
    else some (fill_text room ok_text, set_buffer_size size s)

-- A string, and the zero behind it, written to an array of `size` characters.
unfoldable pub in_array : ℕ → List ℕ → Option (List ℕ)
in_array size text = if ltb (length text) size then some text else none

-- `BuildClientDelUserResponse`
unfoldable pub build_del_user_response : List ℕ → ℕ → Server → Reply
unfolding fill_text delete_user
build_del_user_response name room s = delete_user name s.users >>= λ r. some (
  fill_text room (elim r.0 [
    | removed ↦ ok_text
    | logged_in ↦ user_logged_in_text
    | missing ↦ user_doesnt_exist_text
  ]),
  record s { users = r.1 },
)

-- The array that `calloc(200, sizeof(byte))` gives holds 25 pointers; a name more is written
-- behind it. -1 counts as 200 names.
abbrev pub pointers : ℕ
pointers = 25

unfoldable pub gathered : List (Option (List ℕ)) × ℤ → Option (List (Option (List ℕ)))
gathered r = if ltb pointers (length r.0) then none else some r.0

-- Whether the name stands among the names, compared one by one up to the first that is the same.
unfoldable pub is_among : List ℕ → List (Option (List ℕ)) → Option Bool
unfolding same_string
is_among name [] = some false
is_among name (x ∷ xs) =
    let later = is_among name xs in
    x >>= λ n. same_string n name >>= λ same. if same then some true else later

-- `BuildClientSetUserResponse`
unfoldable pub build_set_user_response : List ℕ → List ℕ → ℕ → Server → Reply
unfolding fill_text gathered is_among load_single_user get_all
build_set_user_response name secret room s = gathered (get_all 200 s.users) >>= λ names.
    is_among name names >>= λ exists.
    if exists
    then some (fill_text room user_exists_text, s)
    else (load_single_user name secret s.users >>= λ l.
        some (fill_text room ok_text, record s { users = l }))

-- What `strcat` appends of a name.
unfoldable pub string_of : Option (List ℕ) → Option (List ℕ)
unfolding string_length
string_of x = x >>= λ b. string_length b >>= λ n. some (take n b)

-- The names between pipes, with the end of the line behind the last.
unfoldable pub join_names : List (Option (List ℕ)) → Option (List ℕ)
unfolding string_of
join_names [] = some []
join_names (x ∷ []) = string_of x >>= λ n. some (n ++ b'\r' ∷ b'\n' ∷ [])
join_names (x ∷ y ∷ xs) =
    let rest = join_names (y ∷ xs) in string_of x >>= λ n. rest >>= λ r. some (n ++ b'|' ∷ r)

-- `BuildClientListUsersResponse`. That there is no user is written without a length check, whatever
-- the room is.
unfoldable pub build_list_users_response : ℕ → Server → Reply
unfolding fill_text gathered join_names in_array get_all_logged_in
build_list_users_response room s = gathered (get_all_logged_in 200 s.users) >>= λ names.
    if length names == 0
    then some (no_users_text, s)
    else (join_names names >>= λ joined.
        in_array (1 + length names * 255 + length names + 1) (b'+' ∷ joined) >>= λ text.
        some (fill_text room text, s))

module _ (print_number : ℕ → List ℕ) where
  -- `BuildClientGetTimeoutResponse`
  unfoldable pub build_get_timeout_response : ℕ → Server → Reply
  unfolding fill_text in_array
  build_get_timeout_response room s =
      in_array 15 (b'+' ∷ (print_number s.timeout ++ b'\r' ∷ b'\n' ∷ [])) >>= λ num.
      some (fill_text room num, s)

  -- `BuildClientGetBufferSizeResponse`
  unfoldable pub build_get_buffer_size_response : ℕ → Server → Reply
  unfolding fill_text in_array
  build_get_buffer_size_response room s = in_array 11 (print_number s.target_buffer_size) >>= λ num.
      some (fill_text room (b'+' ∷ (num ++ b'\r' ∷ b'\n' ∷ [])), s)

  -- `BuildClientGetMetricsResponse`: the three numbers are first printed to a small array.
  unfoldable pub build_get_metrics_response : ℕ → Server → Reply
  unfolding fill_text in_array
  build_get_metrics_response room s = in_array 11 (print_number s.bytes_transferred) >>= λ bytes.
      in_array 11 (print_number s.current_connections) >>= λ current.
      in_array 11 (print_number s.historical_connections) >>= λ historical. some (
        fill_text room
            (b'+' ∷ (historical ++ b'|' ∷ (current ++ b'|' ∷ (bytes ++ b'\r' ∷ b'\n' ∷ [])))),
        s,
      )
