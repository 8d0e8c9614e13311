-- ===== src/Lulu/Commands/ListUsers.antt =====
-- socks5d/lib/parsers/lulu/client_list_users_parser.c: the command LIST|USERS.
use protos.Base.{ℕ, Bool, List, ◌∷◌, [], Option}
use protos.Lulu.Commands
use protos.Lulu.Commands.{State, CommandParser, start}

abbrev pub list_word : List ℕ
list_word = b'L' ∷ b'I' ∷ b'S' ∷ b'T' ∷ []

abbrev pub users_word : List ℕ
users_word = b'U' ∷ b'S' ∷ b'E' ∷ b'R' ∷ b'S' ∷ []

-- `ClientListUsersParserReset`: both arrays are written, each with a zero at its end, and the pointer is
-- set to the first.
unfoldable pub reset : CommandParser → CommandParser
unfolding start
reset p = start (b'L' ∷ b'I' ∷ b'S' ∷ b'T' ∷ 0 ∷ []) (b'U' ∷ b'S' ∷ b'E' ∷ b'R' ∷ b'S' ∷ 0 ∷ [])

-- The functions that are the same in each of the four files.
abbrev pub traverse : CommandParser → ℕ → State → Option (List ℕ) → Option CommandParser
traverse = Commands.traverse

abbrev pub feed : CommandParser → ℕ → Option CommandParser
feed = Commands.feed

abbrev pub has_finished : State → Bool
has_finished = Commands.has_finished

abbrev pub has_failed : State → Bool
has_failed = Commands.has_failed

abbrev pub consume : CommandParser → List ℕ → Option (ℕ × CommandParser)
consume = Commands.consume
