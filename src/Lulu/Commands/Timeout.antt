-- ===== src/Lulu/Commands/Timeout.antt =====
-- socks5d/lib/parsers/lulu/client_get_timeout_parser.c: the command GET|TIMEOUT.
use protos.Base.{ℕ, Bool, List, ◌∷◌, [], Option}
use protos.Lulu.Commands
use protos.Lulu.Commands.{State, CommandParser, start}

abbrev pub get_word : List ℕ
get_word = b'G' ∷ b'E' ∷ b'T' ∷ []

abbrev pub timeout_word : List ℕ
timeout_word = b'T' ∷ b'I' ∷ b'M' ∷ b'E' ∷ b'O' ∷ b'U' ∷ b'T' ∷ []

-- `ClientGetTimeoutParserReset`: both arrays are written, each with a zero at its end, and the pointer is
-- set to the first.
unfoldable pub reset : CommandParser → CommandParser
unfolding start
reset p =
    start (b'G' ∷ b'E' ∷ b'T' ∷ 0 ∷ []) (b'T' ∷ b'I' ∷ b'M' ∷ b'E' ∷ b'O' ∷ b'U' ∷ b'T' ∷ 0 ∷ [])

-- The functions that are the same in each of the four files.
abbrev pub traverse : CommandParser → ℕ → State → Option (List ℕ) → Option CommandParser
traverse = Commands.traverse

abbrev pub feed : CommandParser → ℕ → Option CommandParser
feed = Commands.feed

abbrev pub has_finished : State → Bool
has_finished = Commands.has_finished

abbrev pub has_failed : State → Bool
has_failed = Commands.has_failed

abbrev pub consume : CommandParser → List ℕ → Option (ℕ × CommandParser)
consume = Commands.consume
