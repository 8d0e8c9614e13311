-- ===== src/Lulu/Commands/BufferSize.antt =====
-- socks5d/lib/parsers/lulu/client_get_buffersize_parser.c: the command GET|BUFFERSIZE.
use protos.Base.{ℕ, Bool, List, ◌∷◌, [], Option}
use protos.Lulu.Commands
use protos.Lulu.Commands.{State, CommandParser, start}

abbrev pub get_word : List ℕ
get_word = b'G' ∷ b'E' ∷ b'T' ∷ []

abbrev pub buffer_size_word : List ℕ
buffer_size_word = b'B' ∷ b'U' ∷ b'F' ∷ b'F' ∷ b'E' ∷ b'R' ∷ b'S' ∷ b'I' ∷ b'Z' ∷ b'E' ∷ []

-- `ClientGetBufferSizeParserReset`: both arrays are written, each with a zero at its end, and the pointer is
-- set to the first.
unfoldable pub reset : CommandParser → CommandParser
unfolding start
reset p =
    start (b'G' ∷ b'E' ∷ b'T' ∷ 0 ∷ [])
      (b'B' ∷ b'U' ∷ b'F' ∷ b'F' ∷ b'E' ∷ b'R' ∷ b'S' ∷ b'I' ∷ b'Z' ∷ b'E' ∷ 0 ∷ [])

-- The functions that are the same in each of the four files.
abbrev pub traverse : CommandParser → ℕ → State → Option (List ℕ) → Option CommandParser
traverse = Commands.traverse

abbrev pub feed : CommandParser → ℕ → Option CommandParser
feed = Commands.feed

abbrev pub has_finished : State → Bool
has_finished = Commands.has_finished

abbrev pub has_failed : State → Bool
has_failed = Commands.has_failed

abbrev pub consume : CommandParser → List ℕ → Option (ℕ × CommandParser)
consume = Commands.consume
