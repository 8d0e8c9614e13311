-- ===== src/Lulu/Commands/Metrics.antt =====
-- socks5d/lib/parsers/lulu/client_metrics_parser.c: the command GET|METRICS.
use protos.Base.{ℕ, Bool, List, ◌∷◌, [], Option}
use protos.Lulu.Commands
use protos.Lulu.Commands.{State, CommandParser, start}

abbrev pub get_word : List ℕ
get_word = b'G' ∷ b'E' ∷ b'T' ∷ []

abbrev pub metrics_word : List ℕ
metrics_word = b'M' ∷ b'E' ∷ b'T' ∷ b'R' ∷ b'I' ∷ b'C' ∷ b'S' ∷ []

-- `ClientMetricsParserReset`: both arrays are written, each with a zero at its end, and the pointer is
-- set to the first.
unfoldable pub reset : CommandParser → CommandParser
unfolding start
reset p =
    start (b'G' ∷ b'E' ∷ b'T' ∷ 0 ∷ []) (b'M' ∷ b'E' ∷ b'T' ∷ b'R' ∷ b'I' ∷ b'C' ∷ b'S' ∷ 0 ∷ [])

-- The functions that are the same in each of the four files.
abbrev pub traverse : CommandParser → ℕ → State → Option (List ℕ) → Option CommandParser
traverse = Commands.traverse

abbrev pub feed : CommandParser → ℕ → Option CommandParser
feed = Commands.feed

abbrev pub has_finished : State → Bool
has_finished = Commands.has_finished

abbrev pub has_failed : State → Bool
has_failed = Commands.has_failed

abbrev pub consume : CommandParser → List ℕ → Option (ℕ × CommandParser)
consume = Commands.consume
