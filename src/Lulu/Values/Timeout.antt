-- ===== src/Lulu/Values/Timeout.antt =====
-- socks5d/lib/parsers/lulu/client_timeout_parser.c: the command SET|TIMEOUT|n.
use protos.Base.{ℕ, Bool, List, ◌∷◌, [], Option}
use protos.Lulu.Values
use protos.Lulu.Values.{State, ValueParser, start}

abbrev pub timeout_letters : List ℕ
timeout_letters = b'T' ∷ b'I' ∷ b'M' ∷ b'E' ∷ b'O' ∷ b'U' ∷ b'T' ∷ []

-- `ClientTimeoutParserReset`: every field is set.
unfoldable pub reset : ValueParser → ValueParser
unfolding start
reset p = start (b'T' ∷ b'I' ∷ b'M' ∷ b'E' ∷ b'O' ∷ b'U' ∷ b'T' ∷ 0 ∷ [])

-- The functions that are the same in both files.
abbrev pub traverse : ValueParser → ℕ → State → Option (List ℕ) → Option ValueParser
traverse = Values.traverse

abbrev pub feed : ValueParser → ℕ → Option ValueParser
feed = Values.feed

abbrev pub has_finished : State → Bool
has_finished = Values.has_finished

abbrev pub has_failed : State → Bool
has_failed = Values.has_failed

abbrev pub consume : ValueParser → List ℕ → Option (ℕ × ValueParser)
consume = Values.consume
