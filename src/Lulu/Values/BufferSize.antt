-- ===== src/Lulu/Values/BufferSize.antt =====
-- socks5d/lib/parsers/lulu/client_set_buffersize_parser.c: the command SET|BUFFERSIZE|n.
use protos.Base.{ℕ, Bool, List, ◌∷◌, [], Option}
use protos.Lulu.Values
use protos.Lulu.Values.{State, ValueParser, start}

abbrev pub buffer_size_letters : List ℕ
buffer_size_letters = b'B' ∷ b'U' ∷ b'F' ∷ b'F' ∷ b'E' ∷ b'R' ∷ b'S' ∷ b'I' ∷ b'Z' ∷ b'E' ∷ []

-- `ClientSetBufferSizeParserReset`: every field is set.
unfoldable pub reset : ValueParser → ValueParser
unfolding start
reset p = start (b'B' ∷ b'U' ∷ b'F' ∷ b'F' ∷ b'E' ∷ b'R' ∷ b'S' ∷ b'I' ∷ b'Z' ∷ b'E' ∷ 0 ∷ [])

-- The functions that are the same in both files.
abbrev pub traverse : ValueParser → ℕ → State → Option (List ℕ) → Option ValueParser
traverse = Values.traverse

abbrev pub feed : ValueParser → ℕ → Option ValueParser
feed = Values.feed

abbrev pub has_finished : State → Bool
has_finished = Values.has_finished

abbrev pub has_failed : State → Bool
has_failed = Values.has_failed

abbrev pub consume : ValueParser → List ℕ → Option (ℕ × ValueParser)
consume = Values.consume
