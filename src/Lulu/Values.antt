-- ===== src/Lulu/Values.antt =====
-- The parsers of SET|BUFFERSIZE|n and SET|TIMEOUT|n (socks5d/lib/parsers/lulu:
-- client_set_buffersize and client_timeout). The two files are the same but for the second word,
-- which the parser holds; each has its own module here. A null parser or array is not modelled:
-- each function returns at once on one.
pub mod Digits
pub mod Accepts
pub mod BufferSize
pub mod Timeout
use protos.Base.{
  ℕ, suc, ◌+◌, ◌-◌, ◌*◌, ◌%◌, ◌^◌, Bool, true, false, ◌&&◌, List, [], ◌∷◌, Option, none, some, ◌==◌,
  ltb, leb, if◌then◌else◌,
}
use protos.Base.Fallible.{◌>>=◌}
use protos.Lulu.Words.{Move, traverse_word}
use protos.Stream.Faulty
use protos.Stream.Faulty.{FaultyMachine}

-- `ClientSetBufferSizeParserState` and its like.
pub data State : Type 0 where
  set_word name_word digits crlf finished invalid : State

-- `ClientSetBufferSizeParser` and its like: `set_chars` and `name_chars` are the arrays of the two
-- words, `word` the pointer to one of them.
pub record ValueParser : Type 0 where
  pub state : State
  pub set_chars : List ℕ
  pub name_chars : List ℕ
  pub value : ℕ
  pub index : ℕ
  pub word : Option (List ℕ)

-- What `traverseWord...` makes of a move. The index is a `uint8_t`.
unfoldable pub moved : Move → ValueParser → State → Option (List ℕ) → ValueParser
moved Move.left p next next_word = record p { state = next; word = next_word; index = 0 }
moved Move.going p next next_word = record p { index = (p.index + 1) % 256 }
moved Move.wrong p next next_word = record p { state = State.invalid }

-- `traverseWord...`
unfoldable pub traverse : ValueParser → ℕ → State → Option (List ℕ) → Option ValueParser
unfolding moved traverse_word
traverse p c next next_word =
    traverse_word p.word p.index (c == b'|') c >>= λ move. some (moved move p next next_word)

-- `isdigit` of a byte.
abbrev pub is_digit : ℕ → Bool
is_digit c = leb b'0' c && leb c b'9'

-- The limit that both commands put on their number.
abbrev pub max_value : ℕ
max_value = 10000000000

-- A digit. The value is a `uint64_t`.
unfoldable pub add_digit : ValueParser → ℕ → ValueParser
add_digit p c =
    let v = ((p.value * 10) % 2 ^ 64 + (c - b'0')) % 2 ^ 64 in
    record p { value = v; state = if ltb max_value v then State.invalid else p.state }

-- The `switch` of the `Feed` function, on the state.
unfoldable pub feed_in : State → ValueParser → ℕ → Option ValueParser
unfolding traverse add_digit
feed_in State.set_word p c = traverse p c State.name_word (some p.name_chars)
feed_in State.name_word p c = traverse p c State.digits none
feed_in State.digits p c = some (
    if is_digit c
    then add_digit p c
    else record p { state = if c == b'\r' then State.crlf else State.invalid })
feed_in State.crlf p c =
    some (record p { state = if c == b'\n' then State.finished else State.invalid })
feed_in State.finished p c = some p
feed_in State.invalid p c = some p

unfoldable pub feed : ValueParser → ℕ → Option ValueParser
unfolding feed_in
feed p c = feed_in p.state p c

unfoldable pub has_finished : State → Bool
has_finished State.set_word = false
has_finished State.name_word = false
has_finished State.digits = false
has_finished State.crlf = false
has_finished State.finished = true
has_finished State.invalid = true

unfoldable pub has_failed : State → Bool
has_failed State.invalid = true
has_failed _ = false

unfoldable pub machine : FaultyMachine ValueParser
unfolding feed has_finished has_failed
machine = record {
  feed = feed;
  finished = λ p. has_finished p.state;
  failed = λ p. has_failed p.state;
}

-- The `Consume` function.
unfoldable pub consume : ValueParser → List ℕ → Option (ℕ × ValueParser)
unfolding machine Faulty.consume
consume = Faulty.consume machine

abbrev pub set_letters : List ℕ
set_letters = b'S' ∷ b'E' ∷ b'T' ∷ []

-- The state that `Reset` leaves, for the array of the second word.
unfoldable pub start : List ℕ → ValueParser
start name = record {
  state = State.set_word;
  set_chars = b'S' ∷ b'E' ∷ b'T' ∷ 0 ∷ [];
  name_chars = name;
  value = 0;
  index = 0;
  word = some (b'S' ∷ b'E' ∷ b'T' ∷ 0 ∷ []);
}
