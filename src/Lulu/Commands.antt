-- ===== src/Lulu/Commands.antt =====
-- The parsers of the commands that are two words (socks5d/lib/parsers/lulu: client_metrics,
-- client_get_buffersize, client_get_timeout and client_list_users). The four files are the same
-- but for the words, which the parser holds; each has its own module here. A null parser or array
-- is not modelled: each function returns at once on one.
pub mod Accepts
pub mod Metrics
pub mod BufferSize
pub mod Timeout
pub mod ListUsers
use protos.Base.{
  ℕ, suc, ◌+◌, ◌%◌, Bool, true, false, ◌&&◌, ◌||◌, List, [], ◌∷◌, Option, none, some, ◌==◌,
  if◌then◌else◌,
}
use protos.Base.Fallible.{◌>>=◌}
use protos.Lulu.Words.{Move, traverse_word}
use protos.Stream.Faulty
use protos.Stream.Faulty.{FaultyMachine}

-- `ClientMetricsParserState` and those like it.
pub data State : Type 0 where
  first_word second_word crlf finished invalid : State

abbrev pub is_first : State → Bool
is_first State.first_word = true
is_first _ = false

abbrev pub is_second : State → Bool
is_second State.second_word = true
is_second _ = false

-- `ClientMetricsParser` and those like it: `first` and `second` are the arrays of the two words,
-- `word` the pointer to one of them.
pub record CommandParser : Type 0 where
  pub state : State
  pub first : List ℕ
  pub second : List ℕ
  pub index : ℕ
  pub word : Option (List ℕ)

-- What `traverseWord...` makes of a move. The index is a `uint8_t`.
unfoldable pub moved : Move → CommandParser → State → Option (List ℕ) → CommandParser
moved Move.left p next next_word = record p { state = next; word = next_word; index = 0 }
moved Move.going p next next_word = record p { index = (p.index + 1) % 256 }
moved Move.wrong p next next_word = record p { state = State.invalid }

-- `traverseWord...`
unfoldable pub traverse : CommandParser → ℕ → State → Option (List ℕ) → Option CommandParser
unfolding moved traverse_word
traverse p c next next_word =
    traverse_word p.word p.index (c == b'|' && is_first p.state || c == b'\r' && is_second p.state)
      c
    >>= λ move. some (moved move p next next_word)

-- The `switch` of the `Feed` function, on the state.
unfoldable pub feed_in : State → CommandParser → ℕ → Option CommandParser
unfolding traverse
feed_in State.first_word p c = traverse p c State.second_word (some p.second)
feed_in State.second_word p c = traverse p c State.crlf none
feed_in State.crlf p c =
    some (record p { state = if c == b'\n' then State.finished else State.invalid })
feed_in State.finished p c = some p
feed_in State.invalid p c = some p

unfoldable pub feed : CommandParser → ℕ → Option CommandParser
unfolding feed_in
feed p c = feed_in p.state p c

unfoldable pub has_finished : State → Bool
has_finished State.first_word = false
has_finished State.second_word = false
has_finished State.crlf = false
has_finished State.finished = true
has_finished State.invalid = true

unfoldable pub has_failed : State → Bool
has_failed State.invalid = true
has_failed _ = false

unfoldable pub machine : FaultyMachine CommandParser
unfolding feed has_finished has_failed
machine = record {
  feed = feed;
  finished = λ p. has_finished p.state;
  failed = λ p. has_failed p.state;
}

-- The `Consume` function.
unfoldable pub consume : CommandParser → List ℕ → Option (ℕ × CommandParser)
unfolding machine Faulty.consume
consume = Faulty.consume machine

-- The state that `Reset` leaves, for the two words.
unfoldable pub start : List ℕ → List ℕ → CommandParser
start first second = record {
  state = State.first_word;
  first = first;
  second = second;
  index = 0;
  word = some first;
}
