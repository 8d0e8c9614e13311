-- ===== src/Lulu/Goodbye.antt =====
-- socks5d/lib/parsers/lulu/client_goodbye_parser.c: the command GOODBYE. A null parser or array
-- is not modelled: each function returns at once on one.
pub mod Accepts
use protos.Base.{
  ℕ, suc, ◌+◌, ◌-◌, ◌%◌, Bool, true, false, List, [], ◌∷◌, ◌++◌, Option, none, some, ◌==◌,
  if◌then◌else◌, get_elem?,
}
use protos.Base.Fallible.{◌>>=◌}
use protos.Users.{string_length}
use protos.Stream.Faulty
use protos.Stream.Faulty.{FaultyMachine}

-- `ClientGoodbyeParserState`
pub data State : Type 0 where
  goodbye crlf finished invalid : State

-- `ClientGoodbyeParser`. The seven letters fill `goodbye`, with no room for a zero, so a string
-- that starts there goes on with the index, and with the bytes that `behind` holds.
pub record GoodbyeParser : Type 0 where
  pub state : State
  pub goodbye : List ℕ
  pub index : ℕ
  pub behind : List ℕ

-- The memory from the first letter on.
abbrev pub memory : GoodbyeParser → List ℕ
memory p = p.goodbye ++ p.index ∷ p.behind

-- `ClientGoodbyeParserReset`
unfoldable pub reset : GoodbyeParser → GoodbyeParser
reset p = record p {
  state = State.goodbye;
  index = 0;
  goodbye = b'G' ∷ b'O' ∷ b'O' ∷ b'D' ∷ b'B' ∷ b'Y' ∷ b'E' ∷ [];
}

-- Whether `index == strlen(Goodbye) - 1`. On a string of no bytes, the right side is the largest
-- number of its type, which no index is.
abbrev pub is_last : ℕ → ℕ → Bool
is_last index n = index + 1 == n

-- `traverseWordGoodbye`. The index is a `uint8_t`.
unfoldable pub traverse : GoodbyeParser → ℕ → State → Option GoodbyeParser
unfolding string_length
traverse p c next = string_length (memory p) >>= λ n.
    if is_last p.index n
    then some (record p { state = if c == b'\r' then next else State.invalid })
    else (get_elem? p.goodbye p.index >>= λ d. some (
        if c == d
        then record p { index = (p.index + 1) % 256 }
        else record p { state = State.invalid }))

-- The `switch` of `ClientGoodbyeParserFeed`, on the state.
unfoldable pub feed_in : State → GoodbyeParser → ℕ → Option GoodbyeParser
unfolding traverse
feed_in State.goodbye p c = traverse p c State.crlf
feed_in State.crlf p c =
    some (record p { state = if c == b'\n' then State.finished else State.invalid })
feed_in State.finished p c = some p
feed_in State.invalid p c = some p

unfoldable pub feed : GoodbyeParser → ℕ → Option GoodbyeParser
unfolding feed_in
feed p c = feed_in p.state p c

unfoldable pub has_finished : State → Bool
has_finished State.goodbye = false
has_finished State.crlf = false
has_finished State.finished = true
has_finished State.invalid = true

unfoldable pub has_failed : State → Bool
has_failed State.invalid = true
has_failed _ = false

unfoldable pub machine : FaultyMachine GoodbyeParser
unfolding feed has_finished has_failed
machine = record {
  feed = feed;
  finished = λ p. has_finished p.state;
  failed = λ p. has_failed p.state;
}

-- `ClientGoodbyeParserConsume`
unfoldable pub consume : GoodbyeParser → List ℕ → Option (ℕ × GoodbyeParser)
unfolding machine Faulty.consume
consume = Faulty.consume machine
