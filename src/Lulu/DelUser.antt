-- ===== src/Lulu/DelUser.antt =====
-- socks5d/lib/parsers/lulu/client_del_user_parser.c: the command DEL|USER|name. A null parser or
-- array is not modelled: each function returns at once on one.
pub mod Accepts
use protos.Base.{ℕ, ◌+◌, Bool, true, false, List, [], ◌∷◌, Option, none, some, ◌==◌, if◌then◌else◌}
use protos.Base.Fallible.{◌>>=◌}
use protos.Lulu.Words.{Move}
use protos.Lulu.Text.{Text, Pointer, max_long, zeros, put, put_next, leave, go_on, next_move}
use protos.Stream.Faulty
use protos.Stream.Faulty.{FaultyMachine}

-- `ClientDelUserParserState`
pub data State : Type 0 where
  del del_user del_user_name del_crlf finished invalid : State

-- `ClientDelUserParser`: `Del` and `User` are the words of the text.
pub record DelUserParser : Type 0 where
  pub state : State
  pub text : Text

-- `ClientDelUserParserReset`: every field is set.
unfoldable pub reset : DelUserParser → DelUserParser
reset p = record {
  state = State.del;
  text = record {
    first = b'D' ∷ b'E' ∷ b'L' ∷ 0 ∷ [];
    second = b'U' ∷ b'S' ∷ b'E' ∷ b'R' ∷ 0 ∷ [];
    u_name = zeros;
    passwd = [];
    index = 0;
    word = Pointer.first_word;
  };
}

abbrev pub refuse : DelUserParser → DelUserParser
refuse p = record p { state = State.invalid }

-- What `traverseWordDel` makes of a move. The index is a `uint64_t`.
unfoldable pub moved : Move → DelUserParser → State → Pointer → DelUserParser
moved Move.left p next next_word = record p { state = next; text = leave next_word p.text }
moved Move.going p next next_word = record p { text = go_on 64 p.text }
moved Move.wrong p next next_word = refuse p

-- `traverseWordDel`
unfoldable pub traverse : DelUserParser → ℕ → State → Pointer → Option DelUserParser
unfolding moved next_move
traverse p c next next_word = next_move p.text c >>= λ move. some (moved move p next next_word)

-- A byte of the name, unless the index has reached the limit of the code.
unfoldable pub add_char : DelUserParser → ℕ → Option DelUserParser
unfolding put_next
add_char p c =
    if p.text.index == max_long + 1
    then some (refuse p)
    else (put_next 64 c p.text >>= λ t. some (record p { text = t }))

-- The line feed behind a carriage return: a zero is written behind the name.
unfoldable pub end_line : DelUserParser → Option DelUserParser
unfolding put
end_line p =
    if p.text.index == 0
    then some (refuse p)
    else (put 0 p.text >>= λ t. some (record p { state = State.finished; text = t }))

-- Another byte behind a carriage return: both belong to the name.
unfoldable pub add_both : DelUserParser → ℕ → Option DelUserParser
unfolding put_next
add_both p c =
    if p.text.index == max_long
    then some (refuse p)
    else (put_next 64 b'\r' p.text >>= λ t.
        put_next 64 c t >>= λ u. some (record p { state = State.del_user_name; text = u }))

-- The `switch` of `ClientDelUserParserFeed`, on the state.
unfoldable pub feed_in : State → DelUserParser → ℕ → Option DelUserParser
unfolding traverse add_char end_line add_both
feed_in State.del p c = traverse p c State.del_user Pointer.second_word
feed_in State.del_user p c = traverse p c State.del_user_name Pointer.u_name
feed_in State.del_user_name p c =
    if c == b'|'
    then some (refuse p)
    else if c == b'\r'
    then some (record p { state = State.del_crlf })
    else add_char p c
feed_in State.del_crlf p c =
    if c == b'\n'
    then end_line p
    else if c == b'|'
    then some (refuse p)
    else if c == b'\r'
    then add_char p b'\r'
    else add_both p c
feed_in State.finished p c = some p
feed_in State.invalid p c = some p

unfoldable pub feed : DelUserParser → ℕ → Option DelUserParser
unfolding feed_in
feed p c = feed_in p.state p c

-- `ClientDelUserParserHasFinished`
unfoldable pub has_finished : State → Bool
has_finished State.del = false
has_finished State.del_user = false
has_finished State.del_user_name = false
has_finished State.del_crlf = false
has_finished State.invalid = true
has_finished State.finished = true

unfoldable pub has_failed : State → Bool
has_failed State.invalid = true
has_failed _ = false

unfoldable pub machine : FaultyMachine DelUserParser
unfolding feed has_finished has_failed
machine = record {
  feed = feed;
  finished = λ p. has_finished p.state;
  failed = λ p. has_failed p.state;
}

-- `ClientDelUserParserConsume`
unfoldable pub consume : DelUserParser → List ℕ → Option (ℕ × DelUserParser)
unfolding machine Faulty.consume
consume = Faulty.consume machine
