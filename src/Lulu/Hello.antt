-- ===== src/Lulu/Hello.antt =====
-- socks5d/lib/parsers/lulu/client_hello_parser.c: the command HELLO|name|password. A null parser
-- or array is not modelled: each function returns at once on one.
pub mod Accepts
use protos.Base.{ℕ, ◌+◌, Bool, true, false, List, [], ◌∷◌, Option, none, some, ◌==◌, if◌then◌else◌}
use protos.Base.Fallible.{◌>>=◌}
use protos.Lulu.Words.{Move}
use protos.Lulu.Text.{Text, Pointer, max_long, zeros, put, put_next, leave, go_on, next_move}
use protos.Stream.Faulty
use protos.Stream.Faulty.{FaultyMachine}

-- `ClientHelloParserState`
pub data State : Type 0 where
  hello hello_username hello_password hello_crlf finished invalid : State

-- `ClientHelloParser`: `Hello` is the first word of the text.
pub record HelloParser : Type 0 where
  pub state : State
  pub prev_state : State
  pub text : Text

-- `ClientHelloParserReset`, which leaves the previous state as it is.
unfoldable pub reset : HelloParser → HelloParser
reset p = record p {
  state = State.hello;
  text = record {
    first = b'H' ∷ b'E' ∷ b'L' ∷ b'L' ∷ b'O' ∷ 0 ∷ [];
    second = [];
    u_name = zeros;
    passwd = zeros;
    index = 0;
    word = Pointer.first_word;
  };
}

abbrev pub refuse : HelloParser → HelloParser
refuse p = record p { state = State.invalid }

-- What `traverseWord` makes of a move. The index is a `uint16_t`.
unfoldable pub moved : Move → HelloParser → State → Pointer → HelloParser
moved Move.left p next next_word = record p { state = next; text = leave next_word p.text }
moved Move.going p next next_word = record p { text = go_on 16 p.text }
moved Move.wrong p next next_word = refuse p

-- `traverseWord`
unfoldable pub traverse : HelloParser → ℕ → State → Pointer → Option HelloParser
unfolding moved next_move
traverse p c next next_word = next_move p.text c >>= λ move. some (moved move p next next_word)

-- A byte of a name or a password, unless the index has reached the limit of the code.
unfoldable pub add_char : HelloParser → ℕ → Option HelloParser
unfolding put_next
add_char p c =
    if p.text.index == max_long + 1
    then some (refuse p)
    else (put_next 16 c p.text >>= λ t. some (record p { text = t }))

abbrev pub is_password : State → Bool
is_password State.hello_password = true
is_password _ = false

abbrev pub is_username : State → Bool
is_username State.hello_username = true
is_username _ = false

-- The line feed behind a carriage return.
unfoldable pub end_line : HelloParser → HelloParser
end_line p =
    if is_password p.prev_state
    then (if p.text.index == 0 then refuse p else record p { state = State.finished })
    else refuse p

-- The pipe behind a carriage return: the return was the last byte of the name.
unfoldable pub end_name : HelloParser → Option HelloParser
unfolding put
end_name p =
    if is_username p.prev_state
    then (if p.text.index == max_long + 1
        then some (refuse p)
        else (put b'\r' p.text >>= λ t.
            some (record p { state = State.hello_password; text = leave Pointer.passwd t })))
    else some (refuse p)

-- Another byte behind a carriage return: both belong to the name or the password.
unfoldable pub add_both : HelloParser → ℕ → Option HelloParser
unfolding put_next
add_both p c =
    if p.text.index == max_long
    then some (refuse p)
    else (put_next 16 b'\r' p.text >>= λ t.
        put_next 16 c t >>= λ u. some (record p { state = p.prev_state; text = u }))

-- The `switch` of `ClientHelloParserFeed`, on the state.
unfoldable pub feed_in : State → HelloParser → ℕ → Option HelloParser
unfolding traverse add_char end_line end_name add_both
feed_in State.hello p c = traverse p c State.hello_username Pointer.u_name
feed_in State.hello_username p c =
    if c == b'|'
    then some (
        if p.text.index == 0
        then refuse p
        else record p { state = State.hello_password; text = leave Pointer.passwd p.text })
    else if c == b'\r'
    then some (record p { prev_state = State.hello_username; state = State.hello_crlf })
    else add_char p c
feed_in State.hello_password p c =
    if c == b'|'
    then some (refuse p)
    else if c == b'\r'
    then some (record p { prev_state = State.hello_password; state = State.hello_crlf })
    else add_char p c
feed_in State.hello_crlf p c =
    if c == b'\n'
    then some (end_line p)
    else if c == b'\r'
    then add_char p b'\r'
    else if c == b'|'
    then end_name p
    else add_both p c
feed_in State.finished p c = some p
feed_in State.invalid p c = some p

unfoldable pub feed : HelloParser → ℕ → Option HelloParser
unfolding feed_in
feed p c = feed_in p.state p c

-- `ClientHelloParserHasFinished`: the state after a carriage return falls under `default`.
unfoldable pub has_finished : State → Bool
has_finished State.hello = false
has_finished State.hello_password = false
has_finished State.hello_username = false
has_finished State.hello_crlf = false
has_finished State.invalid = true
has_finished State.finished = true

unfoldable pub has_failed : State → Bool
has_failed State.invalid = true
has_failed _ = false

unfoldable pub machine : FaultyMachine HelloParser
unfolding feed has_finished has_failed
machine = record {
  feed = feed;
  finished = λ p. has_finished p.state;
  failed = λ p. has_failed p.state;
}

-- `ClientHelloParserConsume`
unfoldable pub consume : HelloParser → List ℕ → Option (ℕ × HelloParser)
unfolding machine Faulty.consume
consume = Faulty.consume machine
