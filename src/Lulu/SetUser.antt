-- ===== src/Lulu/SetUser.antt =====
-- socks5d/lib/parsers/lulu/client_set_user_parser.c: the command SET|USER|name|password. A null parser
-- or array is not modelled: each function returns at once on one.
pub mod Accepts
use protos.Base.{ℕ, ◌+◌, Bool, true, false, List, [], ◌∷◌, Option, none, some, ◌==◌, if◌then◌else◌}
use protos.Base.Fallible.{◌>>=◌}
use protos.Lulu.Words.{Move}
use protos.Lulu.Text.{Text, Pointer, max_long, zeros, put, put_next, leave, go_on, next_move}
use protos.Stream.Faulty
use protos.Stream.Faulty.{FaultyMachine}

-- `ClientSetUserParserState`
pub data State : Type 0 where
  user_set user user_name user_password user_crlf finished invalid : State

-- `ClientSetUserParser`: `Set` and `User` are the words of the text.
pub record SetUserParser : Type 0 where
  pub state : State
  pub prev_state : State
  pub text : Text

-- `ClientSetUserParserReset`: every field is set.
unfoldable pub reset : SetUserParser → SetUserParser
reset p = record {
  state = State.user_set;
  prev_state = State.user_set;
  text = record {
    first = b'S' ∷ b'E' ∷ b'T' ∷ 0 ∷ [];
    second = b'U' ∷ b'S' ∷ b'E' ∷ b'R' ∷ 0 ∷ [];
    u_name = zeros;
    passwd = zeros;
    index = 0;
    word = Pointer.first_word;
  };
}

abbrev pub refuse : SetUserParser → SetUserParser
refuse p = record p { state = State.invalid }

-- What `traverseWordSetUser` makes of a move. The index is a `uint16_t`.
unfoldable pub moved : Move → SetUserParser → State → Pointer → SetUserParser
moved Move.left p next next_word = record p { state = next; text = leave next_word p.text }
moved Move.going p next next_word = record p { text = go_on 16 p.text }
moved Move.wrong p next next_word = refuse p

-- `traverseWordSetUser`
unfoldable pub traverse : SetUserParser → ℕ → State → Pointer → Option SetUserParser
unfolding moved next_move
traverse p c next next_word = next_move p.text c >>= λ move. some (moved move p next next_word)

-- A byte of a name or a password, unless the index has reached the limit of the code.
unfoldable pub add_char : SetUserParser → ℕ → Option SetUserParser
unfolding put_next
add_char p c =
    if p.text.index == max_long + 1
    then some (refuse p)
    else (put_next 16 c p.text >>= λ t. some (record p { text = t }))

abbrev pub is_password : State → Bool
is_password State.user_password = true
is_password _ = false

abbrev pub is_username : State → Bool
is_username State.user_name = true
is_username _ = false

-- The line feed behind a carriage return.
unfoldable pub end_line : SetUserParser → SetUserParser
end_line p =
    if is_password p.prev_state
    then (if p.text.index == 0 then refuse p else record p { state = State.finished })
    else refuse p

-- The pipe behind a carriage return: the return was the last byte of the name.
unfoldable pub end_name : SetUserParser → Option SetUserParser
unfolding put
end_name p =
    if is_username p.prev_state
    then (if p.text.index == max_long + 1
        then some (refuse p)
        else (put b'\r' p.text >>= λ t.
            some (record p { state = State.user_password; text = leave Pointer.passwd t })))
    else some (refuse p)

-- Another byte behind a carriage return: both belong to the name or the password.
unfoldable pub add_both : SetUserParser → ℕ → Option SetUserParser
unfolding put_next
add_both p c = put_next 16 b'\r' p.text >>= λ t.
    put_next 16 c t >>= λ u. some (record p { state = p.prev_state; text = u })

-- What follows a carriage return.
unfoldable pub after_return : SetUserParser → ℕ → Option SetUserParser
unfolding end_line end_name add_both put_next
after_return p c =
    if c == b'\n'
    then some (end_line p)
    else if p.text.index == max_long + 1
    then some (refuse p)
    else if c == b'\r'
    then (put_next 16 b'\r' p.text >>= λ t. some (record p { text = t }))
    else if c == b'|'
    then end_name p
    else add_both p c

-- The `switch` of `ClientSetUserParserFeed`, on the state.
unfoldable pub feed_in : State → SetUserParser → ℕ → Option SetUserParser
unfolding traverse add_char after_return
feed_in State.user_set p c = traverse p c State.user Pointer.second_word
feed_in State.user p c = traverse p c State.user_name Pointer.u_name
feed_in State.user_name p c =
    if c == b'|'
    then some (
        if p.text.index == 0
        then refuse p
        else record p { state = State.user_password; text = leave Pointer.passwd p.text })
    else if c == b'\r'
    then some (record p { prev_state = State.user_name; state = State.user_crlf })
    else add_char p c
feed_in State.user_password p c =
    if c == b'|'
    then some (refuse p)
    else if c == b'\r'
    then some (record p { prev_state = State.user_password; state = State.user_crlf })
    else add_char p c
feed_in State.user_crlf p c = after_return p c
feed_in State.finished p c = some p
feed_in State.invalid p c = some p

unfoldable pub feed : SetUserParser → ℕ → Option SetUserParser
unfolding feed_in
feed p c = feed_in p.state p c

-- `ClientSetUserParserHasFinished`
unfoldable pub has_finished : State → Bool
has_finished State.user_set = false
has_finished State.user = false
has_finished State.user_name = false
has_finished State.user_password = false
has_finished State.user_crlf = false
has_finished State.invalid = true
has_finished State.finished = true

unfoldable pub has_failed : State → Bool
has_failed State.invalid = true
has_failed _ = false

unfoldable pub machine : FaultyMachine SetUserParser
unfolding feed has_finished has_failed
machine = record {
  feed = feed;
  finished = λ p. has_finished p.state;
  failed = λ p. has_failed p.state;
}

-- `ClientSetUserParserConsume`
unfoldable pub consume : SetUserParser → List ℕ → Option (ℕ × SetUserParser)
unfolding machine Faulty.consume
consume = Faulty.consume machine
