-- ===== src/Lulu/Login.antt =====
-- socks5d/lib/lulu/fsm_handlers/lulu_hello.c: the login of the management protocol, with
-- `LogInLuluUser` of socks5d/lib/lulu/lulu_users.c.
pub mod Admission
pub mod Honest
pub mod Reads
pub mod Turns
pub mod Safety
mod Tests
use protos.Base.{
  ℕ, zero, suc, ◌+◌, ◌%◌, Bool, true, false, not, ◌&&◌, ◌||◌, List, [], ◌∷◌, Option, none, some,
  ◌==◌, leb, length, if◌then◌else◌,
}
use protos.Base.Fallible.{◌>>=◌}
use protos.Base.Int.{pos}
use protos.Buffer
use protos.Lulu.Goodbye
use protos.Lulu.Hello
use protos.Lulu.Connection.{
  LuluState, LuluConnection, Turn, run_command, run_unknown, reply, set_interest,
}
use protos.Lulu.Messages.{
  Server, build_hello_response, build_goodbye_response, build_not_recognised_response,
}
use protos.Lulu.Transaction.{Loop, returned, left_range, exhausted}
use protos.Socks5.{Interest, Received, bytes, recv_failed, Sent, wrote, send_failed, receive}
use protos.Users.{User, is_authorized}

-- An index among the users behind one, as an index among all.
abbrev pub one_later : Option ℕ → Option ℕ
one_later none = none
one_later (some i) = some (suc i)

-- `LogInLuluUser`: the index of the user, who is not marked as logged in.
unfoldable pub log_in : List ℕ → List ℕ → List User → Option (Option ℕ)
unfolding is_authorized
log_in name secret [] = some none
log_in name secret (x ∷ users) =
    let later = log_in name secret users >>= λ r. some (one_later r) in
    if not x.in_use
    then later
    else (is_authorized x name secret >>= λ authorized. if authorized then some (some 0) else later)

-- `PARSER_COUNT`
abbrev pub parser_count : ℕ
parser_count = 2

-- `LuluHelloReadInit`. The buffer pointers that it also sets always point to the connection's own.
unfoldable pub read_init : LuluConnection → LuluConnection
read_init c = record c {
  parser_index = 0;
  client_hello_succeeded = false;
  read_buffer = Buffer.reset c.read_buffer;
  write_buffer = Buffer.reset c.write_buffer;
  hello = Hello.reset c.hello;
  hello_goodbye = Goodbye.reset c.hello_goodbye;
}

-- `LuluHelloReadClose`
unfoldable pub read_close : LuluConnection → LuluConnection
read_close c = record c {
  hello = Hello.reset c.hello;
  hello_goodbye = Goodbye.reset c.hello_goodbye;
}

-- `LuluHelloWriteClose`
unfoldable pub write_close : LuluConnection → LuluConnection
write_close c = record c {
  parser_index = 0;
  write_buffer = Buffer.reset c.write_buffer;
  hello = Hello.reset c.hello;
  hello_goodbye = Goodbye.reset c.hello_goodbye;
}

abbrev pub is_found : Option ℕ → Bool
is_found none = false
is_found (some i) = true

-- The login with the name and the password that the parser has read, against the list of users.
unfoldable pub log_in_parsed : List User → LuluConnection → Option LuluConnection
unfolding log_in
log_in_parsed users c = log_in c.hello.text.u_name c.hello.text.passwd users >>= λ found.
    some (record c { user = found; client_hello_succeeded = is_found found })

-- The case `HELLO_PARSER` of `RunParser`.
unfoldable pub run_hello : List User → LuluConnection → Server → List ℕ → Bool → Turn
unfolding log_in_parsed reply set_interest
run_hello users c s bs ok = Hello.consume c.hello bs >>= λ r.
    let read = record c { hello = r.1 } in
    if not (Hello.has_finished r.1.state)
    then some (some LuluState.hello_read, read, s)
    else if Hello.has_failed r.1.state
    then some (none, record read { parser_index = (c.parser_index + 1) % 256 }, s)
    else (let fresh = record read { read_buffer = Buffer.reset c.read_buffer } in
        if ok
        then (log_in_parsed users (set_interest Interest.write fresh ok) >>= λ l.
            reply LuluState.hello_write l
              (λ room. some (build_hello_response room l.client_hello_succeeded, s)))
        else some (some LuluState.error, fresh, s))

-- The case `GOODBYE_PARSER`.
unfoldable pub run_goodbye : LuluConnection → Server → List ℕ → Bool → Turn
unfolding run_command
run_goodbye c s bs ok = Goodbye.consume c.hello_goodbye bs >>= λ r.
    run_command LuluState.hello_read LuluState.hello_write (record c { hello_goodbye = r.1 }) s
      (Goodbye.has_finished r.1.state) (Goodbye.has_failed r.1.state) ok
      (λ room. some (build_goodbye_response room, s))

-- `RunParser`, for the bytes `bs` that were read at `from`.
unfoldable pub run_parser : List User → LuluConnection → Server → List ℕ → ℕ → Bool → Turn
unfolding run_hello run_goodbye run_unknown
run_parser users c s bs from ok =
    if c.parser_index == 0
    then run_hello users c s bs ok
    else if c.parser_index == 1
    then run_goodbye c s bs ok
    else run_unknown LuluState.hello_read LuluState.hello_write c s from (length bs) ok
        (λ room. some (build_not_recognised_response room, s))

-- The loop of `LuluHelloReadRun`, for `fuel` turns at most.
unfoldable pub run_parsers :
    List User
    → ℕ
    → LuluConnection
    → Server
    → List ℕ
    → ℕ
    → Bool
    → Option (Loop × LuluConnection × Server)
unfolding run_parser
run_parsers users zero c s bs from ok = some (exhausted, c, s)
run_parsers users (suc fuel) c s bs from ok =
    if leb c.parser_index parser_count
    then (run_parser users c s bs from ok >>= λ r. elim r.0 [
      | none ↦ run_parsers users fuel r.1 r.2 bs from ok
      | some state ↦ some (returned state, r.1, r.2)
    ])
    else some (left_range, c, s)

-- What `LuluHelloReadRun` returns behind its loop: the `NO_RETURN` of a loop that has left its
-- range is no state. 4 turns are enough.
abbrev pub loop_state : Loop → Option LuluState
loop_state (returned state) = some state
loop_state left_range = none
loop_state exhausted = none

-- `LuluHelloReadRun`, given what `recv` and the selector answer.
unfoldable pub read_run : List User → LuluConnection → Server → Received → Bool → Turn
unfolding run_parsers
read_run users c s recv_failed ok =
    Buffer.write_ptr c.read_buffer >>= λ room. some (some LuluState.error, c, s)
read_run users c s (bytes []) ok =
    Buffer.write_ptr c.read_buffer >>= λ room. some (some LuluState.error, c, s)
read_run users c s (bytes (x ∷ xs)) ok = receive c.read_buffer (x ∷ xs) >>= λ b.
    run_parsers users 4 (record c { read_buffer = b }) s (x ∷ xs) c.read_buffer.write_head ok
    >>= λ r. some (loop_state r.0, r.1, r.2)

-- On to a state that reads.
unfoldable pub go_on : LuluConnection → Bool → LuluState → LuluState × LuluConnection
unfolding set_interest
go_on c ok state = if ok then (state, set_interest Interest.read c ok) else (LuluState.error, c)

-- `LuluHelloWriteRun`, given what `send` and the selector answer.
unfoldable pub write_run : LuluConnection → Sent → Bool → Option (LuluState × LuluConnection)
unfolding go_on
write_run c sent ok =
    if not (Buffer.can_read c.write_buffer)
    then some (
        if not c.client_hello_succeeded && c.parser_index == 0 || c.parser_index == parser_count
        then go_on c ok LuluState.hello_read
        else if c.parser_index == 1
        then (LuluState.done, c)
        else go_on c ok LuluState.transaction_read)
    else (Buffer.read_ptr c.write_buffer >>= λ readable. elim sent [
      | send_failed ↦ some (LuluState.error, c)
      | wrote n ↦ Buffer.read_adv c.write_buffer (pos n) >>= λ w.
          some (LuluState.hello_write, record c { write_buffer = w })
    ])
