-- ===== src/Socks5/Auth.antt =====
-- socks5d/lib/socks5/fsm_handlers/socks5_auth.c: the user name and password. `users` is the list of
-- the server's users, which `LogInSocks5User` changes.
pub mod Parsed
pub mod Safety
use protos.Base.{ℕ, Bool, true, false, not, List, [], ◌∷◌, Option, none, some, if◌then◌else◌}
use protos.Base.Fallible.{◌>>=◌}
use protos.Base.Int.{pos}
use protos.Buffer
use protos.Buffer.{ArrayBuffer}
use protos.Parsers.Auth.{consume, has_finished, has_failed}
use protos.Parsers.Auth as Parser
use protos.Users.{User, log_in}
use protos.Socks5.{
  ConnectionState, Interest, Received, bytes, recv_failed, Sent, wrote, send_failed, Connection,
  Step, receive, answer, set_client,
}
use protos.Socks5.Messages.{build_auth_response}

-- `AuthReadInit`. The buffer pointers that it also sets always point to the connection's own.
unfoldable pub read_init : Connection → Connection
read_init c = record c { auth_succeeded = false; auth = Parser.reset c.auth }

-- The state and the connection behind a read, and the users.
abbrev pub LogIn : Type 0
LogIn = Option ((ConnectionState × Connection) × List User)

-- `null != connection->User`
unfoldable pub is_found : Option ℕ → Bool
is_found none = false
is_found (some i) = true

-- `User` and `AuthSucceeded` set by what the login gives.
unfoldable pub known : Connection → Option ℕ → Connection
unfolding is_found
known c user = record c { user = user; auth_succeeded = is_found user }

-- What `AuthReadRun` returns, with the answer built or not.
unfoldable pub answered : Connection → Option ArrayBuffer → ConnectionState × Connection
answered c none = (ConnectionState.error, c)
answered c (some w) = (ConnectionState.auth_write, record c { write_buffer = w })

-- The end of `AuthReadRun`, with the message parsed and the interest set.
unfoldable pub read_answer : Connection → List User → LogIn
unfolding known answered
read_answer c users = log_in c.auth.u_name c.auth.passwd users >>= λ found.
    answer c.write_buffer (λ room. build_auth_response room (is_found found.0)) >>= λ built.
    some (answered (known c found.0) built, found.1)

-- `AuthReadRun` behind the read, on the parser's state.
unfoldable pub read_parsed : Connection → List User → Bool → LogIn
unfolding read_answer
read_parsed c users ok =
    if not (has_finished c.auth.state)
    then some ((ConnectionState.auth_read, c), users)
    else if has_failed c.auth.state
    then some ((ConnectionState.error, c), users)
    else if ok
    then read_answer (set_client Interest.write c ok) users
    else some ((ConnectionState.error, c), users)

-- `AuthReadRun`, given what `recv` and the selector answer. The end of the input is an error.
unfoldable pub read_run : Connection → List User → Received → Bool → LogIn
unfolding read_parsed
read_run c users recv_failed ok =
    Buffer.write_ptr c.read_buffer >>= λ room. some ((ConnectionState.error, c), users)
read_run c users (bytes []) ok =
    Buffer.write_ptr c.read_buffer >>= λ room. some ((ConnectionState.error, c), users)
read_run c users (bytes (x ∷ bs)) ok = receive c.read_buffer (x ∷ bs) >>= λ b.
    read_parsed (record c { read_buffer = Buffer.reset b; auth = (consume c.auth (x ∷ bs)).1 })
      users ok

-- `AuthWriteRun`, given what `send` and the selector answer.
unfoldable pub write_run : Connection → Sent → Bool → Step
write_run c sent ok =
    if not (Buffer.can_read c.write_buffer)
    then some (
        if not c.auth_succeeded then (ConnectionState.done, c) else (
          if ok then ConnectionState.request_read else ConnectionState.error,
          set_client Interest.read c ok,
        ))
    else (Buffer.read_ptr c.write_buffer >>= λ readable. elim sent [
      | send_failed ↦ some (ConnectionState.error, c)
      | wrote n ↦ Buffer.read_adv c.write_buffer (pos n) >>= λ w.
          some (ConnectionState.auth_write, record c { write_buffer = w })
    ])

-- `AuthWriteClose`
unfoldable pub write_close : Connection → Connection
write_close c = record c {
  write_buffer = Buffer.reset c.write_buffer;
  read_buffer = Buffer.reset c.read_buffer;
}
