-- ===== src/Socks5/Request.antt =====
-- socks5d/lib/socks5/fsm_handlers/socks5_request.c: the reply to the client's request. The access log
-- is left out.
pub mod Reply
use protos.Base.{
  ℕ, Bool, true, false, not, ◌&&◌, ◌||◌, List, [], ◌∷◌, Option, none, some, ◌==◌, length,
  if◌then◌else◌,
}
use protos.Base.Fallible.{◌>>=◌}
use protos.Base.Int.{ℤ, pos, negsuc}
use protos.Buffer
use protos.Parsers.Pop3
use protos.Socks5.{
  ConnectionState, Interest, Sent, wrote, send_failed, Connection, Step, fill, set_client,
  set_remote,
}
use protos.Socks5.Messages.{build_request_response}
use protos.Socks5.Relay.{Answers}

-- `SOCKS5_REPLY_SUCCEEDED == Command`
unfoldable pub is_succeeded : ℤ → Bool
is_succeeded (pos n) = n == 0
is_succeeded (negsuc n) = false

-- `RequestWriteInit`
unfoldable pub write_init : Connection → Option Connection
unfolding fill
write_init c = Buffer.write_ptr c.write_buffer >>= λ room.
    let message = build_request_response room c.command in
    Buffer.write_adv (fill c.write_buffer message) (pos (length message)) >>= λ w.
    some (record c { write_buffer = w })

-- `RequestWriteClose`; `detects` is `CanDetectPasswords`.
unfoldable pub write_close : Connection → Bool → Connection
unfolding Buffer.reset
write_close c detects = record c {
  write_buffer = Buffer.reset c.write_buffer;
  read_buffer = Buffer.reset c.read_buffer;
  pop3 = if detects then Pop3.reset c.pop3 else c.pop3;
}

-- `RequestWriteRun` with nothing left to send.
unfoldable pub written : Connection → Answers → ConnectionState × Connection
unfolding is_succeeded set_client set_remote
written c a = if not (is_succeeded c.command) then (ConnectionState.done, c) else (
  if a.client_set && a.remote_set then ConnectionState.connected else ConnectionState.error,
  set_remote Interest.read (set_client Interest.read c a.client_set) a.remote_set,
)

-- `RequestWriteRun`, given what `send` and the selector answer: only 0 sent bytes are an error, and
-- a `send` that fails leaves the buffer as it is.
unfoldable pub write_run : Connection → Sent → Answers → Step
unfolding written
write_run c sent a =
    if not (Buffer.can_read c.write_buffer)
    then some (written c a)
    else (Buffer.read_ptr c.write_buffer >>= λ readable. elim sent [
      | send_failed ↦ some (ConnectionState.request_write, c)
      | wrote n ↦
          if n == 0
          then some (ConnectionState.error, c)
          else (Buffer.read_adv c.write_buffer (pos n) >>= λ w.
              some (ConnectionState.request_write, record c { write_buffer = w }))
    ])
