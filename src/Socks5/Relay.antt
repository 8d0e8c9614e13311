-- ===== src/Socks5/Relay.antt =====
-- socks5d/lib/socks5/fsm_handlers/socks5_connected.c, socks5_client.c and socks5_remote.c: the bytes
-- between the client and the remote host, once the two are connected.
pub mod Bytes
pub mod Completion
pub mod Senders
use protos.Base.{
  ℕ, ◌+◌, ◌%◌, ◌^◌, Bool, true, false, not, ◌&&◌, ◌||◌, List, [], ◌∷◌, Option, none, some, ◌==◌,
  length, replicate, if◌then◌else◌,
}
use protos.Base.Fallible.{◌>>=◌}
use protos.Base.Int.{pos}
use protos.Buffer
use protos.Buffer.{ArrayBuffer}
use protos.Parsers.Pop3
use protos.Socks5.{
  ConnectionState, Interest, Received, bytes, recv_failed, Sent, wrote, send_failed, TcpConnection,
  Connection, Step, receive, set_client, set_remote,
}

-- What `shutdown` answers; `not_connected` is the error `ENOTCONN`.
pub data Shutdown : Type 0 where
  shut not_connected refused : Shutdown

-- The part of the connection that `shutdown` is asked to close.
pub data How : Type 0 where
  shut_rd shut_wr : How

-- What a handler's calls answer: `shutdown`, and whether the selector accepts each interest.
pub record Answers : Type 0 where
  pub shutdown : Shutdown
  pub client_set : Bool
  pub remote_set : Bool

-- Whether `DisconnectFromTcpConnection` goes on behind the call of `shutdown`.
unfoldable pub disconnects : TcpConnection → Shutdown → Bool
disconnects t Shutdown.shut = true
disconnects t Shutdown.not_connected = not t.can_write
disconnects t Shutdown.refused = false

unfoldable pub close : How → TcpConnection → TcpConnection
close How.shut_rd t = record t { can_read = false }
close How.shut_wr t = record t { can_write = false }

-- `DisconnectFromTcpConnection`: whether it gives `FUNCTION_OK`, and the connection.
unfoldable pub disconnect : How → TcpConnection → Shutdown → Bool × TcpConnection
unfolding disconnects close
disconnect how t s = if disconnects t s then (true, close how t) else (false, t)

-- `IsTcpConnectionDisconnected`
unfoldable pub is_disconnected : TcpConnection → Bool
is_disconnected t = not t.can_write && not t.can_read

-- The two interests set, and the state that the handler returns.
unfoldable pub with_interests :
    Interest
    → Interest
    → Bool
    → Answers
    → ConnectionState
    → Connection
    → ConnectionState × Connection
unfolding set_client set_remote
with_interests client remote success a next c = (
  if success && a.client_set && a.remote_set then next else ConnectionState.error,
  set_remote remote (set_client client c a.client_set) a.remote_set,
)

-- `HasToResizeSocks5Buffer` and `ResizeSocks5Buffer`, for a target of `size` bytes.
unfoldable pub has_to_resize : ℕ → ArrayBuffer → Bool
has_to_resize size b = not (b.size == size)

unfoldable pub resize : ℕ → ArrayBuffer → ArrayBuffer
unfolding Buffer.init
resize size b = Buffer.init size (replicate size 0)

-- `ConnectedConnectionInit`
unfoldable pub connected_init : ℕ → Connection → Connection
unfolding has_to_resize resize
connected_init size c =
    if has_to_resize size c.write_buffer
    then record c { write_buffer = resize size c.write_buffer }
    else c

-- `ConnectedConnectionRun`; `on_client` is that the client's socket is the one that is ready, and
-- `on_remote` that it is the remote's.
unfoldable pub connected_run : Connection → Bool → Bool → Answers → ConnectionState × Connection
unfolding with_interests is_disconnected
connected_run c on_client on_remote a =
    if c.client.can_read && on_client
    then with_interests Interest.read Interest.noop true a ConnectionState.client_read c
    else if c.remote.can_read && on_remote
    then with_interests Interest.noop Interest.read true a ConnectionState.remote_read c
    else if is_disconnected c.client && is_disconnected c.remote
    then (ConnectionState.done, c)
    else (ConnectionState.connected, c)

-- Both buffers are reset by `ClientReadInit`, `RemoteReadInit`, `ClientWriteClose` and
-- `RemoteWriteClose`.
unfoldable pub reset_buffers : Connection → Connection
unfolding Buffer.reset
reset_buffers c = record c {
  write_buffer = Buffer.reset c.write_buffer;
  read_buffer = Buffer.reset c.read_buffer;
}

-- `RegisterBytesTransferredInSocks5Metrics` for a 64-bit counter.
unfoldable pub register_bytes : ℕ → Connection → Connection
register_bytes n c = record c { bytes_transferred = (c.bytes_transferred + n) % 2 ^ 64 }

-- `ScanForPOP3Passwords`, and the reset behind a password that was found. `detects` is
-- `CanDetectPasswords`.
unfoldable pub scan : Bool → List ℕ → Connection → Option Connection
scan detects bs c =
    if detects
    then (Pop3.consume c.pop3 bs >>= λ p.
        some (record c { pop3 = if Pop3.has_password p then Pop3.reset p else p }))
    else some c

-- `ClientReadRun`
unfoldable pub client_read_run : Connection → Bool → Received → Answers → Step
unfolding disconnect with_interests register_bytes scan
client_read_run c detects recv_failed a =
    Buffer.write_ptr c.write_buffer >>= λ room. some (ConnectionState.error, c)
client_read_run c detects (bytes []) a = Buffer.write_ptr c.write_buffer >>= λ room.
    let ended = disconnect How.shut_rd c.client a.shutdown in
    some (
      with_interests Interest.noop Interest.write ended.0 a ConnectionState.remote_write
        (record c { client = ended.1 }))
client_read_run c detects (bytes (x ∷ bs)) a = receive c.write_buffer (x ∷ bs) >>= λ b.
    scan detects (x ∷ bs) (register_bytes (length (x ∷ bs)) (record c { write_buffer = b }))
    >>= λ c'.
        some (with_interests Interest.noop Interest.write true a ConnectionState.remote_write c')

-- `RemoteReadRun`
unfoldable pub remote_read_run : Connection → Received → Answers → Step
unfolding disconnect with_interests register_bytes
remote_read_run c recv_failed a =
    Buffer.write_ptr c.write_buffer >>= λ room. some (ConnectionState.error, c)
remote_read_run c (bytes []) a = Buffer.write_ptr c.write_buffer >>= λ room.
    let ended = disconnect How.shut_rd c.remote a.shutdown in
    some (
      with_interests Interest.write Interest.noop ended.0 a ConnectionState.client_write
        (record c { remote = ended.1 }))
remote_read_run c (bytes (x ∷ bs)) a = receive c.write_buffer (x ∷ bs) >>= λ b. some (
    with_interests Interest.write Interest.noop true a ConnectionState.client_write
      (register_bytes (length (x ∷ bs)) (record c { write_buffer = b })))

-- `RemoteWriteRun` with nothing left to send: the client's end of input is passed on.
unfoldable pub remote_written : Connection → Answers → ConnectionState × Connection
unfolding with_interests disconnect
remote_written c a =
    if c.client.can_read
    then with_interests Interest.read Interest.read true a ConnectionState.connected c
    else (let ended = disconnect How.shut_wr c.remote a.shutdown in
        with_interests Interest.noop Interest.read ended.0 a ConnectionState.connected
          (record c { remote = ended.1 }))

-- `RemoteWriteRun`
unfoldable pub remote_write_run : Connection → Sent → Answers → Step
unfolding remote_written
remote_write_run c sent a =
    if not (Buffer.can_read c.write_buffer)
    then some (remote_written c a)
    else (Buffer.read_ptr c.write_buffer >>= λ readable. elim sent [
      | send_failed ↦ some (ConnectionState.error, c)
      | wrote n ↦ Buffer.read_adv c.write_buffer (pos n) >>= λ w.
          some (ConnectionState.remote_write, record c { write_buffer = w })
    ])

-- `ClientWriteRun` with nothing left to send: the remote's end of input is passed on.
unfoldable pub client_written : Connection → Answers → ConnectionState × Connection
unfolding with_interests disconnect
client_written c a =
    if c.remote.can_read
    then with_interests Interest.read Interest.read true a ConnectionState.connected c
    else (let ended = disconnect How.shut_wr c.client a.shutdown in
        with_interests Interest.read Interest.noop ended.0 a ConnectionState.connected
          (record c { client = ended.1 }))

-- `ClientWriteRun`
unfoldable pub client_write_run : Connection → Sent → Answers → Step
unfolding client_written
client_write_run c sent a =
    if not (Buffer.can_read c.write_buffer)
    then some (client_written c a)
    else (Buffer.read_ptr c.write_buffer >>= λ readable. elim sent [
      | send_failed ↦ some (ConnectionState.error, c)
      | wrote n ↦ Buffer.read_adv c.write_buffer (pos n) >>= λ w.
          some (ConnectionState.client_write, record c { write_buffer = w })
    ])
