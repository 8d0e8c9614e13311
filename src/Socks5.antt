-- ===== src/Socks5.antt =====
-- The SOCKS5 connection: what socks5d/include/lib/socks5/socks5_connection.h keeps of it, the
-- answers that its handlers get from the sockets and the selector, and the steps that they share.
pub mod Messages
pub mod Filling
pub mod Hello
pub mod Auth
pub mod Relay
pub mod Request
pub mod Connect
pub mod Timeout
pub mod Metrics
mod Tests
use protos.Base.{
  ℕ, ◌+◌, Bool, true, false, List, [], ◌∷◌, Option, none, some, length, store, if◌then◌else◌,
}
use protos.Base.Fallible.{◌>>=◌}
use protos.Base.Int.{ℤ, pos}
use protos.Buffer
use protos.Buffer.{ArrayBuffer}
use protos.Parsers.Hello.{HelloParser}
use protos.Parsers.Auth.{AuthParser}
use protos.Parsers.Request.{RequestParser}
use protos.Parsers.Pop3.{Pop3Parser}

-- `CONNECTION_STATE`, in the order of the enumeration.
pub data ConnectionState : Type 0 where
  hello_read hello_write auth_read auth_write request_read request_write : ConnectionState
  establish_connection connected client_read remote_write remote_read : ConnectionState
  client_write dns_read done error : ConnectionState

-- `FdInterest`. `both` is `SELECTOR_OP_READ | SELECTOR_OP_WRITE`.
pub data Interest : Type 0 where
  noop read write both : Interest

-- What a `recv` answers: the bytes that it put into the buffer, none at the end of the input.
pub data Received : Type 0 where
  bytes : List ℕ → Received
  recv_failed : Received

-- What a `send` answers: how many of the bytes it took.
pub data Sent : Type 0 where
  wrote : ℕ → Sent
  send_failed : Sent

-- `TcpConnection`: the two directions that are still open.
pub record TcpConnection : Type 0 where
  pub can_read : Bool
  pub can_write : Bool

-- `Socks5Connection`, with the interests that the selector holds for its two sockets. The members
-- of the union `Data` are fields of their own: each is reset on arrival in the phase that uses it.
-- `user` is the index of the user in the list of users, and `bytes_transferred` the total of the
-- metrics, which all connections share.
pub record Connection : Type 0 where
  pub client : TcpConnection
  pub remote : TcpConnection
  pub client_interest : Interest
  pub remote_interest : Interest
  pub user : Option ℕ
  pub hello : HelloParser
  pub authentication_method : ℕ
  pub auth : AuthParser
  pub auth_succeeded : Bool
  pub request : RequestParser
  pub command : ℤ
  pub pop3 : Pop3Parser
  pub read_buffer : ArrayBuffer
  pub write_buffer : ArrayBuffer
  pub bytes_transferred : ℕ

-- What a handler gives: the next state and the connection. `none` is a failed assertion.
abbrev pub Step : Type 0
Step = Option (ConnectionState × Connection)

-- `bs` written from the write pointer on, by `recv` or by a message builder.
unfoldable pub fill : ArrayBuffer → List ℕ → ArrayBuffer
fill b bs = record b { data_bytes = store b.data_bytes b.write_head bs }

-- A `recv` of `bs` into the write pointer and the advance behind it.
unfoldable pub receive : ArrayBuffer → List ℕ → Option ArrayBuffer
unfolding fill
receive b bs = Buffer.write_ptr b >>= λ room. Buffer.write_adv (fill b bs) (pos (length bs))

-- A message built for the room left, and the advance behind it; `[]` is a builder that returns 0.
unfoldable pub answer : ArrayBuffer → (ℕ → List ℕ) → Option (Option ArrayBuffer)
unfolding fill
answer b build = Buffer.write_ptr b >>= λ room. elim (build room) [
  | [] ↦ some none
  | x ∷ xs ↦ Buffer.write_adv (fill b (x ∷ xs)) (pos (length (x ∷ xs))) >>= λ b'. some (some b')
]

-- `SelectorSetInterestKey` on the client's socket: the connection with the interest set, if the
-- selector accepts it.
unfoldable pub set_client : Interest → Connection → Bool → Connection
set_client i c ok = if ok then record c { client_interest = i } else c

unfoldable pub set_remote : Interest → Connection → Bool → Connection
set_remote i c ok = if ok then record c { remote_interest = i } else c
