-- ===== src/Socks5/Connect.antt =====
-- socks5d/lib/socks5/fsm_handlers/socks5_establish_connection.c and socks5_dns.c, with the read of
-- the request of socks5_request.c, which starts them: the way to the remote host. What the log
-- prints, and the text and the port of the remote host, which only the log reads, are left out.
pub mod Freed
pub mod Walk
mod Tests
use protos.Base.{
  ℕ, ◌-◌, Bool, true, false, not, ◌&&◌, List, [], ◌∷◌, Option, none, some, ◌==◌, if◌then◌else◌,
}
use protos.Base.Fallible.{◌>>=◌}
use protos.Base.Int.{ℤ, pos, negsuc}
use protos.Buffer
use protos.Parsers.Request as Parser
use protos.Parsers.Request.{address_type_ipv4, address_type_ipv6, address_type_fqdn}
use protos.Socks5.{
  ConnectionState, Interest, Received, bytes, recv_failed, Connection, receive, set_client,
  set_remote,
}

-- The family of an `addrinfo`; `unspecified` is another.
pub data Family : Type 0 where
  ipv4 ipv6 unspecified : Family

-- What `CurrentRemoteAddress` points to: nothing, the address of the request itself, one of the
-- resolved addresses with those behind it, or memory that has been freed.
pub data CurrentAddress : Type 0 where
  null_address freed_address : CurrentAddress
  requested : Family → CurrentAddress
  resolved : Family → List Family → CurrentAddress

-- The connection, with the members of `RequestData` that lead to the remote host. `[]` is a null
-- `RemoteAddress`; `has_remote` is whether there is a `RemoteTcpConnection`.
pub record Attempt : Type 0 where
  pub connection : Connection
  pub remote_address : List Family
  pub current : CurrentAddress
  pub has_remote : Bool

abbrev pub Outcome : Type 0
Outcome = Option (ConnectionState × Attempt)

-- The reply codes of socks5d/include/lib/socks5/socks5.h.
abbrev pub reply_not_decided : ℤ
reply_not_decided = negsuc 0

abbrev pub reply_succeeded : ℤ
reply_succeeded = pos 0

abbrev pub reply_general_failure : ℤ
reply_general_failure = pos 1

abbrev pub reply_unreachable_host : ℤ
reply_unreachable_host = pos 4

abbrev pub reply_command_not_supported : ℤ
reply_command_not_supported = pos 7

abbrev pub is_decided : ℤ → Bool
is_decided (pos n) = true
is_decided (negsuc n) = not (n == 0)

abbrev pub with_command : ℤ → Attempt → Attempt
with_command r a = record a { connection = record a.connection { command = r } }

-- `RequestReadInit`. The buffer pointers that it also sets always point to the connection's own.
unfoldable pub read_init : Attempt → Attempt
read_init a = record a {
  connection = record a.connection {
    command = reply_not_decided;
    request = Parser.reset a.connection.request;
  };
}

-- An interest of the client, and the next state if the selector accepts it.
unfoldable pub with_client : Interest → ConnectionState → Attempt → Bool → Outcome
unfolding set_client
with_client i next a ok = some (
  if ok then next else ConnectionState.error,
  record a { connection = set_client i a.connection ok },
)

abbrev family : ℕ → Family
family a_type =
    if a_type == address_type_ipv4
    then Family.ipv4
    else if a_type == address_type_ipv6
    then Family.ipv6
    else Family.unspecified

-- `RequestReadRun` behind the parser; `thread` is whether the resolver's thread was started.
unfoldable pub read_parsed : Attempt → Bool → Bool → Outcome
unfolding with_client
read_parsed a thread ok =
    if not (Parser.has_finished a.connection.request.state)
    then some (ConnectionState.request_read, a)
    else if Parser.has_failed a.connection.request.state
    then some (ConnectionState.error, a)
    else if not (a.connection.request.cmd == 1)
    then with_client Interest.write ConnectionState.request_write
        (with_command reply_command_not_supported a) ok
    else if a.connection.request.a_type == address_type_fqdn
    then (if thread
        then with_client Interest.noop ConnectionState.dns_read a ok
        else with_client Interest.write ConnectionState.request_write
            (with_command reply_general_failure a) ok)
    else with_client Interest.noop ConnectionState.establish_connection
        (record a {
          remote_address = [];
          current = CurrentAddress.requested (family a.connection.request.a_type);
        })
        ok

-- `RequestReadRun`, given what `recv`, the threads and the selector answer.
unfoldable pub read_run : Attempt → Received → Bool → Bool → Outcome
unfolding read_parsed receive
read_run a recv_failed thread ok =
    Buffer.write_ptr a.connection.read_buffer >>= λ room. some (ConnectionState.error, a)
read_run a (bytes bs) thread ok = receive a.connection.read_buffer bs >>= λ b.
    read_parsed
      (record a {
        connection = record a.connection {
          read_buffer = Buffer.reset b;
          request = (Parser.consume a.connection.request bs).1;
        };
      })
      thread ok

-- `ResolveDNS`, for the addresses that `getaddrinfo` finds.
unfoldable pub resolve_dns : Attempt → List Family → Attempt
resolve_dns a found = record a { remote_address = found }

-- `DnsRead`
unfoldable pub dns_read : Attempt → Bool → Outcome
unfolding with_client
dns_read a ok = elim a.remote_address [
  | [] ↦
      with_client Interest.write ConnectionState.request_write
        (with_command reply_unreachable_host a) ok
  | x ∷ xs ↦
      some
        (ConnectionState.establish_connection, record a { current = CurrentAddress.resolved x xs })
]

-- Whether a connection to an address of a family is tried.
abbrev pub can_connect : Family → Bool
can_connect Family.ipv4 = true
can_connect Family.ipv6 = true
can_connect Family.unspecified = false

-- What is left of the address behind the attempt: it is freed if it was not resolved.
abbrev pub release_current : List Family → CurrentAddress → CurrentAddress
release_current [] current = CurrentAddress.freed_address
release_current (x ∷ xs) current = current

-- `EstablishConnectionInit` for an address of a family, when `connects` is whether there is a
-- connection to it, and the selector accepts the interests or not.
unfoldable pub try_address : Family → Attempt → Bool → Bool → Attempt
unfolding set_client
try_address f a connects ok =
    let released = record a { current = release_current a.remote_address a.current } in
    if can_connect f && connects then record released { has_remote = true } else record released {
      has_remote = false;
      connection = record (set_client Interest.both a.connection ok) {
        command = reply_general_failure;
      };
    }

-- `EstablishConnectionInit`. The disposal of the connection of a failed attempt before is left
-- out. A freed address is read: `none`.
unfoldable pub connect_init : Attempt → Bool → Bool → Option Attempt
unfolding try_address
connect_init a connects ok = elim a.current [
  | null_address ↦ some a
  | freed_address ↦ none
  | requested f ↦ some (try_address f a connects ok)
  | resolved f rest ↦ some (try_address f a connects ok)
]

-- `EstablishConnectionClose`: the resolved addresses are freed, and the pointers to them stay.
unfoldable pub connect_close : Attempt → Attempt
connect_close a = elim a.remote_address [
  | [] ↦ a
  | x ∷ xs ↦ record a { current = CurrentAddress.freed_address }
]

-- The reads of `CurrentRemoteAddress->ai_next`: the next address, if there is one. A null or a
-- freed address is followed: `none`.
unfoldable pub next_address : CurrentAddress → Option (Option CurrentAddress)
next_address CurrentAddress.null_address = none
next_address CurrentAddress.freed_address = none
next_address (CurrentAddress.requested f) = some none
next_address (CurrentAddress.resolved f []) = some none
next_address (CurrentAddress.resolved f (x ∷ xs)) = some (some (CurrentAddress.resolved x xs))

-- On to the next address, or to the reply.
unfoldable pub next_or_reply : Attempt → Outcome → Outcome
unfolding next_address
next_or_reply a reply = next_address a.current >>= λ next. elim next [
  | none ↦ reply
  | some current ↦ some (
    ConnectionState.establish_connection,
    record (with_command reply_not_decided a) { current = current },
  )
]

-- What `IsTcpConnectionReady` and `errno` say: ready, on the way (`EISCONN`, `EINPROGRESS`,
-- `EALREADY`), or failed, with the reply code that the `switch` gives the error.
pub data Readiness : Type 0 where
  ready pending : Readiness
  failed : ℕ → Readiness

-- Both interests set for the reply.
unfoldable pub set_both : Attempt → Bool → Bool → Outcome
unfolding set_client set_remote
set_both a client_ok remote_ok = some (
  if client_ok && remote_ok then ConnectionState.request_write else ConnectionState.error,
  record a {
    connection =
        set_remote Interest.noop (set_client Interest.write a.connection client_ok) remote_ok;
  },
)

-- `EstablishConnectionRun`, given what the socket and the selector answer.
unfoldable pub connect_run : Attempt → Readiness → Bool → Bool → Outcome
unfolding next_or_reply with_client set_both
connect_run a r client_ok remote_ok =
    if is_decided a.connection.command
    then next_or_reply a (with_client Interest.write ConnectionState.request_write a client_ok)
    else elim r [
      | ready ↦ set_both (with_command reply_succeeded a) client_ok remote_ok
      | pending ↦
          some (
            ConnectionState.establish_connection,
            record a { current = CurrentAddress.null_address },
          )
      | failed code ↦
          next_or_reply (with_command (pos code) a)
            (set_both (with_command (pos code) a) client_ok remote_ok)
    ]
