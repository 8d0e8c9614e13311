-- ===== src/Socks5/Hello.antt =====
-- socks5d/lib/socks5/fsm_handlers/socks5_hello.c: the greeting.
pub mod Negotiation
pub mod Refusal
use protos.Base.{
  ℕ, zero, suc, Bool, true, false, not, ◌||◌, List, Option, none, some, ◌==◌, if◌then◌else◌,
  get_elem?,
}
use protos.Base.Fallible.{◌>>=◌}
use protos.Base.Int.{pos}
use protos.Buffer
use protos.Parsers.Hello.{consume, has_finished, has_failed}
use protos.Parsers.Hello as Parser
use protos.Socks5.{
  ConnectionState, Interest, Received, bytes, recv_failed, Sent, wrote, send_failed, Connection,
  Step, receive, answer, set_client,
}
use protos.Socks5.Messages.{build_hello_response}

-- `SOCKS5_AUTH`
abbrev pub auth_no_auth : ℕ
auth_no_auth = 0

abbrev pub auth_user_pass : ℕ
auth_user_pass = 0x02

abbrev pub auth_invalid : ℕ
auth_invalid = 0xFF

-- `HelloReadInit`. The buffer pointers that it also sets always point to the connection's own.
unfoldable pub read_init : Connection → Connection
read_init c = record c { hello = Parser.reset c.hello }

-- `HelloReadClose`
unfoldable pub read_close : Connection → Connection
read_close c = record c { hello = Parser.reset c.hello }

-- `SelectAuthenticationMethod` over the first `n` methods, from the last. A read outside the array
-- ends the search.
unfoldable pub select_authentication_method : List ℕ → ℕ → ℕ
select_authentication_method methods zero = auth_invalid
select_authentication_method methods (suc i) =
    let rest = select_authentication_method methods i in
    elim (get_elem? methods i) [
      | none ↦ auth_invalid
      | some m ↦ if m == auth_user_pass || m == auth_no_auth then m else rest
    ]

-- The end of `HelloReadRun`, with the message parsed and the interest set.
unfoldable pub read_answer : Connection → Step
read_answer c =
    let method = select_authentication_method c.hello.methods c.hello.n_methods in
    let chosen = record c { authentication_method = method } in
    answer c.write_buffer (λ room. build_hello_response room method) >>= λ r. some (elim r [
      | none ↦ (ConnectionState.error, chosen)
      | some w ↦ (ConnectionState.hello_write, record chosen { write_buffer = w })
    ])

-- `HelloReadRun` behind the read, on the parser's state.
unfoldable pub read_parsed : Connection → Bool → Step
unfolding read_answer
read_parsed c ok =
    if not (has_finished c.hello.state)
    then some (ConnectionState.hello_read, c)
    else if has_failed c.hello.state
    then some (ConnectionState.error, c)
    else if ok
    then read_answer (set_client Interest.write c ok)
    else some (ConnectionState.error, c)

-- `HelloReadRun`, given what `recv` and the selector answer.
unfoldable pub read_run : Connection → Received → Bool → Step
unfolding read_parsed
read_run c recv_failed ok =
    Buffer.write_ptr c.read_buffer >>= λ room. some (ConnectionState.error, c)
read_run c (bytes bs) ok = receive c.read_buffer bs >>= λ b.
    read_parsed (record c { read_buffer = Buffer.reset b; hello = (consume c.hello bs).1 }) ok

-- `HelloWriteRun`, given what `send` and the selector answer.
unfoldable pub write_run : Connection → Sent → Bool → Step
write_run c sent ok =
    if not (Buffer.can_read c.write_buffer)
    then some (
        if ok
        then (
          if c.authentication_method == auth_user_pass
              then ConnectionState.auth_read
              else ConnectionState.request_read,
          set_client Interest.read c ok,
        )
        else (ConnectionState.error, c))
    else (Buffer.read_ptr c.write_buffer >>= λ readable. elim sent [
      | send_failed ↦ some (ConnectionState.error, c)
      | wrote n ↦ Buffer.read_adv c.write_buffer (pos n) >>= λ w.
          some (ConnectionState.hello_write, record c { write_buffer = w })
    ])

-- `HelloWriteClose`
unfoldable pub write_close : Connection → Connection
write_close c = record c {
  write_buffer = Buffer.reset c.write_buffer;
  read_buffer = Buffer.reset c.read_buffer;
}
