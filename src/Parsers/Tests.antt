-- ===== src/Parsers/Tests.antt =====
-- The parsers of socks5d/lib/parsers/socks5 on concrete messages.
use mathlib.Core.List.{flatten}
use mathlib.Core.Option.{some}
use mathlib.Core.Bool.{false}
use protos.Base.{ℕ, ◌+◌, ◌<◌, List, [], ◌∷◌, ◌++◌, ◌≡◌, refl, arith, length, take, replicate}
use protos.Stream
use protos.Stream.{Machine, consume_chunks}
use protos.Stream.Chunks.{chunks-eq-consume}
use protos.Parsers.Pop3 as Pop3
use protos.Parsers.Pop3.{Pop3Parser, State, no_content}
use protos.Parsers.Pop3.Overrun.{consume-NoZero}
use protos.Parsers.Hello as Hello
use protos.Parsers.Hello.{HelloState, HelloParser}
use protos.Parsers.Hello.Bounds.{hello_write_in_bounds}
use protos.Parsers.Hello.Message as HelloMessage
use protos.Parsers.Hello.Message.{hello_message, consume-hello_message, hello_consume-Accepted}
use protos.Parsers.Auth as Auth
use protos.Parsers.Auth.{AuthState, AuthParser}
use protos.Parsers.Auth.Bounds as AuthBounds
use protos.Parsers.Auth.Bounds.{auth_write_in_bounds}
use protos.Parsers.Auth.Message as AuthMessage
use protos.Parsers.Auth.Message.{auth_message, consume-auth_message}
use protos.Parsers.Auth.Sound.{auth_consume-Accepted}
use protos.Parsers.Request as Request
use protos.Parsers.Request.{RequestState, RequestParser}
use protos.Parsers.Request.Bounds as RequestBounds
use protos.Parsers.Request.Bounds.{request_write_in_bounds}
use protos.Parsers.Request.Message.{
  Destination, request_message, consume-request_message, type_of, address,
}
use protos.Parsers.Request.Tail as RequestTail
use protos.Parsers.Request.Sound.{request_consume-Accepted}

abbrev old_hello : HelloParser
old_hello = record {
  state = HelloState.invalid_state;
  n_methods = 3;
  current_method = 1;
  methods = replicate 255 7;
}

abbrev old_auth : AuthParser
old_auth = record {
  state = AuthState.invalid_state;
  u_len = 3;
  u_name_position = 1;
  u_name = replicate 256 7;
  p_len = 2;
  passwd = replicate 256 7;
  passwd_position = 1;
}

abbrev old_request : RequestParser
old_request = record {
  state = RequestState.invalid_state;
  cmd = 3;
  a_type = 9;
  dest_address = replicate 256 7;
  address_length = 2;
  address_position = 1;
  dest_port = 7 ∷ 7 ∷ [];
}

abbrev offered : List ℕ
offered = 0 ∷ 2 ∷ []

-- The greeting with the methods 0 and 2, and a byte behind it.
abbrev greeting : List ℕ
greeting = 0x05 ∷ 2 ∷ 0 ∷ 2 ∷ 9 ∷ []

consume-hello_message_example :
    let (count, p) = Hello.consume (Hello.reset old_hello) (hello_message offered ++ 9 ∷ []) in
    (count ≡ 2 + length offered)
    × (p.state ≡ HelloState.done)
    × (p.n_methods ≡ length offered)
    × (take p.n_methods p.methods ≡ offered)
consume-hello_message_example = consume-hello_message old_hello 0 (2 ∷ []) (9 ∷ []) (omega arith)

hello_consume-Accepted_example :
    HelloMessage.Accepted greeting
      (Hello.consume (Hello.reset old_hello) greeting).0
      (Hello.consume (Hello.reset old_hello) greeting).1
unfolding Hello.consume Stream.consume Stream.consume_from Hello.reset Hello.feed Hello.has_finished
hello_consume-Accepted_example = hello_consume-Accepted old_hello greeting (ground arith) refl refl

hello_write_in_bounds_example :
    let p = (Hello.consume (Hello.reset old_hello) (0x05 ∷ 2 ∷ 0 ∷ [])).1 in
    (p.current_method < length p.methods) × (p.current_method < p.n_methods)
unfolding Hello.consume Stream.consume Stream.consume_from Hello.reset Hello.feed Hello.has_finished
hello_write_in_bounds_example =
    hello_write_in_bounds old_hello (0x05 ∷ 2 ∷ 0 ∷ []) (ground arith) refl

chunks-eq-consume_example :
    consume_chunks Hello.machine
      (Hello.reset old_hello)
      ((0x05 ∷ 2 ∷ []) ∷ (0 ∷ []) ∷ (2 ∷ 9 ∷ []) ∷ [])
    ≡ (Stream.consume Hello.machine (Hello.reset old_hello) greeting).1
unfolding flatten
chunks-eq-consume_example =
    chunks-eq-consume Hello.machine (Hello.reset old_hello)
      ((0x05 ∷ 2 ∷ []) ∷ (0 ∷ []) ∷ (2 ∷ 9 ∷ []) ∷ [])

abbrev user_ab : List ℕ
user_ab = 97 ∷ 98 ∷ []

abbrev password_c : List ℕ
password_c = 99 ∷ []

-- The user "ab" with the password "c", and a byte behind the message.
abbrev credentials : List ℕ
credentials = 0x01 ∷ 2 ∷ 97 ∷ 98 ∷ 1 ∷ 99 ∷ 9 ∷ []

consume-auth_message_example :
    let (count, p) =
      Auth.consume (Auth.reset old_auth) (auth_message user_ab password_c ++ 9 ∷ []) in
    (count ≡ 3 + length user_ab + length password_c)
    × (p.state ≡ AuthState.finished)
    × (take p.u_len p.u_name ≡ user_ab)
    × (take p.p_len p.passwd ≡ password_c)
consume-auth_message_example =
    consume-auth_message old_auth 97 (98 ∷ []) 99 [] (9 ∷ []) (omega arith) (omega arith)

auth_consume-Accepted_example :
    AuthMessage.Accepted credentials
      (Auth.consume (Auth.reset old_auth) credentials).0
      (Auth.consume (Auth.reset old_auth) credentials).1
unfolding Auth.consume Stream.consume Stream.consume_from Auth.reset Auth.feed Auth.has_finished
auth_consume-Accepted_example = auth_consume-Accepted old_auth credentials (ground arith) refl refl

auth_write_in_bounds_example :
    (1 < 2) × (1 + 1 < length (Auth.consume (Auth.reset old_auth) (0x01 ∷ 2 ∷ 97 ∷ [])).1.u_name)
unfolding Auth.consume Stream.consume Stream.consume_from Auth.reset Auth.feed Auth.has_finished
auth_write_in_bounds_example =
    auth_write_in_bounds old_auth (0x01 ∷ 2 ∷ 97 ∷ []) (ground arith)
      (AuthBounds.name_byte refl (refl, refl, refl))

-- The request to connect to 10.0.0.1, port 80, and a byte behind it.
abbrev connect_request : List ℕ
connect_request = 0x05 ∷ 1 ∷ 0 ∷ 0x01 ∷ 10 ∷ 0 ∷ 0 ∷ 1 ∷ 0 ∷ 80 ∷ 9 ∷ []

consume-request_message_example :
    let (count, p) =
      Request.consume
        (Request.reset old_request)
        (request_message 1 (Destination.fqdn (97 ∷ 46 ∷ 98 ∷ [])) 0 80 ++ 9 ∷ []) in
    (count ≡ length (request_message 1 (Destination.fqdn (97 ∷ 46 ∷ 98 ∷ [])) 0 80))
    × (p.state ≡ RequestState.done)
    × (p.cmd ≡ 1)
    × (p.a_type ≡ type_of (Destination.fqdn (97 ∷ 46 ∷ 98 ∷ [])))
    × (take p.address_length p.dest_address ≡ address (Destination.fqdn (97 ∷ 46 ∷ 98 ∷ [])))
    × (p.dest_port ≡ 0 ∷ 80 ∷ [])
consume-request_message_example =
    consume-request_message old_request 1 (Destination.fqdn (97 ∷ 46 ∷ 98 ∷ [])) 0 80 (9 ∷ [])
      (omega arith, omega arith)

request_consume-Accepted_example :
    RequestTail.Accepted connect_request
      (Request.consume (Request.reset old_request) connect_request).0
      (Request.consume (Request.reset old_request) connect_request).1
unfolding Request.consume Stream.consume Stream.consume_from Request.reset Request.feed
    Request.has_finished
request_consume-Accepted_example =
    request_consume-Accepted old_request connect_request (ground arith) refl refl

request_write_in_bounds_example :
    1
    < length
        (Request.consume (Request.reset old_request) (0x05 ∷ 1 ∷ 0 ∷ 0x01 ∷ 10 ∷ [])).1.dest_address
unfolding Request.consume Stream.consume Stream.consume_from Request.reset Request.feed
    Request.has_finished
request_write_in_bounds_example =
    request_write_in_bounds old_request (0x05 ∷ 1 ∷ 0 ∷ 0x01 ∷ 10 ∷ []) (ground arith)
      (RequestBounds.ipv4_byte refl (refl, refl))

abbrev old_pop3 : Pop3Parser
old_pop3 = record {
  state = State.pass_content;
  index = 3;
  user = no_content;
  password = no_content;
  is_password_complete = false;
}

-- "USER a", a line feed, and a byte behind it.
abbrev user_command : List ℕ
user_command = 85 ∷ 83 ∷ 69 ∷ 82 ∷ 32 ∷ 97 ∷ 10 ∷ 9 ∷ []

consume-NoZero_example :
    (p : Pop3Parser) × (Pop3.consume (Pop3.reset old_pop3) user_command ≡ some p)
consume-NoZero_example = consume-NoZero old_pop3 user_command (ground arith)
