-- ===== src/Socks5/Tests.antt =====
-- A connection whose buffers hold ten bytes.
use protos.Base.{
  ℕ, true, false, List, [], ◌∷◌, ◌++◌, none, some, ◌≡◌, refl, arith, replicate, set, store, length,
  IsBytes,
}
use mathlib.Core.List.{flatten}
use protos.Base.Int.{pos}
use protos.Buffer
use protos.Buffer.{ArrayBuffer}
use protos.Buffer.Inv.{IsValid}
use protos.Buffer.Contents.{contents}
use protos.Parsers.Hello.{HelloState}
use protos.Parsers.Hello.Message.{hello_message}
use protos.Parsers.Auth.{AuthState, AuthParser}
use protos.Parsers.Auth.Message.{Accepted}
use protos.Parsers.Request.{RequestState}
use protos.Parsers.Pop3.{State, no_content}
use protos.Socks5.{
  ConnectionState, Interest, bytes, wrote, TcpConnection, Connection, receive, fill, answer,
  set_client, set_remote,
}
use protos.Socks5.Hello.{auth_invalid, read_init, read_run, write_run}
use protos.Socks5.Hello.Refusal.{refusal_goes_on}
use protos.Socks5.Hello.Negotiation.{last_supported, greeting_is_answered}
use protos.Socks5.Relay.{
  Answers, Shutdown, client_read_run, remote_read_run, remote_write_run, client_write_run,
  remote_written, client_written, reset_buffers, scan, register_bytes, with_interests,
}
use protos.Socks5.Auth as Auth
use protos.Socks5.Auth.Parsed.{Reading}
use protos.Socks5.Auth.Safety.{Answering, request_needs_user}
use protos.Socks5.Messages.{build_auth_response, build_request_response, to_byte}
use protos.Socks5.Request as Request
use protos.Socks5.Request.Reply.{reply_reaches_client}
use protos.Parsers.Auth as Parser
use protos.Stream
use protos.Users.{User, log_in, is_authorized, same_string}
use protos.Users.Login.{Found}
use protos.Socks5.Relay.Completion.{relay_completes}
use protos.Socks5.Relay.Senders.{Sends}
use protos.Socks5.Relay.Bytes.{client_bytes_reach_remote, remote_bytes_reach_client}

abbrev empty_buffer : ArrayBuffer
empty_buffer = record { data_bytes = replicate 10 0; size = 10; read_head = 0; write_head = 0 }

abbrev open_tcp : TcpConnection
open_tcp = record { can_read = true; can_write = true }

abbrev pub connection : Connection
connection = record {
  client = open_tcp;
  remote = open_tcp;
  client_interest = Interest.read;
  remote_interest = Interest.noop;
  user = none;
  hello = record {
    state = HelloState.version;
    n_methods = 0;
    current_method = 0;
    methods = replicate 255 0;
  };
  authentication_method = 0;
  auth = record {
    state = AuthState.version;
    u_len = 0;
    u_name_position = 0;
    u_name = replicate 256 0;
    p_len = 0;
    passwd = replicate 256 0;
    passwd_position = 0;
  };
  auth_succeeded = false;
  request = record {
    state = RequestState.version;
    cmd = 0;
    a_type = 0;
    dest_address = replicate 256 0;
    address_length = 0;
    address_position = 0;
    dest_port = 0 ∷ 0 ∷ [];
  };
  command = pos 0;
  pop3 = record {
    state = State.initial_state;
    index = 0;
    user = no_content;
    password = no_content;
    is_password_complete = false;
  };
  read_buffer = empty_buffer;
  write_buffer = empty_buffer;
  bytes_transferred = 0;
}

empty-IsValid : IsValid empty_buffer
unfolding replicate
empty-IsValid = record { ordered = omega arith; inside = omega arith; backed = omega arith }

abbrev offered : List ℕ
offered = 0 ∷ 2 ∷ 1 ∷ []

greeting_is_answered_example :
    (c' : Connection) × (read_run (read_init connection) (bytes (hello_message offered ++ [])) true
      ≡ some (ConnectionState.hello_write, c'))
    × (contents c'.write_buffer
        ≡ contents empty_buffer ++ 0x05 ∷ last_supported auth_invalid offered ∷ [])
    × (c'.authentication_method ≡ last_supported auth_invalid offered)
unfolding hello_message
greeting_is_answered_example =
    greeting_is_answered connection 0 (2 ∷ 1 ∷ []) [] (omega arith) empty-IsValid (omega arith)
      empty-IsValid (omega arith)

abbrev accepted : Answers
accepted = record { shutdown = Shutdown.shut; client_set = true; remote_set = true }

abbrev seven_eight : List ℕ
seven_eight = 7 ∷ 8 ∷ []

-- The two bytes are sent one at a time.
client_bytes_reach_remote_example : seven_eight ≡ seven_eight
unfolding client_read_run remote_write_run Buffer.write_ptr Buffer.write_adv Buffer.reset
    Buffer.can_read Buffer.read_ptr Buffer.read_adv Buffer.compact receive fill reset_buffers scan
    register_bytes with_interests set_client set_remote remote_written store replicate
client_bytes_reach_remote_example =
    client_bytes_reach_remote connection empty-IsValid false seven_eight seven_eight accepted
      accepted (wrote 0) (omega arith) refl
      (Sends.more 1 accepted (omega arith) refl
        (Sends.more 1 accepted (omega arith) refl Sends.nothing))
      refl

remote_bytes_reach_client_example : seven_eight ≡ seven_eight
unfolding remote_read_run client_write_run Buffer.write_ptr Buffer.write_adv Buffer.reset
    Buffer.can_read Buffer.read_ptr Buffer.read_adv Buffer.compact receive fill reset_buffers
    register_bytes with_interests set_client set_remote client_written store replicate
remote_bytes_reach_client_example =
    remote_bytes_reach_client connection empty-IsValid seven_eight seven_eight accepted accepted
      (wrote 0) (omega arith) refl
      (Sends.more 1 accepted (omega arith) refl
        (Sends.more 1 accepted (omega arith) refl Sends.nothing))
      refl

-- The name and password "a", as the parser holds it.
abbrev array_a : List ℕ
array_a = set (replicate 256 0) 0 97

abbrev user_a : User
user_a = record {
  username = some (97 ∷ 0 ∷ []);
  password = some (97 ∷ 0 ∷ []);
  in_use = true;
  is_logged_in = false;
}

abbrev a_alone : List User
a_alone = user_a ∷ []

abbrev a_logged_in : List User
a_logged_in = record user_a { is_logged_in = true } ∷ []

abbrev login_of_a : List ℕ
login_of_a = 1 ∷ 1 ∷ 97 ∷ 1 ∷ 97 ∷ []

login_of_a-IsBytes : IsBytes login_of_a
login_of_a-IsBytes = ground arith

abbrev parsed_login : AuthParser
parsed_login = record {
  state = AuthState.finished;
  u_len = 1;
  u_name_position = 1;
  u_name = array_a;
  p_len = 1;
  passwd = array_a;
  passwd_position = 1;
}

-- The message arrives in two reads.
request_needs_user_example :
    ((count : ℕ) × Accepted login_of_a count parsed_login)
    × ((i : ℕ) × (some 0 ≡ some i) × Found array_a array_a a_alone (some i) a_logged_in)
unfolding flatten Auth.read_run Auth.write_run Auth.read_init Parser.reset Parser.consume
    Stream.consume Stream.consume_from Parser.feed Parser.has_finished Parser.has_failed log_in
    is_authorized same_string receive fill answer Buffer.write_ptr Buffer.write_adv Buffer.reset
    Buffer.can_read Buffer.read_ptr Buffer.read_adv Buffer.compact set_client build_auth_response
    replicate store
request_needs_user_example =
    request_needs_user connection _ _ _ _ a_alone a_logged_in ((1 ∷ 1 ∷ []) ∷ []) (97 ∷ 1 ∷ 97 ∷ [])
      (wrote 0) true true login_of_a-IsBytes (Reading.more (1 ∷ 1 ∷ []) true refl Reading.nothing)
      refl (Answering.more (wrote 2) true refl Answering.nothing) refl

-- The request was accepted.
abbrev connected_remote : Connection
connected_remote = record connection { command = pos 0 }

abbrev success_reply : List ℕ
success_reply = 0x05 ∷ 0 ∷ 0 ∷ 0x01 ∷ 0 ∷ 0 ∷ 0 ∷ 0 ∷ 0 ∷ 0 ∷ []

reply_reaches_client_example : (connected_remote.command ≡ pos 0) × (success_reply ≡ success_reply)
unfolding Request.write_init Request.write_run Request.written Request.is_succeeded fill
    Buffer.write_ptr Buffer.write_adv Buffer.reset Buffer.can_read Buffer.read_ptr Buffer.read_adv
    Buffer.compact set_client set_remote build_request_response to_byte replicate store
reply_reaches_client_example =
    reply_reaches_client connected_remote _ _ _ success_reply (wrote 0) accepted empty-IsValid refl
      (omega arith) refl
      (Sends.more 4 accepted (omega arith) refl
        (Sends.more 6 accepted (omega arith) refl Sends.nothing))
      refl

-- The answer 0xFF waits to be sent.
abbrev refused : Connection
refused = record connection {
  authentication_method = 0xFF;
  write_buffer = record empty_buffer {
    data_bytes = store (replicate 10 0) 0 (0x05 ∷ 0xFF ∷ []);
    write_head = 2;
  };
}

refused-IsValid : IsValid refused.write_buffer
unfolding replicate store
refused-IsValid = record { ordered = omega arith; inside = omega arith; backed = omega arith }

refusal_goes_on_example :
    (c' : Connection) × (write_run refused (wrote (length (contents refused.write_buffer))) true
      ≡ some (ConnectionState.hello_write, c'))
    × (write_run c' (wrote 0) true
        ≡ some (ConnectionState.request_read, set_client Interest.read c' true))
unfolding replicate store
refusal_goes_on_example = refusal_goes_on refused (wrote 0) refused-IsValid (omega arith) refl

-- The same two bytes between an open client and an open remote host.
abbrev relaying : Connection
relaying = record refused { authentication_method = 0 }

relay_completes_example :
    ((c' : Connection) × (remote_write_run relaying
          (wrote (length (contents relaying.write_buffer)))
          accepted
        ≡ some (ConnectionState.remote_write, c'))
      × (remote_write_run c' (wrote 0) accepted ≡ some (remote_written c' accepted))
      × ((remote_written c' accepted).0 ≡ ConnectionState.connected))
    × (c' : Connection) × (client_write_run relaying
          (wrote (length (contents relaying.write_buffer)))
          accepted
        ≡ some (ConnectionState.client_write, c'))
    × (client_write_run c' (wrote 0) accepted ≡ some (client_written c' accepted))
    × ((client_written c' accepted).0 ≡ ConnectionState.connected)
unfolding replicate store
relay_completes_example =
    relay_completes relaying (wrote 0) accepted accepted refused-IsValid (omega arith) (refl, refl)
      refl refl
