-- ===== src/Lulu/Login/Tests.antt =====
-- The login of one user, from the first byte to the first command.
use protos.Base.{ℕ, true, false, List, [], ◌∷◌, some, ◌≡◌, refl, replicate, store}
use protos.Buffer
use protos.Lulu.Connection.{LuluState, LuluConnection, reply, answer, set_interest}
use protos.Lulu.Hello
use protos.Lulu.Hello.Accepts.{accepted}
use protos.Lulu.Login.{
  log_in, log_in_parsed, read_init, read_close, read_run, write_close, write_run, go_on,
  run_parsers, run_parser, run_hello,
}
use protos.Lulu.Login.Admission.{IsLoggedIn}
use protos.Lulu.Login.Safety.{begun, replied, wrote_on, admitted, command_needs_user}
use protos.Lulu.Messages.{build_hello_response, fill_text}
use protos.Lulu.Tests.{connection, server, empty_buffer}
use protos.Lulu.Text.{next_move, put_next, put}
use protos.Lulu.Transaction
use protos.Lulu.Words.{traverse_word}
use protos.Socks5.{Interest, bytes, wrote, receive, fill}
use protos.Stream.Faulty
use protos.Users.{User, is_authorized, same_string, string_length}

abbrev users : List User
users =
    record {
      username = some (b'b' ∷ 0 ∷ []);
      password = some (b'x' ∷ 0 ∷ []);
      in_use = true;
      is_logged_in = false;
    }
    ∷ []

abbrev hello_line : List ℕ
hello_line = b'H' ∷ b'E' ∷ b'L' ∷ b'L' ∷ b'O' ∷ b'|' ∷ b'b' ∷ b'|' ∷ b'x' ∷ b'\r' ∷ b'\n' ∷ []

abbrev logged_in : LuluConnection
logged_in = record (read_init connection) {
  user = some 0;
  client_hello_succeeded = true;
  client_interest = Interest.write;
  hello = accepted (b'b' ∷ []) (b'x' ∷ []);
  read_buffer = record empty_buffer { data_bytes = store (replicate 64 0) 0 hello_line };
  write_buffer = record empty_buffer {
    data_bytes = store (replicate 64 0) 0 (b'+' ∷ b'O' ∷ b'K' ∷ b'\r' ∷ b'\n' ∷ []);
    write_head = 5;
  };
}

login_read :
    read_run users (read_init connection) server (bytes hello_line) true
    ≡ some (some LuluState.hello_write, logged_in, server)
unfolding read_run read_init receive fill run_parsers run_parser run_hello log_in_parsed log_in
    is_authorized same_string set_interest reply answer build_hello_response fill_text
    Buffer.write_ptr Buffer.write_adv Buffer.reset Hello.reset Hello.consume Hello.machine
    Hello.feed Hello.feed_in Hello.traverse Hello.moved Hello.add_char Hello.end_line
    Hello.has_finished Hello.has_failed next_move traverse_word string_length put_next put
    Faulty.consume Faulty.consume_from store replicate
login_read = refl

abbrev told : LuluConnection
told = record (read_close logged_in) {
  write_buffer = record empty_buffer {
    data_bytes = store (replicate 64 0) 0 (b'+' ∷ b'O' ∷ b'K' ∷ b'\r' ∷ b'\n' ∷ []);
  };
}

login_written : write_run (read_close logged_in) (wrote 5) true ≡ some (LuluState.hello_write, told)
unfolding write_run read_init read_close Buffer.can_read Buffer.read_ptr Buffer.read_adv
    Buffer.compact Buffer.reset Hello.reset store replicate
login_written = refl

abbrev ready : LuluConnection
ready = record told { client_interest = Interest.read }

login_done : write_run told (wrote 0) true ≡ some (LuluState.transaction_read, ready)
unfolding write_run read_init read_close go_on set_interest Buffer.can_read Buffer.reset Hello.reset
    store replicate
login_done = refl

command_needs_user_example :
    IsLoggedIn users (hello_line ∷ []) (Transaction.read_init (write_close ready)).user
command_needs_user_example =
    command_needs_user users (hello_line ∷ []) (Transaction.read_init (write_close ready)) server (
      admitted (wrote 0) true
        (wrote_on (wrote 5) true
          (replied (bytes hello_line) true (begun connection server) login_read) login_written)
        login_done)
