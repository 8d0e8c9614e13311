-- ===== src/Lulu/Tests.antt =====
-- A management connection whose buffers hold 64 bytes, and one user.
use protos.Base.{
  ℕ, zero, suc, ◌+◌, ◌%◌, ◌/◌, true, false, List, [], ◌∷◌, ◌++◌, none, some, ◌≡◌, refl, arith, ltb,
  replicate, length-replicate, if◌then◌else◌,
}
use protos.Buffer.{ArrayBuffer}
use protos.Buffer.Inv.{IsValid}
use protos.Buffer.Contents.{contents}
use protos.Lulu.Accepted.{
  Agrees, TakesValue, HelloKeeps, SetUserKeeps, DelUserKeeps, commands_are_compared,
  values_are_read, names_are_kept, names_overrun,
}
use protos.Lulu.Commands
use protos.Lulu.Commands.Accepts as Two
use protos.Lulu.Commands.Metrics
use protos.Lulu.Commands.BufferSize
use protos.Lulu.Commands.Timeout
use protos.Lulu.Commands.ListUsers
use protos.Lulu.Connection.{LuluState, LuluConnection}
use protos.Lulu.DelUser
use protos.Lulu.Goodbye
use protos.Lulu.Goodbye.Accepts as One
use protos.Lulu.Hello
use protos.Lulu.Messages.{Server, ok_text}
use protos.Lulu.Messages
use protos.Lulu.SetUser
use protos.Lulu.Text.{Text, Pointer, IsPlain, zeros}
use protos.Lulu.Transaction.{read_run, read_init, run_parsers}
use protos.Lulu.Transaction.Turns.{Ends, run_parsers_end}
use protos.Lulu.Transaction.Dispatch.{message, timeout_is_set}
use protos.Lulu.Values
use protos.Lulu.Values.Accepts.{line_end}
use protos.Lulu.Values.BufferSize as SetBufferSize
use protos.Lulu.Values.Timeout as SetTimeout
use protos.Socks5.{Interest, bytes}
use protos.Stream.Faulty.Spelling.{AllPlain}

-- The decimal digits of a number of at most `fuel` digits, behind which `rest` follows.
unfoldable digits : ℕ → ℕ → List ℕ → List ℕ
digits zero n rest = rest
digits (suc fuel) n rest =
    let more = digits fuel (n / 10) ((b'0' + n % 10) ∷ rest) in
    if ltb n 10 then (b'0' + n) ∷ rest else more

abbrev print_number : ℕ → List ℕ
print_number n = digits 20 n []

abbrev text : Text
text = record {
  first = [];
  second = [];
  u_name = zeros;
  passwd = zeros;
  index = 0;
  word = Pointer.first_word;
}

abbrev hello_parser : Hello.HelloParser
hello_parser = record { state = Hello.State.hello; prev_state = Hello.State.hello; text = text }

abbrev set_user_parser : SetUser.SetUserParser
set_user_parser = record {
  state = SetUser.State.user_set;
  prev_state = SetUser.State.user_set;
  text = text;
}

abbrev del_user_parser : DelUser.DelUserParser
del_user_parser = record { state = DelUser.State.del; text = text }

abbrev goodbye_parser : Goodbye.GoodbyeParser
goodbye_parser = record { state = Goodbye.State.goodbye; goodbye = []; index = 0; behind = 0 ∷ [] }

abbrev command_parser : Commands.CommandParser
command_parser = Commands.start [] []

abbrev value_parser : Values.ValueParser
value_parser = Values.start []

abbrev pub empty_buffer : ArrayBuffer
empty_buffer = record { data_bytes = replicate 64 0; size = 64; read_head = 0; write_head = 0 }

empty_buffer-IsValid : IsValid empty_buffer
unfolding replicate
empty_buffer-IsValid = ground arith

abbrev pub connection : LuluConnection
connection = record {
  client_interest = Interest.read;
  user = none;
  parser_index = 0;
  client_hello_succeeded = false;
  hello = hello_parser;
  hello_goodbye = goodbye_parser;
  goodbye = goodbye_parser;
  set_buffer_size = value_parser;
  metrics = command_parser;
  get_buffer_size = command_parser;
  timeout = value_parser;
  set_user = set_user_parser;
  list_users = command_parser;
  del_user = del_user_parser;
  get_timeout = command_parser;
  read_buffer = empty_buffer;
  write_buffer = empty_buffer;
}

abbrev pub server : Server
server = record {
  timeout = 100;
  target_buffer_size = 1024;
  historical_connections = 2;
  current_connections = 1;
  bytes_transferred = 500;
  users = [];
}

abbrev goodbye_line : List ℕ
goodbye_line = b'G' ∷ b'O' ∷ b'O' ∷ b'D' ∷ b'B' ∷ b'Y' ∷ b'E' ∷ b'\r' ∷ b'\n' ∷ []

commands_are_compared_example :
    Agrees Commands.machine
      (Metrics.reset command_parser)
      goodbye_line
      (Two.message Metrics.get_word Metrics.metrics_word)
    × Agrees Commands.machine
        (BufferSize.reset command_parser)
        goodbye_line
        (Two.message BufferSize.get_word BufferSize.buffer_size_word)
    × Agrees Commands.machine
        (Timeout.reset command_parser)
        goodbye_line
        (Two.message Timeout.get_word Timeout.timeout_word)
    × Agrees Commands.machine
        (ListUsers.reset command_parser)
        goodbye_line
        (Two.message ListUsers.list_word ListUsers.users_word)
    × Agrees Goodbye.machine (Goodbye.reset goodbye_parser) goodbye_line One.message
commands_are_compared_example =
    commands_are_compared command_parser goodbye_parser [] goodbye_line refl

values_are_read_example :
    TakesValue
      (SetBufferSize.reset value_parser)
      SetBufferSize.buffer_size_letters
      (b'3' ∷ b'0' ∷ [])
      []
    × TakesValue (SetTimeout.reset value_parser) SetTimeout.timeout_letters (b'3' ∷ b'0' ∷ []) []
unfolding Values.Digits.decimal Values.Digits.decimal_from
values_are_read_example =
    values_are_read value_parser (b'3' ∷ b'0' ∷ []) [] (ground arith) (ground arith)

names_are_kept_example :
    HelloKeeps (Hello.reset hello_parser) (b'b' ∷ b'o' ∷ b'b' ∷ []) (b'x' ∷ []) []
    × SetUserKeeps (SetUser.reset set_user_parser) (b'b' ∷ b'o' ∷ b'b' ∷ []) (b'x' ∷ []) []
    × DelUserKeeps (DelUser.reset del_user_parser) (b'b' ∷ b'o' ∷ b'b' ∷ []) []
names_are_kept_example =
    names_are_kept hello_parser set_user_parser del_user_parser (b'b' ∷ b'o' ∷ b'b' ∷ [])
      (b'x' ∷ []) [] (ground arith) (ground arith) (ground arith) (ground arith)

AllPlain-replicate : (n c : ℕ) → IsPlain c → AllPlain IsPlain (replicate n c)
unfolding replicate
AllPlain-replicate zero c p = tt
AllPlain-replicate (suc n) c p = (p, AllPlain-replicate n c p)

names_overrun_example :
    (Hello.consume
        (Hello.reset hello_parser)
        (Hello.Accepts.word ++ (replicate 255 b'a' ++ b'b' ∷ []))
      ≡ none)
    × (SetUser.consume
          (SetUser.reset set_user_parser)
          (SetUser.Accepts.word ++ (replicate 255 b'a' ++ b'b' ∷ []))
        ≡ none)
    × (DelUser.consume
          (DelUser.reset del_user_parser)
          (DelUser.Accepts.word ++ (replicate 255 b'a' ++ (line_end ++ [])))
        ≡ none)
names_overrun_example =
    names_overrun hello_parser set_user_parser del_user_parser (replicate 255 b'a') [] b'b'
      (AllPlain-replicate 255 b'a' (ground arith)) (length-replicate 255 b'a') (ground arith)

run_parsers_end_example :
    Ends (run_parsers print_number 10 connection server goodbye_line 0 true)
    × (run_parsers print_number (10 + 5) connection server goodbye_line 0 true
        ≡ run_parsers print_number 10 connection server goodbye_line 0 true)
run_parsers_end_example =
    run_parsers_end print_number goodbye_line 0 true 10 5 connection server (omega arith)
      (omega arith)

timeout_is_set_example :
    (d : LuluConnection) × (read_run print_number
        (read_init connection)
        server
        (bytes (message (b'3' ∷ b'0' ∷ [])))
        true
      ≡ some (some LuluState.transaction_write, d, record server { timeout = 30 }))
    × (contents d.write_buffer ≡ contents empty_buffer ++ ok_text)
    × (d.client_interest ≡ Interest.write)
unfolding Values.Digits.decimal Values.Digits.decimal_from
timeout_is_set_example =
    timeout_is_set print_number connection server (b'3' ∷ b'0' ∷ []) (ground arith) (ground arith)
      empty_buffer-IsValid empty_buffer-IsValid (omega arith) (omega arith)
