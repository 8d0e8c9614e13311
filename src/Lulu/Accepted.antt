-- ===== src/Lulu/Accepted.antt =====
-- What the management protocol's parsers make of whole commands, one theorem for the parsers of
-- each kind.
use protos.Base.{
  ℕ, ◌+◌, ◌≤◌, ◌<◌, List, [], ◌∷◌, ◌++◌, none, some, ◌≡◌, refl, ap, ◌∙◌, arith, length, store,
}
use protos.Lulu.Commands.{CommandParser}
use protos.Lulu.Commands
use protos.Lulu.Commands.Accepts.{consume_command}
use protos.Lulu.Commands.Accepts as Two
use protos.Lulu.Commands.Metrics
use protos.Lulu.Commands.BufferSize
use protos.Lulu.Commands.Timeout
use protos.Lulu.Commands.ListUsers
use protos.Lulu.Goodbye
use protos.Lulu.Goodbye.Accepts.{consume_goodbye}
use protos.Lulu.Goodbye.Accepts as One
use protos.Lulu.Values
use protos.Lulu.Values.{ValueParser, State, max_value}
use protos.Lulu.Values.BufferSize as SetBufferSize
use protos.Lulu.Values.Timeout as SetTimeout
use protos.Lulu.Values.Accepts.{opening, line_end, consume_within, consume_beyond}
use protos.Lulu.Values.Digits.{AllDigits, decimal}
use protos.Lulu.Hello
use protos.Lulu.Hello.Accepts.{consume_hello, consume_hello_overrun}
use protos.Lulu.SetUser
use protos.Lulu.SetUser.Accepts.{consume_set_user, consume_set_user_overrun}
use protos.Lulu.DelUser
use protos.Lulu.DelUser.Accepts.{consume_del_user, consume_del_user_overrun}
use protos.Lulu.Text.{IsPlain, zeros}
use protos.Stream.Faulty
use protos.Stream.Faulty.{FaultyMachine, compare_message, verdict}
use protos.Stream.Faulty.Spelling.{Decides, AllPlain}

-- `Consume` returns as many bytes as the comparison of its input with the message reads, and the
-- parser then waits, accepts or refuses as the comparison does.
unfoldable pub Agrees : {P : Type 0} → FaultyMachine P → P → List ℕ → List ℕ → Type 0
Agrees {P} m p input message =
    (q : P) × (Faulty.consume m p input ≡ some ((compare_message message input).0, q))
    × (verdict m q ≡ (compare_message message input).1)

agrees :
    {P : Type 0} (m : FaultyMachine P) (p : P) (input message : List ℕ)
    → Decides m 0 p input (compare_message message input)
    → Agrees m p input message
unfolding Agrees Faulty.consume
agrees m p input message (q, run, v) = (q, run ∙ ap (λ k. some (k, q)) (omega arith), v)

-- Each of the parsers of METRICS, BUFFERSIZE, TIMEOUT, USERS and GOODBYE, once reset, decides on
-- every input as the comparison with its command does: it accepts the command, reads nothing
-- behind it, and refuses at the first byte that differs. For GOODBYE, a zero has to stand behind
-- the parser's index.
pub commands_are_compared :
    (p : CommandParser) (g : Goodbye.GoodbyeParser) (rest input : List ℕ)
    → g.behind ≡ 0 ∷ rest
    → Agrees Commands.machine
        (Metrics.reset p)
        input
        (Two.message Metrics.get_word Metrics.metrics_word)
      × Agrees Commands.machine
          (BufferSize.reset p)
          input
          (Two.message BufferSize.get_word BufferSize.buffer_size_word)
      × Agrees Commands.machine
          (Timeout.reset p)
          input
          (Two.message Timeout.get_word Timeout.timeout_word)
      × Agrees Commands.machine
          (ListUsers.reset p)
          input
          (Two.message ListUsers.list_word ListUsers.users_word)
      × Agrees Goodbye.machine (Goodbye.reset g) input One.message
unfolding Metrics.reset BufferSize.reset Timeout.reset ListUsers.reset
commands_are_compared p g rest input e = (
  agrees Commands.machine (Metrics.reset p) input
      (Two.message Metrics.get_word Metrics.metrics_word)
      (consume_command Metrics.get_word Metrics.metrics_word (ground arith) (ground arith)
        (omega arith) (omega arith) input),
  agrees Commands.machine (BufferSize.reset p) input
      (Two.message BufferSize.get_word BufferSize.buffer_size_word)
      (consume_command BufferSize.get_word BufferSize.buffer_size_word (ground arith) (ground arith)
        (omega arith) (omega arith) input),
  agrees Commands.machine (Timeout.reset p) input
      (Two.message Timeout.get_word Timeout.timeout_word)
      (consume_command Timeout.get_word Timeout.timeout_word (ground arith) (ground arith)
        (omega arith) (omega arith) input),
  agrees Commands.machine (ListUsers.reset p) input
      (Two.message ListUsers.list_word ListUsers.users_word)
      (consume_command ListUsers.list_word ListUsers.users_word (ground arith) (ground arith)
        (omega arith) (omega arith) input),
  agrees Goodbye.machine (Goodbye.reset g) input One.message (consume_goodbye rest g input e),
)

-- The parser `p` reads the whole command with the digits `ds`, and its value is their number.
unfoldable pub TakesValue : ValueParser → List ℕ → List ℕ → List ℕ → Type 0
TakesValue p name ds rest =
    (q : ValueParser) × (Values.consume p (opening name ++ (ds ++ (line_end ++ rest)))
      ≡ some (length (opening name) + length ds + 2, q))
    × (q.state ≡ State.finished)
    × (q.value ≡ decimal ds)

-- The parser `p` fails at one of the digits `ds` or before.
unfoldable pub RefusesValue : ValueParser → List ℕ → List ℕ → List ℕ → Type 0
RefusesValue p name ds rest =
    (k : ℕ) × (q : ValueParser) × (k ≤ length (opening name) + length ds)
    × (Values.consume p (opening name ++ (ds ++ rest)) ≡ some (k, q))
    × (q.state ≡ State.invalid)

-- Once reset, the parsers of SET|BUFFERSIZE|n and SET|TIMEOUT|n read the command with any digits
-- of a number up to 10000000000 to its end and no further, whatever follows, and hold the number.
-- No digits at all count as 0.
pub values_are_read :
    (p : ValueParser) (ds rest : List ℕ)
    → AllDigits ds
    → decimal ds ≤ max_value
    → TakesValue (SetBufferSize.reset p) SetBufferSize.buffer_size_letters ds rest
      × TakesValue (SetTimeout.reset p) SetTimeout.timeout_letters ds rest
unfolding TakesValue SetBufferSize.reset SetTimeout.reset
values_are_read p ds rest d h = (
  (
    _,
    consume_within SetBufferSize.buffer_size_letters (ground arith) (omega arith) ds rest d h,
    refl,
    refl,
  ),
  (
    _,
    consume_within SetTimeout.timeout_letters (ground arith) (omega arith) ds rest d h,
    refl,
    refl,
  ),
)

-- Once reset, both parsers refuse any digits of a number over 10000000000, at one of the digits,
-- whatever follows.
pub large_values_are_refused :
    (p : ValueParser) (ds rest : List ℕ)
    → AllDigits ds
    → max_value < decimal ds
    → RefusesValue (SetBufferSize.reset p) SetBufferSize.buffer_size_letters ds rest
      × RefusesValue (SetTimeout.reset p) SetTimeout.timeout_letters ds rest
unfolding RefusesValue SetBufferSize.reset SetTimeout.reset
large_values_are_refused p ds rest d h = (
  consume_beyond SetBufferSize.buffer_size_letters (ground arith) (omega arith) ds rest d h,
  consume_beyond SetTimeout.timeout_letters (ground arith) (omega arith) ds rest d h,
)

-- A text as it lies in a parser's array of 255 bytes.
abbrev pub stored : List ℕ → List ℕ
stored xs = store zeros 0 xs

-- The parsers, from `h`, `u` and `d`, read the whole command and hold its name and password.
unfoldable pub HelloKeeps : Hello.HelloParser → List ℕ → List ℕ → List ℕ → Type 0
HelloKeeps h name password rest =
    (q : Hello.HelloParser) × (Hello.consume h
        (Hello.Accepts.word ++ (name ++ b'|' ∷ (password ++ (line_end ++ rest))))
      ≡ some (9 + length name + length password, q))
    × (q.state ≡ Hello.State.finished)
    × (q.text.u_name ≡ stored name)
    × (q.text.passwd ≡ stored password)

unfoldable pub SetUserKeeps : SetUser.SetUserParser → List ℕ → List ℕ → List ℕ → Type 0
SetUserKeeps u name password rest =
    (q : SetUser.SetUserParser) × (SetUser.consume u
        (SetUser.Accepts.word ++ (name ++ b'|' ∷ (password ++ (line_end ++ rest))))
      ≡ some (12 + length name + length password, q))
    × (q.state ≡ SetUser.State.finished)
    × (q.text.u_name ≡ stored name)
    × (q.text.passwd ≡ stored password)

unfoldable pub DelUserKeeps : DelUser.DelUserParser → List ℕ → List ℕ → Type 0
DelUserKeeps d name rest =
    (q : DelUser.DelUserParser) × (DelUser.consume d
        (DelUser.Accepts.word ++ (name ++ (line_end ++ rest)))
      ≡ some (11 + length name, q))
    × (q.state ≡ DelUser.State.finished)
    × (q.text.u_name ≡ stored (name ++ 0 ∷ []))

-- A name of 1 to 254 bytes and a password of 1 to 255, none of them a pipe or a carriage return:
-- the parsers of HELLO and SET|USER, once reset, read the command to its end and no further, and
-- hold both. So does the parser of DEL|USER with the name, behind which it puts a zero.
pub names_are_kept :
    (h : Hello.HelloParser) (u : SetUser.SetUserParser) (d : DelUser.DelUserParser)
    (name password rest : List ℕ)
    → AllPlain IsPlain name
    → AllPlain IsPlain password
    → (0 < length name) × (length name < 255)
    → (0 < length password) × (length password ≤ 255)
    → HelloKeeps (Hello.reset h) name password rest
      × SetUserKeeps (SetUser.reset u) name password rest
      × DelUserKeeps (DelUser.reset d) name rest
unfolding HelloKeeps SetUserKeeps DelUserKeeps
names_are_kept h u d name password rest a b l k = (
  (_, consume_hello h name password rest a b (l.0, omega (arith, l.1)) k, refl, refl, refl),
  (_, consume_set_user u name password rest a b (l.0, omega (arith, l.1)) k, refl, refl, refl),
  (_, consume_del_user d name rest a l, refl, refl),
)

-- A name of 255 bytes, none of them a pipe or a carriage return, fills its array: one such byte
-- more makes the parsers of HELLO and SET|USER write behind the array, and at the end of the line
-- the parser of DEL|USER writes its zero there.
pub names_overrun :
    (h : Hello.HelloParser) (u : SetUser.SetUserParser) (d : DelUser.DelUserParser)
    (name rest : List ℕ) (c : ℕ)
    → AllPlain IsPlain name
    → length name ≡ 255
    → IsPlain c
    → (Hello.consume (Hello.reset h) (Hello.Accepts.word ++ (name ++ c ∷ rest)) ≡ none)
      × (SetUser.consume (SetUser.reset u) (SetUser.Accepts.word ++ (name ++ c ∷ rest)) ≡ none)
      × (DelUser.consume (DelUser.reset d) (DelUser.Accepts.word ++ (name ++ (line_end ++ rest)))
          ≡ none)
names_overrun h u d name rest c a l k = (
  consume_hello_overrun h name rest c a l k,
  consume_set_user_overrun u name rest c a l k,
  consume_del_user_overrun d name rest a l,
)
