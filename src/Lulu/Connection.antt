-- ===== src/Lulu/Connection.antt =====
-- The management connection (socks5d/include/lib/lulu/lulu_connection.h), and what the handlers
-- of its two phases share. The members of the union `Data` are fields of their own: each is reset
-- on arrival in the phase that uses it. A null connection is not modelled.
use protos.Base.{
  ℕ, ◌+◌, ◌-◌, ◌%◌, Bool, false, not, List, [], ◌∷◌, Option, none, some, ◌==◌, ltb, length,
  get_elem?, if◌then◌else◌,
}
use protos.Base.Fallible.{◌>>=◌}
use protos.Base.Int.{pos}
use protos.Buffer
use protos.Buffer.{ArrayBuffer}
use protos.Lulu.Commands.{CommandParser}
use protos.Lulu.Goodbye.{GoodbyeParser}
use protos.Lulu.Values.{ValueParser}
use protos.Lulu.Hello.{HelloParser}
use protos.Lulu.SetUser.{SetUserParser}
use protos.Lulu.DelUser.{DelUserParser}
use protos.Lulu.Messages.{Server, Reply}
use protos.Socks5.{Interest, fill}

-- `LULU_CONNECTION_STATE`
pub data LuluState : Type 0 where
  hello_read hello_write transaction_read transaction_write done error : LuluState

-- `LuluConnection`, with the interest that the selector holds for its socket. `user` is the index
-- of the user in the list of the protocol's users.
pub record LuluConnection : Type 0 where
  pub client_interest : Interest
  pub user : Option ℕ
  pub parser_index : ℕ
  pub client_hello_succeeded : Bool
  pub hello : HelloParser
  pub hello_goodbye : GoodbyeParser
  pub goodbye : GoodbyeParser
  pub set_buffer_size : ValueParser
  pub metrics : CommandParser
  pub get_buffer_size : CommandParser
  pub timeout : ValueParser
  pub set_user : SetUserParser
  pub list_users : CommandParser
  pub del_user : DelUserParser
  pub get_timeout : CommandParser
  pub read_buffer : ArrayBuffer
  pub write_buffer : ArrayBuffer

-- What one parser of a handler's loop gives: the state to return, or `none` for `NO_RETURN`, and
-- the connection and the server's settings. The outer `none` is a read or write outside an array,
-- or a failed assertion.
abbrev pub Turn : Type 0
Turn = Option (Option LuluState × LuluConnection × Server)

-- A message built for the room left in a buffer, and the advance behind it; `[]` is a builder
-- that returns 0.
unfoldable pub answer : ArrayBuffer → (ℕ → Reply) → Option (Option ArrayBuffer × Server)
unfolding fill
answer b build = Buffer.write_ptr b >>= λ room. build room >>= λ r. elim r.0 [
  | [] ↦ some (none, r.1)
  | x ∷ xs ↦
      Buffer.write_adv (fill b (x ∷ xs)) (pos (length (x ∷ xs))) >>= λ b'. some (some b', r.1)
]

-- `SelectorSetInterestKey`: the connection with the interest set, if the selector accepts it.
unfoldable pub set_interest : Interest → LuluConnection → Bool → LuluConnection
set_interest i c ok = if ok then record c { client_interest = i } else c

-- The reply queued in the write buffer, and the state `next`; `ERROR` if it does not fit.
unfoldable pub reply : LuluState → LuluConnection → (ℕ → Reply) → Turn
unfolding answer
reply next c build = answer c.write_buffer build >>= λ r. some (elim r.0 [
  | none ↦ (some LuluState.error, c, r.1)
  | some w ↦ (some next, record c { write_buffer = w }, r.1)
])

-- A parser's case of `RunParser` and `RunTransactionParser` once it has consumed the bytes: it
-- waits in `waiting` for more, gives way to the next parser, or replies and goes to `next`. The
-- index is a byte.
unfoldable pub run_command :
    LuluState → LuluState → LuluConnection → Server → Bool → Bool → Bool → (ℕ → Reply) → Turn
unfolding reply set_interest
run_command waiting next c s finished failed ok build =
    if not finished
    then some (some waiting, c, s)
    else if failed
    then some (none, record c { parser_index = (c.parser_index + 1) % 256 }, s)
    else (let fresh = record c { read_buffer = Buffer.reset c.read_buffer } in
        if ok
        then reply next (set_interest Interest.write fresh ok) build
        else some (some LuluState.error, fresh, s))

-- `buffer[bytesRead - 2]` and `buffer[bytesRead - 1]`, for `n` bytes that were read at `from`, are
-- CR and LF. A byte in front of the array cannot be read.
unfoldable pub ends_line : List ℕ → ℕ → ℕ → Option Bool
ends_line memory from n =
    if ltb (from + n) 2
    then none
    else (get_elem? memory (from + n - 2) >>= λ a.
        if not (a == b'\r')
        then some false
        else (get_elem? memory (from + n - 1) >>= λ b. some (b == b'\n')))

-- The last case, of bytes that no parser takes, which were read at `from`: nothing is done up to
-- the end of the line.
unfoldable pub run_unknown :
    LuluState → LuluState → LuluConnection → Server → ℕ → ℕ → Bool → (ℕ → Reply) → Turn
unfolding ends_line reply set_interest
run_unknown waiting next c s from n ok build =
    let fresh = record c { read_buffer = Buffer.reset c.read_buffer } in
    ends_line c.read_buffer.data_bytes from n >>= λ ended.
    if not ended
    then some (some waiting, fresh, s)
    else if ok
    then reply next (set_interest Interest.write fresh ok) build
    else some (some LuluState.error, fresh, s)
