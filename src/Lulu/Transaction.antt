-- ===== src/Lulu/Transaction.antt =====
-- socks5d/lib/lulu/fsm_handlers/lulu_transaction.c: the commands of a user that has logged in.
-- `LuluTransactionWriteInit` and `LuluTransactionReadClose` do nothing.
pub mod Turns
pub mod Dispatch
use protos.Base.{
  ℕ, zero, suc, ◌+◌, Bool, true, false, not, List, [], ◌∷◌, Option, none, some, ◌==◌, leb, length,
  if◌then◌else◌,
}
use protos.Base.Fallible.{◌>>=◌}
use protos.Base.Int.{pos}
use protos.Buffer
use protos.Lulu.Commands
use protos.Lulu.Commands.Metrics
use protos.Lulu.Commands.BufferSize
use protos.Lulu.Commands.Timeout
use protos.Lulu.Commands.ListUsers
use protos.Lulu.Values
use protos.Lulu.Values.BufferSize as SetBufferSize
use protos.Lulu.Values.Timeout as SetTimeout
use protos.Lulu.Goodbye
use protos.Lulu.SetUser
use protos.Lulu.DelUser
use protos.Lulu.Connection.{
  LuluState, LuluConnection, Turn, run_command, run_unknown, reply, set_interest,
}
use protos.Lulu.Messages.{
  Server, build_goodbye_response, build_not_recognised_response, build_set_timeout_response,
  build_set_buffer_size_response, build_del_user_response, build_set_user_response,
  build_list_users_response, build_get_timeout_response, build_get_buffer_size_response,
  build_get_metrics_response,
}
use protos.Socks5.{Interest, Received, bytes, recv_failed, Sent, wrote, send_failed, receive}

-- `T_PARSER_COUNT`
abbrev pub parser_count : ℕ
parser_count = 9

-- The parsers as `Reset` leaves them.
unfoldable pub reset_parsers : LuluConnection → LuluConnection
reset_parsers c = record c {
  parser_index = 0;
  del_user = DelUser.reset c.del_user;
  get_buffer_size = BufferSize.reset c.get_buffer_size;
  get_timeout = Timeout.reset c.get_timeout;
  list_users = ListUsers.reset c.list_users;
  metrics = Metrics.reset c.metrics;
  set_buffer_size = SetBufferSize.reset c.set_buffer_size;
  set_user = SetUser.reset c.set_user;
  timeout = SetTimeout.reset c.timeout;
  goodbye = Goodbye.reset c.goodbye;
}

-- `LuluTransactionReadInit`. The buffer pointers that it also sets always point to the
-- connection's own.
unfoldable pub read_init : LuluConnection → LuluConnection
unfolding reset_parsers
read_init c = reset_parsers c

-- `LuluTransactionWriteClose`
unfoldable pub write_close : LuluConnection → LuluConnection
unfolding reset_parsers
write_close c = record (reset_parsers c) { write_buffer = Buffer.reset c.write_buffer }

-- How the loop of `LuluTransactionReadRun` ends: a parser returns a state, or the index leaves the
-- range, or the steps given do not suffice.
pub data Loop : Type 0 where
  returned : LuluState → Loop
  left_range : Loop
  exhausted : Loop

abbrev run_case :
    LuluConnection → Server → Bool → Bool → Bool → (ℕ → Server → Option (List ℕ × Server)) → Turn
run_case c s finished failed ok build =
    run_command LuluState.transaction_read LuluState.transaction_write c s finished failed ok
      (λ room. build room s)

-- The case `T_GOODBYE_PARSER`.
unfoldable pub run_goodbye : LuluConnection → Server → List ℕ → Bool → Turn
unfolding run_command
run_goodbye c s bs ok = Goodbye.consume c.goodbye bs >>= λ r.
    run_case (record c { goodbye = r.1 }) s (Goodbye.has_finished r.1.state)
      (Goodbye.has_failed r.1.state) ok (λ room v. some (build_goodbye_response room, v))

-- The case `T_SET_BUFFER_SIZE_PARSER`.
unfoldable pub run_set_buffer_size : LuluConnection → Server → List ℕ → Bool → Turn
unfolding run_command
run_set_buffer_size c s bs ok = Values.consume c.set_buffer_size bs >>= λ r.
    run_case (record c { set_buffer_size = r.1 }) s (Values.has_finished r.1.state)
      (Values.has_failed r.1.state) ok (build_set_buffer_size_response r.1.value)

-- The case `T_TIMEOUT_PARSER`.
unfoldable pub run_timeout : LuluConnection → Server → List ℕ → Bool → Turn
unfolding run_command
run_timeout c s bs ok = Values.consume c.timeout bs >>= λ r.
    run_case (record c { timeout = r.1 }) s (Values.has_finished r.1.state)
      (Values.has_failed r.1.state) ok (build_set_timeout_response r.1.value)

-- The case `T_SET_USER_PARSER`.
unfoldable pub run_set_user : LuluConnection → Server → List ℕ → Bool → Turn
unfolding run_command
run_set_user c s bs ok = SetUser.consume c.set_user bs >>= λ r.
    run_case (record c { set_user = r.1 }) s (SetUser.has_finished r.1.state)
      (SetUser.has_failed r.1.state) ok (build_set_user_response r.1.text.u_name r.1.text.passwd)

-- The case `T_LIST_USERS_PARSER`.
unfoldable pub run_list_users : LuluConnection → Server → List ℕ → Bool → Turn
unfolding run_command
run_list_users c s bs ok = Commands.consume c.list_users bs >>= λ r.
    run_case (record c { list_users = r.1 }) s (Commands.has_finished r.1.state)
      (Commands.has_failed r.1.state) ok (build_list_users_response)

-- The case `T_DEL_USER_PARSER`.
unfoldable pub run_del_user : LuluConnection → Server → List ℕ → Bool → Turn
unfolding run_command
run_del_user c s bs ok = DelUser.consume c.del_user bs >>= λ r.
    run_case (record c { del_user = r.1 }) s (DelUser.has_finished r.1.state)
      (DelUser.has_failed r.1.state) ok (build_del_user_response r.1.text.u_name)

module _ (print_number : ℕ → List ℕ) where
  -- The case `T_METRICS_PARSER`.
  unfoldable pub run_metrics : LuluConnection → Server → List ℕ → Bool → Turn
  unfolding run_command
  run_metrics c s bs ok = Commands.consume c.metrics bs >>= λ r.
      run_case (record c { metrics = r.1 }) s (Commands.has_finished r.1.state)
        (Commands.has_failed r.1.state) ok (build_get_metrics_response print_number)

  -- The case `T_GET_BUFFER_SIZE_PARSER`.
  unfoldable pub run_get_buffer_size : LuluConnection → Server → List ℕ → Bool → Turn
  unfolding run_command
  run_get_buffer_size c s bs ok = Commands.consume c.get_buffer_size bs >>= λ r.
      run_case (record c { get_buffer_size = r.1 }) s (Commands.has_finished r.1.state)
        (Commands.has_failed r.1.state) ok (build_get_buffer_size_response print_number)

  -- The case `T_GET_TIMEOUT_PARSER`.
  unfoldable pub run_get_timeout : LuluConnection → Server → List ℕ → Bool → Turn
  unfolding run_command
  run_get_timeout c s bs ok = Commands.consume c.get_timeout bs >>= λ r.
      run_case (record c { get_timeout = r.1 }) s (Commands.has_finished r.1.state)
        (Commands.has_failed r.1.state) ok (build_get_timeout_response print_number)

  -- `RunTransactionParser`, for the bytes `bs` that were read at `from`.
  unfoldable pub run_transaction_parser : LuluConnection → Server → List ℕ → ℕ → Bool → Turn
  unfolding run_goodbye run_set_buffer_size run_metrics run_get_buffer_size run_timeout run_set_user
      run_list_users run_del_user run_get_timeout run_unknown
  run_transaction_parser c s bs from ok =
      if c.parser_index == 0
      then run_goodbye c s bs ok
      else if c.parser_index == 1
      then run_set_buffer_size c s bs ok
      else if c.parser_index == 2
      then run_metrics c s bs ok
      else if c.parser_index == 3
      then run_get_buffer_size c s bs ok
      else if c.parser_index == 4
      then run_timeout c s bs ok
      else if c.parser_index == 5
      then run_set_user c s bs ok
      else if c.parser_index == 6
      then run_list_users c s bs ok
      else if c.parser_index == 7
      then run_del_user c s bs ok
      else if c.parser_index == 8
      then run_get_timeout c s bs ok
      else if c.parser_index == parser_count
      then run_unknown LuluState.transaction_read LuluState.transaction_write c s from (length bs)
          ok (λ room. some (build_not_recognised_response room, s))
      else some (some LuluState.error, c, s)

  -- The loop of `LuluTransactionReadRun`, for `fuel` turns at most.
  unfoldable pub run_parsers :
      ℕ → LuluConnection → Server → List ℕ → ℕ → Bool → Option (Loop × LuluConnection × Server)
  unfolding run_transaction_parser
  run_parsers zero c s bs from ok = some (exhausted, c, s)
  run_parsers (suc fuel) c s bs from ok =
      if leb c.parser_index parser_count
      then (run_transaction_parser c s bs from ok >>= λ r. elim r.0 [
        | none ↦ run_parsers fuel r.1 r.2 bs from ok
        | some state ↦ some (returned state, r.1, r.2)
      ])
      else some (left_range, c, s)

  -- What `LuluTransactionReadRun` does behind its loop. A loop that is `exhausted` has no outcome;
  -- 11 turns are enough.
  unfoldable pub read_ended : Loop → LuluConnection → Server → Turn
  unfolding reply
  read_ended (returned state) c s = some (some state, c, s)
  read_ended left_range c s =
      reply LuluState.transaction_write c (λ room. some (build_not_recognised_response room, s))
  read_ended exhausted c s = none

  -- `LuluTransactionReadRun`, given what `recv` and the selector answer.
  unfoldable pub read_run : LuluConnection → Server → Received → Bool → Turn
  unfolding run_parsers read_ended
  read_run c s recv_failed ok =
      Buffer.write_ptr c.read_buffer >>= λ room. some (some LuluState.error, c, s)
  read_run c s (bytes []) ok =
      Buffer.write_ptr c.read_buffer >>= λ room. some (some LuluState.error, c, s)
  read_run c s (bytes (x ∷ xs)) ok = receive c.read_buffer (x ∷ xs) >>= λ b.
      run_parsers 11 (record c { read_buffer = b }) s (x ∷ xs) c.read_buffer.write_head ok >>= λ r.
      read_ended r.0 r.1 r.2

-- `LuluTransactionWriteRun`, given what `send` and the selector answer.
unfoldable pub write_run : LuluConnection → Sent → Bool → Option (LuluState × LuluConnection)
unfolding set_interest
write_run c sent ok =
    if not (Buffer.can_read c.write_buffer)
    then some (
        if c.parser_index == 0
        then (LuluState.done, c)
        else (if ok
            then (LuluState.transaction_read, set_interest Interest.read c ok)
            else (LuluState.error, c)))
    else (Buffer.read_ptr c.write_buffer >>= λ readable. elim sent [
      | send_failed ↦ some (LuluState.error, c)
      | wrote n ↦ Buffer.read_adv c.write_buffer (pos n) >>= λ w.
          some (LuluState.transaction_write, record c { write_buffer = w })
    ])
