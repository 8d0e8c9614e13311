-- ===== src/Lulu/Transaction/Dispatch.antt =====
-- The command SET|TIMEOUT|n from the bytes that arrive to the setting and the reply.
use protos.Base.{
  ℕ, suc, ◌+◌, ◌-◌, ◌%◌, ◌≤◌, true, List, [], ◌∷◌, ◌++◌, Option, none, some, ◌≡◌, refl, sym, ap,
  ◌∙◌, arith, length,
}
use mathlib.Core.Path.{subst}
use protos.Buffer
use protos.Buffer.{ArrayBuffer}
use protos.Buffer.Inv.{IsValid}
use protos.Buffer.Contents.{contents}
use protos.Lulu.Commands
use protos.Lulu.Commands.Metrics
use protos.Lulu.Commands.BufferSize
use protos.Lulu.Values
use protos.Lulu.Values.BufferSize as SetBufferSize
use protos.Lulu.Values.Timeout as SetTimeout
use protos.Lulu.Values.Accepts.{opening, line_end, consume_within}
use protos.Lulu.Values.Digits.{AllDigits, decimal}
use protos.Lulu.Goodbye
use protos.Lulu.Words.{traverse_word}
use protos.Lulu.Connection.{LuluState, LuluConnection, run_command, reply, answer, set_interest}
use protos.Lulu.Messages.{Server, Reply, ok_text, fill_text, build_set_timeout_response}
use protos.Lulu.Transaction.{
  Loop, returned, run_goodbye, run_set_buffer_size, run_metrics, run_get_buffer_size, run_timeout,
  run_transaction_parser, run_parsers, read_run, read_init, reset_parsers, read_ended,
}
use protos.Lulu.Transaction.Turns.{next_turn, one_turn}
use protos.Socks5.{Interest, bytes, receive, fill}
use protos.Socks5.Filling.{filled, contents-filled, receive_lem}
use protos.Stream.Faulty
use protos.Users.{string_length}

-- The bytes of the command.
abbrev pub message : List ℕ → List ℕ
message ds = opening SetTimeout.timeout_letters ++ (ds ++ (line_end ++ []))

refused_goodbye :
    (g : Goodbye.GoodbyeParser) (xs : List ℕ)
    → Goodbye.consume (Goodbye.reset g) (b'S' ∷ xs)
      ≡ some (1, record (Goodbye.reset g) { state = Goodbye.State.invalid })
unfolding Goodbye.consume Faulty.consume Faulty.consume_from Goodbye.machine Goodbye.feed
    Goodbye.feed_in Goodbye.traverse Goodbye.reset Goodbye.has_finished string_length
refused_goodbye g xs = refl

refused_buffer_size :
    (p : Values.ValueParser) (xs : List ℕ)
    → (q : Values.ValueParser) × (Values.consume
          (SetBufferSize.reset p)
          (b'S' ∷ b'E' ∷ b'T' ∷ b'|' ∷ b'T' ∷ xs)
        ≡ some (5, q))
      × (q.state ≡ Values.State.invalid)
unfolding Values.consume Faulty.consume Faulty.consume_from Values.machine Values.feed
    Values.feed_in Values.traverse Values.moved Values.start SetBufferSize.reset Values.has_finished
    string_length traverse_word
refused_buffer_size p xs = (_, refl, refl)

refused_words :
    (b xs : List ℕ)
    → (q : Commands.CommandParser) × (Commands.consume
          (Commands.start (b'G' ∷ b'E' ∷ b'T' ∷ 0 ∷ []) b)
          (b'S' ∷ xs)
        ≡ some (1, q))
      × (q.state ≡ Commands.State.invalid)
unfolding Commands.consume Faulty.consume Faulty.consume_from Commands.machine Commands.feed
    Commands.feed_in Commands.traverse Commands.moved Commands.start Commands.has_finished
    string_length traverse_word
refused_words b xs = (_, refl, refl)

-- The connection behind a turn that returns no state.
abbrev passed : LuluConnection → LuluConnection
passed c = record c { parser_index = (c.parser_index + 1) % 256 }

fifth_turn :
    (print_number : ℕ → List ℕ) (d : LuluConnection) (s : Server) (bs : List ℕ) (from : ℕ)
    → d.parser_index ≡ 4
    → run_transaction_parser print_number d s bs from true ≡ run_timeout d s bs true
unfolding run_transaction_parser
fifth_turn print_number d s bs from e = rw (run_transaction_parser, e) refl

last_turn :
    (print_number : ℕ → List ℕ) (d e : LuluConnection) (s t : Server) (bs : List ℕ) (from : ℕ)
    (state : LuluState)
    → d.parser_index ≡ 4
    → run_timeout d s bs true ≡ some (some state, e, t)
    → run_parsers print_number 7 d s bs from true ≡ some (returned state, e, t)
last_turn print_number d e s t bs from state index run =
    one_turn print_number bs from true 6 d s (omega arith)
    ∙ ap (next_turn print_number bs from true 6) (fifth_turn print_number d s bs from index ∙ run)

read_steps :
    (print_number : ℕ → List ℕ) (c e : LuluConnection) (s t : Server) (x : ℕ) (xs : List ℕ)
    (b : ArrayBuffer) (state : LuluState)
    → receive c.read_buffer (x ∷ xs) ≡ some b
    → run_parsers print_number 11
        (record c { read_buffer = b })
        s
        (x ∷ xs)
        c.read_buffer.write_head
        true
      ≡ some (returned state, e, t)
    → read_run print_number c s (bytes (x ∷ xs)) true ≡ some (some state, e, t)
unfolding read_run read_ended
read_steps print_number c e s t x xs b state got run = rw (read_run, got, run) refl

module _ (print_number : ℕ → List ℕ) (c : LuluConnection) (s : Server) (bs : List ℕ) (n : ℕ) where
  goodbye_passes :
      (q : Goodbye.GoodbyeParser)
      → Goodbye.consume c.goodbye bs ≡ some (n, q)
      → q.state ≡ Goodbye.State.invalid
      → run_goodbye c s bs true ≡ some (none, passed (record c { goodbye = q }), s)
  unfolding run_goodbye run_command Goodbye.has_finished Goodbye.has_failed
  goodbye_passes q e v = rw (e, v, Goodbye.has_finished, Goodbye.has_failed) refl

  set_buffer_size_passes :
      (q : Values.ValueParser)
      → Values.consume c.set_buffer_size bs ≡ some (n, q)
      → q.state ≡ Values.State.invalid
      → run_set_buffer_size c s bs true ≡ some (none, passed (record c { set_buffer_size = q }), s)
  unfolding run_set_buffer_size run_command Values.has_finished Values.has_failed
  set_buffer_size_passes q e v = rw (e, v, Values.has_finished, Values.has_failed) refl

  metrics_passes :
      (q : Commands.CommandParser)
      → Commands.consume c.metrics bs ≡ some (n, q)
      → q.state ≡ Commands.State.invalid
      → run_metrics print_number c s bs true ≡ some (none, passed (record c { metrics = q }), s)
  unfolding run_metrics run_command Commands.has_finished Commands.has_failed
  metrics_passes q e v = rw (e, v, Commands.has_finished, Commands.has_failed) refl

  get_buffer_size_passes :
      (q : Commands.CommandParser)
      → Commands.consume c.get_buffer_size bs ≡ some (n, q)
      → q.state ≡ Commands.State.invalid
      → run_get_buffer_size print_number c s bs true
        ≡ some (none, passed (record c { get_buffer_size = q }), s)
  unfolding run_get_buffer_size run_command Commands.has_finished Commands.has_failed
  get_buffer_size_passes q e v = rw (e, v, Commands.has_finished, Commands.has_failed) refl

module _ (print_number : ℕ → List ℕ) (s : Server) (ds : List ℕ) (from : ℕ) where
  abbrev loop : ℕ → LuluConnection → Option (Loop × LuluConnection × Server)
  loop fuel c = run_parsers print_number fuel c s (message ds) from true

  pass :
      (fuel : ℕ) (c d : LuluConnection)
      → c.parser_index ≤ 9
      → run_transaction_parser print_number c s (message ds) from true ≡ some (none, d, s)
      → loop (suc fuel) c ≡ loop fuel d
  pass fuel c d h e =
      one_turn print_number (message ds) from true fuel c s h
      ∙ ap (next_turn print_number (message ds) from true fuel) e

  -- The first four parsers refuse the command.
  four_turns :
      (c : LuluConnection) (b : ArrayBuffer)
      → (d : LuluConnection) × (loop 11 (record (read_init c) { read_buffer = b }) ≡ loop 7 d)
        × (d.parser_index ≡ 4)
        × (d.timeout ≡ SetTimeout.reset c.timeout)
        × (d.write_buffer ≡ c.write_buffer)
  unfolding read_init reset_parsers Metrics.reset BufferSize.reset run_transaction_parser
  four_turns c b =
      let tail = b'|' ∷ (ds ++ (line_end ++ [])) in
      let time = b'T' ∷ b'I' ∷ b'M' ∷ b'E' ∷ b'O' ∷ b'U' ∷ b'T' ∷ tail in
      let imeout = b'I' ∷ b'M' ∷ b'E' ∷ b'O' ∷ b'U' ∷ b'T' ∷ tail in
      let et = b'E' ∷ b'T' ∷ b'|' ∷ time in
      let c0 = record (read_init c) { read_buffer = b } in
      let q0 = record (Goodbye.reset c.goodbye) { state = Goodbye.State.invalid } in
      let c1 = passed (record c0 { goodbye = q0 }) in
      let (q1, e1, v1) = refused_buffer_size c.set_buffer_size imeout in
      let c2 = passed (record c1 { set_buffer_size = q1 }) in
      let (q2, e2, v2) =
        refused_words (b'M' ∷ b'E' ∷ b'T' ∷ b'R' ∷ b'I' ∷ b'C' ∷ b'S' ∷ 0 ∷ []) et in
      let c3 = passed (record c2 { metrics = q2 }) in
      let (q3, e3, v3) =
        refused_words (b'B' ∷ b'U' ∷ b'F' ∷ b'F' ∷ b'E' ∷ b'R' ∷ b'S' ∷ b'I' ∷ b'Z' ∷ b'E' ∷ 0 ∷ [])
          et in
      let c4 = passed (record c3 { get_buffer_size = q3 }) in
      (
        c4,
        pass 10 c0 c1 (omega arith) (
              goodbye_passes print_number c0 s (message ds) 1 q0 (refused_goodbye c.goodbye et)
                refl)
            ∙ pass 9 c1 c2 (omega arith)
                (set_buffer_size_passes print_number c1 s (message ds) 5 q1 e1 v1)
            ∙ pass 8 c2 c3 (omega arith) (metrics_passes print_number c2 s (message ds) 1 q2 e2 v2)
            ∙ pass 7 c3 c4 (omega arith)
                (get_buffer_size_passes print_number c3 s (message ds) 1 q3 e3 v3),
        refl,
        refl,
        refl,
      )

-- A reply that fits is queued in the write buffer.
reply_queued :
    {c : LuluConnection} (v : IsValid c.write_buffer) (next : LuluState) (build : ℕ → Reply) (x : ℕ)
    (xs : List ℕ) (s : Server)
    → build (c.write_buffer.size - c.write_buffer.write_head) ≡ some (x ∷ xs, s)
    → (fits : c.write_buffer.write_head + length (x ∷ xs) ≤ c.write_buffer.size)
    → reply next c build ≡ some (some next, record c { write_buffer = filled v (x ∷ xs) fits }, s)
unfolding reply answer fill Buffer.write_ptr Buffer.write_adv
reply_queued {c} v next build x xs s e fits = ground (arith, v.inside)

timeout_replies :
    (d : LuluConnection) (s : Server) (bs : List ℕ) (n : ℕ) (q : Values.ValueParser)
    (v : IsValid d.write_buffer)
    → Values.consume d.timeout bs ≡ some (n, record q { state = Values.State.finished })
    → (fits : d.write_buffer.write_head + 5 ≤ d.write_buffer.size)
    → run_timeout d s bs true
      ≡ some (
        some LuluState.transaction_write,
        record d {
          timeout = record q { state = Values.State.finished };
          read_buffer = Buffer.reset d.read_buffer;
          client_interest = Interest.write;
          write_buffer = filled v ok_text fits;
        },
        record s { timeout = q.value },
      )
unfolding run_timeout run_command set_interest Values.has_finished Values.has_failed
    build_set_timeout_response fill_text
timeout_replies d s bs n q v e fits = rw e (
    reply_queued v LuluState.transaction_write (λ room. build_set_timeout_response q.value room s)
      b'+' (b'O' ∷ b'K' ∷ b'\r' ∷ b'\n' ∷ []) (record s { timeout = q.value }) (ground arith) fits)

module _ (print_number : ℕ → List ℕ) (c : LuluConnection) (s : Server) (ds : List ℕ) where
  -- A connection that arrives to read a command, and gets SET|TIMEOUT|n in one read, with the
  -- digits of a number up to 10000000000: when both buffers have the room, it queues "+OK" behind
  -- what the write buffer holds, sets the timeout to the number and nothing else of the server,
  -- and goes on to write.
  pub timeout_is_set :
      AllDigits ds
      → decimal ds ≤ 10000000000
      → IsValid c.read_buffer
      → (v : IsValid c.write_buffer)
      → c.read_buffer.write_head + length (message ds) ≤ c.read_buffer.size
      → c.write_buffer.write_head + 5 ≤ c.write_buffer.size
      → (d : LuluConnection) × (read_run print_number (read_init c) s (bytes (message ds)) true
          ≡ some (some LuluState.transaction_write, d, record s { timeout = decimal ds }))
        × (contents d.write_buffer ≡ contents c.write_buffer ++ ok_text)
        × (d.client_interest ≡ Interest.write)
  unfolding read_init reset_parsers SetTimeout.reset
  timeout_is_set digits small r v room fits =
      let (d, turns, index, parser, buffer) =
        four_turns print_number s ds c.read_buffer.write_head c (filled r (message ds) room) in
      let w = subst IsValid (sym buffer) v in
      let space : d.write_buffer.write_head + 5 ≤ d.write_buffer.size = rw buffer fits in
      let read =
        consume_within SetTimeout.timeout_letters (ground arith) (omega arith) ds [] digits small in
      let q : Values.ValueParser = record {
        state = Values.State.finished;
        set_chars = b'S' ∷ b'E' ∷ b'T' ∷ 0 ∷ [];
        name_chars = SetTimeout.timeout_letters ++ 0 ∷ [];
        value = decimal ds;
        index = 0;
        word = none;
      } in
      let run =
        timeout_replies d s (message ds) _ q w
          (ap (λ p. Values.consume p (message ds)) parser ∙ read) space in
      (
        _,
        read_steps print_number (read_init c) _ s (record s { timeout = decimal ds }) b'S' _
            (filled r (message ds) room) LuluState.transaction_write
            (receive_lem r (message ds) room)
            (turns
              ∙ last_turn print_number d _ s _ (message ds) c.read_buffer.write_head
                  LuluState.transaction_write index run),
        contents-filled w ok_text space ∙ ap (λ t. contents t ++ ok_text) buffer,
        refl,
      )
