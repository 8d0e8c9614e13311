-- ===== src/Lulu/Login/Reads.antt =====
-- What the reading handler of the login keeps, turn by turn.
use protos.Base.{
  ℕ, zero, suc, ◌+◌, ◌%◌, Bool, true, false, List, [], ◌∷◌, Option, none, some, ◌==◌, ◌≡◌, ◌≢◌,
  refl, arith, leb, not, length, if◌then◌else◌,
}
use protos.Base.Fallible.{◌>>=◌}
use protos.Buffer
use protos.Buffer.{ArrayBuffer}
use protos.Lulu.Goodbye
use protos.Lulu.Hello
use protos.Lulu.Hello.{HelloParser}
use protos.Lulu.Connection.{LuluState, LuluConnection, Turn, run_unknown, reply, set_interest}
use protos.Lulu.Messages.{
  Server, build_hello_response, build_goodbye_response, build_not_recognised_response,
}
use protos.Lulu.Transaction.{Loop, returned, left_range, exhausted}
use protos.Lulu.Login.{
  log_in_parsed, run_hello, run_goodbye, run_parser, run_parsers, loop_state, read_run,
}
use protos.Lulu.Login.Admission.{HelloRead, fed, IsHonest, later-IsHonest, passed-IsHonest}
use protos.Lulu.Login.Honest.{
  emptied, Keeps, Keeps-then, Keeps-after, reply-Keeps, run_command-Keeps, run_unknown-Keeps,
  log_in_parsed-Keeps,
}
use protos.Socks5.{Interest, Received, bytes, recv_failed, receive}
use protos.Users.{User}

done_state :
    (st : Hello.State)
    → Hello.has_finished st ≡ true
    → Hello.has_failed st ≡ false
    → st ≡ Hello.State.finished
unfolding Hello.has_finished Hello.has_failed
done_state Hello.State.finished h k = refl
done_state Hello.State.invalid h k = cc
done_state Hello.State.hello h k = cc
done_state Hello.State.hello_username h k = cc
done_state Hello.State.hello_password h k = cc
done_state Hello.State.hello_crlf h k = cc

-- `reads` is what was received before, and `bs` what is now.
module _ (users : List User) (reads : List (List ℕ)) (bs : List ℕ) where
  abbrev Holds : Turn → Type 0
  Holds = Keeps users reads (bs ∷ reads)

  run_hello-Keeps :
      (c : LuluConnection) (s : Server) (ok : Bool)
      → IsHonest users reads (bs ∷ reads) c
      → c.parser_index ≡ 0
      → Holds (run_hello users c s bs ok)
  unfolding run_hello set_interest
  run_hello-Keeps c s ok h e =
      Keeps-after users reads (bs ∷ reads) (Hello.consume c.hello bs) _ (λ r f.
        parsed r.1 (Hello.has_finished r.1.state) (Hello.has_failed r.1.state) ok refl refl
          (fed bs r.0 (h.2 e) f))
    where
      parsed :
          (q : HelloParser) (finished failed accepted : Bool)
          → Hello.has_finished q.state ≡ finished
          → Hello.has_failed q.state ≡ failed
          → HelloRead (bs ∷ reads) q
          → Holds (
              if not finished
              then some (some LuluState.hello_read, record c { hello = q }, s)
              else if failed
              then some (none, record c { hello = q; parser_index = (c.parser_index + 1) % 256 }, s)
              else (if accepted
                  then (log_in_parsed users
                        (set_interest Interest.write (emptied (record c { hello = q })) accepted)
                      >>= λ l.
                          reply LuluState.hello_write l
                            (λ room. some (build_hello_response room l.client_hello_succeeded, s)))
                  else some (some LuluState.error, emptied (record c { hello = q }), s)))
      parsed q false failed accepted f g read = (h.0, h.1, λ z. read)
      parsed q true true accepted f g read = (omega arith, h.1, λ z. absurd (omega arith))
      parsed q true false true f g read =
          log_in_parsed-Keeps users reads (bs ∷ reads)
            (record (emptied (record c { hello = q })) { client_interest = Interest.write })
            (λ l.
              reply LuluState.hello_write l
                (λ room. some (build_hello_response room l.client_hello_succeeded, s)))
            h.0 read (done_state q.state f g)
            (λ d k.
              reply-Keeps users reads (bs ∷ reads) LuluState.hello_write d
                (λ room. some (build_hello_response room d.client_hello_succeeded, s)) k)
      parsed q true false false f g read = (h.0, h.1, λ z. read)

  run_goodbye-Keeps :
      (c : LuluConnection) (s : Server) (ok : Bool)
      → IsHonest users reads (bs ∷ reads) c
      → c.parser_index ≡ 1
      → Holds (run_goodbye c s bs ok)
  unfolding run_goodbye
  run_goodbye-Keeps c s ok h e =
      Keeps-then users reads (bs ∷ reads) (Goodbye.consume c.hello_goodbye bs) _ (λ r.
        run_command-Keeps users reads (bs ∷ reads) LuluState.hello_read LuluState.hello_write
          (record c { hello_goodbye = r.1 }) s (Goodbye.has_finished r.1.state)
          (Goodbye.has_failed r.1.state) ok (λ room. some (build_goodbye_response room, s))
          (h.0, h.1, λ z. absurd (omega arith)) e)

  run_parser-Keeps :
      (c : LuluConnection) (s : Server) (from : ℕ) (ok : Bool)
      → IsHonest users reads (bs ∷ reads) c
      → Holds (run_parser users c s bs from ok)
  unfolding run_parser
  run_parser-Keeps c s from ok h =
      chosen (c.parser_index == 0) (c.parser_index == 1) (λ e. ground arith) (λ e. ground arith)
        (λ e. ground arith)
    where
      chosen :
          (hello goodbye : Bool)
          → (hello ≡ true → c.parser_index ≡ 0)
          → (goodbye ≡ true → c.parser_index ≡ 1)
          → (hello ≡ false → c.parser_index ≢ 0)
          → Holds (
              if hello
              then run_hello users c s bs ok
              else if goodbye
              then run_goodbye c s bs ok
              else run_unknown LuluState.hello_read LuluState.hello_write c s from
                  (length bs)
                  ok
                  (λ room. some (build_not_recognised_response room, s)))
      chosen true goodbye e f n = run_hello-Keeps c s ok h (e refl)
      chosen false true e f n = run_goodbye-Keeps c s ok h (f refl)
      chosen false false e f n =
          run_unknown-Keeps users reads (bs ∷ reads) LuluState.hello_read LuluState.hello_write c s
            from (length bs) ok (λ room. some (build_not_recognised_response room, s))
            (passed-IsHonest c (n refl) h)

  -- Every connection that the loop may leave is honest.
  abbrev KeepsLoop : Option (Loop × LuluConnection × Server) → Type 0
  KeepsLoop none = Unit
  KeepsLoop (some (returned state, c, s)) = IsHonest users (bs ∷ reads) (bs ∷ reads) c
  KeepsLoop (some (_, c, s)) = IsHonest users reads (bs ∷ reads) c

  run_parsers-Keeps :
      (fuel : ℕ) (c : LuluConnection) (s : Server) (from : ℕ) (ok : Bool)
      → IsHonest users reads (bs ∷ reads) c
      → KeepsLoop (run_parsers users fuel c s bs from ok)
  unfolding run_parsers
  run_parsers-Keeps zero c s from ok h = h
  run_parsers-Keeps (suc fuel) c s from ok h = in_range (leb c.parser_index 2) _ (
      behind (run_parser users c s bs from ok) (run_parser-Keeps c s from ok h)
        (λ d t k. run_parsers-Keeps fuel d t from ok k))
    where
      behind :
          (t : Turn)
          → Holds t
          → ((d : LuluConnection) (t : Server)
              → IsHonest users reads (bs ∷ reads) d
              → KeepsLoop (run_parsers users fuel d t bs from ok))
          → KeepsLoop (
              t >>= λ r. elim r.0 [
                | none ↦ run_parsers users fuel r.1 r.2 bs from ok
                | some state ↦ some (returned state, r.1, r.2)
              ])
      behind none k ih = tt
      behind (some (none, d, t)) k ih = ih d t k
      behind (some (some state, d, t)) k ih = k

      in_range :
          (b : Bool) (m : Option (Loop × LuluConnection × Server))
          → KeepsLoop m
          → KeepsLoop (if b then m else some (left_range, c, s))
      in_range true m k = k
      in_range false m k = h

  looped-Keeps :
      (m : Option (Loop × LuluConnection × Server))
      → KeepsLoop m
      → Holds (m >>= λ r. some (loop_state r.0, r.1, r.2))
  looped-Keeps none k = tt
  looped-Keeps (some (returned state, d, t)) k = k
  looped-Keeps (some (left_range, d, t)) k = k
  looped-Keeps (some (exhausted, d, t)) k = k

-- The reads with one more, unless it fails or is the end of the input.
abbrev pub heard : Received → List (List ℕ) → List (List ℕ)
heard recv_failed reads = reads
heard (bytes []) reads = reads
heard (bytes (x ∷ xs)) reads = (x ∷ xs) ∷ reads

pub read_run-Keeps :
    (users : List User) (reads : List (List ℕ)) (c : LuluConnection) (s : Server) (r : Received)
    (ok : Bool)
    → IsHonest users reads reads c
    → Keeps users reads (heard r reads) (read_run users c s r ok)
unfolding read_run
read_run-Keeps users reads c s recv_failed ok h =
    Keeps-then users reads reads (Buffer.write_ptr c.read_buffer) _ (λ room. h)
read_run-Keeps users reads c s (bytes []) ok h =
    Keeps-then users reads reads (Buffer.write_ptr c.read_buffer) _ (λ room. h)
read_run-Keeps users reads c s (bytes (x ∷ xs)) ok h =
    Keeps-then users reads ((x ∷ xs) ∷ reads) (receive c.read_buffer (x ∷ xs)) _ (λ b.
      looped-Keeps users reads (x ∷ xs) _ (
        run_parsers-Keeps users reads (x ∷ xs) 4 (record c { read_buffer = b }) s
          c.read_buffer.write_head ok (later-IsHonest c (x ∷ xs) h)))
