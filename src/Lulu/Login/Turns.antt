-- ===== src/Lulu/Login/Turns.antt =====
-- That the loop over the two parsers of the login ends.
use mathlib.Core.Path.{subst}
use protos.Base.{
  ℕ, zero, suc, ◌+◌, ◌%◌, ◌≤◌, ◌<◌, Bool, true, false, not, List, Option, none, some, inl, inr, ◌⊎◌,
  ◌==◌, ◌≡◌, refl, sym, arith, leb, length, if◌then◌else◌,
}
use protos.Base.Fallible.{◌>>=◌}
use protos.Buffer
use protos.Lulu.Connection.{LuluState, LuluConnection, Turn, reply, set_interest}
use protos.Lulu.Goodbye
use protos.Lulu.Hello
use protos.Lulu.Hello.{HelloParser}
use protos.Lulu.Messages.{
  Server, build_hello_response, build_goodbye_response, build_not_recognised_response,
}
use protos.Lulu.Transaction.{Loop, returned}
use protos.Lulu.Transaction.Turns.{
  Advances, Returns, Ends, bound, reply-Advances, run_command-Advances, run_unknown-Returns,
}
use protos.Lulu.Login.{log_in_parsed, run_hello, run_goodbye, run_parser, run_parsers}
use protos.Socks5.{Interest}
use protos.Users.{User}

module _ (users : List User) (s : Server) (bs : List ℕ) (from : ℕ) (ok : Bool) where
  run_hello-Advances : (c : LuluConnection) → Advances c.parser_index (run_hello users c s bs ok)
  unfolding run_hello
  run_hello-Advances c =
      bound c.parser_index (Hello.consume c.hello bs) _
        (λ r. parsed r.1 (Hello.has_finished r.1.state) (Hello.has_failed r.1.state) ok)
    where
      parsed :
          (q : HelloParser) (finished failed accepted : Bool)
          → Advances c.parser_index (
              if not finished
              then some (some LuluState.hello_read, record c { hello = q }, s)
              else if failed
              then some (none, record c { hello = q; parser_index = (c.parser_index + 1) % 256 }, s)
              else (let fresh = record c { hello = q; read_buffer = Buffer.reset c.read_buffer } in
                  if accepted
                  then (log_in_parsed users (set_interest Interest.write fresh accepted) >>= λ l.
                      reply LuluState.hello_write l
                        (λ room. some (build_hello_response room l.client_hello_succeeded, s)))
                  else some (some LuluState.error, fresh, s)))
      parsed q false failed accepted = tt
      parsed q true true accepted = refl
      parsed q true false false = tt
      parsed q true false true =
          bound c.parser_index
            (log_in_parsed users (
              set_interest Interest.write
                (record c { hello = q; read_buffer = Buffer.reset c.read_buffer }) true))
            (λ l.
              reply LuluState.hello_write l
                (λ room. some (build_hello_response room l.client_hello_succeeded, s)))
            (λ l.
              reply-Advances c.parser_index LuluState.hello_write l
                (λ room. some (build_hello_response room l.client_hello_succeeded, s)))

  run_goodbye-Advances : (c : LuluConnection) → Advances c.parser_index (run_goodbye c s bs ok)
  unfolding run_goodbye
  run_goodbye-Advances c = bound c.parser_index (Goodbye.consume c.hello_goodbye bs) _ (λ r.
      run_command-Advances LuluState.hello_read LuluState.hello_write
        (record c { hello_goodbye = r.1 }) s (Goodbye.has_finished r.1.state)
        (Goodbye.has_failed r.1.state) ok (λ room. some (build_goodbye_response room, s)))

  turn_kind :
      (c : LuluConnection)
      → c.parser_index ≤ 2
      → ((c.parser_index < 2) × Advances c.parser_index (run_parser users c s bs from ok))
        ⊎ Returns (run_parser users c s bs from ok)
  unfolding run_parser
  turn_kind c h =
      chosen c.parser_index h (run_hello users c s bs ok) (run_goodbye c s bs ok) _
        (run_hello-Advances c) (run_goodbye-Advances c)
        (run_unknown-Returns LuluState.hello_read LuluState.hello_write c s from (length bs) ok
          (λ room. some (build_not_recognised_response room, s)))
    where
      chosen :
          (i : ℕ)
          → i ≤ 2
          → (t u v : Turn) → Advances i t
          → Advances i u
          → Returns v
          → ((i < 2) × Advances i (if i == 0 then t else if i == 1 then u else v))
            ⊎ Returns (if i == 0 then t else if i == 1 then u else v)
      chosen zero h t u v a b r = inl (omega arith, a)
      chosen (suc zero) h t u v a b r = inl (omega arith, b)
      chosen (suc (suc zero)) h t u v a b r = inr r
      chosen (suc (suc (suc i))) h t u v a b r = absurd (omega arith)

module _ (users : List User) (bs : List ℕ) (from : ℕ) (ok : Bool) where
  -- The rest of the loop behind a turn.
  abbrev next_turn : ℕ → Turn → Option (Loop × LuluConnection × Server)
  next_turn fuel none = none
  next_turn fuel (some (none, c, t)) = run_parsers users fuel c t bs from ok
  next_turn fuel (some (some state, c, t)) = some (returned state, c, t)

  one_turn :
      (fuel : ℕ) (c : LuluConnection) (s : Server)
      → c.parser_index ≤ 2
      → run_parsers users (suc fuel) c s bs from ok
        ≡ next_turn fuel (run_parser users c s bs from ok)
  unfolding run_parsers
  one_turn fuel c s h =
      rw (run_parsers, in_range c.parser_index h) (behind (run_parser users c s bs from ok))
    where
      in_range : (n : ℕ) → n ≤ 2 → leb n 2 ≡ true
      in_range n h = ground arith

      behind :
          (t : Turn)
          → (t >>= λ r. elim r.0 [
            | none ↦ run_parsers users fuel r.1 r.2 bs from ok
            | some state ↦ some (returned state, r.1, r.2)
          ])
            ≡ next_turn fuel t
      behind none = refl
      behind (some (none, c, s)) = refl
      behind (some (some state, c, s)) = refl

  Ends-turn :
      (fuel i : ℕ) (t : Turn)
      → 3 ≤ i + suc fuel
      → ((i < 2) × Advances i t) ⊎ Returns t
      → ((c : LuluConnection) (s : Server)
          → c.parser_index ≤ 2
          → 3 ≤ c.parser_index + fuel
          → Ends (run_parsers users fuel c s bs from ok))
      → Ends (next_turn fuel t)
  Ends-turn fuel i none k h ih = tt
  Ends-turn fuel i (some (some state, c, s)) k h ih = tt
  Ends-turn fuel i (some (none, c, s)) k (inr r) ih = absurd r
  Ends-turn fuel i (some (none, c, s)) k (inl (l, a)) ih = ih c s (omega arith) (omega arith)

  -- From the index of a parser, the loop of the login ends after as many turns as there are parsers
  -- left: one of them has returned a state, unless there was a fault.
  pub login_parsers_end :
      (fuel : ℕ) (c : LuluConnection) (s : Server)
      → c.parser_index ≤ 2
      → 3 ≤ c.parser_index + fuel
      → Ends (run_parsers users fuel c s bs from ok)
  login_parsers_end zero c s h k = absurd (omega arith)
  login_parsers_end (suc fuel) c s h k = subst Ends (sym (one_turn fuel c s h)) (
      Ends-turn fuel c.parser_index (run_parser users c s bs from ok) k
        (turn_kind users s bs from ok c h) (login_parsers_end fuel))
