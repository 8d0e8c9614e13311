-- ===== src/Lulu/Transaction/Turns.antt =====
-- That the loop over the parsers ends.
use protos.Base.{
  ℕ, zero, suc, ◌+◌, ◌%◌, ◌≤◌, ◌<◌, Bool, true, false, List, Option, none, some, inl, inr, ◌≡◌, not,
  refl, ap, ◌∙◌, arith, leb, dec_lt, length, if◌then◌else◌, ◌⊎◌, sym,
}
use protos.Base.Fallible.{◌>>=◌}
use protos.Lulu.Commands
use protos.Lulu.Values
use protos.Lulu.Goodbye
use protos.Lulu.SetUser
use protos.Lulu.DelUser
use protos.Lulu.Connection.{
  LuluState, LuluConnection, Turn, run_command, run_unknown, reply, answer, ends_line, set_interest,
}
use protos.Buffer
use protos.Socks5.{Interest}
use mathlib.Core.Path.{subst}
use protos.Buffer.{ArrayBuffer}
use protos.Lulu.Messages.{Server, Reply, build_goodbye_response, build_not_recognised_response}
use protos.Lulu.Transaction.{
  Loop, returned, left_range, exhausted, run_goodbye, run_set_buffer_size, run_metrics,
  run_get_buffer_size, run_timeout, run_set_user, run_list_users, run_del_user, run_get_timeout,
  run_transaction_parser, run_parsers,
}

-- A turn of parser `i` that returns no state leaves the index of the next.
abbrev pub Advances : ℕ → Turn → Type 0
Advances i none = Unit
Advances i (some (none, c, s)) = c.parser_index ≡ (i + 1) % 256
Advances i (some (some state, c, s)) = Unit

pub bound :
    {A : Type 0} (i : ℕ) (m : Option A) (f : A → Turn)
    → ((a : A) → Advances i (f a))
    → Advances i (m >>= f)
bound i none f h = tt
bound i (some a) f h = h a

pub reply-Advances :
    (i : ℕ) (next : LuluState) (c : LuluConnection) (build : ℕ → Reply)
    → Advances i (reply next c build)
unfolding reply
reply-Advances i next c build = bound i (answer c.write_buffer build) _ (λ r. sent r.0 r.1)
  where
    sent :
        (w : Option ArrayBuffer) (s : Server)
        → Advances i (
            some (elim w [
              | none ↦ (some LuluState.error, c, s)
              | some b ↦ (some next, record c { write_buffer = b }, s)
            ]))
    sent none s = tt
    sent (some b) s = tt

pub run_command-Advances :
    (waiting next : LuluState) (c : LuluConnection) (s : Server) (finished failed ok : Bool)
    (build : ℕ → Reply)
    → Advances c.parser_index (run_command waiting next c s finished failed ok build)
unfolding run_command
run_command-Advances waiting next c s false failed ok build = tt
run_command-Advances waiting next c s true true ok build = refl
run_command-Advances waiting next c s true false true build =
    reply-Advances c.parser_index next _ build
run_command-Advances waiting next c s true false false build = tt

-- A turn at the last index returns a state.
abbrev pub Returns : Turn → Type 0
Returns none = Unit
Returns (some (none, c, s)) = ⊥
Returns (some (some state, c, s)) = Unit

Returns-then :
    {A : Type 0} (m : Option A) (f : A → Turn) → ((a : A) → Returns (f a)) → Returns (m >>= f)
Returns-then none f h = tt
Returns-then (some a) f h = h a

reply-Returns :
    (next : LuluState) (c : LuluConnection) (build : ℕ → Reply) → Returns (reply next c build)
unfolding reply
reply-Returns next c build = Returns-then (answer c.write_buffer build) _ (λ r. sent r.0 r.1)
  where
    sent :
        (w : Option ArrayBuffer) (s : Server)
        → Returns (
            some (elim w [
              | none ↦ (some LuluState.error, c, s)
              | some b ↦ (some next, record c { write_buffer = b }, s)
            ]))
    sent none s = tt
    sent (some b) s = tt

pub run_unknown-Returns :
    (waiting next : LuluState) (c : LuluConnection) (s : Server) (from n : ℕ) (ok : Bool)
    (build : ℕ → Reply)
    → Returns (run_unknown waiting next c s from n ok build)
unfolding run_unknown
run_unknown-Returns waiting next c s from n ok build =
    Returns-then (ends_line c.read_buffer.data_bytes from n) _ (λ ended. line ended ok)
  where
    line :
        (ended accepted : Bool)
        → Returns (
            if not ended
            then some (some waiting, record c { read_buffer = Buffer.reset c.read_buffer }, s)
            else if accepted
            then reply next
                (set_interest Interest.write
                  (record c { read_buffer = Buffer.reset c.read_buffer })
                  accepted)
                build
            else some
                (some LuluState.error, record c { read_buffer = Buffer.reset c.read_buffer }, s))
    line false accepted = tt
    line true true = reply-Returns next _ build
    line true false = tt

module _ (print_number : ℕ → List ℕ) (c : LuluConnection) (s : Server) (bs : List ℕ) (from : ℕ)
    (ok : Bool) where
  abbrev turn : Turn
  turn = run_transaction_parser print_number c s bs from ok

  picked : (t : Turn) → turn ≡ t → Advances c.parser_index t → Advances c.parser_index turn
  picked t e h = subst (Advances c.parser_index) (sym e) h

  at_goodbye : c.parser_index ≡ 0 → Advances c.parser_index turn
  unfolding run_transaction_parser run_goodbye
  at_goodbye e = picked (run_goodbye c s bs ok) (rw (run_transaction_parser, e) refl) (
      bound c.parser_index (Goodbye.consume c.goodbye bs) _ (λ r.
        run_command-Advances LuluState.transaction_read LuluState.transaction_write _ s _ _ ok
          (λ room. some (build_goodbye_response room, s))))

  at_set_buffer_size : c.parser_index ≡ 1 → Advances c.parser_index turn
  unfolding run_transaction_parser run_set_buffer_size
  at_set_buffer_size e =
      picked (run_set_buffer_size c s bs ok) (rw (run_transaction_parser, e) refl) (
        bound c.parser_index (Values.consume c.set_buffer_size bs) _ (λ r.
          run_command-Advances LuluState.transaction_read LuluState.transaction_write _ s _ _ ok _))

  at_metrics : c.parser_index ≡ 2 → Advances c.parser_index turn
  unfolding run_transaction_parser run_metrics
  at_metrics e = picked (run_metrics print_number c s bs ok) (rw (run_transaction_parser, e) refl) (
      bound c.parser_index (Commands.consume c.metrics bs) _ (λ r.
        run_command-Advances LuluState.transaction_read LuluState.transaction_write _ s _ _ ok _))

  at_get_buffer_size : c.parser_index ≡ 3 → Advances c.parser_index turn
  unfolding run_transaction_parser run_get_buffer_size
  at_get_buffer_size e =
      picked (run_get_buffer_size print_number c s bs ok) (rw (run_transaction_parser, e) refl) (
        bound c.parser_index (Commands.consume c.get_buffer_size bs) _ (λ r.
          run_command-Advances LuluState.transaction_read LuluState.transaction_write _ s _ _ ok _))

  at_timeout : c.parser_index ≡ 4 → Advances c.parser_index turn
  unfolding run_transaction_parser run_timeout
  at_timeout e = picked (run_timeout c s bs ok) (rw (run_transaction_parser, e) refl) (
      bound c.parser_index (Values.consume c.timeout bs) _ (λ r.
        run_command-Advances LuluState.transaction_read LuluState.transaction_write _ s _ _ ok _))

  at_set_user : c.parser_index ≡ 5 → Advances c.parser_index turn
  unfolding run_transaction_parser run_set_user
  at_set_user e = picked (run_set_user c s bs ok) (rw (run_transaction_parser, e) refl) (
      bound c.parser_index (SetUser.consume c.set_user bs) _ (λ r.
        run_command-Advances LuluState.transaction_read LuluState.transaction_write _ s _ _ ok _))

  at_list_users : c.parser_index ≡ 6 → Advances c.parser_index turn
  unfolding run_transaction_parser run_list_users
  at_list_users e = picked (run_list_users c s bs ok) (rw (run_transaction_parser, e) refl) (
      bound c.parser_index (Commands.consume c.list_users bs) _ (λ r.
        run_command-Advances LuluState.transaction_read LuluState.transaction_write _ s _ _ ok _))

  at_del_user : c.parser_index ≡ 7 → Advances c.parser_index turn
  unfolding run_transaction_parser run_del_user
  at_del_user e = picked (run_del_user c s bs ok) (rw (run_transaction_parser, e) refl) (
      bound c.parser_index (DelUser.consume c.del_user bs) _ (λ r.
        run_command-Advances LuluState.transaction_read LuluState.transaction_write _ s _ _ ok _))

  at_get_timeout : c.parser_index ≡ 8 → Advances c.parser_index turn
  unfolding run_transaction_parser run_get_timeout
  at_get_timeout e =
      picked (run_get_timeout print_number c s bs ok) (rw (run_transaction_parser, e) refl) (
        bound c.parser_index (Commands.consume c.get_timeout bs) _ (λ r.
          run_command-Advances LuluState.transaction_read LuluState.transaction_write _ s _ _ ok _))

  at_command : (n : ℕ) → c.parser_index ≡ n → n < 9 → Advances c.parser_index turn
  at_command zero e h = at_goodbye e
  at_command (suc zero) e h = at_set_buffer_size e
  at_command (suc (suc zero)) e h = at_metrics e
  at_command (suc (suc (suc zero))) e h = at_get_buffer_size e
  at_command (suc (suc (suc (suc zero)))) e h = at_timeout e
  at_command (suc (suc (suc (suc (suc zero))))) e h = at_set_user e
  at_command (suc (suc (suc (suc (suc (suc zero)))))) e h = at_list_users e
  at_command (suc (suc (suc (suc (suc (suc (suc zero))))))) e h = at_del_user e
  at_command (suc (suc (suc (suc (suc (suc (suc (suc zero)))))))) e h = at_get_timeout e
  at_command (suc (suc (suc (suc (suc (suc (suc (suc (suc n))))))))) e h = absurd (omega arith)

  at_last : c.parser_index ≡ 9 → Returns turn
  unfolding run_transaction_parser
  at_last e =
      subst Returns
        {x = run_unknown LuluState.transaction_read LuluState.transaction_write c s from (length bs)
          ok (λ room. some (build_not_recognised_response room, s))}
        {y = turn} (rw (run_transaction_parser, e) refl)
        (run_unknown-Returns LuluState.transaction_read LuluState.transaction_write c s from
          (length bs) ok (λ room. some (build_not_recognised_response room, s)))

-- The loop has come to an end with a state, unless a fault has ended it.
abbrev pub Ends : Option (Loop × LuluConnection × Server) → Type 0
Ends none = Unit
Ends (some (returned state, c, s)) = Unit
Ends (some (left_range, c, s)) = ⊥
Ends (some (exhausted, c, s)) = ⊥

module _ (print_number : ℕ → List ℕ) (bs : List ℕ) (from : ℕ) (ok : Bool) where
  -- The rest of the loop behind a turn.
  abbrev pub next_turn : ℕ → Turn → Option (Loop × LuluConnection × Server)
  next_turn fuel none = none
  next_turn fuel (some (none, c, s)) = run_parsers print_number fuel c s bs from ok
  next_turn fuel (some (some state, c, s)) = some (returned state, c, s)

  pub one_turn :
      (fuel : ℕ) (c : LuluConnection) (s : Server)
      → c.parser_index ≤ 9
      → run_parsers print_number (suc fuel) c s bs from ok
        ≡ next_turn fuel (run_transaction_parser print_number c s bs from ok)
  unfolding run_parsers
  one_turn fuel c s h =
      rw (run_parsers, in_range c.parser_index h)
        (behind (run_transaction_parser print_number c s bs from ok))
    where
      in_range : (n : ℕ) → n ≤ 9 → leb n 9 ≡ true
      in_range n h = ground arith

      behind :
          (t : Turn)
          → (t >>= λ r. elim r.0 [
            | none ↦ run_parsers print_number fuel r.1 r.2 bs from ok
            | some state ↦ some (returned state, r.1, r.2)
          ])
            ≡ next_turn fuel t
      behind none = refl
      behind (some (none, c, s)) = refl
      behind (some (some state, c, s)) = refl

  -- What is to be shown of the loop from `c` on.
  abbrev Over : ℕ → ℕ → LuluConnection → Server → Type 0
  Over fuel more c s =
      Ends (run_parsers print_number fuel c s bs from ok)
      × (run_parsers print_number (fuel + more) c s bs from ok
          ≡ run_parsers print_number fuel c s bs from ok)

  Over-turn :
      (fuel more i : ℕ) (t : Turn)
      → 10 ≤ i + suc fuel
      → ((i < 9) × Advances i t) ⊎ Returns t
      → ((c : LuluConnection) (s : Server)
          → c.parser_index ≤ 9
          → 10 ≤ c.parser_index + fuel
          → Over fuel more c s)
      → Ends (next_turn fuel t) × (next_turn (fuel + more) t ≡ next_turn fuel t)
  Over-turn fuel more i none k h ih = (tt, refl)
  Over-turn fuel more i (some (some state, c, s)) k h ih = (tt, refl)
  Over-turn fuel more i (some (none, c, s)) k (inr r) ih = absurd r
  Over-turn fuel more i (some (none, c, s)) k (inl (l, a)) ih = ih c s (omega arith) (omega arith)

  turn_kind :
      (c : LuluConnection) (s : Server)
      → c.parser_index ≤ 9
      → ((c.parser_index < 9)
          × Advances c.parser_index (run_transaction_parser print_number c s bs from ok))
        ⊎ Returns (run_transaction_parser print_number c s bs from ok)
  turn_kind c s h = elim (dec_lt c.parser_index 9) [
    | yes l ↦ inl (l, at_command print_number c s bs from ok c.parser_index refl l)
    | no n ↦ inr (at_last print_number c s bs from ok (omega arith))
  ]

  -- From the index of a parser, the loop over the parsers ends for every input: after as many turns
  -- as there are parsers left, a parser has returned a state, unless there was a fault. More turns
  -- change nothing, and the code behind the loop is never reached.
  pub run_parsers_end :
      (fuel more : ℕ) (c : LuluConnection) (s : Server)
      → c.parser_index ≤ 9
      → 10 ≤ c.parser_index + fuel
      → Ends (run_parsers print_number fuel c s bs from ok)
        × (run_parsers print_number (fuel + more) c s bs from ok
            ≡ run_parsers print_number fuel c s bs from ok)
  run_parsers_end zero more c s h k = absurd (omega arith)
  run_parsers_end (suc fuel) more c s h k =
      let (ends, same) =
        Over-turn fuel more c.parser_index (run_transaction_parser print_number c s bs from ok) k
          (turn_kind c s h) (run_parsers_end fuel more) in
      (
        subst Ends (sym (one_turn fuel c s h)) ends,
        ap (λ n. run_parsers print_number n c s bs from ok) {x = suc fuel + more}
              {y = suc (fuel + more)} (omega arith)
            ∙ one_turn (fuel + more) c s h
            ∙ same
            ∙ sym (one_turn fuel c s h),
      )
