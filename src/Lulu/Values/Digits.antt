-- ===== src/Lulu/Values/Digits.antt =====
-- The number of a SET command: its digits, as they are read one by one.
use protos.Base.{
  ℕ, ◌+◌, ◌-◌, ◌*◌, ◌%◌, ◌^◌, ◌≤◌, ◌<◌, true, false, List, [], ◌∷◌, ◌++◌, some, ◌≡◌, refl, ap, ◌∙◌,
  arith, length, ltb, dec_lt,
}
use protos.Lulu.Values.{
  State, ValueParser, machine, feed, feed_in, add_digit, max_value, has_finished, is_digit,
}
use protos.Stream.Faulty.{consume_from}
use protos.Stream.Faulty.Spelling.{consume_on, consume_end}

abbrev pub AllDigits : List ℕ → Type 0
AllDigits [] = Unit
AllDigits (c ∷ cs) = ((b'0' ≤ c) × (c ≤ b'9')) × AllDigits cs

-- The number that digits write behind `v`.
unfoldable pub decimal_from : ℕ → List ℕ → ℕ
decimal_from v [] = v
decimal_from v (c ∷ cs) = decimal_from (v * 10 + (c - b'0')) cs

unfoldable pub decimal : List ℕ → ℕ
unfolding decimal_from
decimal cs = decimal_from 0 cs

decimal_from_grows : (v : ℕ) (cs : List ℕ) → v ≤ decimal_from v cs
unfolding decimal_from
decimal_from_grows v [] = omega arith
decimal_from_grows v (c ∷ cs) = let ih = decimal_from_grows (v * 10 + (c - b'0')) cs in omega arith

-- Neither the product nor the sum wraps around while the value is within the limit.
no_wrap :
    (v c : ℕ)
    → v ≤ max_value
    → c ≤ b'9'
    → ((v * 10) % 2 ^ 64 + (c - b'0')) % 2 ^ 64 ≡ v * 10 + (c - b'0')
no_wrap v c h d = omega arith

digit-is_digit : (c : ℕ) → (b'0' ≤ c) × (c ≤ b'9') → is_digit c ≡ true
digit-is_digit c (l, h) = ground arith

within_limit : (v : ℕ) → v ≤ max_value → ltb max_value v ≡ false
within_limit v h = ground arith

over_limit : (v : ℕ) → max_value < v → ltb max_value v ≡ true
over_limit v h = ground arith

module _ (p : ValueParser) where
  abbrev pub with_value : ℕ → ValueParser
  with_value v = record p { state = State.digits; value = v }

  small_digit :
      (v c : ℕ)
      → (b'0' ≤ c) × (c ≤ b'9')
      → v * 10 + (c - b'0') ≤ max_value
      → feed (with_value v) c ≡ some (with_value (v * 10 + (c - b'0')))
  unfolding feed feed_in add_digit
  small_digit v c d h =
      rw
        (
          digit-is_digit c d,
          add_digit,
          no_wrap v c (omega arith) d.1,
          within_limit (v * 10 + (c - b'0')) h,
        )
        refl

  -- Digits of a number within the limit are all read.
  pub consume_digits :
      (i v : ℕ) (cs rest : List ℕ)
      → AllDigits cs
      → decimal_from v cs ≤ max_value
      → consume_from machine i (with_value v) (cs ++ rest)
        ≡ consume_from machine (i + length cs) (with_value (decimal_from v cs)) rest
  unfolding machine has_finished decimal_from
  consume_digits i v [] rest d h =
      ap (λ k. consume_from machine k (with_value v) rest) (omega arith)
  consume_digits i v (c ∷ cs) rest d h =
      let grows = decimal_from_grows (v * 10 + (c - b'0')) cs in
      consume_on machine i (with_value v) (with_value (v * 10 + (c - b'0'))) c (cs ++ rest)
        (small_digit v c d.0 (omega arith)) refl
      ∙ consume_digits (i + 1) (v * 10 + (c - b'0')) cs rest d.1 h
      ∙ ap (λ k. consume_from machine k (with_value (decimal_from v (c ∷ cs))) rest) (omega arith)

  large_digit :
      (v c : ℕ)
      → (b'0' ≤ c) × (c ≤ b'9')
      → v ≤ max_value
      → max_value < v * 10 + (c - b'0')
      → feed (with_value v) c
        ≡ some (record (with_value (v * 10 + (c - b'0'))) { state = State.invalid })
  unfolding feed feed_in add_digit
  large_digit v c d h k =
      rw (digit-is_digit c d, add_digit, no_wrap v c h d.1, over_limit (v * 10 + (c - b'0')) k) refl

  -- The parser fails at some digit of a number over the limit.
  pub consume_too_large :
      (i v : ℕ) (cs rest : List ℕ)
      → AllDigits cs
      → v ≤ max_value
      → max_value < decimal_from v cs
      → (k : ℕ) × (q : ValueParser) × (k ≤ i + length cs)
        × (consume_from machine i (with_value v) (cs ++ rest) ≡ some (k, q))
        × (q.state ≡ State.invalid)
  unfolding machine has_finished decimal_from
  consume_too_large i v [] rest d h k = absurd (omega arith)
  consume_too_large i v (c ∷ cs) rest d h k = elim (dec_lt max_value (v * 10 + (c - b'0'))) [
    | yes big ↦ (
      i + 1,
      record (with_value (v * 10 + (c - b'0'))) { state = State.invalid },
      omega arith,
      consume_end machine i (with_value v)
          (record (with_value (v * 10 + (c - b'0'))) { state = State.invalid }) c (cs ++ rest)
          (large_digit v c d.0 h big) refl,
      refl,
    )
    | no small ↦
        (let (n, q, le, run, e) =
            consume_too_large (i + 1) (v * 10 + (c - b'0')) cs rest d.1 (omega arith) k in
          (
            n,
            q,
            omega arith,
            consume_on machine i (with_value v) (with_value (v * 10 + (c - b'0'))) c (cs ++ rest)
                  (small_digit v c d.0 (omega arith)) refl
                ∙ run,
            e,
          ))
  ]
