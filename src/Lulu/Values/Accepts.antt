-- ===== src/Lulu/Values/Accepts.antt =====
-- What the parsers of SET commands make of a whole command.
use protos.Base.{
  ℕ, suc, ◌+◌, ◌≤◌, ◌<◌, true, List, [], ◌∷◌, ◌++◌, Option, none, some, ◌==◌, ◌≡◌, refl, ap, ◌∙◌,
  arith, length, get_elem?, ==_refl,
}
use protos.Users.{string_length}
use protos.Lulu.Words.{
  NoZeros, traverse_word, traverse_word_inside, traverse_word_end, get_elem?_inside,
}
use protos.Lulu.Values.{
  State, ValueParser, machine, feed, feed_in, start, consume, traverse, moved, has_finished,
  has_failed, set_letters, max_value,
}
use protos.Lulu.Values.Digits.{AllDigits, decimal, decimal_from, consume_digits, consume_too_large}
use protos.Stream.Faulty
use protos.Stream.Faulty.{consume_from}
use protos.Stream.Faulty.Spelling.{
  Steps, Reads, stop, more, Reads-append, Reads-start, consume_from-Reads,
}

-- The command up to its number, and whole.
abbrev pub opening : List ℕ → List ℕ
opening b = set_letters ++ b'|' ∷ (b ++ b'|' ∷ [])

abbrev pub line_end : List ℕ
line_end = b'\r' ∷ b'\n' ∷ []

module _ (b : List ℕ) (zb : NoZeros b) (lb : length b < 256) where
  abbrev at : State → Option (List ℕ) → ℕ → ValueParser
  at s w i = record {
    state = s;
    set_chars = set_letters ++ 0 ∷ [];
    name_chars = b ++ 0 ∷ [];
    value = 0;
    index = i;
    word = w;
  }

  abbrev reading_set : ℕ → ValueParser
  reading_set = at State.set_word (some (set_letters ++ 0 ∷ []))

  abbrev reading_name : ℕ → ValueParser
  reading_name = at State.name_word (some (b ++ 0 ∷ []))

  letters-NoZeros : NoZeros set_letters
  letters-NoZeros = ground arith

  set_inside :
      (i c : ℕ)
      → get_elem? set_letters i ≡ some c
      → Steps machine (reading_set i) c (reading_set (suc i))
  unfolding machine feed feed_in traverse moved has_finished has_failed
  set_inside i c h =
      let inside = get_elem?_inside set_letters i c h in
      let same = ==_refl c in
      (
        rw (traverse_word_inside set_letters i c c (c == b'|') letters-NoZeros h, same)
            (ground arith),
        λ d n.
            rw (traverse_word_inside set_letters i c d (d == b'|') letters-NoZeros h)
              (record (reading_set i) { state = State.invalid }, ground arith, refl, refl),
      )

  name_inside :
      (i c : ℕ) → get_elem? b i ≡ some c → Steps machine (reading_name i) c (reading_name (suc i))
  unfolding machine feed feed_in traverse moved has_finished has_failed
  name_inside i c h =
      let inside = get_elem?_inside b i c h in
      let same = ==_refl c in
      (
        rw (traverse_word_inside b i c c (c == b'|') zb h, same) (ground arith),
        λ d n.
            rw (traverse_word_inside b i c d (d == b'|') zb h)
              (record (reading_name i) { state = State.invalid }, ground arith, refl, refl),
      )

  set_end : Steps machine (reading_set 3) b'|' (reading_name 0)
  unfolding machine feed feed_in traverse moved has_finished has_failed traverse_word string_length
  set_end =
      (refl, λ d n. (record (reading_set 3) { state = State.invalid }, ground arith, refl, refl))

  name_end : Steps machine (reading_name (length b)) b'|' (at State.digits none 0)
  unfolding machine feed feed_in traverse moved has_finished has_failed
  name_end = (
    rw (traverse_word_end b true b'|' zb) refl,
    λ d n.
        rw (traverse_word_end b (d == b'|') d zb)
          (record (reading_name (length b)) { state = State.invalid }, ground arith, refl, refl),
  )

  opening-Reads : Reads machine (reading_set 0) (opening b) (at State.digits none 0)
  unfolding machine has_finished
  opening-Reads =
      Reads-append machine set_letters (b'|' ∷ (b ++ b'|' ∷ []))
        (Reads-start machine reading_set set_letters set_inside (λ i. refl))
        (more set_end refl (
          Reads-append machine b (b'|' ∷ [])
            (Reads-start machine reading_name b name_inside (λ i. refl))
            (more name_end refl (stop refl))))

  -- The parser once it has read a number.
  abbrev pub holding : State → ℕ → ValueParser
  holding s v = record (at s none 0) { value = v }

  ending :
      (i v : ℕ) (rest : List ℕ)
      → consume_from machine i (holding State.digits v) (line_end ++ rest)
        ≡ some (i + 2, holding State.finished v)
  unfolding consume_from machine feed feed_in has_finished
  ending i v rest = ap (λ k. some (k, holding State.finished v)) (omega arith)

  -- A command whose number is within the limit is read to its end, and no further.
  pub consume_within :
      (ds rest : List ℕ)
      → AllDigits ds
      → decimal ds ≤ max_value
      → consume (start (b ++ 0 ∷ [])) (opening b ++ (ds ++ (line_end ++ rest)))
        ≡ some (length (opening b) + length ds + 2, holding State.finished (decimal ds))
  unfolding consume Faulty.consume start decimal
  consume_within ds rest d h =
      consume_from-Reads machine 0 (opening b) (ds ++ (line_end ++ rest)) opening-Reads
      ∙ consume_digits (at State.digits none 0) (0 + length (opening b)) 0 ds (line_end ++ rest) d h
      ∙ ending (0 + length (opening b) + length ds) (decimal_from 0 ds) rest
      ∙ ap (λ k. some (k, holding State.finished (decimal_from 0 ds))) (omega arith)

  -- A command whose number is over the limit is refused at one of its digits.
  pub consume_beyond :
      (ds rest : List ℕ)
      → AllDigits ds
      → max_value < decimal ds
      → (k : ℕ) × (q : ValueParser) × (k ≤ length (opening b) + length ds)
        × (consume (start (b ++ 0 ∷ [])) (opening b ++ (ds ++ rest)) ≡ some (k, q))
        × (q.state ≡ State.invalid)
  unfolding consume Faulty.consume start decimal
  consume_beyond ds rest d h =
      let (k, q, le, run, e) =
        consume_too_large (at State.digits none 0) (0 + length (opening b)) 0 ds rest d
          (omega arith) h in
      (
        k,
        q,
        omega arith,
        consume_from-Reads machine 0 (opening b) (ds ++ rest) opening-Reads ∙ run,
        e,
      )
