-- ===== src/Lulu/Commands/Accepts.antt =====
-- That the parser of two words accepts its command, and no other bytes.
use protos.Base.{
  ℕ, suc, ◌<◌, true, false, ◌&&◌, ◌||◌, List, [], ◌∷◌, ◌++◌, Option, none, some, ◌==◌, ◌≡◌, refl,
  arith, length, get_elem?, ==_refl,
}
use protos.Lulu.Words.{NoZeros, traverse_word_inside, traverse_word_end, get_elem?_inside}
use protos.Lulu.Commands.{
  State, CommandParser, machine, feed, feed_in, start, traverse, moved, has_finished, has_failed,
}
use protos.Stream.Faulty.{compare_message}
use protos.Stream.Faulty.Spelling.{
  Steps, Reads, stop, more, Reads-append, Reads-start, Decides, consume-Reads,
}

-- The bytes of a command.
abbrev pub message : List ℕ → List ℕ → List ℕ
message a b = (a ++ b'|' ∷ (b ++ b'\r' ∷ [])) ++ b'\n' ∷ []

module _ (a b : List ℕ) (za : NoZeros a) (zb : NoZeros b) (la : length a < 256)
    (lb : length b < 256) where
  abbrev at : State → Option (List ℕ) → ℕ → CommandParser
  at s w i = record { state = s; first = a ++ 0 ∷ []; second = b ++ 0 ∷ []; index = i; word = w }

  abbrev reading_first : ℕ → CommandParser
  reading_first = at State.first_word (some (a ++ 0 ∷ []))

  abbrev reading_second : ℕ → CommandParser
  reading_second = at State.second_word (some (b ++ 0 ∷ []))

  first_inside :
      (i c : ℕ) → get_elem? a i ≡ some c → Steps machine (reading_first i) c (reading_first (suc i))
  unfolding machine feed feed_in traverse moved has_finished has_failed
  first_inside i c h =
      let inside = get_elem?_inside a i c h in
      let same = ==_refl c in
      (
        rw (traverse_word_inside a i c c (c == b'|' && true || c == b'\r' && false) za h, same)
            (ground arith),
        λ d n.
            rw (traverse_word_inside a i c d (d == b'|' && true || d == b'\r' && false) za h)
              (record (reading_first i) { state = State.invalid }, ground arith, refl, refl),
      )

  second_inside :
      (i c : ℕ)
      → get_elem? b i ≡ some c
      → Steps machine (reading_second i) c (reading_second (suc i))
  unfolding machine feed feed_in traverse moved has_finished has_failed
  second_inside i c h =
      let inside = get_elem?_inside b i c h in
      let same = ==_refl c in
      (
        rw (traverse_word_inside b i c c (c == b'|' && false || c == b'\r' && true) zb h, same)
            (ground arith),
        λ d n.
            rw (traverse_word_inside b i c d (d == b'|' && false || d == b'\r' && true) zb h)
              (record (reading_second i) { state = State.invalid }, ground arith, refl, refl),
      )

  first_end : Steps machine (reading_first (length a)) b'|' (reading_second 0)
  unfolding machine feed feed_in traverse moved has_finished has_failed
  first_end = (
    rw (traverse_word_end a true b'|' za) refl,
    λ d n.
        rw (traverse_word_end a (d == b'|' && true || d == b'\r' && false) d za)
          (record (reading_first (length a)) { state = State.invalid }, ground arith, refl, refl),
  )

  second_end : Steps machine (reading_second (length b)) b'\r' (at State.crlf none 0)
  unfolding machine feed feed_in traverse moved has_finished has_failed
  second_end = (
    rw (traverse_word_end b true b'\r' zb) refl,
    λ d n.
        rw (traverse_word_end b (d == b'|' && false || d == b'\r' && true) d zb)
          (record (reading_second (length b)) { state = State.invalid }, ground arith, refl, refl),
  )

  line_end : Steps machine (at State.crlf none 0) b'\n' (at State.finished none 0)
  unfolding machine feed feed_in has_finished has_failed
  line_end = (refl, λ d n. (at State.invalid none 0, ground arith, refl, refl))

  whole-Reads :
      Reads machine (reading_first 0) (a ++ b'|' ∷ (b ++ b'\r' ∷ [])) (at State.crlf none 0)
  unfolding machine has_finished
  whole-Reads =
      Reads-append machine a (b'|' ∷ (b ++ b'\r' ∷ []))
        (Reads-start machine reading_first a first_inside (λ i. refl))
        (more first_end refl (
          Reads-append machine b (b'\r' ∷ [])
            (Reads-start machine reading_second b second_inside (λ i. refl))
            (more second_end refl (stop refl))))

  -- The count that `Consume` returns and its verdict are those of comparing the input to the
  -- command.
  pub consume_command :
      (input : List ℕ)
      → Decides machine 0
          (start (a ++ 0 ∷ []) (b ++ 0 ∷ []))
          input
          (compare_message (message a b) input)
  unfolding start machine has_finished has_failed
  consume_command input =
      consume-Reads machine 0 (reading_first 0) (at State.crlf none 0) (at State.finished none 0)
        (a ++ b'|' ∷ (b ++ b'\r' ∷ [])) b'\n' input refl whole-Reads line_end refl refl
