-- ===== src/Lulu/Goodbye/Accepts.antt =====
-- That the parser accepts GOODBYE and nothing else, when a zero stands behind its index.
use protos.Base.{
  ℕ, zero, suc, ◌+◌, ◌<◌, List, [], ◌∷◌, ◌++◌, some, ◌==◌, ◌≡◌, refl, arith, get_elem?, ==_refl,
}
use protos.Lulu.Goodbye.{
  State, GoodbyeParser, reset, traverse, feed_in, feed, has_finished, has_failed, machine,
}
use protos.Stream.Faulty.{compare_message}
use protos.Stream.Faulty.Spelling.{
  Steps, Reads, stop, more, Reads-append, Reads-start, Decides, consume-Reads,
}
use protos.Users.{string_length}
use protos.Lulu.Words.{get_elem?_inside}

abbrev letters : List ℕ
letters = b'G' ∷ b'O' ∷ b'O' ∷ b'D' ∷ b'B' ∷ b'Y' ∷ b'E' ∷ []

abbrev pub message : List ℕ
message = (letters ++ b'\r' ∷ []) ++ b'\n' ∷ []

module _ (rest : List ℕ) where
  abbrev at : State → ℕ → GoodbyeParser
  at s i = record { state = s; goodbye = letters; index = i; behind = 0 ∷ rest }

  -- The string ends with the letters as long as the index is 0, and with the index after that.
  letters_length :
      (i : ℕ)
      → i < 8
      → (n : ℕ) × (string_length (letters ++ i ∷ 0 ∷ rest) ≡ some n) × (((i + 1) == n) ≡ (i == 7))
  unfolding string_length
  letters_length zero h = (7, refl, refl)
  letters_length (suc i) h = (8, ground arith, ground arith)

  inside :
      (i c : ℕ)
      → get_elem? letters i ≡ some c
      → Steps machine (at State.goodbye i) c (at State.goodbye (suc i))
  unfolding machine feed feed_in traverse has_finished has_failed
  inside i c h =
      let within = get_elem?_inside letters i c h in
      let same = ==_refl c in
      let (n, e, last) = letters_length i (omega arith) in
      (
        rw (e, last, h, same) (ground arith),
        λ d ne.
            rw (e, last, h)
              (record (at State.goodbye i) { state = State.invalid }, ground arith, refl, refl),
      )

  last_letter : Steps machine (at State.goodbye 7) b'\r' (at State.crlf 7)
  unfolding machine feed feed_in traverse has_finished has_failed string_length
  last_letter = (refl, λ d ne. (at State.invalid 7, ground arith, refl, refl))

  line_end : Steps machine (at State.crlf 7) b'\n' (at State.finished 7)
  unfolding machine feed feed_in has_finished has_failed
  line_end = (refl, λ d n. (at State.invalid 7, ground arith, refl, refl))

  letters-Reads : Reads machine (at State.goodbye 0) (letters ++ b'\r' ∷ []) (at State.crlf 7)
  unfolding machine has_finished
  letters-Reads =
      Reads-append machine letters (b'\r' ∷ [])
        (Reads-start machine (λ i. at State.goodbye i) letters inside (λ i. refl))
        (more last_letter refl (stop refl))

  pub consume_goodbye :
      (p : GoodbyeParser) (input : List ℕ)
      → p.behind ≡ 0 ∷ rest
      → Decides machine 0 (reset p) input (compare_message message input)
  unfolding reset machine has_finished has_failed
  consume_goodbye p input e = rw e (
      consume-Reads machine 0 (at State.goodbye 0) (at State.crlf 7) (at State.finished 7)
        (letters ++ b'\r' ∷ []) b'\n' input refl letters-Reads line_end refl refl)
