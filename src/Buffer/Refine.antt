-- ===== src/Buffer/Refine.antt =====
-- A valid buffer behaves as the queue of its contents.
use protos.Base.{
  ℕ, ◌+◌, ◌≤◌, List, [], ◌∷◌, ◌++◌, ◌≡◌, Option, none, some, refl, ap, ◌∙◌, arith, true, false,
  length, length-store, store, take, Bool-cases, inl, inr, dec_le,
}
use protos.Base.Int.{pos}
use protos.Base.Slice.{slice-store}
use protos.Buffer.{
  ArrayBuffer, reset, can_read, can_write, read_ptr, compact, write_adv, read_adv, read_byte,
  write_byte,
}
use protos.Buffer.Queue
use protos.Buffer.Queue.{Queue, Op, put, get, fill, drain, compact_now, reset_now}
use protos.Buffer.Inv.{IsValid, reset-IsValid, compact-IsValid, size-compact, write_adv_fits}
use protos.Buffer.Contents.{
  contents, room, length-contents, contents-compact, write_byte-Wrote, write_byte-full,
  read_byte-Took, read_byte-empty, read_adv-Took, Took, Wrote,
}

-- One call on a buffer, with the bytes that it hands to the client.
unfoldable pub step : ArrayBuffer → Op → Option (List ℕ × ArrayBuffer)
step b (put c) = elim (write_byte b c) [ none ↦ none | some b' ↦ some ([], b') ]
step b get = elim (read_byte b) [ none ↦ none | some (x, b') ↦ some (x ∷ [], b') ]
step b (fill bs) =
    elim (write_adv (record b { data_bytes = store b.data_bytes b.write_head bs })
      (pos (length bs))) [ none ↦ none | some b' ↦ some ([], b') ]
step b (drain n) = elim (read_ptr b) [
  | none ↦ none
  | some bs ↦ elim (read_adv b (pos n)) [ none ↦ none | some b' ↦ some (take n bs, b') ]
]
step b compact_now = some ([], compact b)
step b reset_now = some ([], reset b)

unfoldable pub run : ArrayBuffer → List Op → Option (List ℕ)
run b [] = some []
run b (o ∷ os) = elim (step b o) [
  | none ↦ none
  | some (out, b') ↦ elim (run b' os) [ none ↦ none | some outs ↦ some (out ++ outs) ]
]

abbrev pub view : ArrayBuffer → Queue
view b = record { items = contents b; room = room b }

-- A call and its counterpart: both fail, or both give the same bytes and matching states.
data Matches (b : ArrayBuffer) (o : Op) : Type 0 where
  failing : step b o ≡ none → Queue.step b.size (view b) o ≡ none → Matches b o
  passing :
      (out : List ℕ) (b' : ArrayBuffer)
      → step b o ≡ some (out, b')
      → Queue.step b.size (view b) o ≡ some (out, view b')
      → IsValid b'
      → b'.size ≡ b.size
      → Matches b o

module _ {b : ArrayBuffer} (v : IsValid b) where
  put-Matches : (c : ℕ) → Matches b (put c)
  put-Matches c = elim (Bool-cases (can_write b)) [
    | inl h ↦
        let (b', e, w) = write_byte-Wrote c v h in
        passing [] b' (unfold step in rw (e, step)) (stored b' h w) w.valid w.same_size
    | inr h ↦ passing [] b (unfold step in rw (write_byte-full b c h, step)) (full h) v refl
  ]
    where
      stored :
          (b' : ArrayBuffer)
          → can_write b ≡ true
          → Wrote b (c ∷ []) b'
          → Queue.step b.size (view b) (put c) ≡ some ([], view b')
      stored b' h w = unfold Queue.step can_write in ground (arith, w.holds, w.used)

      full : can_write b ≡ false → Queue.step b.size (view b) (put c) ≡ some ([], view b)
      full h = unfold Queue.step can_write in ground arith

  get-Matches : Matches b get
  get-Matches = elim (Bool-cases (can_read b)) [
    | inl h ↦
        let (x, b', e, head, t) = read_byte-Took v h in
        passing (x ∷ []) b' (unfold step in rw (e, step)) (taken x b' head t) t.valid t.same_size
    | inr h ↦
        let (e, none_left) = read_byte-empty v h in
        passing (0 ∷ []) b (unfold step in rw (e, step)) (unread none_left) v refl
  ]
    where
      unread : contents b ≡ [] → Queue.step b.size (view b) get ≡ some (0 ∷ [], view b)
      unread e = unfold Queue.step in ground (arith, e)

      taken :
          (x : ℕ) (b' : ArrayBuffer)
          → contents b ≡ x ∷ contents b'
          → Took b 1 b'
          → Queue.step b.size (view b) get ≡ some (x ∷ [], view b')
      taken x b' head t = unfold Queue.step in ground (arith, head, t.freed, ap length head)

  fill-Matches : (bs : List ℕ) → Matches b (fill bs)
  fill-Matches bs = elim (dec_le (length bs) (room b)) [
    | yes p ↦
        passing [] filled
          (unfold step in rw (write_adv_fits stored (length bs) (omega arith), step)) (queued p)
          (filled-IsValid p) refl
    | no p ↦ failing (unfold step write_adv in ground arith) (unfold Queue.step in ground arith)
  ]
    where
      stored : ArrayBuffer
      stored = record b { data_bytes = store b.data_bytes b.write_head bs }

      filled : ArrayBuffer
      filled = record stored { write_head = b.write_head + length bs }

      filled-IsValid : length bs ≤ room b → IsValid filled
      filled-IsValid p = ground (arith, length-store b.data_bytes b.write_head bs)

      queued : length bs ≤ room b → Queue.step b.size (view b) (fill bs) ≡ some ([], view filled)
      queued p =
          unfold Queue.step in
          ground (
            arith,
            slice-store b.data_bytes b.read_head b.write_head bs v.ordered
                (omega (arith, v.inside, v.backed)),
          )

  drain-Matches : (n : ℕ) → Matches b (drain n)
  drain-Matches n = elim (dec_le n (length (contents b))) [
    | yes p ↦
        let (b', e, t) = read_adv-Took v n p in
        passing (take n (contents b)) b' (sent b' e) (drained b' p t) t.valid t.same_size
    | no p ↦
        failing (unfold step read_ptr read_adv in ground (arith, length-contents v))
          (unfold Queue.step in ground arith)
  ]
    where
      sent :
          (b' : ArrayBuffer)
          → read_adv b (pos n) ≡ some b'
          → step b (drain n) ≡ some (take n (contents b), b')
      sent b' e = unfold step read_ptr in ground (arith, e)

      drained :
          (b' : ArrayBuffer)
          → n ≤ length (contents b)
          → Took b n b'
          → Queue.step b.size (view b) (drain n) ≡ some (take n (contents b), view b')
      drained b' p t = unfold Queue.step in ground (arith, t.holds, t.freed)

  step-Matches : (o : Op) → Matches b o
  step-Matches (put c) = put-Matches c
  step-Matches get = get-Matches
  step-Matches (fill bs) = fill-Matches bs
  step-Matches (drain n) = drain-Matches n
  step-Matches compact_now =
      passing [] (compact b) (unfold step in refl)
        (unfold Queue.step in ground (arith, contents-compact v, size-compact b))
        (compact-IsValid v) (size-compact b)
  step-Matches reset_now =
      passing [] (reset b) (unfold step in refl) (unfold Queue.step reset in ground arith)
        (reset-IsValid v) (unfold reset in refl)

run-Matches :
    (o : Op) (os : List Op) {b : ArrayBuffer}
    → ((b' : ArrayBuffer) → IsValid b' → run b' os ≡ Queue.run b'.size (view b') os)
    → Matches b o
    → run b (o ∷ os) ≡ Queue.run b.size (view b) (o ∷ os)
unfolding run Queue.run
run-Matches o os ih (failing e f) = rw (e, run, f, Queue.run)
run-Matches o os {b} ih (passing out b' e f valid size) =
    rw (e, run, f, Queue.run)
      (ap (λ r. elim r [ none ↦ none | some outs ↦ some (out ++ outs) ])
        (ih b' valid ∙ ap (λ k. Queue.run k (view b') os) size))

-- No sequence of calls tells a valid buffer from the queue of its contents: both give the same
-- bytes, and an assertion fails in the one exactly when the call is refused in the other.
pub run_refines :
    (os : List Op) {b : ArrayBuffer} → IsValid b → run b os ≡ Queue.run b.size (view b) os
run_refines [] v = unfold run Queue.run in refl
run_refines (o ∷ os) v = run-Matches o os (λ b'. run_refines os) (step-Matches v o)
