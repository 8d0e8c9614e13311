-- ===== src/Buffer/Contents.antt =====
-- What a buffer holds: the bytes written and not yet read.
use protos.Base.{
  ℕ, ◌+◌, ◌-◌, ◌≤◌, ◌<◌, ◌≢◌, ℕ_discrete, List, [], ◌∷◌, ◌++◌, ◌≡◌, some, refl, sym, ap, ◌∙◌, arith,
  true, false, length, length-set, ◌==◌, if◌then◌else◌, set, store, take, drop, get_elem?,
  take-store_start, Bool-cases, inl, inr,
}
use protos.Base.Int.{pos}
use protos.Base.Slice.{slice, slice-set, slice-cons, drop-slice, length-slice, get_elem?-some}
use protos.Buffer.{ArrayBuffer, can_read, can_write, compact, read_adv, read_byte, write_byte}
use protos.Buffer.Inv.{IsValid, compact-IsValid, size-compact}

abbrev pub contents : ArrayBuffer → List ℕ
contents b = slice b.data_bytes b.read_head b.write_head

-- The bytes that can still be written before a compaction.
abbrev pub room : ArrayBuffer → ℕ
room b = b.size - b.write_head

pub length-contents :
    {b : ArrayBuffer} → IsValid b → length (contents b) ≡ b.write_head - b.read_head
length-contents {b} v =
    length-slice b.data_bytes b.read_head b.write_head (omega (arith, v.inside, v.backed))

slice-nil : (a : List ℕ) (r : ℕ) → slice a r r ≡ []
slice-nil a r = ap (λ k. take k (drop r a)) {y = 0} (omega arith)

-- Compaction keeps the contents and moves them to the start.
pub contents-compact :
    {b : ArrayBuffer}
    → IsValid b
    → (contents (compact b) ≡ contents b)
      × ((compact b).read_head ≡ 0)
      × ((compact b).write_head ≡ length (contents b))
unfolding compact
contents-compact {b} v = elim (Bool-cases (b.read_head == 0)) [
  | inl start ↦ ground (arith, length-contents v)
  | inr moved ↦ elim (Bool-cases (b.read_head == b.write_head)) [
    | inl empty ↦ ground (arith, length-contents v, slice-nil b.data_bytes b.read_head)
    | inr more ↦
        rw (moved, more)
          (
            (ap (λ k. take k (store b.data_bytes 0 (contents b)))
                  {x = b.write_head - b.read_head - 0} {y = length (contents b)}
                  (omega (arith, length-contents v))
                ∙ take-store_start b.data_bytes (contents b)
                    (omega (arith, length-contents v, v.inside, v.backed))),
            refl,
            sym (length-contents v),
          )
  ]
]

-- What a write of one byte does to a valid buffer.
pub record Wrote (b : ArrayBuffer) (added : List ℕ) (b' : ArrayBuffer) : Type 0 where
  pub valid : IsValid b'
  pub holds : contents b' ≡ contents b ++ added
  pub used : room b ≡ room b' + length added
  pub same_size : b'.size ≡ b.size

write_byte-room :
    (b : ArrayBuffer) (c : ℕ)
    → can_write b ≡ true
    → write_byte b c
      ≡ some
          (record b { data_bytes = set b.data_bytes b.write_head c; write_head = b.write_head + 1 })
unfolding write_byte
write_byte-room b c h = ground arith

-- With room left, `BufferWriteByte` appends the byte.
pub write_byte-Wrote :
    {b : ArrayBuffer} (c : ℕ)
    → IsValid b
    → can_write b ≡ true
    → (b' : ArrayBuffer) × (write_byte b c ≡ some b') × Wrote b (c ∷ []) b'
unfolding can_write
write_byte-Wrote {b} c v h =
    let inside : b.write_head < b.size = ground arith in
    (
      record b { data_bytes = set b.data_bytes b.write_head c; write_head = b.write_head + 1 },
      write_byte-room b c h,
      record {
        valid = ground (arith, length-set b.data_bytes b.write_head c);
        holds =
            slice-set b.data_bytes b.read_head b.write_head c v.ordered (omega (arith, v.backed));
        used = omega arith;
        same_size = refl;
      },
    )

-- With none left, it drops it.
pub write_byte-full : (b : ArrayBuffer) (c : ℕ) → can_write b ≡ false → write_byte b c ≡ some b
unfolding write_byte
write_byte-full b c h = rw h

-- What taking `n` bytes out does. An emptied buffer starts again at the beginning.
pub record Took (b : ArrayBuffer) (n : ℕ) (b' : ArrayBuffer) : Type 0 where
  pub valid : IsValid b'
  pub holds : contents b' ≡ drop n (contents b)
  pub freed : room b' ≡ (if n == length (contents b) then b.size else room b)
  pub same_size : b'.size ≡ b.size

module _ {b : ArrayBuffer} (v : IsValid b) (n : ℕ) (fits : n ≤ length (contents b)) where
  abbrev advanced : ArrayBuffer
  advanced = record b { read_head = b.read_head + n }

  advanced-IsValid : IsValid advanced
  advanced-IsValid = ground (arith, length-contents v)

  advanced-contents : contents advanced ≡ drop n (contents b)
  advanced-contents = sym (
      drop-slice n b.data_bytes b.read_head b.write_head
        (omega (arith, length-contents v, v.ordered)) (omega (arith, v.inside, v.backed)))

  emptied-Took : n ≡ length (contents b) → Took b n (compact advanced)
  emptied-Took e = record {
    valid = compact-IsValid advanced-IsValid;
    holds = (contents-compact advanced-IsValid).0 ∙ advanced-contents;
    freed = ground (
      arith,
      contents-compact advanced-IsValid,
      length-contents advanced-IsValid,
      length-contents v,
      size-compact advanced,
    );
    same_size = size-compact advanced;
  }

  partly-Took : n ≢ length (contents b) → Took b n advanced
  partly-Took e = record {
    valid = advanced-IsValid;
    holds = advanced-contents;
    freed = ground arith;
    same_size = refl;
  }

  read_adv-emptied : n ≡ length (contents b) → read_adv b (pos n) ≡ some (compact advanced)
  unfolding read_adv
  read_adv-emptied e = ground (arith, length-contents v)

  read_adv-partly : n ≢ length (contents b) → read_adv b (pos n) ≡ some advanced
  unfolding read_adv
  read_adv-partly e = ground (arith, length-contents v)

  -- `BufferReadAdv` by no more than the buffer holds takes that many bytes out.
  pub read_adv-Took : (b' : ArrayBuffer) × (read_adv b (pos n) ≡ some b') × Took b n b'
  read_adv-Took = elim (ℕ_discrete n (length (contents b))) [
    | yes e ↦ (compact advanced, read_adv-emptied e, emptied-Took e)
    | no e ↦ (advanced, read_adv-partly e, partly-Took e)
  ]

module _ {b : ArrayBuffer} (v : IsValid b) where
  -- Reading a byte of a buffer that is not empty gives the oldest.
  pub read_byte-Took :
      can_read b ≡ true
      → (x : ℕ) × (b' : ArrayBuffer) × (read_byte b ≡ some (x, b'))
        × (contents b ≡ x ∷ contents b')
        × Took b 1 b'
  unfolding can_read
  read_byte-Took h =
      let (x, e) =
        get_elem?-some b.data_bytes b.read_head (omega (arith, lt, v.inside, v.backed)) in
      let (b', r, t) = read_adv-Took v 1 (omega (arith, lt, length-contents v)) in
      let head = slice-cons b.data_bytes b.read_head b.write_head x lt e in
      (x, b', taken x b' e r, head ∙ ap (λ l. x ∷ l) (sym (t.holds ∙ ap (λ l. drop 1 l) head)), t)
    where
      lt : b.read_head < b.write_head
      lt = ground arith

      taken :
          (x : ℕ) (b' : ArrayBuffer)
          → get_elem? b.data_bytes b.read_head ≡ some x
          → read_adv b (pos 1) ≡ some b'
          → read_byte b ≡ some (x, b')
      taken x b' e r = unfold read_byte in rw (h, e, r)

  -- An empty one gives 0 and stays as it is.
  pub read_byte-empty : can_read b ≡ false → (read_byte b ≡ some (0, b)) × (contents b ≡ [])
  unfolding can_read read_byte
  read_byte-empty h =
      (rw h, ap (λ k. take k (drop b.read_head b.data_bytes)) {y = 0} (ground arith))
