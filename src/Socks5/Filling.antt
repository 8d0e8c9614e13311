-- ===== src/Socks5/Filling.antt =====
-- What a `recv` into a buffer and a message built in it leave in the buffer.
use mathlib.Core.Bool.{true, false}
use protos.Base.{◌<◌, drop, [], refl}
use protos.Base.{ℕ, ◌+◌, ◌-◌, ◌≤◌, List, ◌∷◌, ◌++◌, some, ◌≡◌, arith, length, store, length-store}
use protos.Base.Slice.{slice-store}
use protos.Buffer
use protos.Buffer.{ArrayBuffer}
use protos.Buffer.Inv.{IsValid}
use protos.Buffer.Contents.{contents, length-contents}
use protos.Socks5.{receive, fill, answer}

module _ {b : ArrayBuffer} (v : IsValid b) (bs : List ℕ)
    (fits : b.write_head + length bs ≤ b.size) where
  abbrev pub filled : ArrayBuffer
  filled = record b {
    data_bytes = store b.data_bytes b.write_head bs;
    write_head = b.write_head + length bs;
  }

  pub filled-IsValid : IsValid filled
  filled-IsValid = ground (arith, v.ordered, v.backed, length-store b.data_bytes b.write_head bs)

  pub contents-filled : contents filled ≡ contents b ++ bs
  contents-filled =
      slice-store b.data_bytes b.read_head b.write_head bs v.ordered (omega (arith, v.backed, fits))

  pub receive_lem : receive b bs ≡ some filled
  unfolding receive fill Buffer.write_ptr Buffer.write_adv
  receive_lem = ground (arith, v.inside)

pub answer_lem :
    {b : ArrayBuffer} (v : IsValid b) (build : ℕ → List ℕ) (x : ℕ) (xs : List ℕ)
    → build (b.size - b.write_head) ≡ x ∷ xs
    → (fits : b.write_head + length (x ∷ xs) ≤ b.size)
    → answer b build ≡ some (some (filled v (x ∷ xs) fits))
unfolding answer fill Buffer.write_ptr Buffer.write_adv
answer_lem {b} v build x xs e fits = ground (arith, v.inside)

-- Whether there is something to send.
pub readable : {b : ArrayBuffer} → IsValid b → 0 < length (contents b) → Buffer.can_read b ≡ true
unfolding Buffer.can_read
readable {b} v h = ground (arith, length-contents v)

pub unreadable : {b : ArrayBuffer} → IsValid b → length (contents b) ≡ 0 → Buffer.can_read b ≡ false
unfolding Buffer.can_read
unreadable {b} v h = ground (arith, length-contents v)

pub drop-length : (l : List ℕ) → length (drop (length l) l) ≡ 0
drop-length [] = refl
drop-length (x ∷ l) = drop-length l
