-- ===== src/Buffer/Inv.antt =====
-- The heads stay in order and inside the memory.
use protos.Base.{ℕ, ◌+◌, ◌≤◌, List, ◌≡◌, some, arith, length, length-store}
use protos.Base.Int.{pos}
use protos.Base.Slice.{slice}
use protos.Buffer.{ArrayBuffer, reset, init, compact, write_adv}

pub record IsValid (b : ArrayBuffer) : Type 0 where
  pub ordered : b.read_head ≤ b.write_head
  pub inside : b.write_head ≤ b.size
  pub backed : b.size ≤ length b.data_bytes

pub init-IsValid : (n : ℕ) (memory : List ℕ) → n ≤ length memory → IsValid (init n memory)
unfolding init
init-IsValid n memory h = ground arith

pub reset-IsValid : {b : ArrayBuffer} → IsValid b → IsValid (reset b)
unfolding reset
reset-IsValid v = ground arith

pub compact-IsValid : {b : ArrayBuffer} → IsValid b → IsValid (compact b)
unfolding compact
compact-IsValid {b} v =
    ground (arith, length-store b.data_bytes 0 (slice b.data_bytes b.read_head b.write_head))

pub size-compact : (b : ArrayBuffer) → (compact b).size ≡ b.size
unfolding compact
size-compact b = ground arith

-- An advance that fits passes its `assert`.
pub write_adv_fits :
    (b : ArrayBuffer) (n : ℕ)
    → b.write_head + n ≤ b.size
    → write_adv b (pos n) ≡ some (record b { write_head = b.write_head + n })
unfolding write_adv
write_adv_fits b n h = ground arith
