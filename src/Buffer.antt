-- ===== src/Buffer.antt =====
-- socks5d/lib/utils/buffer.c: the byte buffer between the sockets and the parsers. The pointers
-- are offsets from `Data`. `none` stands for a failed `assert` and for a read outside `data`.
pub mod Inv
pub mod Contents
pub mod Queue
pub mod Refine
mod Tests
use protos.Base.{
  ℕ, ◌+◌, ◌-◌, Bool, List, Option, none, some, ◌==◌, ltb, leb, if◌then◌else◌, get_elem?, set, store,
}
use protos.Base.Int.{ℤ, pos, negsuc}
use protos.Base.Slice.{slice}

-- `ArrayBuffer`. `data` is the memory that `Data` points to.
pub record ArrayBuffer : Type 0 where
  pub data_bytes : List ℕ
  pub size : ℕ
  pub read_head : ℕ
  pub write_head : ℕ

-- `BufferReset`
unfoldable pub reset : ArrayBuffer → ArrayBuffer
reset b = record b { read_head = 0; write_head = 0 }

-- `BufferInit` on `n` bytes of memory.
unfoldable pub init : ℕ → List ℕ → ArrayBuffer
init n memory = record { data_bytes = memory; size = n; read_head = 0; write_head = 0 }

-- `BufferCanWrite`
unfoldable pub can_write : ArrayBuffer → Bool
can_write b = ltb b.write_head b.size

-- `BufferWritePtr`: how many bytes can be written at `write_head`.
unfoldable pub write_ptr : ArrayBuffer → Option ℕ
write_ptr b = if leb b.write_head b.size then some (b.size - b.write_head) else none

-- `BufferCanRead`
unfoldable pub can_read : ArrayBuffer → Bool
can_read b = ltb b.read_head b.write_head

-- `BufferReadPtr`: the bytes that can be read from `read_head` on.
unfoldable pub read_ptr : ArrayBuffer → Option (List ℕ)
read_ptr b =
    if leb b.read_head b.write_head
    then some (slice b.data_bytes b.read_head b.write_head)
    else none

-- `BufferCompact`. `memmove` reads the whole part before it writes.
unfoldable pub compact : ArrayBuffer → ArrayBuffer
compact b =
    let n = b.write_head - b.read_head in
    if b.read_head == 0
    then b
    else if b.read_head == b.write_head
    then record b { read_head = 0; write_head = 0 }
    else record b {
      data_bytes = store b.data_bytes 0 (slice b.data_bytes b.read_head b.write_head);
      read_head = 0;
      write_head = n;
    }

-- `BufferWriteAdv`: a negative count does nothing.
unfoldable pub write_adv : ArrayBuffer → ℤ → Option ArrayBuffer
write_adv b (pos n) =
    if leb (b.write_head + n) b.size
    then some (record b { write_head = b.write_head + n })
    else none
write_adv b (negsuc n) = some b

-- `BufferReadAdv`: a buffer that becomes empty is compacted.
unfoldable pub read_adv : ArrayBuffer → ℤ → Option ArrayBuffer
unfolding compact
read_adv b (pos n) =
    let b' = record b { read_head = b.read_head + n } in
    if leb (b.read_head + n) b.write_head
    then some (if b.read_head + n == b.write_head then compact b' else b')
    else none
read_adv b (negsuc n) = some b

-- `BufferReadByte`: an empty buffer gives 0.
unfoldable pub read_byte : ArrayBuffer → Option (ℕ × ArrayBuffer)
unfolding can_read read_adv
read_byte b =
    if can_read b
    then elim (get_elem? b.data_bytes b.read_head) [
      | none ↦ none
      | some ret ↦ elim (read_adv b (pos 1)) [ none ↦ none | some b' ↦ some (ret, b') ]
    ]
    else some (0, b)

-- `BufferWriteByte`: a full buffer drops the byte.
unfoldable pub write_byte : ArrayBuffer → ℕ → Option ArrayBuffer
unfolding can_write write_adv
write_byte b c =
    if can_write b
    then write_adv (record b { data_bytes = set b.data_bytes b.write_head c }) (pos 1)
    else some b
