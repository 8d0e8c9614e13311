-- ===== src/Parsers/Auth/Bounds.antt =====
-- The array accesses of the subnegotiation's parser.
use protos.Base.{
  ℕ, ◌+◌, ◌<◌, List, ◌≡◌, refl, ap, arith, length, length-set, length-replicate, IsBytes,
}
use protos.Stream.Chunks.{consume_inv}
use protos.Parsers.Auth.{AuthState, AuthParser, feed_in, feed, reset, machine, consume}

-- What holds of a parser that was reset and then fed bytes.
pub record IsValid (p : AuthParser) : Type 0 where
  pub name_room : length p.u_name ≡ 256
  pub passwd_room : length p.passwd ≡ 256
  pub name_count : p.u_len < 256
  pub passwd_count : p.p_len < 256
  pub name_before : p.state ≡ AuthState.version → p.u_name_position ≡ 0
  pub name_starting : p.state ≡ AuthState.u_len → p.u_name_position ≡ 0
  pub name_inside : p.state ≡ AuthState.u_name → p.u_name_position < p.u_len
  pub passwd_at_version : p.state ≡ AuthState.version → p.passwd_position ≡ 0
  pub passwd_at_len : p.state ≡ AuthState.u_len → p.passwd_position ≡ 0
  pub passwd_at_name : p.state ≡ AuthState.u_name → p.passwd_position ≡ 0
  pub passwd_starting : p.state ≡ AuthState.p_len → p.passwd_position ≡ 0
  pub passwd_inside : p.state ≡ AuthState.passwd → p.passwd_position < p.p_len

reset-IsValid : (p : AuthParser) → IsValid (reset p)
unfolding reset
reset-IsValid p = ground (arith, length-replicate {A = ℕ} 256 0)

feed_in-IsValid :
    (s : AuthState) (p : AuthParser) (c : ℕ)
    → p.state ≡ s
    → c < 256
    → IsValid p
    → IsValid (feed_in s p c)
unfolding feed_in
feed_in-IsValid AuthState.version p c e h v = ground arith
feed_in-IsValid AuthState.u_name p c e h v = ground (arith, length-set p.u_name p.u_name_position c)
feed_in-IsValid AuthState.passwd p c e h v = ground (arith, length-set p.passwd p.passwd_position c)
feed_in-IsValid _ p c e h v = ground arith

feed-IsValid : (p : AuthParser) (c : ℕ) → c < 256 → IsValid p → IsValid (feed p c)
unfolding feed
feed-IsValid p c h v = feed_in-IsValid p.state p c refl h v

-- The array write that the next byte makes: the array, the index and the announced length.
pub data Pending (p : AuthParser) : List ℕ → ℕ → ℕ → Type 0 where
  name_byte :
      {array : List ℕ} {position limit : ℕ}
      → p.state ≡ AuthState.u_name
      → (p.u_name ≡ array) × (p.u_name_position ≡ position) × (p.u_len ≡ limit)
      → Pending p array position limit
  passwd_byte :
      {array : List ℕ} {position limit : ℕ}
      → p.state ≡ AuthState.passwd
      → (p.passwd ≡ array) × (p.passwd_position ≡ position) × (p.p_len ≡ limit)
      → Pending p array position limit

Pending-in_bounds :
    {p : AuthParser} {array : List ℕ} {position limit : ℕ}
    → IsValid p
    → Pending p array position limit
    → (position < limit) × (position + 1 < length array)
Pending-in_bounds v (name_byte s e) = ground (arith, v.name_inside s, ap length e.0)
Pending-in_bounds v (passwd_byte s e) = ground (arith, v.passwd_inside s, ap length e.0)

-- After any input that follows a reset, the next write into `UName` or `Passwd` stays below the
-- announced length, and leaves the last byte of the array, the terminator, alone.
pub auth_write_in_bounds :
    (q : AuthParser) (bytes : List ℕ) {array : List ℕ} {position limit : ℕ}
    → IsBytes bytes
    → Pending (consume (reset q) bytes).1 array position limit
    → (position < limit) × (position + 1 < length array)
unfolding consume
auth_write_in_bounds q bytes b =
    Pending-in_bounds (consume_inv machine IsValid feed-IsValid (reset q) bytes b (reset-IsValid q))
