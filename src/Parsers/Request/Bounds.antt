-- ===== src/Parsers/Request/Bounds.antt =====
-- The array accesses of the request's parser.
use protos.Base.{
  ℕ, ◌<◌, List, ◌≡◌, ◌⊎◌, ◌≢◌, refl, ap, arith, length, length-set, length-replicate, IsBytes,
}
use protos.Stream.Chunks.{consume_inv}
use protos.Parsers.Request.{
  RequestState, RequestParser, select_address, feed_in, feed, reset, machine, consume,
}

-- Which bytes have been read, by the state.
abbrev Progress : RequestState → RequestParser → Type 0
Progress RequestState.version p = p.address_position ≡ 0
Progress RequestState.cmd p = p.address_position ≡ 0
Progress RequestState.rsv p = p.address_position ≡ 0
Progress RequestState.a_type p = p.address_position ≡ 0
Progress RequestState.dest_addr_ipv4 p = p.address_position < p.address_length
Progress RequestState.dest_addr_ipv6 p = p.address_position < p.address_length
Progress RequestState.dest_addr_fqdn p =
    (p.address_position ≡ 0) × (p.address_length ≡ 0) ⊎ (p.address_position < p.address_length)
Progress _ p = Unit

-- What holds of a parser that was reset and then fed bytes.
record IsValid (p : RequestParser) : Type 0 where
  address_room : length p.dest_address ≡ 256
  port_room : length p.dest_port ≡ 2
  count : p.address_length < 256
  progress : Progress p.state p

reset-IsValid : (p : RequestParser) → IsValid (reset p)
unfolding reset
reset-IsValid p = ground (arith, length-replicate {A = ℕ} 256 0)

module _ (p : RequestParser) (c : ℕ) where
  select_address-IsValid : p.state ≡ RequestState.a_type → IsValid p → IsValid (select_address p c)
  unfolding select_address
  select_address-IsValid e v = ground arith

  feed_in-IsValid : (s : RequestState) → p.state ≡ s → c < 256 → IsValid p → IsValid (feed_in s p c)
  unfolding feed_in
  feed_in-IsValid RequestState.version e h v = ground arith
  feed_in-IsValid RequestState.a_type e h v = select_address-IsValid e v
  feed_in-IsValid RequestState.dest_port_first_byte e h v =
      ground (arith, length-set p.dest_port 0 c)
  feed_in-IsValid RequestState.dest_port_second_byte e h v =
      ground (arith, length-set p.dest_port 1 c)
  feed_in-IsValid _ e h v = ground (arith, length-set p.dest_address p.address_position c)

feed-IsValid : (p : RequestParser) (c : ℕ) → c < 256 → IsValid p → IsValid (feed p c)
unfolding feed
feed-IsValid p c h v = feed_in-IsValid p c p.state refl h v

-- The array write that the next byte makes: the array and the index.
pub data Pending (p : RequestParser) : List ℕ → ℕ → Type 0 where
  ipv4_byte :
      {array : List ℕ} {index : ℕ}
      → p.state ≡ RequestState.dest_addr_ipv4
      → (p.dest_address ≡ array) × (p.address_position ≡ index)
      → Pending p array index
  ipv6_byte :
      {array : List ℕ} {index : ℕ}
      → p.state ≡ RequestState.dest_addr_ipv6
      → (p.dest_address ≡ array) × (p.address_position ≡ index)
      → Pending p array index
  fqdn_byte :
      {array : List ℕ} {index : ℕ}
      → p.state ≡ RequestState.dest_addr_fqdn
      → p.address_length ≢ 0
      → (p.dest_address ≡ array) × (p.address_position ≡ index)
      → Pending p array index
  first_port_byte :
      {array : List ℕ} {index : ℕ}
      → p.state ≡ RequestState.dest_port_first_byte
      → (p.dest_port ≡ array) × (0 ≡ index)
      → Pending p array index
  second_port_byte :
      {array : List ℕ} {index : ℕ}
      → p.state ≡ RequestState.dest_port_second_byte
      → (p.dest_port ≡ array) × (1 ≡ index)
      → Pending p array index

Pending-in_bounds :
    {p : RequestParser} {array : List ℕ} {index : ℕ}
    → IsValid p
    → Pending p array index
    → index < length array
Pending-in_bounds v (ipv4_byte s e) = ground (arith, rw s at v.progress, ap length e.0)
Pending-in_bounds v (ipv6_byte s e) = ground (arith, rw s at v.progress, ap length e.0)
Pending-in_bounds v (fqdn_byte s n e) = ground (arith, rw s at v.progress, ap length e.0)
Pending-in_bounds v (first_port_byte s e) = ground (arith, ap length e.0)
Pending-in_bounds v (second_port_byte s e) = ground (arith, ap length e.0)

-- After any input that follows a reset, the next write into `DestAddress` or `DestPort` stays
-- inside the array, in each of the five states that write.
pub request_write_in_bounds :
    (q : RequestParser) (bytes : List ℕ) {array : List ℕ} {index : ℕ}
    → IsBytes bytes
    → Pending (consume (reset q) bytes).1 array index
    → index < length array
unfolding consume
request_write_in_bounds q bytes b =
    Pending-in_bounds (consume_inv machine IsValid feed-IsValid (reset q) bytes b (reset-IsValid q))
