-- ===== src/Parsers/Request/Message.antt =====
-- The request's grammar, and that the parser accepts it.
use protos.Base.{
  ℕ, ◌+◌, ◌<◌, List, [], ◌∷◌, ◌++◌, ◌≡◌, refl, ap, ◌∙◌, arith, append_assoc, false, length, take,
  replicate, store, length-append, store-concat, take-store_start, length-replicate,
}
use protos.Stream
use protos.Stream.Field.{Field, consume_whole}
use protos.Parsers.Request.{
  RequestState, RequestParser, address_byte, feed_in, feed, has_finished, reset, machine, consume,
}

-- RFC 1928: an address of 4 or 16 bytes, or a name behind its length.
pub data Destination : Type 0 where
  ipv4 ipv6 fqdn : List ℕ → Destination

abbrev pub IsDestination : Destination → Type 0
IsDestination (ipv4 a) = length a ≡ 4
IsDestination (ipv6 a) = length a ≡ 16
IsDestination (fqdn a) = (0 < length a) × (length a < 256)

abbrev pub address : Destination → List ℕ
address (ipv4 a) = a
address (ipv6 a) = a
address (fqdn a) = a

abbrev pub type_of : Destination → ℕ
type_of (ipv4 a) = 0x01
type_of (ipv6 a) = 0x04
type_of (fqdn a) = 0x03

abbrev pub state_of : Destination → RequestState
state_of (ipv4 a) = RequestState.dest_addr_ipv4
state_of (ipv6 a) = RequestState.dest_addr_ipv6
state_of (fqdn a) = RequestState.dest_addr_fqdn

-- What stands before the address.
abbrev pub prefix : ℕ → Destination → List ℕ
prefix cmd (ipv4 a) = 0x05 ∷ cmd ∷ 0x00 ∷ 0x01 ∷ []
prefix cmd (ipv6 a) = 0x05 ∷ cmd ∷ 0x00 ∷ 0x04 ∷ []
prefix cmd (fqdn a) = 0x05 ∷ cmd ∷ 0x00 ∷ 0x03 ∷ length a ∷ []

unfoldable pub request_message : ℕ → Destination → ℕ → ℕ → List ℕ
request_message cmd d hi lo = prefix cmd d ++ (address d ++ hi ∷ lo ∷ [])

abbrev pub zeros : List ℕ
zeros = replicate 256 0

-- The parser in an address state, after `xs` of the `n` bytes.
unfoldable pub reading : RequestState → ℕ → ℕ → ℕ → List ℕ → RequestParser
reading s cmd t n xs = record {
  state = s;
  cmd = cmd;
  a_type = t;
  dest_address = store zeros 0 xs;
  address_length = n;
  address_position = length xs;
  dest_port = 0 ∷ 0 ∷ [];
}

-- With the address read, before the port and behind it.
unfoldable pub addressed : ℕ → ℕ → ℕ → List ℕ → RequestParser
unfolding reading
addressed cmd t n xs = reading RequestState.dest_port_first_byte cmd t n xs

unfoldable pub requested : ℕ → ℕ → ℕ → List ℕ → ℕ → ℕ → RequestParser
unfolding reading
requested cmd t n xs hi lo = record (reading RequestState.done cmd t n xs) {
  dest_port = hi ∷ lo ∷ [];
}

module _ (cmd t n : ℕ) where
  reading-more :
      (s : RequestState) (xs : List ℕ) (c : ℕ)
      → length xs + 1 < n
      → n < 256
      → address_byte (reading s cmd t n xs) c ≡ reading s cmd t n (xs ++ c ∷ [])
  unfolding reading address_byte
  reading-more s xs c k h = ground (arith, store-concat zeros 0 xs c, length-append xs (c ∷ []))

  reading-last :
      (s : RequestState) (xs : List ℕ) (c : ℕ)
      → length xs + 1 ≡ n
      → n < 256
      → address_byte (reading s cmd t n xs) c ≡ addressed cmd t n (xs ++ c ∷ [])
  unfolding reading address_byte addressed
  reading-last s xs c k h = ground (arith, store-concat zeros 0 xs c, length-append xs (c ∷ []))

  -- In each address state a byte is a byte of the address: for a name, once its length is known.
  feed-reading :
      (d : Destination) (xs : List ℕ) (c : ℕ)
      → 0 < n
      → feed (reading (state_of d) cmd t n xs) c ≡ address_byte (reading (state_of d) cmd t n xs) c
  unfolding feed feed_in reading
  feed-reading (ipv4 a) xs c h = refl
  feed-reading (ipv6 a) xs c h = refl
  feed-reading (fqdn a) xs c h = ground arith

  waiting :
      (d : Destination) (xs : List ℕ) → has_finished (reading (state_of d) cmd t n xs).state ≡ false
  unfolding reading has_finished
  waiting (ipv4 a) xs = refl
  waiting (ipv6 a) xs = refl
  waiting (fqdn a) xs = refl

  pub address-Field :
      (d : Destination)
      → 0 < n
      → n < 256
      → Field machine n (reading (state_of d) cmd t n) (addressed cmd t n)
  address-Field d pos h = record {
    waits = waiting d;
    more = λ xs c k. feed-reading d xs c pos ∙ reading-more (state_of d) xs c k h;
    last = λ xs c k. feed-reading d xs c pos ∙ reading-last (state_of d) xs c k h;
  }

  -- The port.
  pub resume-port :
      (i : ℕ) (xs : List ℕ) (hi lo : ℕ) (rest : List ℕ)
      → Stream.resume machine i (addressed cmd t n xs) (hi ∷ lo ∷ rest)
        ≡ (i + 1 + 1, requested cmd t n xs hi lo)
  unfolding Stream.resume Stream.consume_from feed feed_in has_finished addressed reading requested
  resume-port i xs hi lo rest = refl

-- Up to the address, for each kind.
pub header :
    (q : RequestParser) (cmd : ℕ) (d : Destination) (cs : List ℕ)
    → 0 < length (address d)
    → IsDestination d
    → consume (reset q) (prefix cmd d ++ cs)
      ≡ Stream.consume_from machine
          (length (prefix cmd d))
          (reading (state_of d) cmd (type_of d) (length (address d)) [])
          cs
unfolding consume Stream.consume Stream.consume_from reset feed feed_in has_finished reading store
header q cmd (ipv4 a) cs pos h = rw h
header q cmd (ipv6 a) cs pos h = rw h
header q cmd (fqdn a) cs pos h = ground arith

pub address_pos : (d : Destination) → IsDestination d → 0 < length (address d)
address_pos (ipv4 a) h = omega arith
address_pos (ipv6 a) h = omega arith
address_pos (fqdn a) h = h.0

pub address_short : (d : Destination) → IsDestination d → length (address d) < 256
address_short (ipv4 a) h = omega arith
address_short (ipv6 a) h = omega arith
address_short (fqdn a) h = h.1

-- The parser that a message leaves.
abbrev pub requested_for : ℕ → Destination → ℕ → ℕ → RequestParser
requested_for cmd d hi lo = requested cmd (type_of d) (length (address d)) (address d) hi lo

pub message-append :
    (cmd : ℕ) (d : Destination) (hi lo : ℕ) (rest : List ℕ)
    → request_message cmd d hi lo ++ rest ≡ prefix cmd d ++ (address d ++ hi ∷ lo ∷ rest)
unfolding request_message
message-append cmd d hi lo rest =
    append_assoc (prefix cmd d) (address d ++ hi ∷ lo ∷ []) rest
    ∙ ap (λ t. prefix cmd d ++ t) (append_assoc (address d) (hi ∷ lo ∷ []) rest)

pub length-message :
    (cmd : ℕ) (d : Destination) (hi lo : ℕ)
    → length (request_message cmd d hi lo) ≡ length (prefix cmd d) + length (address d) + 2
unfolding request_message
length-message cmd d hi lo = omega (
  arith,
  length-append (prefix cmd d) (address d ++ hi ∷ lo ∷ []),
  length-append (address d) (hi ∷ lo ∷ []),
)

pub run_message :
    (q : RequestParser) (cmd : ℕ) (d : Destination) (hi lo : ℕ) (rest : List ℕ)
    → IsDestination d
    → consume (reset q) (request_message cmd d hi lo ++ rest)
      ≡ (length (request_message cmd d hi lo), requested_for cmd d hi lo)
run_message q cmd d hi lo rest h =
    let i = length (prefix cmd d) in
    let n = length (address d) in
    ap (λ t. consume (reset q) t) (message-append cmd d hi lo rest)
    ∙ header q cmd d (address d ++ hi ∷ lo ∷ rest) (address_pos d h) h
    ∙ consume_whole (address-Field cmd (type_of d) n d (address_pos d h) (address_short d h)) i
        (address d) (hi ∷ lo ∷ rest) (address_pos d h) refl
    ∙ resume-port cmd (type_of d) n (i + n) (address d) hi lo rest
    ∙ ap (λ k. (k, requested_for cmd d hi lo)) (omega (arith, length-message cmd d hi lo))

-- A request for any command and any destination of the three kinds is accepted whatever follows
-- it: the call returns its length, and the parser is done and holds exactly the command, the
-- address type, the address and the two port bytes.
pub consume-request_message :
    (q : RequestParser) (cmd : ℕ) (d : Destination) (hi lo : ℕ) (rest : List ℕ)
    → IsDestination d
    → let (count, p) = consume (reset q) (request_message cmd d hi lo ++ rest) in
      (count ≡ length (request_message cmd d hi lo))
      × (p.state ≡ RequestState.done)
      × (p.cmd ≡ cmd)
      × (p.a_type ≡ type_of d)
      × (take p.address_length p.dest_address ≡ address d)
      × (p.dest_port ≡ hi ∷ lo ∷ [])
unfolding requested reading
consume-request_message q cmd d hi lo rest h = rw (run_message q cmd d hi lo rest h) (
  refl,
  refl,
  refl,
  refl,
  take-store_start zeros (address d)
      (omega (arith, address_short d h, length-replicate {A = ℕ} 256 0)),
  refl,
)
