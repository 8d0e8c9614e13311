-- ===== src/Parsers/Request.antt =====
-- socks5d/lib/parsers/socks5/request_parser.c: the client's request,
-- `VER CMD RSV ATYP DST.ADDR DST.PORT`. A null parser or array is not modelled: each function
-- returns at once on one. The log lines are left out.
pub mod Bounds
pub mod Message
mod Refused
pub mod Sound
pub mod Tail
use protos.Base.{
  ℕ, ◌+◌, ◌%◌, Bool, true, false, List, [], ◌∷◌, ◌≡◌, refl, arith, ◌==◌, leb, if◌then◌else◌, set,
  replicate,
}
use protos.Stream
use protos.Stream.{Machine}

-- `RequestParserState`.
pub data RequestState : Type 0 where
  version cmd rsv a_type dest_addr_ipv4 dest_addr_ipv6 dest_addr_fqdn : RequestState
  dest_port_first_byte dest_port_second_byte unsupported_version invalid_state done : RequestState

-- `RequestParser`. `dest_address` is an array of 256 bytes and `dest_port` one of 2; the two
-- counters are bytes.
pub record RequestParser : Type 0 where
  pub state : RequestState
  pub cmd : ℕ
  pub a_type : ℕ
  pub dest_address : List ℕ
  pub address_length : ℕ
  pub address_position : ℕ
  pub dest_port : List ℕ

-- `SOCKS5_ADDRESS_TYPE_*` of socks5d/include/lib/socks5/socks5.h.
abbrev pub address_type_ipv4 : ℕ
address_type_ipv4 = 0x01

abbrev pub address_type_fqdn : ℕ
address_type_fqdn = 0x03

abbrev pub address_type_ipv6 : ℕ
address_type_ipv6 = 0x04

-- `RequestParserReset`: every field is written.
unfoldable pub reset : RequestParser → RequestParser
reset p = record {
  state = RequestState.version;
  cmd = 0;
  a_type = 0;
  dest_address = replicate 256 0;
  address_length = 0;
  address_position = 0;
  dest_port = 0 ∷ 0 ∷ [];
}

-- The inner `switch`, on the address type.
unfoldable pub select_address : RequestParser → ℕ → RequestParser
select_address p c =
    if c == address_type_ipv4
    then record p { a_type = c; state = RequestState.dest_addr_ipv4; address_length = 4 }
    else if c == address_type_ipv6
    then record p { a_type = c; state = RequestState.dest_addr_ipv6; address_length = 16 }
    else if c == address_type_fqdn
    then record p { a_type = c; state = RequestState.dest_addr_fqdn; address_length = 0 }
    else record p { a_type = c; state = RequestState.invalid_state }

-- The body that the three address states share: `RequestDestAddrFQDN` falls through to it.
unfoldable pub address_byte : RequestParser → ℕ → RequestParser
address_byte p c =
    let position = (p.address_position + 1) % 256 in
    record p {
      dest_address = set p.dest_address p.address_position c;
      address_position = position;
      state = if p.address_length == position then RequestState.dest_port_first_byte else p.state;
    }

-- The `switch` of `RequestParserFeed`, on the state.
unfoldable pub feed_in : RequestState → RequestParser → ℕ → RequestParser
unfolding select_address address_byte
feed_in RequestState.version p c = record p {
  state = if c == 0x05 then RequestState.cmd else RequestState.unsupported_version;
}
feed_in RequestState.cmd p c = record p { cmd = c; state = RequestState.rsv }
feed_in RequestState.rsv p c = record p {
  state = if c == 0 then RequestState.a_type else RequestState.invalid_state;
}
feed_in RequestState.a_type p c = select_address p c
feed_in RequestState.dest_addr_fqdn p c =
    if p.address_length == 0
    then record p {
      address_length = c;
      state = if leb c 0 then RequestState.invalid_state else p.state;
    }
    else address_byte p c
feed_in RequestState.dest_addr_ipv4 p c = address_byte p c
feed_in RequestState.dest_addr_ipv6 p c = address_byte p c
feed_in RequestState.dest_port_first_byte p c = record p {
  dest_port = set p.dest_port 0 c;
  state = RequestState.dest_port_second_byte;
}
feed_in RequestState.dest_port_second_byte p c = record p {
  dest_port = set p.dest_port 1 c;
  state = RequestState.done;
}
feed_in RequestState.done p c = p
feed_in RequestState.unsupported_version p c = p
feed_in RequestState.invalid_state p c = p

unfoldable pub feed : RequestParser → ℕ → RequestParser
unfolding feed_in
feed p c = feed_in p.state p c

unfoldable pub has_failed : RequestState → Bool
has_failed RequestState.unsupported_version = true
has_failed RequestState.invalid_state = true
has_failed _ = false

unfoldable pub has_finished : RequestState → Bool
has_finished RequestState.unsupported_version = true
has_finished RequestState.invalid_state = true
has_finished RequestState.done = true
has_finished _ = false

feed_in-absorbs :
    (s : RequestState) (p : RequestParser) (c : ℕ) → has_finished s ≡ true → feed_in s p c ≡ p
unfolding feed_in has_finished
feed_in-absorbs RequestState.version p c h = cc
feed_in-absorbs _ p c h = ground arith

pub feed-absorbs : (p : RequestParser) (c : ℕ) → has_finished p.state ≡ true → feed p c ≡ p
unfolding feed
feed-absorbs p c h = feed_in-absorbs p.state p c h

abbrev pub machine : Machine RequestParser
machine = record { feed = feed; finished = λ p. has_finished p.state; absorbs = feed-absorbs }

-- `RequestParserConsume`: the count that it returns, and the parser.
unfoldable pub consume : RequestParser → List ℕ → ℕ × RequestParser
consume = Stream.consume machine
