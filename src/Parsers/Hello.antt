-- ===== src/Parsers/Hello.antt =====
-- socks5d/lib/parsers/socks5/hello_parser.c: the client's greeting, `VER NMETHODS METHODS`.
-- A byte is a number, below 256 where it matters. A null parser or array is not modelled: each
-- function returns at once on one. The log lines are left out.
pub mod Bounds
pub mod Message
use protos.Base.{
  ℕ, ◌+◌, ◌%◌, Bool, true, false, List, ◌≡◌, refl, arith, ◌==◌, leb, if◌then◌else◌, set, replicate,
}
use protos.Stream
use protos.Stream.{Machine}

-- `HelloParserState`.
pub data HelloState : Type 0 where
  version n_methods methods done unsupported_version invalid_state : HelloState

-- `HelloParser`. `methods` is the array of 255 bytes.
pub record HelloParser : Type 0 where
  pub state : HelloState
  pub n_methods : ℕ
  pub current_method : ℕ
  pub methods : List ℕ

-- The `switch` of `HelloParserFeed`, on the state. `CurrentMethod` is a `uint8_t`.
pub feed_in : HelloState → HelloParser → ℕ → HelloParser
feed_in HelloState.version p c = record p {
  state = if c == 0x05 then HelloState.n_methods else HelloState.unsupported_version;
}
feed_in HelloState.n_methods p c = record p {
  n_methods = c;
  state = if leb c 0 then HelloState.invalid_state else HelloState.methods;
}
feed_in HelloState.methods p c =
    let current = (p.current_method + 1) % 256 in
    record p {
      methods = set p.methods p.current_method c;
      current_method = current;
      state = if current == p.n_methods then HelloState.done else p.state;
    }
feed_in HelloState.done p c = p
feed_in HelloState.unsupported_version p c = p
feed_in HelloState.invalid_state p c = record p { state = HelloState.invalid_state }

unfoldable pub feed : HelloParser → ℕ → HelloParser
unfolding feed_in
feed p c = feed_in p.state p c

unfoldable pub has_failed : HelloState → Bool
has_failed HelloState.invalid_state = true
has_failed HelloState.unsupported_version = true
has_failed _ = false

unfoldable pub has_finished : HelloState → Bool
has_finished HelloState.done = true
has_finished HelloState.invalid_state = true
has_finished HelloState.unsupported_version = true
has_finished _ = false

-- `HelloParserReset`: every field is written, so what the parser was does not matter.
unfoldable pub reset : HelloParser → HelloParser
reset p = record {
  state = HelloState.version;
  n_methods = 0;
  current_method = 0;
  methods = replicate 255 0;
}

feed_in-absorbs :
    (s : HelloState) (p : HelloParser) (c : ℕ)
    → p.state ≡ s
    → has_finished s ≡ true
    → feed_in s p c ≡ p
unfolding feed_in has_finished
feed_in-absorbs HelloState.version p c e h = cc
feed_in-absorbs _ p c e h = ground arith

pub feed-absorbs : (p : HelloParser) (c : ℕ) → has_finished p.state ≡ true → feed p c ≡ p
unfolding feed
feed-absorbs p c h = feed_in-absorbs p.state p c refl h

abbrev pub machine : Machine HelloParser
machine = record { feed = feed; finished = λ p. has_finished p.state; absorbs = feed-absorbs }

-- `HelloParserConsume`: the count that it returns, and the parser.
unfoldable pub consume : HelloParser → List ℕ → ℕ × HelloParser
consume = Stream.consume machine
