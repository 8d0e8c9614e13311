-- ===== src/Parsers/Auth.antt =====
-- socks5d/lib/parsers/socks5/auth_parser.c: the user name and password subnegotiation of RFC
-- 1929, `VER ULEN UNAME PLEN PASSWD`. A null parser or array is not modelled: each function
-- returns at once on one. The log lines are left out.
pub mod Bounds
pub mod Message
pub mod Sound
use protos.Base.{
  ℕ, ◌+◌, Bool, true, false, List, ◌≡◌, refl, arith, ◌==◌, if◌then◌else◌, set, replicate,
}
use protos.Stream
use protos.Stream.{Machine}

-- `AuthParserState`.
pub data AuthState : Type 0 where
  version u_len u_name p_len passwd invalid_protocol invalid_state finished : AuthState

-- `AuthParser`. `u_name` and `passwd` are arrays of 256 bytes; the positions are `int`, and
-- stay below 256.
pub record AuthParser : Type 0 where
  pub state : AuthState
  pub u_len : ℕ
  pub u_name_position : ℕ
  pub u_name : List ℕ
  pub p_len : ℕ
  pub passwd : List ℕ
  pub passwd_position : ℕ

-- `AuthParserReset`: every field is written.
unfoldable pub reset : AuthParser → AuthParser
reset p = record {
  state = AuthState.version;
  u_len = 0;
  u_name_position = 0;
  u_name = replicate 256 0;
  p_len = 0;
  passwd = replicate 256 0;
  passwd_position = 0;
}

-- The `switch` of `AuthParserFeed`, on the state.
pub feed_in : AuthState → AuthParser → ℕ → AuthParser
feed_in AuthState.version p c = record p {
  state = if c == 0x01 then AuthState.u_len else AuthState.invalid_protocol;
}
feed_in AuthState.u_len p c = record p {
  u_len = c;
  state = if c == 0 then AuthState.invalid_state else AuthState.u_name;
}
feed_in AuthState.u_name p c = record p {
  u_name = set p.u_name p.u_name_position c;
  u_name_position = p.u_name_position + 1;
  state = if p.u_name_position + 1 == p.u_len then AuthState.p_len else p.state;
}
feed_in AuthState.p_len p c = record p {
  p_len = c;
  state = if c == 0 then AuthState.invalid_state else AuthState.passwd;
}
feed_in AuthState.passwd p c = record p {
  passwd = set p.passwd p.passwd_position c;
  passwd_position = p.passwd_position + 1;
  state = if p.passwd_position + 1 == p.p_len then AuthState.finished else p.state;
}
feed_in AuthState.invalid_protocol p c = p
feed_in AuthState.finished p c = p
feed_in AuthState.invalid_state p c = p

unfoldable pub feed : AuthParser → ℕ → AuthParser
unfolding feed_in
feed p c = feed_in p.state p c

unfoldable pub has_failed : AuthState → Bool
has_failed AuthState.invalid_state = true
has_failed AuthState.invalid_protocol = true
has_failed _ = false

unfoldable pub has_finished : AuthState → Bool
has_finished AuthState.invalid_protocol = true
has_finished AuthState.invalid_state = true
has_finished AuthState.finished = true
has_finished _ = false

feed_in-absorbs :
    (s : AuthState) (p : AuthParser) (c : ℕ) → has_finished s ≡ true → feed_in s p c ≡ p
unfolding feed_in has_finished
feed_in-absorbs AuthState.version p c h = cc
feed_in-absorbs _ p c h = ground arith

pub feed-absorbs : (p : AuthParser) (c : ℕ) → has_finished p.state ≡ true → feed p c ≡ p
unfolding feed
feed-absorbs p c h = feed_in-absorbs p.state p c h

abbrev pub machine : Machine AuthParser
machine = record { feed = feed; finished = λ p. has_finished p.state; absorbs = feed-absorbs }

-- `AuthParserConsume`: the count that it returns, and the parser.
unfoldable pub consume : AuthParser → List ℕ → ℕ × AuthParser
consume = Stream.consume machine
