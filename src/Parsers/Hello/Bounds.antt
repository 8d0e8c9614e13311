-- ===== src/Parsers/Hello/Bounds.antt =====
-- The array accesses of the greeting's parser.
use protos.Base.{ℕ, ◌<◌, List, ◌≡◌, IsBytes, refl, arith, length, length-set, length-replicate}
use protos.Parsers.Hello.{HelloState, HelloParser, feed_in, feed, reset, machine, consume}
use protos.Stream.Chunks.{consume_inv}

-- What holds of a parser that was reset and then fed bytes.
pub record IsValid (p : HelloParser) : Type 0 where
  pub room : length p.methods ≡ 255
  pub count : p.n_methods < 256
  pub before : p.state ≡ HelloState.version → p.current_method ≡ 0
  pub starting : p.state ≡ HelloState.n_methods → p.current_method ≡ 0
  pub inside : p.state ≡ HelloState.methods → p.current_method < p.n_methods

pub reset-IsValid : (p : HelloParser) → IsValid (reset p)
unfolding reset
reset-IsValid p = ground (arith, length-replicate {A = ℕ} 255 0)

feed_in-IsValid :
    (s : HelloState) (p : HelloParser) (c : ℕ)
    → p.state ≡ s
    → c < 256
    → IsValid p
    → IsValid (feed_in s p c)
unfolding feed_in
feed_in-IsValid HelloState.version p c e h v =
    ground (arith, length-set p.methods p.current_method c)
feed_in-IsValid _ p c e h v = ground (arith, length-set p.methods p.current_method c)

pub feed-IsValid : (p : HelloParser) (c : ℕ) → c < 256 → IsValid p → IsValid (feed p c)
unfolding feed
feed-IsValid p c h v = feed_in-IsValid p.state p c refl h v

-- After any input that follows a reset, the next write `Methods[CurrentMethod++]` stays inside
-- the array, and the counter is below the number of methods announced.
pub hello_write_in_bounds :
    (q : HelloParser) (bytes : List ℕ)
    → IsBytes bytes
    → (consume (reset q) bytes).1.state ≡ HelloState.methods
    → let p = (consume (reset q) bytes).1 in
      (p.current_method < length p.methods) × (p.current_method < p.n_methods)
unfolding consume
hello_write_in_bounds q bytes b h =
    let v : IsValid (consume (reset q) bytes).1 =
      consume_inv machine IsValid feed-IsValid (reset q) bytes b (reset-IsValid q) in
    (omega (arith, v.room, v.count, v.inside h), v.inside h)
