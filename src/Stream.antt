-- ===== src/Stream.antt =====
-- What the parsers share (socks5d/lib/parsers): each has a `Feed` of one byte, a
-- `HasFinished` test, and a `Consume` loop over an array that stops at the first byte after
-- which the parser has finished.
pub mod Chunks
pub mod Field
pub mod Faulty
use protos.Base.{ℕ, ◌+◌, Bool, true, false, List, [], ◌∷◌, ◌≡◌}

-- A finished parser ignores whatever it is fed: the `break` of its final states.
pub record Machine (P : Type 0) : Type 0 where
  pub feed : P → ℕ → P
  pub finished : P → Bool
  pub absorbs : (p : P) (c : ℕ) → finished p ≡ true → feed p c ≡ p

module _ {P : Type 0} (m : Machine P) where
  open m use {feed, finished}

  -- The loop of a `Consume` function from index `i`, over `c[i..length)`: the count that it
  -- returns, and the parser. The test is made after each byte, never before the first.
  unfoldable pub consume_from : ℕ → P → List ℕ → ℕ × P
  consume_from i p [] = (i, p)
  consume_from i p (c ∷ cs) = elim (finished (feed p c)) [
    | true ↦ (i + 1, feed p c)
    | false ↦ consume_from (i + 1) (feed p c) cs
  ]

  unfoldable pub consume : P → List ℕ → ℕ × P
  consume = consume_from 0

  -- What the loop does when `p` is the parser after the byte before `i`.
  unfoldable pub resume : ℕ → P → List ℕ → ℕ × P
  resume i p cs = elim (finished p) [ true ↦ (i, p) | false ↦ consume_from i p cs ]

  -- Every byte fed, with no test.
  unfoldable pub feed_all : P → List ℕ → P
  feed_all p [] = p
  feed_all p (c ∷ cs) = feed_all (feed p c) cs

  -- The calls of `Consume` over the pieces in which a message arrives, until one finishes.
  unfoldable pub consume_chunks : P → List (List ℕ) → P
  consume_chunks p [] = p
  consume_chunks p (x ∷ xs) = elim (finished (consume p x).1) [
    | true ↦ (consume p x).1
    | false ↦ consume_chunks (consume p x).1 xs
  ]
