-- ===== src/Stream/Faulty.antt =====
-- The `Feed`, `HasFinished`, `HasFailed` and `Consume` of the management protocol's parsers
-- (socks5d/lib/parsers/lulu). `none` is a read or a write outside an array, or through a null
-- pointer.
pub mod Spelling
use protos.Base.{
  ℕ, suc, ◌+◌, Bool, true, false, List, [], ◌∷◌, Option, none, some, ◌==◌, if◌then◌else◌,
}

pub record FaultyMachine (P : Type 0) : Type 0 where
  pub feed : P → ℕ → Option P
  pub finished : P → Bool
  pub failed : P → Bool

-- What a parser has made of its input so far.
pub data Verdict : Type 0 where
  waiting accepted refused : Verdict

module _ {P : Type 0} (m : FaultyMachine P) where
  open m use {feed, finished, failed}

  -- The loop of a `Consume` function from index `i`: the count that it returns, and the parser.
  unfoldable pub consume_from : ℕ → P → List ℕ → Option (ℕ × P)
  consume_from i p [] = some (i, p)
  consume_from i p (c ∷ cs) = elim (feed p c) [
    | none ↦ none
    | some q ↦ (elim (finished q) [ true ↦ some (i + 1, q) | false ↦ consume_from (i + 1) q cs ])
  ]

  unfoldable pub consume : P → List ℕ → Option (ℕ × P)
  unfolding consume_from
  consume = consume_from 0

  unfoldable pub verdict : P → Verdict
  verdict p =
      if finished p
      then (if failed p then Verdict.refused else Verdict.accepted)
      else Verdict.waiting

-- What a parser of one fixed message should make of an input: how much it reads, and its verdict.
unfoldable pub compare_message : List ℕ → List ℕ → ℕ × Verdict
compare_message [] input = (0, Verdict.accepted)
compare_message (c ∷ cs) [] = (0, Verdict.waiting)
compare_message (c ∷ cs) (d ∷ input) =
    let rest = compare_message cs input in
    if d == c then (suc rest.0, rest.1) else (1, Verdict.refused)
