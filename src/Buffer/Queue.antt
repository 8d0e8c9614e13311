-- ===== src/Buffer/Queue.antt =====
-- What a buffer of a given size promises: a first-in first-out queue of bytes, with the room
-- left behind them. Room comes back when the queue is emptied by a read, or by a compaction.
use protos.Base.{
  ℕ, ◌-◌, List, [], ◌∷◌, ◌++◌, Option, none, some, ◌==◌, leb, if◌then◌else◌, length, take, drop,
}

-- The calls of a client: `fill` is `recv` into the write pointer and an advance, `drain` is
-- `send` of some of the readable bytes and an advance.
pub data Op : Type 0 where
  put : ℕ → Op
  get : Op
  fill : List ℕ → Op
  drain : ℕ → Op
  compact_now reset_now : Op

pub record Queue : Type 0 where
  pub items : List ℕ
  pub room : ℕ

module _ (size : ℕ) where
  -- The bytes that a call hands to the client, and the queue behind it; `none` for a failed
  -- assertion.
  unfoldable pub step : Queue → Op → Option (List ℕ × Queue)
  step q (put c) = some (
      if q.room == 0
      then ([], q)
      else ([], record { items = q.items ++ c ∷ []; room = q.room - 1 }))
  step q get = elim q.items [
    | [] ↦ some (0 ∷ [], q)
    | x ∷ xs ↦ some (x ∷ [], record { items = xs; room = if length xs == 0 then size else q.room })
  ]
  step q (fill bs) =
      if leb (length bs) q.room
      then some ([], record { items = q.items ++ bs; room = q.room - length bs })
      else none
  step q (drain n) =
      if leb n (length q.items)
      then some (
        take n q.items,
        record { items = drop n q.items; room = if n == length q.items then size else q.room },
      )
      else none
  step q compact_now = some ([], record q { room = size - length q.items })
  step q reset_now = some ([], record { items = []; room = size })

  unfoldable pub run : Queue → List Op → Option (List ℕ)
  run q [] = some []
  run q (o ∷ os) = elim (step q o) [
    | none ↦ none
    | some (out, q') ↦ elim (run q' os) [ none ↦ none | some outs ↦ some (out ++ outs) ]
  ]
