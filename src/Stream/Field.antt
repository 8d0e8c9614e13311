-- ===== src/Stream/Field.antt =====
-- A field of a message whose length is known: the parser stays in one state until it has read
-- `n` bytes, and leaves it at the last.
use mathlib.Core.List.{append_assoc}
use mathlib.Core.Path.{subst}
use protos.Base.{
  ℕ, ◌+◌, ◌<◌, true, false, List, [], ◌∷◌, ◌++◌, ◌≡◌, refl, ap, ap₂, ◌∙◌, arith, length,
  length-append, append-nil, dec_lt, take, drop, take-append-drop, length-take,
}
use protos.Stream.{Machine, consume_from, resume}

-- `reading xs` is the parser that has read `xs` of the field, `left xs` the one that has read all.
pub record Field {P : Type 0} (m : Machine P) (n : ℕ) (reading left : List ℕ → P) : Type 0 where
  pub waits : (xs : List ℕ) → m.finished (reading xs) ≡ false
  pub more :
      (xs : List ℕ) (c : ℕ) → length xs + 1 < n → m.feed (reading xs) c ≡ reading (xs ++ c ∷ [])
  pub last : (xs : List ℕ) (c : ℕ) → length xs + 1 ≡ n → m.feed (reading xs) c ≡ left (xs ++ c ∷ [])

module _ {P : Type 0} (m : Machine P) where
  pub consume-step :
      (i : ℕ) (p : P) (c : ℕ) (cs : List ℕ)
      → consume_from m i p (c ∷ cs) ≡ resume m (i + 1) (m.feed p c) cs
  unfolding consume_from resume
  consume-step i p c cs = refl

  pub resume-going :
      (i : ℕ) (p : P) (cs : List ℕ) → m.finished p ≡ false → resume m i p cs ≡ consume_from m i p cs
  unfolding resume
  resume-going i p cs h = rw (h, resume)

  pub resume-stopped :
      (i : ℕ) (p : P) (cs : List ℕ) → m.finished p ≡ true → resume m i p cs ≡ (i, p)
  unfolding resume
  resume-stopped i p cs h = rw (h, resume)

regroup : (xs : List ℕ) (c : ℕ) (cs : List ℕ) → (xs ++ c ∷ []) ++ cs ≡ xs ++ c ∷ cs
regroup xs c cs = append_assoc xs (c ∷ []) cs

module _ {P : Type 0} {m : Machine P} {n : ℕ} {reading left : List ℕ → P} where
  -- The bytes that complete the field are all read, and the loop goes on behind it.
  pub consume-Field :
      Field m n reading left
      → (i : ℕ) (xs ys rest : List ℕ) (y : ℕ) → length xs + length (y ∷ ys) ≡ n
      → consume_from m i (reading xs) ((y ∷ ys) ++ rest)
        ≡ resume m (i + length (y ∷ ys)) (left (xs ++ y ∷ ys)) rest
  consume-Field f i xs [] rest y h =
      consume-step m i (reading xs) y rest
      ∙ ap (λ p. resume m (i + 1) p rest) (f.last xs y (omega arith))
  consume-Field f i xs (z ∷ ys) rest y h =
      consume-step m i (reading xs) y ((z ∷ ys) ++ rest)
      ∙ ap (λ p. resume m (i + 1) p ((z ∷ ys) ++ rest)) (f.more xs y (omega arith))
      ∙ resume-going m (i + 1) (reading (xs ++ y ∷ [])) ((z ∷ ys) ++ rest) (f.waits (xs ++ y ∷ []))
      ∙ consume-Field f (i + 1) (xs ++ y ∷ []) ys rest z (omega (arith, length-append xs (y ∷ [])))
      ∙ ap₂ (λ k l. resume m k (left l) rest) (omega arith) (regroup xs y (z ∷ ys))

  -- Fewer bytes leave the parser in the field.
  pub consume_part :
      Field m n reading left
      → (i : ℕ) (xs ys : List ℕ) → length xs + length ys < n
      → consume_from m i (reading xs) ys ≡ (i + length ys, reading (xs ++ ys))
  unfolding consume_from
  consume_part f i xs [] h = ap₂ (λ k l. (k, reading l)) (omega arith) (rw append-nil)
  consume_part f i xs (y ∷ ys) h =
      consume-step m i (reading xs) y ys
      ∙ ap (λ p. resume m (i + 1) p ys) (f.more xs y (omega arith))
      ∙ resume-going m (i + 1) (reading (xs ++ y ∷ [])) ys (f.waits (xs ++ y ∷ []))
      ∙ consume_part f (i + 1) (xs ++ y ∷ []) ys (omega (arith, length-append xs (y ∷ [])))
      ∙ ap₂ (λ k l. (k, reading l)) (omega arith) (regroup xs y ys)

-- The outcome of a field from its start: the input ends inside it, or it is read whole.
pub data Outcome {P : Type 0} (m : Machine P) (n : ℕ) (reading left : List ℕ → P) (i : ℕ)
    (cs : List ℕ) : Type 0 where
  part :
      length cs < n
      → consume_from m i (reading []) cs ≡ (i + length cs, reading cs)
      → Outcome m n reading left i cs
  whole :
      (xs rest : List ℕ)
      → cs ≡ xs ++ rest
      → length xs ≡ n
      → consume_from m i (reading []) cs ≡ resume m (i + length xs) (left xs) rest
      → Outcome m n reading left i cs

module _ {P : Type 0} {m : Machine P} {n : ℕ} {reading left : List ℕ → P} where
  -- The whole field from its start.
  pub consume_whole :
      Field m n reading left
      → (i : ℕ) (xs rest : List ℕ) → 0 < n
      → length xs ≡ n
      → consume_from m i (reading []) (xs ++ rest) ≡ resume m (i + length xs) (left xs) rest
  consume_whole f i [] rest h e = absurd (omega arith)
  consume_whole f i (x ∷ xs) rest h e = consume-Field f i [] xs rest x (omega arith)

  whole-Field :
      Field m n reading left
      → (i : ℕ) (xs rest : List ℕ) → 0 < n
      → length xs ≡ n
      → Outcome m n reading left i (xs ++ rest)
  whole-Field f i xs rest h e = whole xs rest refl e (consume_whole f i xs rest h e)

  pub Field-Outcome :
      Field m n reading left → (i : ℕ) (cs : List ℕ) → 0 < n → Outcome m n reading left i cs
  Field-Outcome f i cs h = elim (dec_lt (length cs) n) [
    | yes p ↦ part p (consume_part f i [] cs (omega arith))
    | no p ↦
        subst (λ l. Outcome m n reading left i l) (take-append-drop n cs)
          (whole-Field f i (take n cs) (drop n cs) h (length-take n cs (omega arith)))
  ]
