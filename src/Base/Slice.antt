-- ===== src/Base/Slice.antt =====
-- The part of an array between two indices.
use mathlib.Core.List.{append-nil, append_assoc}
use protos.Base.Lists.{length, get_elem?, set, take, drop, store, length-take, length-set}
use Prim.Native.Nat.{ℕ, zero, suc, ◌+◌, ◌-◌, ◌≤◌, ◌<◌}
use mathlib.Core.Path.{◌≡◌, refl, sym, ap, ◌∙◌}
use mathlib.Core.List.{List, [], ◌∷◌, ◌++◌}
use mathlib.Core.Option.{some}
use native.Mathlib.Omega.{arith}

module _ {ℓ} {A : Type ℓ} where
  abbrev pub slice : List A → ℕ → ℕ → List A
  slice a r w = take (w - r) (drop r a)

  length-drop : (r : ℕ) (a : List A) → length (drop r a) ≡ length a - r
  length-drop zero a = omega arith
  length-drop (suc r) [] = omega arith
  length-drop (suc r) (x ∷ a) = omega (arith, length-drop r a)

  pub length-slice : (a : List A) (r w : ℕ) → w ≤ length a → length (slice a r w) ≡ w - r
  length-slice a r w h = length-take (w - r) (drop r a) (omega (arith, length-drop r a))

  take-set_end :
      (a : List A) (n : ℕ) (v : A) → n < length a → take (suc n) (set a n v) ≡ take n a ++ v ∷ []
  take-set_end [] n v h = absurd (omega arith)
  take-set_end (x ∷ a) zero v h = refl
  take-set_end (x ∷ a) (suc n) v h = ap (λ t. x ∷ t) (take-set_end a n v (omega arith))

  drop-set : (a : List A) (r w : ℕ) (v : A) → r ≤ w → drop r (set a w v) ≡ set (drop r a) (w - r) v
  drop-set a zero w v h = ap (λ k. set a k v) (omega arith)
  drop-set [] (suc r) w v h = refl
  drop-set (x ∷ a) (suc r) zero v h = absurd (omega arith)
  drop-set (x ∷ a) (suc r) (suc w) v h =
      drop-set a r w v (omega arith) ∙ ap (λ k. set (drop r a) k v) (omega arith)

  -- A write at the end extends the part by that value.
  pub slice-set :
      (a : List A) (r w : ℕ) (v : A)
      → r ≤ w
      → w < length a
      → slice (set a w v) r (w + 1) ≡ slice a r w ++ v ∷ []
  slice-set a r w v h k =
      ap (λ l. take (w + 1 - r) l) (drop-set a r w v h)
      ∙ ap (λ n. take n (set (drop r a) (w - r) v)) {y = suc (w - r)} (omega arith)
      ∙ take-set_end (drop r a) (w - r) v (omega (arith, length-drop r a))

  -- A part that is not empty begins with the value at its start.
  pub slice-cons :
      (a : List A) (r w : ℕ) (x : A)
      → r < w
      → get_elem? a r ≡ some x
      → slice a r w ≡ x ∷ slice a (r + 1) w
  slice-cons [] r w x h e = cc
  slice-cons (y ∷ a) zero w x h e =
      ap (λ k. take k (y ∷ a)) {y = suc (w - 1)} (omega arith) ∙ ap (λ z. z ∷ take (w - 1) a) same
    where
      same : y ≡ x
      same = cc
  slice-cons (y ∷ a) (suc r) w x h e =
      ap (λ k. take k (drop r a)) {y = (w - 1) - r} (omega arith)
      ∙ slice-cons a r (w - 1) x (omega arith) e
      ∙ ap (λ k. x ∷ take k (drop (r + 1) a)) {x = (w - 1) - (r + 1)} {y = w - (suc r + 1)}
          (omega arith)
      ∙ ap (λ k. x ∷ take (w - (suc r + 1)) (drop k (y ∷ a))) {x = suc (r + 1)} {y = suc r + 1}
          (omega arith)

  pub get_elem?-some : (a : List A) (i : ℕ) → i < length a → (x : A) × (get_elem? a i ≡ some x)
  get_elem?-some [] i h = absurd (omega arith)
  get_elem?-some (x ∷ a) zero h = (x, refl)
  get_elem?-some (x ∷ a) (suc i) h = get_elem?-some a i (omega arith)

  -- Leaving out the first `n` values of a part.
  pub drop-slice :
      (n : ℕ) (a : List A) (r w : ℕ)
      → r + n ≤ w
      → w ≤ length a
      → drop n (slice a r w) ≡ slice a (r + n) w
  drop-slice zero a r w h k = ap (λ i. slice a i w) (omega arith)
  drop-slice (suc n) a r w h k =
      let (x, e) = get_elem?-some a r (omega arith) in
      ap (λ l. drop (suc n) l) (slice-cons a r w x (omega arith) e)
      ∙ drop-slice n a (r + 1) w (omega arith) k
      ∙ ap (λ i. slice a i w) {x = r + 1 + n} {y = r + suc n} (omega arith)

  -- A run of writes at the end extends the part by those values.
  pub slice-store :
      (a : List A) (r w : ℕ) (xs : List A)
      → r ≤ w
      → w + length xs ≤ length a
      → slice (store a w xs) r (w + length xs) ≡ slice a r w ++ xs
  unfolding store
  slice-store a r w [] h k =
      ap (λ i. slice a r i) {y = w} (omega arith) ∙ sym (append-nil (slice a r w))
  slice-store a r w (x ∷ xs) h k =
      ap (λ i. slice (store (set a w x) (w + 1) xs) r i) {y = w + 1 + length xs} (omega arith)
      ∙ slice-store (set a w x) r (w + 1) xs (omega arith) (omega (arith, length-set a w x))
      ∙ ap (λ l. l ++ xs) (slice-set a r w x h (omega arith))
      ∙ append_assoc (slice a r w) (x ∷ []) xs
