-- ===== src/Stream/Chunks.antt =====
-- How a message is cut into reads does not matter.
use mathlib.Core.List.{flatten}
use protos.Base.{
  ℕ, ◌+◌, ◌<◌, true, List, [], ◌∷◌, ◌++◌, inl, inr, ◌≡◌, refl, sym, ◌∙◌, Bool-cases, IsBytes,
}
use protos.Stream.{Machine, consume_from, consume, feed_all, consume_chunks}

module _ {P : Type 0} (m : Machine P) where
  open m use {feed, finished, absorbs}

  pub feed_all-append :
      (p : P) (xs ys : List ℕ) → feed_all m p (xs ++ ys) ≡ feed_all m (feed_all m p xs) ys
  unfolding feed_all
  feed_all-append p [] ys = refl
  feed_all-append p (x ∷ xs) ys = feed_all-append (feed p x) xs ys

  pub feed_all-finished : (p : P) (xs : List ℕ) → finished p ≡ true → feed_all m p xs ≡ p
  unfolding feed_all
  feed_all-finished p [] h = refl
  feed_all-finished p (x ∷ xs) h = rw (absorbs p x h) (feed_all-finished p xs h)

  -- Stopping early loses nothing: the parser is what feeding every byte would give.
  pub consume_from-eq-feed_all :
      (i : ℕ) (p : P) (xs : List ℕ) → (consume_from m i p xs).1 ≡ feed_all m p xs
  unfolding consume_from feed_all
  consume_from-eq-feed_all i p [] = refl
  consume_from-eq-feed_all i p (x ∷ xs) = elim (Bool-cases (finished (feed p x))) [
    | inl stop ↦ rw (stop, consume_from) (sym (feed_all-finished (feed p x) xs stop))
    | inr go ↦ rw (go, consume_from) (consume_from-eq-feed_all (i + 1) (feed p x) xs)
  ]

  pub consume-eq-feed_all : (p : P) (xs : List ℕ) → (consume m p xs).1 ≡ feed_all m p xs
  unfolding consume
  consume-eq-feed_all p xs = consume_from-eq-feed_all 0 p xs

  chunks-eq-feed_all :
      (p : P) (xs : List (List ℕ)) → consume_chunks m p xs ≡ feed_all m p (flatten xs)
  unfolding consume_chunks flatten
  chunks-eq-feed_all p [] = unfold feed_all in refl
  chunks-eq-feed_all p (x ∷ xs) = elim (Bool-cases (finished (consume m p x).1)) [
    | inl stop ↦
        rw (stop, consume_chunks)
          (consume-eq-feed_all p x
            ∙ sym (
                feed_all-finished (feed_all m p x) (flatten xs)
                  (rw (consume-eq-feed_all p x) at stop))
            ∙ sym (feed_all-append p x (flatten xs)))
    | inr go ↦
        rw (go, consume_chunks)
          (chunks-eq-feed_all (consume m p x).1 xs
            ∙ rw (consume-eq-feed_all p x) (sym (feed_all-append p x (flatten xs))))
  ]

  -- Any way of cutting the input gives the parser that one call on all of it gives.
  pub chunks-eq-consume :
      (p : P) (xs : List (List ℕ)) → consume_chunks m p xs ≡ (consume m p (flatten xs)).1
  chunks-eq-consume p xs = chunks-eq-feed_all p xs ∙ sym (consume-eq-feed_all p (flatten xs))

  feed_all_inv {ℓ} :
      (I : P → Type ℓ)
      → ((p : P) (c : ℕ) → c < 256 → I p → I (feed p c))
      → (p : P) (xs : List ℕ) → IsBytes xs
      → I p
      → I (feed_all m p xs)
  unfolding feed_all
  feed_all_inv I keep p [] b h = h
  feed_all_inv I keep p (x ∷ xs) b h = feed_all_inv I keep (feed p x) xs b.1 (keep p x b.0 h)

  -- What feeding a byte keeps, a whole call keeps.
  pub consume_inv {ℓ} :
      (I : P → Type ℓ)
      → ((p : P) (c : ℕ) → c < 256 → I p → I (feed p c))
      → (p : P) (xs : List ℕ) → IsBytes xs
      → I p
      → I (consume m p xs).1
  consume_inv I keep p xs b h = rw (consume-eq-feed_all p xs) (feed_all_inv I keep p xs b h)
