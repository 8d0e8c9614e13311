-- ===== src/Parsers/Hello/Message.antt =====
-- The greeting's grammar, and that the parser accepts exactly it.
use protos.Base.{
  ℕ, zero, suc, ◌+◌, ◌<◌, ◌≢◌, List, [], ◌∷◌, ◌++◌, ◌≡◌, refl, sym, ap, ◌∙◌, arith, ℕ_discrete,
  length, take, replicate, store, length-append, store-concat, take-store_start, length-replicate,
  IsBytes,
}
use protos.Stream
use protos.Stream.Field.{Field, consume-Field, Outcome, part, whole, Field-Outcome, resume-stopped}
use protos.Parsers.Hello.{
  HelloState, HelloParser, feed_in, feed, has_finished, reset, machine, consume,
}

-- RFC 1928: the version, how many methods follow, and the methods.
unfoldable pub hello_message : List ℕ → List ℕ
hello_message ms = 0x05 ∷ length ms ∷ ms

-- The parser after `xs` of the `n` methods.
reading : ℕ → List ℕ → HelloParser
reading n xs = record {
  state = HelloState.methods;
  n_methods = n;
  current_method = length xs;
  methods = store (replicate 255 0) 0 xs;
}

left : ℕ → List ℕ → HelloParser
left n xs = record (reading n xs) { state = HelloState.done }

methods-Field : (n : ℕ) → n < 256 → Field machine n (reading n) (left n)
unfolding reading left feed has_finished feed_in
methods-Field n h = record {
  waits = λ xs. refl;
  more = λ xs c k. ground (arith, store-concat (replicate 255 0) 0 xs c, length-append xs (c ∷ []));
  last = λ xs c k. ground (arith, store-concat (replicate 255 0) 0 xs c, length-append xs (c ∷ []));
}

header :
    (q : HelloParser) (n : ℕ) (cs : List ℕ)
    → 0 < n
    → consume (reset q) (0x05 ∷ n ∷ cs) ≡ Stream.consume_from machine 2 (reading n []) cs
unfolding consume Stream.consume Stream.consume_from reset feed feed_in has_finished reading store
header q zero cs h = elim h [ ]
header q (suc n) cs h = ground arith

-- A greeting of 1 to 255 methods is accepted whatever follows it: the call returns its length,
-- and the parser is done and holds exactly its methods.
pub consume-hello_message :
    (q : HelloParser) (m : ℕ) (ms rest : List ℕ)
    → length (m ∷ ms) < 256
    → let (count, p) = consume (reset q) (hello_message (m ∷ ms) ++ rest) in
      (count ≡ 2 + length (m ∷ ms))
      × (p.state ≡ HelloState.done)
      × (p.n_methods ≡ length (m ∷ ms))
      × (take p.n_methods p.methods ≡ m ∷ ms)
unfolding hello_message
consume-hello_message q m ms rest h =
    let n = length (m ∷ ms) in
    let whole : consume (reset q) (0x05 ∷ n ∷ (m ∷ ms) ++ rest) ≡ (2 + n, left n (m ∷ ms)) =
      header q n ((m ∷ ms) ++ rest) (omega arith)
      ∙ consume-Field (methods-Field n h) 2 [] ms rest m (omega arith)
      ∙ resume-stopped machine (2 + n) (left n (m ∷ ms)) rest (unfold left has_finished in refl) in
    rw whole (
      refl,
      unfold left in refl,
      unfold left reading in refl,
      unfold left reading in
          take-store_start (replicate 255 0) (m ∷ ms)
            (omega (arith, length-replicate {A = ℕ} 255 0)),
    )

-- What a parser that is done has read.
pub record Accepted (bytes : List ℕ) (count : ℕ) (p : HelloParser) : Type 0 where
  pub methods : List ℕ
  pub rest : List ℕ
  pub message : bytes ≡ hello_message methods ++ rest
  pub some_method : 0 < length methods
  pub read : count ≡ 2 + length methods
  pub kept : take p.n_methods p.methods ≡ methods

module _ (q : HelloParser) (v : ℕ) {count : ℕ} {p : HelloParser} where
  short : consume (reset q) (v ∷ []) ≡ (count, p) → p.state ≢ HelloState.done
  unfolding consume Stream.consume Stream.consume_from reset feed feed_in has_finished
  short run d = ground arith

  no_methods :
      (cs : List ℕ) → consume (reset q) (v ∷ 0 ∷ cs) ≡ (count, p) → p.state ≢ HelloState.done
  unfolding consume Stream.consume Stream.consume_from reset feed feed_in has_finished
  no_methods cs run d = ground arith

  other_version :
      (cs : List ℕ) → v ≢ 0x05 → consume (reset q) (v ∷ cs) ≡ (count, p) → p.state ≢ HelloState.done
  unfolding consume Stream.consume Stream.consume_from reset feed feed_in has_finished
  other_version cs h run d = ground arith

Accepted-methods :
    (n : ℕ) (cs : List ℕ) {count : ℕ} {p : HelloParser}
    → n < 256
    → 0 < n
    → Outcome machine n (reading n) (left n) 2 cs
    → Stream.consume_from machine 2 (reading n []) cs ≡ (count, p)
    → p.state ≡ HelloState.done
    → Accepted (0x05 ∷ n ∷ cs) count p
unfolding reading left has_finished hello_message
Accepted-methods n cs h pos (part _ e) run d = absurd (cc)
Accepted-methods n cs {count} {p} h pos (whole xs rest e l r) run d = record {
  methods = xs;
  rest = rest;
  message = rw e (ap (λ k. (0x05 ∷ k ∷ xs) ++ rest) (sym l));
  some_method = omega arith;
  read = ap (λ t. t.0) stopped;
  kept =
      ap (λ t. take t.1.n_methods t.1.methods) stopped
      ∙ ap (λ k. take k (store (replicate 255 0) 0 xs)) (omega arith)
      ∙ take-store_start (replicate 255 0) xs (omega (arith, length-replicate {A = ℕ} 255 0));
}
  where
    stopped : ◌≡◌ {A = ℕ × HelloParser} (count, p) (2 + length xs, left n xs)
    stopped = sym run ∙ r ∙ resume-stopped machine (2 + length xs) (left n xs) rest refl

-- Conversely, a parser that is done after some bytes was given a greeting with at least one
-- method: the call has returned that greeting's length, and the parser holds its methods.
pub hello_consume-Accepted :
    (q : HelloParser) (bytes : List ℕ) {count : ℕ} {p : HelloParser}
    → IsBytes bytes
    → consume (reset q) bytes ≡ (count, p)
    → p.state ≡ HelloState.done
    → Accepted bytes count p
hello_consume-Accepted q [] b run d =
    unfold consume Stream.consume Stream.consume_from reset in absurd (cc)
hello_consume-Accepted q (v ∷ []) b run d = absurd (short q v run d)
hello_consume-Accepted q (v ∷ zero ∷ cs) b run d = absurd (no_methods q v cs run d)
hello_consume-Accepted q (v ∷ suc n ∷ cs) b run d = elim (ℕ_discrete v 0x05) [
  | yes e ↦ rw e (
      Accepted-methods (suc n) cs b.1.0 (omega arith)
        (Field-Outcome (methods-Field (suc n) b.1.0) 2 cs (omega arith))
        (sym (header q (suc n) cs (omega arith)) ∙ (rw e at run)) d)
  | no e ↦ absurd (other_version q v (suc n ∷ cs) e run d)
]
