-- ===== src/Stream/Faulty/Spelling.antt =====
-- A parser that waits for the bytes of a word, one after another, and refuses any other byte.
use protos.Base.{
  ℕ, suc, ◌+◌, true, false, List, [], ◌∷◌, ◌++◌, none, some, inl, inr, ◌==◌, ◌≡◌, ◌≢◌, ◌≤◌, ◌<◌,
  append-nil, append_assoc, length-append, refl, ap, ap₂, sym, ◌∙◌, arith, length, get_elem?,
  ==_iff, Bool-cases,
}
use protos.Stream.Faulty.{FaultyMachine, Verdict, consume_from, verdict, compare_message}
use mathlib.Core.Path.{subst}

abbrev pub AllPlain : (ℕ → Type 0) → List ℕ → Type 0
AllPlain plain [] = Unit
AllPlain plain (c ∷ cs) = plain c × AllPlain plain cs

module _ {P : Type 0} (m : FaultyMachine P) where
  open m use {feed, finished, failed}

  -- The byte `d` ends the parser, in failure.
  abbrev pub Refuses : P → ℕ → Type 0
  Refuses p d = (r : P) × (feed p d ≡ some r) × (finished r ≡ true) × (failed r ≡ true)

  -- `c` takes `p` to `q`, and any other byte is refused.
  abbrev pub Steps : P → ℕ → P → Type 0
  Steps p c q = (feed p c ≡ some q) × ((d : ℕ) → d ≢ c → Refuses p d)

  pub data Reads : P → List ℕ → P → Type 0 where
    stop : {p q : P} → p ≡ q → Reads p [] q
    more :
        {p p' q : P} {c : ℕ} {cs : List ℕ}
        → Steps p c p'
        → finished p' ≡ false
        → Reads p' cs q
        → Reads p (c ∷ cs) q

  pub Reads-append :
      (xs ys : List ℕ) {p q r : P} → Reads p xs q → Reads q ys r → Reads p (xs ++ ys) r
  Reads-append [] ys {r = r} (stop e) k = subst (λ t. Reads t ys r) (sym e) k
  Reads-append (x ∷ xs) ys (more s f h) k = more s f (Reads-append xs ys h k)

  -- A run of bytes, when each takes `reading i` to `reading (i + 1)`.
  pub Reads-word :
      (reading : ℕ → P) (k : ℕ) (word : List ℕ)
      → ((i c : ℕ) → get_elem? word i ≡ some c → Steps (reading (k + i)) c (reading (k + suc i)))
      → ((i : ℕ) → finished (reading i) ≡ false)
      → Reads (reading k) word (reading (k + length word))
  Reads-word reading k [] s f = stop (ap reading (omega arith))
  Reads-word reading k (c ∷ cs) s f =
      more (subst (λ t. Steps (reading t) c (reading (k + 1))) (omega arith) (s 0 c refl))
        (f (k + 1))
        (subst (λ t. Reads (reading (k + 1)) cs (reading t)) (omega arith)
          (Reads-word reading (k + 1) cs
            (λ i d e.
              subst (λ t. Steps (reading t) d (reading ((k + 1) + suc i))) (omega arith)
                (subst (λ t. Steps (reading (k + suc i)) d (reading t)) (omega arith)
                  (s (suc i) d e)))
            f))

  pub consume_end :
      (i : ℕ) (p q : P) (c : ℕ) (cs : List ℕ)
      → feed p c ≡ some q
      → finished q ≡ true
      → consume_from m i p (c ∷ cs) ≡ some (i + 1, q)
  unfolding consume_from
  consume_end i p q c cs e f = rw (consume_from, e, f) refl

  pub consume_on :
      (i : ℕ) (p q : P) (c : ℕ) (cs : List ℕ)
      → feed p c ≡ some q
      → finished q ≡ false
      → consume_from m i p (c ∷ cs) ≡ consume_from m (i + 1) q cs
  unfolding consume_from
  consume_on i p q c cs e f = rw (consume_from, e, f) refl

  pub consume_fault :
      (i : ℕ) (p : P) (c : ℕ) (cs : List ℕ) → feed p c ≡ none → consume_from m i p (c ∷ cs) ≡ none
  unfolding consume_from
  consume_fault i p c cs e = rw (consume_from, e) refl

  -- Whether `consume_from` reads as many bytes, and decides, as `outcome` says.
  abbrev pub Decides : ℕ → P → List ℕ → ℕ × Verdict → Type 0
  Decides i p input outcome =
      (q : P) × (consume_from m i p input ≡ some (i + outcome.0, q)) × (verdict m q ≡ outcome.1)

  refused-Decides :
      (i : ℕ) (p : P) (d : ℕ) (input : List ℕ)
      → Refuses p d
      → Decides i p (d ∷ input) (1, Verdict.refused)
  refused-Decides i p d input (r, e, f, g) =
      (r, consume_end i p r d input e f, unfold verdict in rw (verdict, f, g) refl)

  waiting-Decides : (i : ℕ) (p : P) → finished p ≡ false → Decides i p [] (0, Verdict.waiting)
  unfolding consume_from verdict
  waiting-Decides i p f = (p, ap (λ k. some (k, p)) (omega arith), rw (verdict, f) refl)

  later-Decides :
      (i : ℕ) (p p' : P) (c : ℕ) (input : List ℕ) (outcome : ℕ × Verdict)
      → feed p c ≡ some p'
      → finished p' ≡ false
      → Decides (i + 1) p' input outcome
      → Decides i p (c ∷ input) (suc outcome.0, outcome.1)
  later-Decides i p p' c input outcome e f (q, run, v) =
      (q, consume_on i p p' c input e f ∙ run ∙ ap (λ k. some (k, q)) (omega arith), v)

  accepted-Decides :
      (i : ℕ) (p r : P) (c : ℕ) (input : List ℕ)
      → feed p c ≡ some r
      → finished r ≡ true
      → failed r ≡ false
      → Decides i p (c ∷ input) (1, Verdict.accepted)
  accepted-Decides i p r c input e f g =
      (r, consume_end i p r c input e f, unfold verdict in rw (verdict, f, g) refl)

  -- A parser that reads `word` and ends with `last` decides as the comparison with the message.
  pub consume-Reads :
      (i : ℕ) (p q r : P) (word : List ℕ) (last : ℕ) (input : List ℕ)
      → finished p ≡ false
      → Reads p word q
      → Steps q last r
      → finished r ≡ true
      → failed r ≡ false
      → Decides i p input (compare_message (word ++ last ∷ []) input)
  unfolding compare_message
  consume-Reads i p q r [] last [] g h s f n = waiting-Decides i p g
  consume-Reads i p q r [] last (d ∷ input) g (stop e) s f n = elim (Bool-cases (d == last)) [
    | inl y ↦ rw y (accepted-Decides i p r d input (ap₂ feed e ((==_iff d last).0 y) ∙ s.0) f n)
    | inr z ↦ rw z (
        refused-Decides i p d input
          (subst (λ t. Refuses t d) (sym e) (s.1 d (λ y. absurd (ground arith)))))
  ]
  consume-Reads i p q r (c ∷ cs) last [] g h s f n = waiting-Decides i p g
  consume-Reads i p q r (c ∷ cs) last (d ∷ input) g (more {p' = p'} t k h) s f n =
      elim (Bool-cases (d == c)) [
        | inl y ↦ rw y (
            later-Decides i p p' d input (compare_message (cs ++ last ∷ []) input)
              (ap (feed p) ((==_iff d c).0 y) ∙ t.0) k
              (consume-Reads (i + 1) p' q r cs last input k h s f n))
        | inr z ↦ rw z (refused-Decides i p d input (t.1 d (λ y. absurd (ground arith))))
      ]

  -- From the start of a word of fewer than 256 bytes, with the index kept in a byte or more.
  pub Reads-start :
      (reading : ℕ → P) (word : List ℕ)
      → ((i c : ℕ) → get_elem? word i ≡ some c → Steps (reading i) c (reading (suc i)))
      → ((i : ℕ) → finished (reading i) ≡ false)
      → Reads (reading 0) word (reading (length word))
  Reads-start reading word s f =
      subst (λ t. Reads (reading 0) word (reading t)) (omega arith)
        (Reads-word reading 0 word
          (λ i c e.
            subst (λ t. Steps (reading t) c (reading (0 + suc i))) (omega arith)
              (subst (λ t. Steps (reading i) c (reading t)) (omega arith) (s i c e)))
          f)

  -- Bytes that are read one after another leave the rest of the input to the parser behind them.
  pub consume_from-Reads :
      (i : ℕ) (word rest : List ℕ) {p q : P}
      → Reads p word q
      → consume_from m i p (word ++ rest) ≡ consume_from m (i + length word) q rest
  consume_from-Reads i [] rest (stop e) = ap₂ (λ k t. consume_from m k t rest) (omega arith) e
  consume_from-Reads i (c ∷ cs) rest {p = p} {q = q} (more {p' = p'} s f h) =
      consume_on i p p' c (cs ++ rest) s.0 f
      ∙ consume_from-Reads (i + 1) cs rest h
      ∙ ap (λ k. consume_from m k q rest) (omega arith)

  -- A parser that gathers bytes, each of which is `plain`, up to `n` of them.
  pub record Gathers (n : ℕ) (plain : ℕ → Type 0) (reading : List ℕ → P) : Type 0 where
    pub waits : (xs : List ℕ) → finished (reading xs) ≡ false
    pub adds :
        (xs : List ℕ) (c : ℕ)
        → plain c
        → length xs < n
        → feed (reading xs) c ≡ some (reading (xs ++ c ∷ []))

  pub consume-Gathers :
      {n : ℕ} {plain : ℕ → Type 0} {reading : List ℕ → P}
      → Gathers n plain reading
      → (i : ℕ) (xs ys rest : List ℕ) → AllPlain plain ys
      → length xs + length ys ≤ n
      → consume_from m i (reading xs) (ys ++ rest)
        ≡ consume_from m (i + length ys) (reading (xs ++ ys)) rest
  consume-Gathers {reading = reading} g i xs [] rest a h =
      ap₂ (λ k l. consume_from m k (reading l) rest) (omega arith) (simp append-nil)
  consume-Gathers {reading = reading} g i xs (y ∷ ys) rest a h =
      consume_on i (reading xs) (reading (xs ++ y ∷ [])) y (ys ++ rest)
        (g.adds xs y a.0 (omega arith)) (g.waits (xs ++ y ∷ []))
      ∙ consume-Gathers g (i + 1) (xs ++ y ∷ []) ys rest a.1
          (omega (arith, length-append xs (y ∷ [])))
      ∙ ap₂ (λ k l. consume_from m k (reading l) rest) (omega arith) (append_assoc xs (y ∷ []) ys)
