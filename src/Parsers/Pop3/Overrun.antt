-- ===== src/Parsers/Pop3/Overrun.antt =====
-- Where the parser reads behind the characters of a command, and that it does so only there.
use protos.Base.{
  ℕ, zero, suc, ◌≤◌, List, [], ◌∷◌, Option, none, some, ◌≡◌, ◌≢◌, refl, ◌∙◌, arith, get_elem?,
}
use protos.Parsers.Pop3.{
  State, Pop3Parser, user_word, pass_word, tolower, feed_in, feed, consume, reset,
}

-- The index stays within the command's characters.
abbrev Within : State → ℕ → Type 0
Within State.initial_state i = i ≡ 0
Within State.user_command i = i ≤ 4
Within State.user_content i = i ≡ 0
Within State.pass_command i = i ≤ 4
Within State.pass_content i = i ≡ 0
Within State.unknown_command i = Unit

-- A step that does not read outside, and keeps the index within.
abbrev IsSafe : Option Pop3Parser → Type 0
IsSafe none = ⊥
IsSafe (some p) = Within p.state p.index

abbrev pub NoZero : List ℕ → Type 0
NoZero [] = Unit
NoZero (c ∷ cs) = (c ≢ 0) × NoZero cs

user_char : (i : ℕ) → i ≤ 4 → (u : ℕ) × (get_elem? user_word i ≡ some u) × (i ≡ 4 → u ≡ 0)
user_char zero h = (b'u', refl, λ e. absurd (omega arith))
user_char (suc zero) h = (b's', refl, λ e. absurd (omega arith))
user_char (suc (suc zero)) h = (b'e', refl, λ e. absurd (omega arith))
user_char (suc (suc (suc zero))) h = (b'r', refl, λ e. absurd (omega arith))
user_char (suc (suc (suc (suc zero)))) h = (0, refl, λ e. refl)
user_char (suc (suc (suc (suc (suc i))))) h = absurd (omega arith)

pass_char : (i : ℕ) → i ≤ 4 → (u : ℕ) × (get_elem? pass_word i ≡ some u) × (i ≡ 4 → u ≡ 0)
pass_char zero h = (b'p', refl, λ e. absurd (omega arith))
pass_char (suc zero) h = (b'a', refl, λ e. absurd (omega arith))
pass_char (suc (suc zero)) h = (b's', refl, λ e. absurd (omega arith))
pass_char (suc (suc (suc zero))) h = (b's', refl, λ e. absurd (omega arith))
pass_char (suc (suc (suc (suc zero)))) h = (0, refl, λ e. refl)
pass_char (suc (suc (suc (suc (suc i))))) h = absurd (omega arith)

tolower_lem : (c : ℕ) → c ≢ 0 → tolower c ≢ 0
unfolding tolower
tolower_lem c n = ground arith

feed_in-IsSafe :
    (s : State) (p : Pop3Parser) (c : ℕ)
    → p.state ≡ s
    → c ≢ 0
    → Within s p.index
    → IsSafe (feed_in s p c)
unfolding feed_in
feed_in-IsSafe State.initial_state p c e n w = let low = tolower_lem c n in rw w (ground arith)
feed_in-IsSafe State.user_command p c e n w =
    let (u, at, last) = user_char p.index w in
    let low = tolower_lem c n in rw at (ground (arith, last))
feed_in-IsSafe State.user_content p c e n w = ground arith
feed_in-IsSafe State.pass_command p c e n w =
    let (u, at, last) = pass_char p.index w in
    let low = tolower_lem c n in rw at (ground (arith, last))
feed_in-IsSafe State.pass_content p c e n w = ground arith
feed_in-IsSafe State.unknown_command p c e n w = ground arith

safe_some :
    (m : Option Pop3Parser) → IsSafe m → (p : Pop3Parser) × (m ≡ some p) × Within p.state p.index
safe_some none h = absurd h
safe_some (some p) h = (p, refl, h)

consume-cons :
    (p p' : Pop3Parser) (c : ℕ) (cs : List ℕ)
    → feed_in p.state p c ≡ some p'
    → consume p (c ∷ cs) ≡ consume p' cs
unfolding consume feed
consume-cons p p' c cs e = rw (consume, e) refl

consume-Within :
    (p : Pop3Parser) (cs : List ℕ)
    → NoZero cs
    → Within p.state p.index
    → (p' : Pop3Parser) × (consume p cs ≡ some p')
consume-Within p [] z w = (p, unfold consume in refl)
consume-Within p (c ∷ cs) z w =
    let (q, e, v) = safe_some (feed_in p.state p c) (feed_in-IsSafe p.state p c refl z.0 w) in
    let (p', f) = consume-Within q cs z.1 v in (p', consume-cons p q c cs e ∙ f)

-- After a reset, any bytes without a zero byte, of any length, are consumed without a read outside
-- the characters of a command.
pub consume-NoZero :
    (q : Pop3Parser) (cs : List ℕ) → NoZero cs → (p : Pop3Parser) × (consume (reset q) cs ≡ some p)
consume-NoZero q cs z = consume-Within (reset q) cs z (unfold reset in refl)

-- The word "user" in any case, a zero byte, and one byte more, whatever it is and whatever follows
-- it, make the parser read behind the characters of the command.
consume_user_zero :
    (q : Pop3Parser) (u s e r c : ℕ) (cs : List ℕ)
    → (tolower u ≡ b'u') × (tolower s ≡ b's') × (tolower e ≡ b'e') × (tolower r ≡ b'r')
    → consume (reset q) (u ∷ s ∷ e ∷ r ∷ 0 ∷ c ∷ cs) ≡ none
unfolding consume feed feed_in reset
consume_user_zero q u s e r c cs (hu, hs, he, hr) = rw (consume, hu, hs, he, hr, tolower) refl
