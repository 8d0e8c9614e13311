-- ===== src/Users/Strings.antt =====
-- The strings that blocks of memory hold, and what the comparisons and copies make of them.
use protos.Base.{
  ℕ, suc, true, false, List, [], ◌∷◌, ◌++◌, none, some, ◌≡◌, ◌≢◌, ◌↔◌, refl, arith, take,
  ℕ_discrete,
}
use protos.Users.{same_string, string_length, copy_terminated, copy_unterminated}

-- `Holds block s`: the block holds the string `s`, zero and all.
pub data Holds : List ℕ → List ℕ → Type 0 where
  ends : {x : ℕ} {rest : List ℕ} → x ≡ 0 → Holds (x ∷ rest) []
  char : {x : ℕ} {block s : List ℕ} → x ≢ 0 → Holds block s → Holds (x ∷ block) (x ∷ s)

-- Two blocks that hold a string each are found to be the same exactly when the strings are.
pub same_string-Holds :
    {a b s t : List ℕ} → Holds a s → Holds b t → (same_string a b ≡ some true) ↔ (s ≡ t)
unfolding same_string
same_string-Holds (ends e) (ends f) = (λ _. refl, λ _. ground arith)
same_string-Holds (ends e) (char n h) = (λ k. absurd (ground arith), λ k. absurd (ground arith))
same_string-Holds (char n h) (ends e) = (λ k. absurd (ground arith), λ k. absurd (ground arith))
same_string-Holds (char {x = x} n h) (char {x = y} m k) =
    let ih = same_string-Holds h k in (λ q. ground (arith, ih), λ q. ground (arith, ih))

pub same_string_self : {a s : List ℕ} → Holds a s → same_string a a ≡ some true
same_string_self h = (same_string-Holds h h).1 refl

-- Two blocks hold one and the same string.
pub record HoldSame (a b : List ℕ) : Type 0 where
  pub text : List ℕ
  pub first : Holds a text
  pub second : Holds b text

-- A comparison that comes out equal has read the same string in both blocks.
pub same_string-HoldSame : (a b : List ℕ) → same_string a b ≡ some true → HoldSame a b
unfolding same_string
same_string-HoldSame [] b h = absurd (cc)
same_string-HoldSame (x ∷ a) [] h = absurd (cc)
same_string-HoldSame (x ∷ a) (y ∷ b) h = elim (ℕ_discrete x 0) [
  | yes e ↦ record { text = []; first = ends e; second = ends (ground arith) }
  | no n ↦
      let rest = same_string-HoldSame a b (ground arith) in
      let same : x ≡ y = ground arith in
      record {
        text = x ∷ rest.text;
        first = char n rest.first;
        second = rw (← same) (char n rest.second);
      }
]

-- A comparison that comes out different has read blocks that hold no string in common.
pub same_string-differ : (a b : List ℕ) → same_string a b ≡ some false → ¬ HoldSame a b
same_string-differ a b h s = let e = (same_string-Holds s.first s.second).1 refl in cc

length_of :
    {a s : List ℕ}
    → Holds a s
    → (n : ℕ) × (string_length a ≡ some n)
      × Holds (take n a ++ 0 ∷ []) s
      × (same_string (take n a) a ≡ none)
unfolding string_length same_string
length_of (ends e) = (0, ground arith, ends refl, refl)
length_of (char n h) =
    let (k, e, copy, short) = length_of h in (suc k, ground arith, char n copy, ground arith)

-- The copy with a terminator holds the same string.
pub copy_terminated-Holds :
    {a s : List ℕ} → Holds a s → (c : List ℕ) × (copy_terminated a ≡ some c) × Holds c s
unfolding copy_terminated
copy_terminated-Holds {a = a} h =
    let (n, e, copy, short) = length_of h in (take n a ++ 0 ∷ [], copied n e, copy)
  where
    copied : (n : ℕ) → string_length a ≡ some n → copy_terminated a ≡ some (take n a ++ 0 ∷ [])
    copied n e = rw e

-- Comparing the copy without a terminator to the string reads behind the copy's block.
pub copy_unterminated-overruns :
    {a s : List ℕ}
    → Holds a s
    → (c : List ℕ) × (copy_unterminated a ≡ some c) × (same_string c a ≡ none)
unfolding copy_unterminated
copy_unterminated-overruns {a = a} h =
    let (n, e, copy, short) = length_of h in (take n a, copied n e, short)
  where
    copied : (n : ℕ) → string_length a ≡ some n → copy_unterminated a ≡ some (take n a)
    copied n e = rw e
