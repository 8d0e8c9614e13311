-- ===== src/Lulu/Words.antt =====
-- The `traverseWord...` functions of socks5d/lib/parsers/lulu: each compares a byte to the
-- next of the word that the parser points to. A word is its block of memory, with the zero that
-- ends it; a null pointer is `none`.
use protos.Base.{
  ℕ, zero, suc, ◌<◌, Bool, List, [], ◌∷◌, ◌++◌, Option, some, ◌==◌, ◌≡◌, ◌≢◌, refl, arith,
  get_elem?, length, if◌then◌else◌,
}
use protos.Base.Fallible.{◌>>=◌}
use protos.Users.{string_length}

-- What becomes of the byte: the word is left, or goes on, or the byte is wrong.
pub data Move : Type 0 where
  left going wrong : Move

-- The common part, for the `index` reached and whether the byte may end the word.
unfoldable pub traverse_word : Option (List ℕ) → ℕ → Bool → ℕ → Option Move
unfolding string_length
traverse_word word index may_end c = word >>= λ w. string_length w >>= λ n.
    if n == index
    then some (if may_end then Move.left else Move.wrong)
    else (get_elem? w index >>= λ d. some (if c == d then Move.going else Move.wrong))

abbrev pub NoZeros : List ℕ → Type 0
NoZeros [] = Unit
NoZeros (c ∷ cs) = (c ≢ 0) × NoZeros cs

pub string_length-block : (w : List ℕ) → NoZeros w → string_length (w ++ 0 ∷ []) ≡ some (length w)
unfolding string_length
string_length-block [] z = refl
string_length-block (c ∷ cs) z = let ih = string_length-block cs z.1 in let n = z.0 in ground arith

get_elem?-append : (w v : List ℕ) (i c : ℕ) → get_elem? w i ≡ some c → get_elem? (w ++ v) i ≡ some c
get_elem?-append [] v i c h = cc
get_elem?-append (x ∷ w) v zero c h = h
get_elem?-append (x ∷ w) v (suc i) c h = get_elem?-append w v i c h

pub get_elem?_inside : (w : List ℕ) (i c : ℕ) → get_elem? w i ≡ some c → i < length w
get_elem?_inside [] i c h = cc
get_elem?_inside (x ∷ w) zero c h = omega arith
get_elem?_inside (x ∷ w) (suc i) c h = let ih = get_elem?_inside w i c h in omega arith

-- Inside a word, the byte is compared to the next of the word.
pub traverse_word_inside :
    (w : List ℕ) (i c d : ℕ) (b : Bool)
    → NoZeros w
    → get_elem? w i ≡ some c
    → traverse_word (some (w ++ 0 ∷ [])) i b d ≡ some (if d == c then Move.going else Move.wrong)
unfolding traverse_word
traverse_word_inside w i c d b z h =
    let inside = get_elem?_inside w i c h in
    rw (string_length-block w z, get_elem?-append w (0 ∷ []) i c h) (ground arith)

-- Behind its last byte, the byte has to be one that may end the word.
pub traverse_word_end :
    (w : List ℕ) (b : Bool) (d : ℕ)
    → NoZeros w
    → traverse_word (some (w ++ 0 ∷ [])) (length w) b d ≡ some (if b then Move.left else Move.wrong)
unfolding traverse_word
traverse_word_end w b d z = rw (string_length-block w z) (ground arith)
