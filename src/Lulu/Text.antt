-- ===== src/Lulu/Text.antt =====
-- The arrays of the parsers of HELLO, SET|USER and DEL|USER (socks5d/lib/parsers/lulu), and the
-- pointer `Word` to one of them, through which the parsers compare words and write names.
use protos.Base.{
  ℕ, ◌+◌, ◌%◌, ◌^◌, ◌<◌, ◌≢◌, true, false, List, [], ◌∷◌, ◌++◌, Option, none, some, ltb, ◌==◌, ◌≡◌,
  refl, arith, length, set, replicate, store, store-concat, length-append, length-store,
  length-replicate, if◌then◌else◌,
}
use protos.Base.Fallible.{◌>>=◌}
use protos.Lulu.Words.{Move, traverse_word}

-- The array that `Word` points to.
pub data Pointer : Type 0 where
  first_word second_word u_name passwd : Pointer

-- `first` and `second` hold the words of the command. A parser that has no second word, or no
-- password, has no such array.
pub record Text : Type 0 where
  pub first : List ℕ
  pub second : List ℕ
  pub u_name : List ℕ
  pub passwd : List ℕ
  pub index : ℕ
  pub word : Pointer

-- `MAXLONG`
abbrev pub max_long : ℕ
max_long = 255

abbrev pub chars_at : Pointer → Text → List ℕ
chars_at Pointer.first_word t = t.first
chars_at Pointer.second_word t = t.second
chars_at Pointer.u_name t = t.u_name
chars_at Pointer.passwd t = t.passwd

abbrev pub set_chars_at : Pointer → Text → List ℕ → Text
set_chars_at Pointer.first_word t a = record t { first = a }
set_chars_at Pointer.second_word t a = record t { second = a }
set_chars_at Pointer.u_name t a = record t { u_name = a }
set_chars_at Pointer.passwd t a = record t { passwd = a }

-- `Word[Index] = c`
unfoldable pub put : ℕ → Text → Option Text
put c t =
    if ltb t.index (length (chars_at t.word t))
    then some (set_chars_at t.word t (set (chars_at t.word t) t.index c))
    else none

-- `Word` left for another array, from its start.
abbrev pub leave : Pointer → Text → Text
leave next t = record t { word = next; index = 0 }

-- `Index++`
abbrev pub go_on : ℕ → Text → Text
go_on bits t = record t { index = (t.index + 1) % 2 ^ bits }

-- `Word[Index] = c; Index++`, for an index of `bits` bits.
unfoldable pub put_next : ℕ → ℕ → Text → Option Text
unfolding put
put_next bits c t = put c t >>= λ u. some (go_on bits u)

-- The move of the byte `c` in the word that is pointed to.
unfoldable pub next_move : Text → ℕ → Option Move
unfolding traverse_word
next_move t c = traverse_word (some (chars_at t.word t)) t.index (c == b'|') c

-- A byte of a name or a password: all but the pipe and the carriage return.
abbrev pub IsPlain : ℕ → Type 0
IsPlain c = (c ≢ b'|') × (c ≢ b'\r')

abbrev pub zeros : List ℕ
zeros = replicate max_long 0

-- The texts that have `xs` in the name, or in the password, so far.
abbrev pub naming : Text → List ℕ → Text
naming t xs = record t { u_name = store zeros 0 xs; index = length xs; word = Pointer.u_name }

abbrev pub hiding : Text → List ℕ → Text
hiding t xs = record t { passwd = store zeros 0 xs; index = length xs; word = Pointer.passwd }

room : (xs : List ℕ) → length (store zeros 0 xs) ≡ 255
room xs = rw (length-store zeros 0 xs) (length-replicate 255 0)

in_room : (xs : List ℕ) → length xs < 255 → ltb (length xs) (length (store zeros 0 xs)) ≡ true
in_room xs h = rw (room xs) (ground arith)

no_room : (xs : List ℕ) → length xs ≡ 255 → ltb (length xs) (length (store zeros 0 xs)) ≡ false
no_room xs h = rw (room xs, h) refl

-- While there is room, a byte is added.
put_next-room :
    (bits : ℕ) (t : Text) (xs : List ℕ) (c : ℕ)
    → length xs < 255
    → (length xs + 1) % 2 ^ bits ≡ length xs + 1
    → put_next bits c (naming t xs) ≡ some (naming t (xs ++ c ∷ []))
unfolding put_next put
put_next-room bits t xs c h fits =
    rw (in_room xs h) (ground (arith, fits, store-concat zeros 0 xs c, length-append xs (c ∷ [])))

pub put_next-naming :
    (t : Text) (xs : List ℕ) (c : ℕ)
    → length xs < 255
    → put_next 16 c (naming t xs) ≡ some (naming t (xs ++ c ∷ []))
put_next-naming t xs c h = put_next-room 16 t xs c h (omega arith)

pub put_next-naming_wide :
    (t : Text) (xs : List ℕ) (c : ℕ)
    → length xs < 255
    → put_next 64 c (naming t xs) ≡ some (naming t (xs ++ c ∷ []))
put_next-naming_wide t xs c h = put_next-room 64 t xs c h (omega arith)

pub put_next-hiding :
    (t : Text) (xs : List ℕ) (c : ℕ)
    → length xs < 255
    → put_next 16 c (hiding t xs) ≡ some (hiding t (xs ++ c ∷ []))
unfolding put_next put
put_next-hiding t xs c h =
    rw (in_room xs h) (ground (arith, store-concat zeros 0 xs c, length-append xs (c ∷ [])))

-- Behind 255 bytes, the write is outside the array.
pub put_next-full :
    (bits : ℕ) (t : Text) (xs : List ℕ) (c : ℕ)
    → length xs ≡ 255
    → put_next bits c (naming t xs) ≡ none
unfolding put_next put
put_next-full bits t xs c h = rw (no_room xs h) refl

-- A zero behind the bytes, when there is room for it.
pub put-naming :
    (t : Text) (xs : List ℕ) (c : ℕ)
    → length xs < 255
    → put c (naming t xs) ≡ some (record (naming t xs) { u_name = store zeros 0 (xs ++ c ∷ []) })
unfolding put
put-naming t xs c h = rw (in_room xs h) (ground (arith, store-concat zeros 0 xs c))

pub put-naming_full :
    (t : Text) (xs : List ℕ) (c : ℕ) → length xs ≡ 255 → put c (naming t xs) ≡ none
unfolding put
put-naming_full t xs c h = rw (no_room xs h) refl
