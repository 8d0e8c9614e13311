-- ===== src/Lulu/Hello/Accepts.antt =====
-- What the parser makes of a whole HELLO, and of a name that is too long.
use protos.Base.{
  ℕ, ◌+◌, ◌≤◌, ◌<◌, List, [], ◌∷◌, ◌++◌, none, some, ◌≡◌, refl, ap, ◌∙◌, arith, length, store,
}
use protos.Lulu.Text.{
  Text, Pointer, IsPlain, zeros, naming, hiding, put_next-naming, put_next-hiding, put_next-full,
}
use protos.Lulu.Hello.{
  State, HelloParser, machine, feed, feed_in, traverse, moved, add_char, end_line, has_finished,
  reset, consume,
}
use protos.Lulu.Text.{next_move}
use protos.Lulu.Words.{traverse_word}
use protos.Users.{string_length}
use protos.Stream.Faulty
use protos.Stream.Faulty.{consume_from}
use protos.Stream.Faulty.Spelling.{
  Gathers, AllPlain, consume-Gathers, consume_on, consume_end, consume_fault,
}

abbrev pub word : List ℕ
word = b'H' ∷ b'E' ∷ b'L' ∷ b'L' ∷ b'O' ∷ b'|' ∷ []

abbrev pub line_end : List ℕ
line_end = b'\r' ∷ b'\n' ∷ []

-- The text behind the word, after `name`.
abbrev text : List ℕ → Text
text name = record {
  first = b'H' ∷ b'E' ∷ b'L' ∷ b'L' ∷ b'O' ∷ 0 ∷ [];
  second = [];
  u_name = store zeros 0 name;
  passwd = zeros;
  index = length name;
  word = Pointer.u_name;
}

module _ (prev : State) where
  abbrev pub reading_name : List ℕ → HelloParser
  reading_name xs = record {
    state = State.hello_username;
    prev_state = prev;
    text = naming (text []) xs;
  }

  abbrev pub reading_password : List ℕ → List ℕ → HelloParser
  reading_password name xs = record {
    state = State.hello_password;
    prev_state = prev;
    text = hiding (text name) xs;
  }

  name-Gathers : Gathers machine 255 IsPlain reading_name
  unfolding machine feed feed_in has_finished add_char
  name-Gathers = record {
    waits = λ xs. refl;
    adds = λ xs c p h. rw (put_next-naming (text []) xs c h) (ground arith);
  }

  password-Gathers : (name : List ℕ) → Gathers machine 255 IsPlain (reading_password name)
  unfolding machine feed feed_in has_finished add_char
  password-Gathers name = record {
    waits = λ xs. refl;
    adds = λ xs c p h. rw (put_next-hiding (text name) xs c h) (ground arith);
  }

  name_done :
      (i : ℕ) (name rest : List ℕ)
      → 0 < length name
      → consume_from machine i (reading_name name) (b'|' ∷ rest)
        ≡ consume_from machine (i + 1) (reading_password name []) rest
  unfolding machine feed feed_in has_finished store
  name_done i name rest h =
      consume_on machine i (reading_name name) (reading_password name []) b'|' rest (ground arith)
        refl

-- The parser that has read both.
abbrev pub accepted : List ℕ → List ℕ → HelloParser
accepted name password = record {
  state = State.finished;
  prev_state = State.hello_password;
  text = hiding (text name) password;
}

password_done :
    (prev : State) (i : ℕ) (name password rest : List ℕ)
    → 0 < length password
    → consume_from machine i (reading_password prev name password) (line_end ++ rest)
      ≡ some (i + 2, accepted name password)
unfolding machine feed feed_in has_finished end_line
password_done prev i name password rest h =
    consume_on machine i (reading_password prev name password)
      (record (reading_password prev name password) {
        state = State.hello_crlf;
        prev_state = State.hello_password;
      })
      b'\r' (b'\n' ∷ rest) refl refl
    ∙ consume_end machine (i + 1)
        (record (reading_password prev name password) {
          state = State.hello_crlf;
          prev_state = State.hello_password;
        })
        (accepted name password) b'\n' rest (ground arith) refl
    ∙ ap (λ k. some (k, accepted name password)) (omega arith)

word_done :
    (p : HelloParser) (rest : List ℕ)
    → consume_from machine 0 (reset p) (word ++ rest)
      ≡ consume_from machine 6 (reading_name p.prev_state []) rest
unfolding reset machine feed feed_in traverse moved next_move traverse_word string_length
    has_finished consume_from store
word_done p rest = refl

-- A name and a password of 1 to 255 plain bytes each: the whole command is read, no further, and
-- the arrays hold both.
pub consume_hello :
    (p : HelloParser) (name password rest : List ℕ)
    → AllPlain IsPlain name
    → AllPlain IsPlain password
    → (0 < length name) × (length name ≤ 255)
    → (0 < length password) × (length password ≤ 255)
    → consume (reset p) (word ++ (name ++ b'|' ∷ (password ++ (line_end ++ rest))))
      ≡ some (9 + length name + length password, accepted name password)
unfolding consume Faulty.consume
consume_hello p name password rest a b (l, h) (k, j) =
    word_done p (name ++ b'|' ∷ (password ++ (line_end ++ rest)))
    ∙ consume-Gathers machine (name-Gathers p.prev_state) 6 [] name
        (b'|' ∷ (password ++ (line_end ++ rest))) a (omega arith)
    ∙ name_done p.prev_state (6 + length name) name (password ++ (line_end ++ rest)) l
    ∙ consume-Gathers machine (password-Gathers p.prev_state name) (6 + length name + 1) [] password
        (line_end ++ rest) b (omega arith)
    ∙ password_done p.prev_state (6 + length name + 1 + length password) name password rest k
    ∙ ap (λ n. some (n, accepted name password)) (omega arith)

full :
    (prev : State) (name : List ℕ) (c : ℕ)
    → length name ≡ 255
    → IsPlain c
    → feed (reading_name prev name) c ≡ none
unfolding feed feed_in add_char
full prev name c h p = rw (put_next-full 16 (text []) name c h) (ground arith)

-- A 256th byte of the name is written behind its array.
pub consume_hello_overrun :
    (p : HelloParser) (name rest : List ℕ) (c : ℕ)
    → AllPlain IsPlain name
    → length name ≡ 255
    → IsPlain c
    → consume (reset p) (word ++ (name ++ c ∷ rest)) ≡ none
unfolding consume Faulty.consume
consume_hello_overrun p name rest c a h k =
    word_done p (name ++ c ∷ rest)
    ∙ consume-Gathers machine (name-Gathers p.prev_state) 6 [] name (c ∷ rest) a (omega arith)
    ∙ consume_fault machine (6 + length name) (reading_name p.prev_state name) c rest
        (full p.prev_state name c h k)
