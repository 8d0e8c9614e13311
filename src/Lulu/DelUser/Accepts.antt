-- ===== src/Lulu/DelUser/Accepts.antt =====
-- What the parser makes of a whole DEL|USER, and of a name that is too long.
use protos.Base.{
  ℕ, ◌+◌, ◌≤◌, ◌<◌, List, [], ◌∷◌, ◌++◌, none, some, ◌≡◌, refl, ap, ◌∙◌, arith, length, store,
}
use protos.Lulu.Text.{
  Text, Pointer, IsPlain, zeros, naming, put_next-naming_wide, put-naming, put-naming_full,
  next_move,
}
use protos.Lulu.Words.{traverse_word}
use protos.Users.{string_length}
use protos.Lulu.DelUser.{
  State, DelUserParser, machine, feed, feed_in, traverse, moved, add_char, end_line, has_finished,
  reset, consume,
}
use protos.Stream.Faulty
use protos.Stream.Faulty.{consume_from}
use protos.Stream.Faulty.Spelling.{
  Gathers, AllPlain, consume-Gathers, consume_on, consume_end, consume_fault,
}

abbrev pub word : List ℕ
word = b'D' ∷ b'E' ∷ b'L' ∷ b'|' ∷ b'U' ∷ b'S' ∷ b'E' ∷ b'R' ∷ b'|' ∷ []

abbrev pub line_end : List ℕ
line_end = b'\r' ∷ b'\n' ∷ []

-- The text behind the words.
abbrev text : Text
text = record {
  first = b'D' ∷ b'E' ∷ b'L' ∷ 0 ∷ [];
  second = b'U' ∷ b'S' ∷ b'E' ∷ b'R' ∷ 0 ∷ [];
  u_name = zeros;
  passwd = [];
  index = 0;
  word = Pointer.u_name;
}

abbrev in_state : State → List ℕ → DelUserParser
in_state s xs = record { state = s; text = naming text xs }

abbrev reading_name : List ℕ → DelUserParser
reading_name = in_state State.del_user_name

name-Gathers : Gathers machine 255 IsPlain reading_name
unfolding machine feed feed_in has_finished add_char
name-Gathers = record {
  waits = λ xs. refl;
  adds = λ xs c p h. rw (put_next-naming_wide text xs c h) (ground arith);
}

-- The parser that has read a name, and has put a zero behind it.
abbrev pub accepted : List ℕ → DelUserParser
accepted name = record {
  state = State.finished;
  text = record (naming text name) { u_name = store zeros 0 (name ++ 0 ∷ []) };
}

feed_line_end :
    (name : List ℕ)
    → (0 < length name) × (length name < 255)
    → feed (in_state State.del_crlf name) b'\n' ≡ some (accepted name)
unfolding feed feed_in end_line
feed_line_end name (l, h) = rw (put-naming text name 0 h) (ground arith)

feed_line_end_full :
    (name : List ℕ) → length name ≡ 255 → feed (in_state State.del_crlf name) b'\n' ≡ none
unfolding feed feed_in end_line
feed_line_end_full name h = rw (put-naming_full text name 0 h) (ground arith)

return_done :
    (i : ℕ) (name rest : List ℕ)
    → consume_from machine i (reading_name name) (line_end ++ rest)
      ≡ consume_from machine (i + 1) (in_state State.del_crlf name) (b'\n' ∷ rest)
unfolding machine feed feed_in has_finished
return_done i name rest =
    consume_on machine i (reading_name name) (in_state State.del_crlf name) b'\r' (b'\n' ∷ rest)
      refl refl

word_done :
    (p : DelUserParser) (rest : List ℕ)
    → consume_from machine 0 (reset p) (word ++ rest)
      ≡ consume_from machine 9 (reading_name []) rest
unfolding reset machine feed feed_in traverse moved next_move traverse_word string_length
    has_finished consume_from store
word_done p rest = refl

-- Up to the line feed.
consume_name :
    (p : DelUserParser) (name rest : List ℕ)
    → AllPlain IsPlain name
    → length name ≤ 255
    → consume_from machine 0 (reset p) (word ++ (name ++ (line_end ++ rest)))
      ≡ consume_from machine (9 + length name + 1) (in_state State.del_crlf name) (b'\n' ∷ rest)
consume_name p name rest a h =
    word_done p (name ++ (line_end ++ rest))
    ∙ consume-Gathers machine name-Gathers 9 [] name (line_end ++ rest) a (omega arith)
    ∙ return_done (9 + length name) name rest

-- A name of 1 to 254 plain bytes: the whole command is read, no further, and the array holds the
-- name with a zero behind it.
pub consume_del_user :
    (p : DelUserParser) (name rest : List ℕ)
    → AllPlain IsPlain name
    → (0 < length name) × (length name < 255)
    → consume (reset p) (word ++ (name ++ (line_end ++ rest)))
      ≡ some (11 + length name, accepted name)
unfolding consume Faulty.consume machine has_finished
consume_del_user p name rest a (l, h) =
    consume_name p name rest a (omega arith)
    ∙ consume_end machine (9 + length name + 1) (in_state State.del_crlf name) (accepted name) b'\n'
        rest (feed_line_end name (l, h)) refl
    ∙ ap (λ n. some (n, accepted name)) (omega arith)

-- Behind a name of 255 bytes, which the parser takes, the zero is written outside the array.
pub consume_del_user_overrun :
    (p : DelUserParser) (name rest : List ℕ)
    → AllPlain IsPlain name
    → length name ≡ 255
    → consume (reset p) (word ++ (name ++ (line_end ++ rest))) ≡ none
unfolding consume Faulty.consume
consume_del_user_overrun p name rest a h =
    consume_name p name rest a (omega arith)
    ∙ consume_fault machine (9 + length name + 1) (in_state State.del_crlf name) b'\n' rest
        (feed_line_end_full name h)
