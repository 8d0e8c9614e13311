-- ===== src/Parsers/Pop3.antt =====
-- socks5d/lib/parsers/pop3/pop3_auth_parser.c: it looks for a user name and a password in what a
-- client sends to a POP3 server. `none` is a read outside the command's characters. A null
-- parser is not modelled: each function returns at once on one.
pub mod Overrun
use protos.Base.{
  ℕ, ◌+◌, Bool, true, false, ◌&&◌, ◌||◌, List, [], ◌∷◌, ◌++◌, Option, none, some, ◌==◌, leb,
  if◌then◌else◌, get_elem?, set, replicate,
}
use protos.Base.Fallible.{◌>>=◌}

-- `States`
pub data State : Type 0 where
  initial_state user_command user_content pass_command pass_content unknown_command : State

-- A growing array of characters: `User`, `UserLength` and `UserMaxSize`, or those of the password.
-- A null pointer is `none`. The two counters are `int`s in the source and unbounded here: contents
-- of 2 ^ 31 bytes and more are outside the model. A byte that `realloc` adds is unspecified until it
-- is written: `none`.
pub record Content : Type 0 where
  pub chars : Option (List (Option ℕ))
  pub used : ℕ
  pub max_size : ℕ

-- `Pop3AuthParser`
pub record Pop3Parser : Type 0 where
  pub state : State
  pub index : ℕ
  pub user : Content
  pub password : Content
  pub is_password_complete : Bool

abbrev pub no_content : Content
no_content = record { chars = none; used = 0; max_size = 0 }

-- `ResetPop3AuthParser`: both arrays are freed and every field is cleared.
unfoldable pub reset : Pop3Parser → Pop3Parser
reset p = record {
  state = State.initial_state;
  index = 0;
  user = no_content;
  password = no_content;
  is_password_complete = false;
}

abbrev pub user_word : List ℕ
user_word = b'u' ∷ b's' ∷ b'e' ∷ b'r' ∷ 0 ∷ []

abbrev pub pass_word : List ℕ
pass_word = b'p' ∷ b'a' ∷ b's' ∷ b's' ∷ 0 ∷ []

abbrev pub command_len : ℕ
command_len = 4

unfoldable pub tolower : ℕ → ℕ
tolower c = if leb b'A' c && leb c b'Z' then c + 32 else c

-- The start of a content: an array left from an earlier command is freed.
unfoldable pub start_content : Content → Content
start_content t = elim t.chars [ none ↦ t | some b ↦ no_content ]

-- The array is allocated if there is none, and extended by 100 if it is full.
unfoldable pub allocate : Content → Content
allocate t = elim t.chars [
  | none ↦ record { chars = some (replicate 100 (some 0)); used = t.used; max_size = 100 }
  | some b ↦ t
]

unfoldable pub extend : Content → Content
extend t =
    if t.max_size == t.used
    then (elim t.chars [
      | none ↦ t
      | some b ↦ record t { chars = some (b ++ replicate 100 none); max_size = t.max_size + 100 }
    ])
    else t

-- `Chars[Length] = c`
unfoldable pub write_char : Content → ℕ → Content
write_char t c = elim t.chars [
  | none ↦ t
  | some b ↦ record t { chars = some (set b t.used (some c)) }
]

abbrev pub is_line_end : ℕ → Bool
is_line_end c = c == b'\r' || c == b'\n'

abbrev pub after_line : ℕ → State
after_line c = if c == b'\n' then State.initial_state else State.unknown_command

-- One character of a content: the terminator at the end of a line, or the character.
unfoldable pub content_char : Content → ℕ → Content
unfolding allocate extend write_char
content_char t c =
    let roomy = extend (allocate t) in
    if is_line_end c
    then write_char roomy 0
    else record (write_char roomy c) { used = roomy.used + 1 }

-- The `switch` of `FeedPop3AuthParser`, on the state.
unfoldable pub feed_in : State → Pop3Parser → ℕ → Option Pop3Parser
unfolding start_content content_char tolower
feed_in State.initial_state p c = get_elem? user_word p.index >>= λ u.
    if u == tolower c
    then some (record p { state = State.user_command; index = p.index + 1 })
    else (get_elem? pass_word p.index >>= λ w.
        if w == tolower c
        then some (record p { state = State.pass_command; index = p.index + 1 })
        else some (record p { state = State.unknown_command; index = p.index + 1 }))
feed_in State.user_command p c =
    if command_len == p.index && b' ' == tolower c
    then some (record p { index = 0; state = State.user_content; user = start_content p.user })
    else (get_elem? user_word p.index >>= λ u.
        if u == tolower c
        then some (record p { index = p.index + 1 })
        else some (record p { index = 0; state = after_line c }))
feed_in State.user_content p c = some (record p {
  user = content_char p.user c;
  state = if is_line_end c then after_line c else p.state;
})
feed_in State.pass_command p c =
    if command_len == p.index && b' ' == tolower c
    then some (record p {
      is_password_complete = false;
      index = 0;
      state = State.pass_content;
      password = start_content p.password;
    })
    else (get_elem? pass_word p.index >>= λ w.
        if w == tolower c
        then some (record p { is_password_complete = false; index = p.index + 1 })
        else some (record p { is_password_complete = false; index = 0; state = after_line c }))
feed_in State.pass_content p c = some (record p {
  password = content_char p.password c;
  state = if is_line_end c then after_line c else p.state;
  is_password_complete = if is_line_end c then true else p.is_password_complete;
})
feed_in State.unknown_command p c =
    some (if c == b'\n' then record p { index = 0; state = State.initial_state } else p)

unfoldable pub feed : Pop3Parser → ℕ → Option Pop3Parser
unfolding feed_in
feed p c = feed_in p.state p c

-- `ConsumePop3AuthParser`: every byte is fed.
unfoldable pub consume : Pop3Parser → List ℕ → Option Pop3Parser
consume p [] = some p
consume p (c ∷ cs) = elim (feed p c) [ none ↦ none | some p' ↦ consume p' cs ]

-- `HasPasswordPop3AuthParser`
unfoldable pub has_password : Pop3Parser → Bool
has_password p = p.is_password_complete
