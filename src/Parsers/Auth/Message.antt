-- ===== src/Parsers/Auth/Message.antt =====
-- The subnegotiation's grammar, and that the parser accepts exactly it.
use protos.Base.{
  ℕ, zero, suc, ◌+◌, ◌<◌, List, [], ◌∷◌, ◌++◌, ◌≡◌, refl, sym, ap, ◌∙◌, arith, append_assoc, length,
  take, get_elem?, some, replicate, store, length-append, store-concat, take-store_start,
  length-replicate, get_elem?-store, get_elem?-replicate,
}
use protos.Stream
use protos.Stream.Field.{Field, consume-Field, resume-stopped}
use protos.Parsers.Auth.{
  AuthState, AuthParser, feed_in, feed, has_finished, reset, machine, consume,
}

-- RFC 1929: the version, and the two strings with their lengths.
unfoldable pub auth_message : List ℕ → List ℕ → List ℕ
auth_message name passwd = 0x01 ∷ length name ∷ (name ++ length passwd ∷ passwd)

abbrev pub zeros : List ℕ
zeros = replicate 256 0

-- The parser after `xs` of the `n` bytes of the name.
unfoldable pub reading_name : ℕ → List ℕ → AuthParser
reading_name n xs = record {
  state = AuthState.u_name;
  u_len = n;
  u_name_position = length xs;
  u_name = store zeros 0 xs;
  p_len = 0;
  passwd = zeros;
  passwd_position = 0;
}

unfoldable pub read_name : ℕ → List ℕ → AuthParser
read_name n xs = record (reading_name n xs) { state = AuthState.p_len }

-- The parser that has read the name, after `xs` of the `n` bytes of the password.
unfoldable pub reading_passwd : List ℕ → ℕ → List ℕ → AuthParser
reading_passwd name n xs = record {
  state = AuthState.passwd;
  u_len = length name;
  u_name_position = length name;
  u_name = store zeros 0 name;
  p_len = n;
  passwd = store zeros 0 xs;
  passwd_position = length xs;
}

unfoldable pub read_passwd : List ℕ → ℕ → List ℕ → AuthParser
read_passwd name n xs = record (reading_passwd name n xs) { state = AuthState.finished }

pub name-Field : (n : ℕ) → Field machine n (reading_name n) (read_name n)
unfolding reading_name read_name feed has_finished feed_in
name-Field n = record {
  waits = λ xs. refl;
  more = λ xs c k. ground (arith, store-concat zeros 0 xs c, length-append xs (c ∷ []));
  last = λ xs c k. ground (arith, store-concat zeros 0 xs c, length-append xs (c ∷ []));
}

pub passwd-Field :
    (name : List ℕ) (n : ℕ) → Field machine n (reading_passwd name n) (read_passwd name n)
unfolding reading_passwd read_passwd feed has_finished feed_in
passwd-Field name n = record {
  waits = λ xs. refl;
  more = λ xs c k. ground (arith, store-concat zeros 0 xs c, length-append xs (c ∷ []));
  last = λ xs c k. ground (arith, store-concat zeros 0 xs c, length-append xs (c ∷ []));
}

pub header :
    (q : AuthParser) (n : ℕ) (cs : List ℕ)
    → 0 < n
    → consume (reset q) (0x01 ∷ n ∷ cs) ≡ Stream.consume_from machine 2 (reading_name n []) cs
unfolding consume Stream.consume Stream.consume_from reset feed has_finished reading_name store
header q zero cs h = elim h [ ]
header q (suc n) cs h = ground arith

-- Behind the name, the length of the password.
pub middle :
    (i : ℕ) (name : List ℕ) (n : ℕ) (cs : List ℕ)
    → 0 < n
    → Stream.resume machine i (read_name (length name) name) (n ∷ cs)
      ≡ Stream.consume_from machine (i + 1) (reading_passwd name n []) cs
unfolding Stream.resume Stream.consume_from feed has_finished read_name reading_name reading_passwd
    store
middle i name zero cs h = elim h [ ]
middle i name (suc n) cs h = ground arith

-- What a finished parser has read. `name_ends` and `passwd_ends` say that the arrays hold
-- strings: the byte behind each is zero.
pub record Accepted (bytes : List ℕ) (count : ℕ) (p : AuthParser) : Type 0 where
  pub name : List ℕ
  pub passwd : List ℕ
  pub rest : List ℕ
  pub message : bytes ≡ auth_message name passwd ++ rest
  pub some_name : 0 < length name
  pub some_passwd : 0 < length passwd
  pub read : count ≡ length (auth_message name passwd)
  pub name_kept : take p.u_len p.u_name ≡ name
  pub passwd_kept : take p.p_len p.passwd ≡ passwd
  pub name_ends : get_elem? p.u_name p.u_len ≡ some 0
  pub passwd_ends : get_elem? p.passwd p.p_len ≡ some 0

pub Accepted-read_passwd :
    (name passwd rest : List ℕ)
    → (0 < length name) × (length name < 256)
    → (0 < length passwd) × (length passwd < 256)
    → Accepted
        (auth_message name passwd ++ rest)
        (length (auth_message name passwd))
        (read_passwd name (length passwd) passwd)
unfolding read_passwd reading_passwd
Accepted-read_passwd name passwd rest h k = record {
  name = name;
  passwd = passwd;
  rest = rest;
  message = refl;
  some_name = h.0;
  some_passwd = k.0;
  read = refl;
  name_kept = take-store_start zeros name (omega (arith, h, length-replicate {A = ℕ} 256 0));
  passwd_kept = take-store_start zeros passwd (omega (arith, k, length-replicate {A = ℕ} 256 0));
  name_ends =
      get_elem?-store zeros 0 name (length name) (omega arith)
      ∙ get_elem?-replicate 256 0 (length name) h.1;
  passwd_ends =
      get_elem?-store zeros 0 passwd (length passwd) (omega arith)
      ∙ get_elem?-replicate 256 0 (length passwd) k.1;
}

pub length-auth_message :
    (name passwd : List ℕ) → length (auth_message name passwd) ≡ 2 + length name + 1 + length passwd
unfolding auth_message
length-auth_message name passwd = omega (arith, length-append name (length passwd ∷ passwd))

-- The whole run on a message, for a name `n ∷ ns` and a password `c ∷ cs`.
pub run_message :
    (q : AuthParser) (n : ℕ) (ns : List ℕ) (c : ℕ) (cs rest : List ℕ)
    → consume (reset q) (auth_message (n ∷ ns) (c ∷ cs) ++ rest)
      ≡ (length (auth_message (n ∷ ns) (c ∷ cs)), read_passwd (n ∷ ns) (length (c ∷ cs)) (c ∷ cs))
run_message q n ns c cs rest =
    let name = n ∷ ns in
    let passwd = c ∷ cs in
    let i = 2 + length name in
    unfold auth_message in
    ap (λ t. consume (reset q) (0x01 ∷ length name ∷ t))
      (append_assoc name (length passwd ∷ passwd) rest)
    ∙ header q (length name) (name ++ length passwd ∷ (passwd ++ rest)) (omega arith)
    ∙ consume-Field (name-Field (length name)) 2 [] ns (length passwd ∷ (passwd ++ rest)) n
        (omega arith)
    ∙ middle i name (length passwd) (passwd ++ rest) (omega arith)
    ∙ consume-Field (passwd-Field name (length passwd)) (i + 1) [] cs rest c (omega arith)
    ∙ resume-stopped machine (i + 1 + length passwd) (read_passwd name (length passwd) passwd) rest
        (unfold has_finished read_passwd in refl)
    ∙ ap (λ k. (k, read_passwd name (length passwd) passwd)) (sym (length-auth_message name passwd))

-- A message with a name and a password of 1 to 255 bytes each is accepted whatever follows it:
-- the call returns its length, and the parser is finished and holds exactly the two strings.
pub consume-auth_message :
    (q : AuthParser) (n : ℕ) (ns : List ℕ) (c : ℕ) (cs rest : List ℕ)
    → length (n ∷ ns) < 256
    → length (c ∷ cs) < 256
    → let (count, p) = consume (reset q) (auth_message (n ∷ ns) (c ∷ cs) ++ rest) in
      (count ≡ 3 + length (n ∷ ns) + length (c ∷ cs))
      × (p.state ≡ AuthState.finished)
      × (take p.u_len p.u_name ≡ n ∷ ns)
      × (take p.p_len p.passwd ≡ c ∷ cs)
consume-auth_message q n ns c cs rest h k = rw (run_message q n ns c cs rest) (
  omega (arith, length-auth_message (n ∷ ns) (c ∷ cs)),
  unfold read_passwd in refl,
  unfold read_passwd reading_passwd in
      take-store_start zeros (n ∷ ns) (omega (arith, h, length-replicate {A = ℕ} 256 0)),
  unfold read_passwd reading_passwd in
      take-store_start zeros (c ∷ cs) (omega (arith, k, length-replicate {A = ℕ} 256 0)),
)
