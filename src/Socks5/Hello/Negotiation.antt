-- ===== src/Socks5/Hello/Negotiation.antt =====
-- The method that the server chooses, and its answer to a greeting.
use protos.Base.{
  ℕ, zero, suc, ◌+◌, ◌-◌, ◌%◌, ◌≤◌, ◌<◌, Bool, true, ◌||◌, List, [], ◌∷◌, ◌++◌, some, ◌≡◌, refl,
  sym, ap, ◌∙◌, arith, ◌==◌, length, take, get_elem?, if◌then◌else◌,
}
use protos.Base.Slice.{get_elem?-some}
use protos.Buffer
use protos.Buffer.{ArrayBuffer}
use protos.Buffer.Inv.{IsValid}
use protos.Buffer.Contents.{contents}
use protos.Parsers.Hello.Message.{hello_message, consume-hello_message}
use protos.Socks5.{ConnectionState, Interest, bytes, Connection, set_client}
use protos.Socks5.Messages.{build_hello_response}
use protos.Parsers.Hello.{HelloState, HelloParser, has_finished, has_failed, consume, reset}
use protos.Socks5.Filling.{filled, contents-filled, receive_lem, answer_lem}
use protos.Socks5.Hello.{
  auth_no_auth, auth_user_pass, auth_invalid, select_authentication_method, read_init, read_run,
  read_answer, read_parsed,
}

abbrev pub is_supported : ℕ → Bool
is_supported m = m == auth_user_pass || m == auth_no_auth

-- The last of the offered methods that the server supports, given the choice among those before.
unfoldable pub last_supported : ℕ → List ℕ → ℕ
last_supported chosen [] = chosen
last_supported chosen (m ∷ ms) = last_supported (if is_supported m then m else chosen) ms

last_supported-append :
    (chosen : ℕ) (ms : List ℕ) (m : ℕ)
    → last_supported chosen (ms ++ m ∷ [])
      ≡ (if is_supported m then m else last_supported chosen ms)
unfolding last_supported
last_supported-append chosen [] m = refl
last_supported-append chosen (x ∷ ms) m =
    last_supported-append (if is_supported x then x else chosen) ms m

take-suc : (ms : List ℕ) (i m : ℕ) → get_elem? ms i ≡ some m → take (suc i) ms ≡ take i ms ++ m ∷ []
take-suc [] i m e = cc
take-suc (x ∷ ms) zero m e = cc
take-suc (x ∷ ms) (suc i) m e = ap (λ t. x ∷ t) (take-suc ms i m e)

select_authentication_method-suc :
    (methods : List ℕ) (i m : ℕ)
    → get_elem? methods i ≡ some m
    → select_authentication_method methods (suc i)
      ≡ (if is_supported m then m else select_authentication_method methods i)
unfolding select_authentication_method
select_authentication_method-suc methods i m e = rw (select_authentication_method, e) refl

-- For a count that is no more than the array's length, `SelectAuthenticationMethod` gives the last
-- of that many methods that is "no authentication" or "user name and password", and 0xFF if there
-- is none.
pub select_authentication_method_lem :
    (methods : List ℕ) (n : ℕ)
    → n ≤ length methods
    → select_authentication_method methods n ≡ last_supported auth_invalid (take n methods)
select_authentication_method_lem methods zero h =
    unfold select_authentication_method last_supported in refl
select_authentication_method_lem methods (suc i) h =
    let (m, e) = get_elem?-some methods i (omega arith) in
    select_authentication_method-suc methods i m e
    ∙ ap (λ k. if is_supported m then m else k)
        (select_authentication_method_lem methods i (omega arith))
    ∙ sym (last_supported-append auth_invalid (take i methods) m)
    ∙ ap (last_supported auth_invalid) (sym (take-suc methods i m e))

supported_byte : (ms : List ℕ) (k : ℕ) → k < 256 → last_supported k ms % 256 ≡ last_supported k ms
unfolding last_supported
supported_byte [] k h = omega arith
supported_byte (m ∷ ms) k h = supported_byte ms (if is_supported m then m else k) (ground arith)

length-take_le : (n : ℕ) (ms : List ℕ) → length (take n ms) ≤ length ms
length-take_le zero ms = omega arith
length-take_le (suc n) [] = omega arith
length-take_le (suc n) (x ∷ ms) = omega (arith, length-take_le n ms)

-- What the handler does with a greeting that is read.
read_parsed-done :
    (c : Connection)
    → c.hello.state ≡ HelloState.done
    → read_parsed c true ≡ read_answer (set_client Interest.write c true)
unfolding read_parsed has_finished has_failed
read_parsed-done c h = ground arith

build_hello_response-room :
    (room method : ℕ) → 2 ≤ room → build_hello_response room method ≡ 0x05 ∷ (method % 256) ∷ []
unfolding build_hello_response
build_hello_response-room room method h = ground arith

read_answer_lem :
    (c : Connection) (w : IsValid c.write_buffer)
    (two : c.write_buffer.write_head + 2 ≤ c.write_buffer.size)
    → let method = select_authentication_method c.hello.methods c.hello.n_methods in
      read_answer c
      ≡ some (
        ConnectionState.hello_write,
        record c {
          authentication_method = method;
          write_buffer = filled w (0x05 ∷ (method % 256) ∷ []) two;
        },
      )
unfolding read_answer
read_answer_lem c w two =
    let method = select_authentication_method c.hello.methods c.hello.n_methods in
    let built =
      build_hello_response-room (c.write_buffer.size - c.write_buffer.write_head) method
        (omega (arith, two)) in
    rw
      (answer_lem w (λ room. build_hello_response room method) 0x05 ((method % 256) ∷ []) built two)
      refl

-- The parser's array and count give back the methods.
chosen_method :
    (p : HelloParser) (m : ℕ) (ms : List ℕ)
    → p.n_methods ≡ length (m ∷ ms)
    → take p.n_methods p.methods ≡ m ∷ ms
    → select_authentication_method p.methods p.n_methods ≡ last_supported auth_invalid (m ∷ ms)
chosen_method p m ms n kept =
    select_authentication_method_lem p.methods p.n_methods
      (omega (arith, n, ap length kept, length-take_le p.n_methods p.methods))
    ∙ ap (last_supported auth_invalid) kept

module _ (c : Connection) (bs : List ℕ) (v : IsValid c.read_buffer)
    (room : c.read_buffer.write_head + length bs ≤ c.read_buffer.size) where
  -- The connection when the bytes of the greeting are parsed.
  greeted : Connection
  greeted = record c {
    read_buffer = Buffer.reset (filled v bs room);
    hello = (consume (reset c.hello) bs).1;
  }

  read_run-greeted : read_run (read_init c) (bytes bs) true ≡ read_parsed greeted true
  unfolding read_run read_init greeted
  read_run-greeted = rw (receive_lem v bs room) refl

-- A greeting of 1 to 255 methods that arrives in one `recv`, into a buffer that has room for it,
-- when two bytes can be written and the selector accepts the interest: the handler goes on to
-- `hello_write`, with the version 5 and the last offered method that the server supports (0xFF
-- if there is none) behind what there was to be written, and keeps that method.
pub greeting_is_answered :
    (c : Connection) (m : ℕ) (ms rest : List ℕ)
    → length (m ∷ ms) < 256
    → IsValid c.read_buffer
    → c.read_buffer.write_head + length (hello_message (m ∷ ms) ++ rest) ≤ c.read_buffer.size
    → IsValid c.write_buffer
    → c.write_buffer.write_head + 2 ≤ c.write_buffer.size
    → let method = last_supported auth_invalid (m ∷ ms) in
      (c' : Connection) × (read_run (read_init c) (bytes (hello_message (m ∷ ms) ++ rest)) true
        ≡ some (ConnectionState.hello_write, c'))
      × (contents c'.write_buffer ≡ contents c.write_buffer ++ 0x05 ∷ method ∷ [])
      × (c'.authentication_method ≡ method)
unfolding set_client greeted
greeting_is_answered c m ms rest few v room w two =
    let bs = hello_message (m ∷ ms) ++ rest in
    let c1 = set_client Interest.write (greeted c bs v room) true in
    let (_, done, n, kept) = consume-hello_message c.hello m ms rest few in
    let chosen = chosen_method c1.hello m ms n kept in
    (
      _,
      read_run-greeted c bs v room
          ∙ read_parsed-done (greeted c bs v room) done
          ∙ read_answer_lem c1 w two,
      contents-filled w _ two
          ∙ ap (λ k. contents c.write_buffer ++ 0x05 ∷ k ∷ [])
              (ap (λ k. k % 256) chosen ∙ supported_byte (m ∷ ms) auth_invalid (omega arith)),
      chosen,
    )
