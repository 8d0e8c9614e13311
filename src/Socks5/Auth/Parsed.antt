-- ===== src/Socks5/Auth/Parsed.antt =====
-- What the bytes of a client are when its authentication is answered.
use protos.Base.{
  ℕ, Bool, true, false, List, [], ◌∷◌, ◌++◌, Option, none, some, ◌≡◌, ◌≢◌, refl, sym, ap, ◌∙◌,
  arith, IsBytes,
}
use protos.Base.Fallible.{>>=-eq-some}
use protos.Buffer
use protos.Buffer.{ArrayBuffer}
use protos.Users.{User, log_in}
use protos.Socks5.{ConnectionState, Interest, bytes, Connection, receive, answer, set_client}
use protos.Socks5.Messages.{build_auth_response}
use protos.Socks5.Auth.{read_init, is_found, known, answered, read_answer, read_parsed, read_run}
use protos.Parsers.Auth.{AuthState, has_finished, has_failed, machine, reset, consume}
use protos.Parsers.Auth.Message.{Accepted}
use protos.Parsers.Auth.Sound.{auth_consume-Accepted}
use protos.Stream.{feed_all}
use protos.Stream.Chunks.{feed_all-append, consume-eq-feed_all}
use mathlib.Core.List.{flatten}

-- Reads of `AuthReadRun`, of these bytes each, that wait for more.
pub data Reading (users : List User) : Connection → List (List ℕ) → Connection → Type 0 where
  nothing : {c : Connection} → Reading users c [] c
  more :
      {c c' c'' : Connection} {reads : List (List ℕ)} (bs : List ℕ) (ok : Bool)
      → read_run c users (bytes bs) ok ≡ some ((ConnectionState.auth_read, c'), users)
      → Reading users c' reads c''
      → Reading users c (bs ∷ reads) c''

answered-auth :
    (c : Connection) (found : Option ℕ) (built : Option ArrayBuffer)
    → (answered (known c found) built).1.auth ≡ c.auth
unfolding answered known
answered-auth c found none = refl
answered-auth c found (some w) = refl

-- The parser of a connection is the one that the read left, whatever the answer is.
read_answer-auth :
    (c : Connection) (users : List User) {st : ConnectionState} {c' : Connection}
    {users' : List User}
    → read_answer c users ≡ some ((st, c'), users')
    → c'.auth ≡ c.auth
unfolding read_answer
read_answer-auth c users {st} {c'} {users'} h =
    let (found, l, f) = >>=-eq-some (log_in c.auth.u_name c.auth.passwd users) _ h in
    let (built, _, g) =
      >>=-eq-some (answer c.write_buffer (λ room. build_auth_response room (is_found found.0))) _
        f in
    let same : (answered (known c found.0) built).1 ≡ c' = cc in
    ap (λ d. d.auth) (sym same) ∙ answered-auth c found.0 built

done_state :
    (st : AuthState) → has_finished st ≡ true → has_failed st ≡ false → st ≡ AuthState.finished
unfolding has_finished has_failed
done_state AuthState.finished h k = refl
done_state AuthState.invalid_state h k = cc
done_state AuthState.invalid_protocol h k = cc
done_state AuthState.version h k = cc
done_state AuthState.u_len h k = cc
done_state AuthState.u_name h k = cc
done_state AuthState.p_len h k = cc
done_state AuthState.passwd h k = cc

read_parsed-auth :
    (c : Connection) (users : List User) (ok : Bool) {st : ConnectionState} {c' : Connection}
    {users' : List User}
    → read_parsed c users ok ≡ some ((st, c'), users')
    → c'.auth ≡ c.auth
unfolding read_parsed set_client
read_parsed-auth c users ok {st} {c'} {users'} h =
    let same : read_answer (set_client Interest.write c ok) users ≡ some ((st, c'), users')
        → c'.auth ≡ (set_client Interest.write c ok).auth =
      read_answer-auth (set_client Interest.write c ok) users {st = st} {c' = c'}
        {users' = users'} in
    ground (arith, same)

-- A read that goes on to an answer has finished the parser without an error.
read_parsed-finished :
    (c : Connection) (users : List User) (ok : Bool) {c' : Connection} {users' : List User}
    → read_parsed c users ok ≡ some ((ConnectionState.auth_write, c'), users')
    → (has_finished c.auth.state ≡ true) × (has_failed c.auth.state ≡ false)
unfolding read_parsed
read_parsed-finished c users ok h = (ground arith, ground arith)

-- The parser that a read leaves has consumed its bytes.
read_run-auth :
    (c : Connection) (users : List User) (bs : List ℕ) (ok : Bool) {st : ConnectionState}
    {c' : Connection} {users' : List User}
    → read_run c users (bytes bs) ok ≡ some ((st, c'), users')
    → st ≢ ConnectionState.error
    → c'.auth ≡ feed_all machine c.auth bs
unfolding read_run
read_run-auth c users [] ok {st} {c'} {users'} h n = absurd (ground arith)
read_run-auth c users (x ∷ bs) ok {st} {c'} {users'} h n =
    let (b, _, f) = >>=-eq-some (receive c.read_buffer (x ∷ bs)) _ h in
    read_parsed-auth (record c { read_buffer = Buffer.reset b; auth = (consume c.auth (x ∷ bs)).1 })
      users ok {st = st} {c' = c'} {users' = users'} f
    ∙ (unfold consume in consume-eq-feed_all machine c.auth (x ∷ bs))

read_run-finished :
    (c : Connection) (users : List User) (bs : List ℕ) (ok : Bool) {c' : Connection}
    {users' : List User}
    → read_run c users (bytes bs) ok ≡ some ((ConnectionState.auth_write, c'), users')
    → c'.auth.state ≡ AuthState.finished
unfolding read_run
read_run-finished c users [] ok h = absurd (ground arith)
read_run-finished c users (x ∷ bs) ok {c'} {users'} h =
    let (b, _, f) = >>=-eq-some (receive c.read_buffer (x ∷ bs)) _ h in
    let d = record c { read_buffer = Buffer.reset b; auth = (consume c.auth (x ∷ bs)).1 } in
    let (fin, fail) = read_parsed-finished d users ok f in
    ap (λ p. p.state) (read_parsed-auth d users ok {c' = c'} {users' = users'} f)
    ∙ done_state d.auth.state fin fail

Reading-auth :
    {users : List User} {c c' : Connection} {reads : List (List ℕ)}
    → Reading users c reads c'
    → c'.auth ≡ feed_all machine c.auth (flatten reads)
unfolding feed_all flatten
Reading-auth nothing = refl
Reading-auth {users} {c} (more {c' = d} {reads = reads} bs ok h rest) =
    Reading-auth rest
    ∙ ap (λ p. feed_all machine p (flatten reads)) (read_run-auth c users bs ok h (ground arith))
    ∙ sym (feed_all-append machine c.auth bs (flatten reads))

-- A read that goes on to an answer ends a message of the grammar, whatever reads came before it.
pub read_run-Accepted :
    (c0 c c1 : Connection) (users users' : List User) (reads : List (List ℕ)) (bs : List ℕ)
    (ok : Bool)
    → IsBytes (flatten reads ++ bs)
    → Reading users (read_init c0) reads c
    → read_run c users (bytes bs) ok ≡ some ((ConnectionState.auth_write, c1), users')
    → (count : ℕ) × Accepted (flatten reads ++ bs) count c1.auth
read_run-Accepted c0 c c1 users users' reads bs ok b waited read = (
  (consume (reset c0.auth) (flatten reads ++ bs)).0,
  auth_consume-Accepted c0.auth (flatten reads ++ bs) b
      (ap (λ p. ((consume (reset c0.auth) (flatten reads ++ bs)).0, p)) parsed)
      (read_run-finished c users bs ok read),
)
  where
    start : c.auth ≡ feed_all machine (reset c0.auth) (flatten reads)
    start = unfold read_init in Reading-auth waited

    whole :
        (consume (reset c0.auth) (flatten reads ++ bs)).1
        ≡ feed_all machine (reset c0.auth) (flatten reads ++ bs)
    whole = unfold consume in consume-eq-feed_all machine (reset c0.auth) (flatten reads ++ bs)

    parsed : (consume (reset c0.auth) (flatten reads ++ bs)).1 ≡ c1.auth
    parsed =
        whole
        ∙ feed_all-append machine (reset c0.auth) (flatten reads) bs
        ∙ ap (λ p. feed_all machine p bs) (sym start)
        ∙ sym (read_run-auth c users bs ok read (ground arith))
