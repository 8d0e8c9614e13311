-- ===== src/Socks5/Auth/Safety.antt =====
-- Nobody gets from the authentication to the request but a user of the server.
use protos.Base.{
  ℕ, Bool, true, List, [], ◌∷◌, ◌++◌, Option, none, some, ◌≡◌, refl, sym, ap, ◌∙◌, arith, IsBytes,
}
use protos.Base.Fallible.{>>=-eq-some}
use protos.Buffer
use protos.Buffer.{ArrayBuffer}
use protos.Users.{User, log_in}
use protos.Users.Login.{Found, log_in-Found}
use protos.Socks5.{
  ConnectionState, Interest, Received, bytes, recv_failed, Sent, Connection, receive, answer,
  set_client,
}
use protos.Socks5.Messages.{build_auth_response}
use protos.Socks5.Auth.{
  read_init, is_found, known, answered, LogIn, read_answer, read_parsed, read_run, write_run,
}
use protos.Socks5.Auth.Parsed.{Reading, read_run-Accepted}
use protos.Parsers.Auth.{consume}
use protos.Parsers.Auth.Message.{Accepted}
use mathlib.Core.List.{flatten}

-- The answer is sent by any number of runs of `AuthWriteRun`.
pub data Answering : Connection → Connection → Type 0 where
  nothing : {c : Connection} → Answering c c
  more :
      {c c' c'' : Connection} (s : Sent) (ok : Bool)
      → write_run c s ok ≡ some (ConnectionState.auth_write, c')
      → Answering c' c''
      → Answering c c''

-- The user and the flag that the login leaves in a connection.
abbrev LoggedIn : List User → Connection → List User → Type 0
LoggedIn users c users' =
    (log_in c.auth.u_name c.auth.passwd users ≡ some (c.user, users'))
    × (c.auth_succeeded ≡ is_found c.user)

write_run-stays :
    (c c' : Connection) (s : Sent) (ok : Bool)
    → write_run c s ok ≡ some (ConnectionState.auth_write, c')
    → c'.auth_succeeded ≡ c.auth_succeeded
unfolding write_run
write_run-stays c c' s ok h = ground arith

Answering-flag : {c c' : Connection} → Answering c c' → c'.auth_succeeded ≡ c.auth_succeeded
Answering-flag nothing = refl
Answering-flag (more {c} {c'} s ok r rest) = Answering-flag rest ∙ write_run-stays c c' s ok r

write_run-goes_on :
    (c c' : Connection) (s : Sent) (ok : Bool)
    → write_run c s ok ≡ some (ConnectionState.request_read, c')
    → c.auth_succeeded ≡ true
unfolding write_run
write_run-goes_on c c' s ok h = ground arith

-- What a read gives, as one value.
abbrev with_users : ConnectionState × Connection → List User → LogIn
with_users next users = some (next, users)

answered-LoggedIn :
    (c : Connection) (users users' users'' : List User) (found : Option ℕ)
    (built : Option ArrayBuffer) {st : ConnectionState} {c' : Connection}
    → log_in c.auth.u_name c.auth.passwd users ≡ some (found, users'')
    → with_users (answered (known c found) built) users'' ≡ some ((st, c'), users')
    → LoggedIn users c' users'
unfolding answered known
answered-LoggedIn c users users' users'' found none l h = ground arith
answered-LoggedIn c users users' users'' found (some w) l h = ground arith

read_answer-LoggedIn :
    (c : Connection) (users : List User) {st : ConnectionState} {c' : Connection}
    {users' : List User}
    → read_answer c users ≡ some ((st, c'), users')
    → LoggedIn users c' users'
unfolding read_answer
read_answer-LoggedIn c users {st} {c'} {users'} h =
    let (found, l, f) = >>=-eq-some (log_in c.auth.u_name c.auth.passwd users) _ h in
    let (built, _, g) =
      >>=-eq-some (answer c.write_buffer (λ room. build_auth_response room (is_found found.0))) _
        f in
    answered-LoggedIn c users users' found.1 found.0 built l g

read_parsed-LoggedIn :
    (c : Connection) (users : List User) (ok : Bool) {c' : Connection} {users' : List User}
    → read_parsed c users ok ≡ some ((ConnectionState.auth_write, c'), users')
    → LoggedIn users c' users'
unfolding read_parsed
read_parsed-LoggedIn c users ok {c'} {users'} h =
    let logged =
      read_answer-LoggedIn (set_client Interest.write c ok) users {st = ConnectionState.auth_write}
        {c' = c'} {users' = users'} in
    ground (arith, logged)

read_run-LoggedIn :
    (c : Connection) (users : List User) (r : Received) (ok : Bool) {c' : Connection}
    {users' : List User}
    → read_run c users r ok ≡ some ((ConnectionState.auth_write, c'), users')
    → LoggedIn users c' users'
unfolding read_run
read_run-LoggedIn c users recv_failed ok h = absurd (ground arith)
read_run-LoggedIn c users (bytes []) ok h = absurd (ground arith)
read_run-LoggedIn c users (bytes (x ∷ bs)) ok h =
    let (b, _, f) = >>=-eq-some (receive c.read_buffer (x ∷ bs)) _ h in
    read_parsed-LoggedIn
      (record c { read_buffer = Buffer.reset b; auth = (consume c.auth (x ∷ bs)).1 }) users ok f

found_user : (u : Option ℕ) → is_found u ≡ true → (i : ℕ) × (u ≡ some i)
unfolding is_found
found_user none h = absurd (ground arith)
found_user (some i) h = (i, refl)

-- Sending the answer keeps the user.
write_run-user :
    (c c' : Connection) (s : Sent) (ok : Bool) {st : ConnectionState}
    → write_run c s ok ≡ some (st, c')
    → c'.user ≡ c.user
unfolding write_run set_client
write_run-user c c' s ok h = ground arith

Answering-user : {c c' : Connection} → Answering c c' → c'.user ≡ c.user
Answering-user nothing = refl
Answering-user (more {c} {c'} s ok r rest) = Answering-user rest ∙ write_run-user c c' s ok r

-- A client has sent bytes since `AuthReadInit`, in any number of reads, the last of which makes
-- `AuthReadRun` go on to its answer; `AuthWriteRun` is run any number of times to send that, and
-- then goes on to the request. Then the bytes are a message of RFC 1929 and perhaps more, the login
-- with its name and its password, as the parser keeps them, has found the first user in use who
-- has both, the connection holds that user, and the list of users is the one before with that user
-- marked.
pub request_needs_user :
    (c0 c c1 c2 c3 : Connection) (users users' : List User) (reads : List (List ℕ)) (bs : List ℕ)
    (s : Sent) (ok ok' : Bool)
    → IsBytes (flatten reads ++ bs)
    → Reading users (read_init c0) reads c
    → read_run c users (bytes bs) ok ≡ some ((ConnectionState.auth_write, c1), users')
    → Answering c1 c2
    → write_run c2 s ok' ≡ some (ConnectionState.request_read, c3)
    → ((count : ℕ) × Accepted (flatten reads ++ bs) count c1.auth)
      × ((i : ℕ) × (c3.user ≡ some i) × Found c1.auth.u_name c1.auth.passwd users (some i) users')
request_needs_user c0 c c1 c2 c3 users users' reads bs s ok ok' b waited read sent on =
    let (logged, flag) = read_run-LoggedIn c users (bytes bs) ok read in
    let (i, u) =
      found_user c1.user
        (sym flag ∙ sym (Answering-flag sent) ∙ write_run-goes_on c2 c3 s ok' on) in
    (
      read_run-Accepted c0 c c1 users users' reads bs ok b waited read,
      (
        i,
        write_run-user c2 c3 s ok' on ∙ Answering-user sent ∙ u,
        log_in-Found c1.auth.u_name c1.auth.passwd users (logged ∙ ap (λ k. some (k, users')) u),
      ),
    )
