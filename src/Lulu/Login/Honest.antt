-- ===== src/Lulu/Login/Honest.antt =====
-- What the reading handler of the login keeps.
use protos.Base.{
  ℕ, ◌≤◌, Bool, true, false, List, [], Option, none, some, ◌≡◌, refl, arith, not, if◌then◌else◌,
}
use protos.Base.Fallible.{◌>>=◌}
use protos.Buffer
use protos.Buffer.{ArrayBuffer}
use protos.Lulu.Hello
use protos.Lulu.Hello.{HelloParser}
use protos.Lulu.Connection.{
  LuluState, LuluConnection, Turn, run_command, run_unknown, reply, answer, ends_line, set_interest,
}
use protos.Lulu.Messages.{Server, Reply}
use protos.Lulu.Login.{log_in, is_found, log_in_parsed}
use protos.Lulu.Login.Admission.{HelloRead, IsHonest, passed-IsHonest, log_in-IsFirst}
use protos.Socks5.{Interest}
use protos.Users.{User}

abbrev pub emptied : LuluConnection → LuluConnection
emptied c = record c { read_buffer = Buffer.reset c.read_buffer }

-- `reads` is what was received before a turn, and `all` what was received with its bytes.
module _ (users : List User) (reads all : List (List ℕ)) where
  -- Every connection that a turn may leave is honest. A parser that gives way leaves the bytes to
  -- the next.
  abbrev pub Keeps : Turn → Type 0
  Keeps none = Unit
  Keeps (some (none, c, s)) = IsHonest users reads all c
  Keeps (some (some state, c, s)) = IsHonest users all all c

  pub Keeps-then :
      {A : Type 0} (m : Option A) (f : A → Turn) → ((a : A) → Keeps (f a)) → Keeps (m >>= f)
  Keeps-then none f h = tt
  Keeps-then (some a) f h = h a

  pub Keeps-after :
      {A : Type 0} (m : Option A) (f : A → Turn)
      → ((a : A) → m ≡ some a → Keeps (f a))
      → Keeps (m >>= f)
  Keeps-after none f h = tt
  Keeps-after (some a) f h = h a refl

  pub reply-Keeps :
      (next : LuluState) (c : LuluConnection) (build : ℕ → Reply)
      → IsHonest users all all c
      → Keeps (reply next c build)
  unfolding reply
  reply-Keeps next c build h = Keeps-then (answer c.write_buffer build) _ (λ r. queued r.0 r.1)
    where
      queued :
          (w : Option ArrayBuffer) (s : Server)
          → Keeps (
              some (elim w [
                | none ↦ (some LuluState.error, c, s)
                | some b ↦ (some next, record c { write_buffer = b }, s)
              ]))
      queued none s = h
      queued (some b) s = h

  pub run_command-Keeps :
      (waiting next : LuluState) (c : LuluConnection) (s : Server) (finished failed ok : Bool)
      (build : ℕ → Reply)
      → IsHonest users reads all c
      → c.parser_index ≡ 1
      → Keeps (run_command waiting next c s finished failed ok build)
  unfolding run_command set_interest
  run_command-Keeps waiting next c s finished failed ok build h l =
      decided finished failed ok (passed-IsHonest c (omega arith) h)
    where
      decided :
          (finished failed ok : Bool)
          → IsHonest users all all c
          → Keeps (run_command waiting next c s finished failed ok build)
      decided false failed ok k = k
      decided true true ok k = (omega arith, k.1, λ e. absurd (omega arith))
      decided true false true k = reply-Keeps next _ build k
      decided true false false k = k

  pub run_unknown-Keeps :
      (waiting next : LuluState) (c : LuluConnection) (s : Server) (from n : ℕ) (ok : Bool)
      (build : ℕ → Reply)
      → IsHonest users all all c
      → Keeps (run_unknown waiting next c s from n ok build)
  unfolding run_unknown set_interest
  run_unknown-Keeps waiting next c s from n ok build h =
      Keeps-then (ends_line c.read_buffer.data_bytes from n) _ (λ ended. line ended ok)
    where
      line :
          (ended accepted : Bool)
          → Keeps (
              if not ended
              then some (some waiting, emptied c, s)
              else if accepted
              then reply next (set_interest Interest.write (emptied c) accepted) build
              else some (some LuluState.error, emptied c, s))
      line false accepted = h
      line true true = reply-Keeps next _ build h
      line true false = h

  -- The flag of the login is set exactly when a user is found.
  flag-IsHonest :
      (c : LuluConnection) (found : Option ℕ)
      → log_in c.hello.text.u_name c.hello.text.passwd users ≡ some found
      → c.parser_index ≤ 2
      → HelloRead all c.hello
      → c.hello.state ≡ Hello.State.finished
      → IsHonest users all all (record c { user = found; client_hello_succeeded = is_found found })
  flag-IsHonest c none e l read done = (l, (λ k. cc), λ z. read)
  flag-IsHonest c (some i) e l read done = (
    l,
    (λ k. record {
      later = [];
      sent = all;
      among = refl;
      parser = c.hello;
      read = read;
      accepted = done;
      index = i;
      user = refl;
      first = log_in-IsFirst c.hello.text.u_name c.hello.text.passwd users e;
    }),
    λ z. read,
  )

  pub log_in_parsed-Keeps :
      (c : LuluConnection) (f : LuluConnection → Turn)
      → c.parser_index ≤ 2
      → HelloRead all c.hello
      → c.hello.state ≡ Hello.State.finished
      → ((d : LuluConnection) → IsHonest users all all d → Keeps (f d))
      → Keeps (log_in_parsed users c >>= f)
  unfolding log_in_parsed
  log_in_parsed-Keeps c f l read done k =
      found (log_in c.hello.text.u_name c.hello.text.passwd users) refl
    where
      found :
          (m : Option (Option ℕ))
          → log_in c.hello.text.u_name c.hello.text.passwd users ≡ m
          → Keeps
              ((m >>= λ i. some (record c { user = i; client_hello_succeeded = is_found i })) >>= f)
      found none e = tt
      found (some i) e =
          k (record c { user = i; client_hello_succeeded = is_found i })
            (flag-IsHonest c i e l read done)
