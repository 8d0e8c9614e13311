-- ===== src/Lulu/Login/Safety.antt =====
-- That a command is only read from a client that has logged in.
use protos.Base.{
  ℕ, ◌≤◌, Bool, true, false, List, [], Option, none, some, ◌==◌, ◌≡◌, refl, arith, not,
  if◌then◌else◌,
}
use mathlib.Core.Path.{subst}
use protos.Base.{◌&&◌, ◌||◌}
use protos.Base.Int.{pos}
use protos.Base.Fallible.{◌>>=◌}
use protos.Buffer
use protos.Buffer.{ArrayBuffer}
use protos.Lulu.Connection.{LuluState, LuluConnection, set_interest}
use protos.Lulu.Messages.{Server}
use protos.Lulu.Transaction
use protos.Lulu.Transaction.{Loop, returned, left_range, exhausted}
use protos.Lulu.Login.{go_on, read_init, read_close, write_close, read_run, write_run}
use protos.Socks5.{Received, Sent, wrote, send_failed}
use protos.Users.{User}
use protos.Lulu.Hello
use protos.Lulu.Login.Admission.{started, IsLoggedIn, IsHonest}
use protos.Lulu.Login.Honest.{Keeps}
use protos.Lulu.Login.Reads.{heard, read_run-Keeps}

-- The connections that the machine reaches from its first state by any reads and writes, with the
-- handlers of departure and arrival called between two states, and what the client has sent by
-- then: its reads, the latest first. The transaction phase is reached at its arrival.
pub data Reached (users : List User)
    : LuluState → List (List ℕ) → LuluConnection → Server → Type 0 where
  begun : (c : LuluConnection) (s : Server) → Reached users LuluState.hello_read [] (read_init c) s
  read_on :
      {reads : List (List ℕ)} {c d : LuluConnection} {s t : Server} (r : Received) (ok : Bool)
      → Reached users LuluState.hello_read reads c s
      → read_run users c s r ok ≡ some (some LuluState.hello_read, d, t)
      → Reached users LuluState.hello_read (heard r reads) d t
  replied :
      {reads : List (List ℕ)} {c d : LuluConnection} {s t : Server} (r : Received) (ok : Bool)
      → Reached users LuluState.hello_read reads c s
      → read_run users c s r ok ≡ some (some LuluState.hello_write, d, t)
      → Reached users LuluState.hello_write (heard r reads) (read_close d) t
  wrote_on :
      {reads : List (List ℕ)} {c d : LuluConnection} {s : Server} (w : Sent) (ok : Bool)
      → Reached users LuluState.hello_write reads c s
      → write_run c w ok ≡ some (LuluState.hello_write, d)
      → Reached users LuluState.hello_write reads d s
  again :
      {reads : List (List ℕ)} {c d : LuluConnection} {s : Server} (w : Sent) (ok : Bool)
      → Reached users LuluState.hello_write reads c s
      → write_run c w ok ≡ some (LuluState.hello_read, d)
      → Reached users LuluState.hello_read reads (read_init (write_close d)) s
  admitted :
      {reads : List (List ℕ)} {c d : LuluConnection} {s : Server} (w : Sent) (ok : Bool)
      → Reached users LuluState.hello_write reads c s
      → write_run c w ok ≡ some (LuluState.transaction_read, d)
      → Reached users LuluState.transaction_read reads (Transaction.read_init (write_close d)) s

module _ (users : List User) (reads : List (List ℕ)) where
  -- What the writing handler leaves, and that it goes on to the commands only after a login.
  abbrev KeepsWrite : Option (LuluState × LuluConnection) → Type 0
  KeepsWrite none = Unit
  KeepsWrite (some (LuluState.transaction_read, c)) =
      IsHonest users reads reads c × IsLoggedIn users reads c.user
  KeepsWrite (some (state, c)) = IsHonest users reads reads c

  flag_set :
      (succeeded : Bool) (i : ℕ)
      → i ≤ 2
      → (not succeeded && i == 0 || i == 2) ≡ false
      → (i == 1) ≡ false
      → succeeded ≡ true
  flag_set succeeded i h e f = ground arith

  gone :
      (c : LuluConnection) (refused goodbye ok : Bool)
      → IsHonest users reads reads c
      → (refused ≡ false → goodbye ≡ false → c.client_hello_succeeded ≡ true)
      → KeepsWrite (
          some (
            if refused
            then go_on c ok LuluState.hello_read
            else if goodbye
            then (LuluState.done, c)
            else go_on c ok LuluState.transaction_read))
  unfolding go_on set_interest
  gone c true goodbye true h k = h
  gone c true goodbye false h k = h
  gone c false true ok h k = h
  gone c false false true h k = (h, h.1 (k refl refl))
  gone c false false false h k = h

  sent_on :
      (c : LuluConnection) (w : Sent) (readable : Option (List ℕ))
      → IsHonest users reads reads c
      → KeepsWrite (
          readable >>= λ r. elim w [
            | send_failed ↦ some (LuluState.error, c)
            | wrote n ↦ Buffer.read_adv c.write_buffer (pos n) >>= λ b.
                some (LuluState.hello_write, record c { write_buffer = b })
          ])
  sent_on c w none h = tt
  sent_on c send_failed (some r) h = h
  sent_on c (wrote n) (some r) h = advanced (Buffer.read_adv c.write_buffer (pos n))
    where
      advanced :
          (m : Option ArrayBuffer)
          → KeepsWrite (m >>= λ b. some (LuluState.hello_write, record c { write_buffer = b }))
      advanced none = tt
      advanced (some b) = h

  write_run-Keeps :
      (c : LuluConnection) (w : Sent) (ok : Bool)
      → IsHonest users reads reads c
      → KeepsWrite (write_run c w ok)
  unfolding write_run
  write_run-Keeps c w ok h =
      either (Buffer.can_read c.write_buffer) _ _
        (gone c (not c.client_hello_succeeded && c.parser_index == 0 || c.parser_index == 2)
          (c.parser_index == 1) ok h (flag_set c.client_hello_succeeded c.parser_index h.0))
        (sent_on c w (Buffer.read_ptr c.write_buffer) h)
    where
      either :
          (b : Bool) (m n : Option (LuluState × LuluConnection))
          → KeepsWrite m
          → KeepsWrite n
          → KeepsWrite (if not b then m else n)
      either true m n k l = l
      either false m n k l = k

module _ (users : List User) where
  Reached-IsHonest :
      (state : LuluState) (reads : List (List ℕ)) (c : LuluConnection) (s : Server)
      → Reached users state reads c s
      → KeepsWrite users reads (some (state, c))
  unfolding read_init read_close write_close Transaction.read_init Transaction.reset_parsers
  Reached-IsHonest state reads c s (begun d t) = (omega arith, (λ k. cc), λ z. started d.hello [])
  Reached-IsHonest state reads c s (read_on {reads = before} r ok h e) =
      subst (Keeps users before (heard r before)) e
        (read_run-Keeps users before _ _ r ok (Reached-IsHonest _ _ _ _ h))
  Reached-IsHonest state reads c s (replied {reads = before} {d = d} r ok h e) =
      let kept =
        subst (Keeps users before (heard r before)) e
          (read_run-Keeps users before _ _ r ok (Reached-IsHonest _ _ _ _ h)) in
      (kept.0, kept.1, λ z. started d.hello (heard r before))
  Reached-IsHonest state reads c s (wrote_on w ok h e) =
      subst (KeepsWrite users reads) e
        (write_run-Keeps users reads _ w ok (Reached-IsHonest _ _ _ _ h))
  Reached-IsHonest state reads c s (again {d = d} w ok h e) =
      (omega arith, (λ k. cc), λ z. started (Hello.reset d.hello) reads)
  Reached-IsHonest state reads c s (admitted {d = d} w ok h e) =
      let (honest, user) =
        subst (KeepsWrite users reads) e
          (write_run-Keeps users reads _ w ok (Reached-IsHonest _ _ _ _ h)) in
      ((omega arith, honest.1, λ z. started d.hello reads), user)

  -- However a client's bytes and the answers of its socket are ordered, a connection that comes to
  -- read a command has a user: the first in use whose name and password are those of a login's
  -- command that the parser has accepted, from a reset on, among the bytes that the client has
  -- sent.
  pub command_needs_user :
      (reads : List (List ℕ)) (c : LuluConnection) (s : Server)
      → Reached users LuluState.transaction_read reads c s
      → IsLoggedIn users reads c.user
  command_needs_user reads c s h = (Reached-IsHonest LuluState.transaction_read reads c s h).1
