-- ===== src/Socks5/Relay/Senders.antt =====
-- The two states of a relay that send: what is sent and what is left make up what there was.
use protos.Base.{
  ℕ, ◌≤◌, true, false, List, [], ◌++◌, Option, none, some, ◌≡◌, ◌≢◌, refl, sym, ap, ◌∙◌, arith, inl,
  inr, take-append-drop, append_assoc, append-nil, Bool-cases, length, take, drop,
}
use mathlib.Core.Path.{subst}
use protos.Base.Fallible.{◌>>=◌}
use protos.Base.Int.{pos}
use protos.Buffer
use protos.Buffer.{ArrayBuffer}
use protos.Buffer.Inv.{IsValid}
use protos.Buffer.Contents.{contents, read_adv-Took, read_byte-empty}
use protos.Socks5.{ConnectionState, Sent, wrote, Connection, Step}
use protos.Socks5.Relay.{
  Answers, remote_write_run, client_write_run, remote_written, client_written, with_interests,
}

-- The step behind a send.
abbrev pub sent : ConnectionState → Connection → ArrayBuffer → Step
sent sending c w = some (sending, record c { write_buffer = w })

-- A state of the relay that sends: how its handler acts on a readable buffer and on an empty one.
pub record Sender (run : Connection → Sent → Answers → Step) (sending : ConnectionState)
    : Type 0 where
  pub sends :
      (c : Connection) (n : ℕ) (a : Answers) (c' : Connection)
      → Buffer.can_read c.write_buffer ≡ true
      → run c (wrote n) a ≡ some (sending, c')
      → (Buffer.read_adv c.write_buffer (pos n) >>= sent sending c) ≡ some (sending, c')
  pub idles :
      (c : Connection) (s : Sent) (a : Answers) (c' : Connection)
      → Buffer.can_read c.write_buffer ≡ false
      → run c s a ≢ some (sending, c')
  pub ends :
      (c : Connection) (s : Sent) (a : Answers) (c' : Connection)
      → run c s a ≡ some (ConnectionState.connected, c')
      → Buffer.can_read c.write_buffer ≡ false

remote-sends :
    (c : Connection) (n : ℕ) (a : Answers) (c' : Connection)
    → Buffer.can_read c.write_buffer ≡ true
    → remote_write_run c (wrote n) a ≡ some (ConnectionState.remote_write, c')
    → (Buffer.read_adv c.write_buffer (pos n) >>= sent ConnectionState.remote_write c)
      ≡ some (ConnectionState.remote_write, c')
unfolding remote_write_run Buffer.read_ptr Buffer.can_read
remote-sends c n a c' h r = ground arith

remote-idles :
    (c : Connection) (s : Sent) (a : Answers) (c' : Connection)
    → Buffer.can_read c.write_buffer ≡ false
    → remote_write_run c s a ≢ some (ConnectionState.remote_write, c')
unfolding remote_write_run remote_written with_interests
remote-idles c s a c' h = ground arith

remote-ends :
    (c : Connection) (s : Sent) (a : Answers) (c' : Connection)
    → remote_write_run c s a ≡ some (ConnectionState.connected, c')
    → Buffer.can_read c.write_buffer ≡ false
unfolding remote_write_run
remote-ends c s a c' h = ground arith

client-sends :
    (c : Connection) (n : ℕ) (a : Answers) (c' : Connection)
    → Buffer.can_read c.write_buffer ≡ true
    → client_write_run c (wrote n) a ≡ some (ConnectionState.client_write, c')
    → (Buffer.read_adv c.write_buffer (pos n) >>= sent ConnectionState.client_write c)
      ≡ some (ConnectionState.client_write, c')
unfolding client_write_run Buffer.read_ptr Buffer.can_read
client-sends c n a c' h r = ground arith

client-idles :
    (c : Connection) (s : Sent) (a : Answers) (c' : Connection)
    → Buffer.can_read c.write_buffer ≡ false
    → client_write_run c s a ≢ some (ConnectionState.client_write, c')
unfolding client_write_run client_written with_interests
client-idles c s a c' h = ground arith

client-ends :
    (c : Connection) (s : Sent) (a : Answers) (c' : Connection)
    → client_write_run c s a ≡ some (ConnectionState.connected, c')
    → Buffer.can_read c.write_buffer ≡ false
unfolding client_write_run
client-ends c s a c' h = ground arith

pub remote-Sender : Sender remote_write_run ConnectionState.remote_write
remote-Sender = record { sends = remote-sends; idles = remote-idles; ends = remote-ends }

pub client-Sender : Sender client_write_run ConnectionState.client_write
client-Sender = record { sends = client-sends; idles = client-idles; ends = client-ends }

-- The handler is run again and again in the state that sends, and the socket takes these bytes.
pub data Sends (run : Connection → Sent → Answers → Step) (sending : ConnectionState)
    : Connection → List ℕ → Connection → Type 0 where
  nothing : {c : Connection} → Sends run sending c [] c
  more :
      {c c' c'' : Connection} {out : List ℕ} (n : ℕ) (a : Answers)
      → n ≤ length (contents c.write_buffer)
      → run c (wrote n) a ≡ some (sending, c')
      → Sends run sending c' out c''
      → Sends run sending c (take n (contents c.write_buffer) ++ out) c''

module _ {run : Connection → Sent → Answers → Step} {sending : ConnectionState}
    (sender : Sender run sending) where
  advanced-same :
      (c : Connection) {c' : Connection} (m : Option ArrayBuffer) {b : ArrayBuffer}
      → m ≡ some b
      → m >>= sent sending c ≡ some (sending, c')
      → record c { write_buffer = b } ≡ c'
  advanced-same c none e h = cc
  advanced-same c (some w) e h = cc

  -- One send takes the bytes off the front.
  send-drops :
      (c c' : Connection) (n : ℕ) (a : Answers)
      → IsValid c.write_buffer
      → n ≤ length (contents c.write_buffer)
      → run c (wrote n) a ≡ some (sending, c')
      → IsValid c'.write_buffer × (contents c'.write_buffer ≡ drop n (contents c.write_buffer))
  send-drops c c' n a v fits r = elim (Bool-cases (Buffer.can_read c.write_buffer)) [
    | inl readable ↦
        let (b', e, took) = read_adv-Took v n fits in
        let same : record c { write_buffer = b' } ≡ c' =
          advanced-same c (Buffer.read_adv c.write_buffer (pos n)) e
            (sender.sends c n a c' readable r) in
        subst
          (λ d.
            IsValid d.write_buffer × (contents d.write_buffer ≡ drop n (contents c.write_buffer)))
          same (took.valid, took.holds)
    | inr empty ↦ absurd (sender.idles c (wrote n) a c' empty r)
  ]

  -- What is sent and what is left make up what there was.
  pub Sends-contents :
      {c c' : Connection} {out : List ℕ}
      → IsValid c.write_buffer
      → Sends run sending c out c'
      → IsValid c'.write_buffer × (out ++ contents c'.write_buffer ≡ contents c.write_buffer)
  Sends-contents v nothing = (v, refl)
  Sends-contents v (more {c} {c'} {c''} {out} n a fits r rest) =
      let (v', dropped) = send-drops c c' n a v fits r in
      let (v'', kept) = Sends-contents v' rest in
      (
        v'',
        append_assoc (take n (contents c.write_buffer)) out (contents c''.write_buffer)
            ∙ ap (λ l. take n (contents c.write_buffer) ++ l) (kept ∙ dropped)
            ∙ take-append-drop n (contents c.write_buffer),
      )

  -- A run of the handler that goes on to be connected leaves nothing unsent.
  pub ended-nothing :
      {c c' : Connection} (s : Sent) (a : Answers)
      → IsValid c.write_buffer
      → run c s a ≡ some (ConnectionState.connected, c')
      → contents c.write_buffer ≡ []
  ended-nothing {c} {c'} s a v r = (read_byte-empty v (sender.ends c s a c' r)).1

  -- Nothing is lost or reordered when the sender has come to its end.
  pub all_sent :
      (out : List ℕ) (c1 c2 c3 : Connection) (s : Sent) (a : Answers)
      → IsValid c1.write_buffer
      → Sends run sending c1 out c2
      → run c2 s a ≡ some (ConnectionState.connected, c3)
      → out ≡ contents c1.write_buffer
  all_sent out c1 c2 c3 s a v sends r =
      let (v2, kept) = Sends-contents v sends in
      sym (append-nil out) ∙ ap (λ l. out ++ l) (sym (ended-nothing s a v2 r)) ∙ kept
