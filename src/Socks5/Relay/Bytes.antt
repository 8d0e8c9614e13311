-- ===== src/Socks5/Relay/Bytes.antt =====
-- The bytes that a relay sends are those that it received, in order.
use protos.Base.{
  ℕ, ◌+◌, ◌≤◌, Bool, true, false, List, [], ◌∷◌, ◌++◌, Option, some, ◌≡◌, refl, sym, ap, ◌∙◌, arith,
  length,
}
use mathlib.Core.Path.{subst}
use protos.Base.Fallible.{>>=-eq-some}
use protos.Buffer
use protos.Buffer.{ArrayBuffer}
use protos.Buffer.Inv.{IsValid, reset-IsValid}
use protos.Buffer.Contents.{contents, read_byte-empty}
use protos.Socks5.{ConnectionState, Interest, bytes, Sent, Connection, receive}
use protos.Socks5.Relay.{
  Answers, client_read_run, remote_read_run, remote_write_run, client_write_run, reset_buffers,
  scan, register_bytes, with_interests,
}
use protos.Socks5.Filling.{filled, filled-IsValid, contents-filled, receive_lem}
use protos.Socks5.Relay.Senders.{Sends, all_sent, remote-Sender, client-Sender}

not_readable : (b : ArrayBuffer) → IsValid b → b.write_head ≡ 0 → Buffer.can_read b ≡ false
unfolding Buffer.can_read
not_readable b v h = ground (arith, v.ordered)

received :
    (b : ArrayBuffer) (bs : List ℕ)
    → IsValid b
    → b.write_head ≡ 0
    → length bs ≤ b.size
    → (b' : ArrayBuffer) × (receive b bs ≡ some b') × IsValid b' × (contents b' ≡ bs)
received b bs v h k =
    let fits : b.write_head + length bs ≤ b.size = omega (arith, h, k) in
    (
      filled v bs fits,
      receive_lem v bs fits,
      filled-IsValid v bs fits,
      contents-filled v bs fits ∙ ap (λ l. l ++ bs) (read_byte-empty v (not_readable b v h)).1,
    )

with_interests-write_buffer :
    (i j : Interest) (ok : Bool) (a : Answers) (next st : ConnectionState) (c c' : Connection)
    → some (with_interests i j ok a next c) ≡ some (st, c')
    → c'.write_buffer ≡ c.write_buffer
unfolding with_interests
with_interests-write_buffer i j ok a next st c c' h = ground arith

scan-write_buffer :
    (detects : Bool) (bs : List ℕ) (c c' : Connection)
    → scan detects bs c ≡ some c'
    → c'.write_buffer ≡ c.write_buffer
unfolding scan
scan-write_buffer detects bs c c' h = ground arith

abbrev Holding : List ℕ → Connection → Type 0
Holding bs c = IsValid c.write_buffer × (contents c.write_buffer ≡ bs)

holding :
    {b : ArrayBuffer} {bs : List ℕ} (c : Connection)
    → c.write_buffer ≡ b
    → IsValid b
    → contents b ≡ bs
    → Holding bs c
holding {b} {bs} c e v h = subst (λ w. IsValid w × (contents w ≡ bs)) (sym e) (v, h)

-- Two results of one computation.
same_result : {m : Option ArrayBuffer} {b b' : ArrayBuffer} → m ≡ some b → m ≡ some b' → b' ≡ b
same_result h k = cc

module _ (c : Connection) (v : IsValid c.write_buffer) where
  emptied : contents (Buffer.reset c.write_buffer) ≡ []
  unfolding Buffer.reset
  emptied = refl

  client_read-Holding :
      (detects : Bool) (bs : List ℕ) (a : Answers) {st : ConnectionState} {c' : Connection}
      → length bs ≤ c.write_buffer.size
      → client_read_run (reset_buffers c) detects (bytes bs) a ≡ some (st, c')
      → Holding bs c'
  unfolding client_read_run reset_buffers Buffer.reset register_bytes
  client_read-Holding detects [] a {st} {c'} fits r =
      let (room, _, f) = >>=-eq-some (Buffer.write_ptr (Buffer.reset c.write_buffer)) _ r in
      holding c' (with_interests-write_buffer _ _ _ a _ st _ c' f) (reset-IsValid v) emptied
  client_read-Holding detects (x ∷ bs) a {st} {c'} fits r =
      let (b, e, v', k) =
        received (Buffer.reset c.write_buffer) (x ∷ bs) (reset-IsValid v) refl fits in
      let (b', e', f) = >>=-eq-some (receive (Buffer.reset c.write_buffer) (x ∷ bs)) _ r in
      let (c1, scanned, g) = >>=-eq-some (scan detects (x ∷ bs) _) _ f in
      holding c'
        (with_interests-write_buffer Interest.noop Interest.write true a
            ConnectionState.remote_write st c1 c' g
          ∙ scan-write_buffer detects (x ∷ bs)
              (register_bytes (length (x ∷ bs)) (record (reset_buffers c) { write_buffer = b' })) c1
              scanned
          ∙ same_result e e')
        v' k

  remote_read-Holding :
      (bs : List ℕ) (a : Answers) {st : ConnectionState} {c' : Connection}
      → length bs ≤ c.write_buffer.size
      → remote_read_run (reset_buffers c) (bytes bs) a ≡ some (st, c')
      → Holding bs c'
  unfolding remote_read_run reset_buffers Buffer.reset register_bytes
  remote_read-Holding [] a {st} {c'} fits r =
      let (room, _, f) = >>=-eq-some (Buffer.write_ptr (Buffer.reset c.write_buffer)) _ r in
      holding c' (with_interests-write_buffer _ _ _ a _ st _ c' f) (reset-IsValid v) emptied
  remote_read-Holding (x ∷ bs) a {st} {c'} fits r =
      let (b, e, v', k) =
        received (Buffer.reset c.write_buffer) (x ∷ bs) (reset-IsValid v) refl fits in
      let (b', e', f) = >>=-eq-some (receive (Buffer.reset c.write_buffer) (x ∷ bs)) _ r in
      holding c'
        (with_interests-write_buffer Interest.write Interest.noop true a
            ConnectionState.client_write st
            (register_bytes (length (x ∷ bs)) (record (reset_buffers c) { write_buffer = b' })) c' f
          ∙ same_result e e')
        v' k

  -- When the relay from the client is back in `connected`, after `ClientReadInit` and
  -- `ClientReadRun` received `bs` into a valid buffer that has room for it, and after
  -- `RemoteWriteRun` was run for any number of sends that each take some of the bytes offered, the
  -- bytes sent to the remote host are exactly `bs`, in order.
  pub client_bytes_reach_remote :
      (detects : Bool) (bs out : List ℕ) (a a' : Answers) (s : Sent) {st : ConnectionState}
      {c1 c2 c3 : Connection}
      → length bs ≤ c.write_buffer.size
      → client_read_run (reset_buffers c) detects (bytes bs) a ≡ some (st, c1)
      → Sends remote_write_run ConnectionState.remote_write c1 out c2
      → remote_write_run c2 s a' ≡ some (ConnectionState.connected, c3)
      → out ≡ bs
  client_bytes_reach_remote detects bs out a a' s fits r sent done =
      let held = client_read-Holding detects bs a fits r in
      all_sent remote-Sender out _ _ _ s a' held.0 sent done ∙ held.1

  -- When the relay from the remote host is back in `connected`, after `RemoteReadInit` and
  -- `RemoteReadRun` received `bs` into a valid buffer that has room for it, and after
  -- `ClientWriteRun` was run for any number of sends that each take some of the bytes offered, the
  -- bytes sent to the client are exactly `bs`, in order.
  pub remote_bytes_reach_client :
      (bs out : List ℕ) (a a' : Answers) (s : Sent) {st : ConnectionState} {c1 c2 c3 : Connection}
      → length bs ≤ c.write_buffer.size
      → remote_read_run (reset_buffers c) (bytes bs) a ≡ some (st, c1)
      → Sends client_write_run ConnectionState.client_write c1 out c2
      → client_write_run c2 s a' ≡ some (ConnectionState.connected, c3)
      → out ≡ bs
  remote_bytes_reach_client bs out a a' s fits r sent done =
      let held = remote_read-Holding bs a fits r in
      all_sent client-Sender out _ _ _ s a' held.0 sent done ∙ held.1
