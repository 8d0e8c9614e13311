-- ===== src/Socks5/Relay/Completion.antt =====
-- A relay comes back to `connected`.
use protos.Base.{ℕ, ◌<◌, true, false, some, ◌≡◌, ap, ◌∙◌, arith, length}
use protos.Base.Int.{pos}
use protos.Buffer
use protos.Buffer.{ArrayBuffer}
use protos.Buffer.Inv.{IsValid}
use protos.Buffer.Contents.{contents, read_adv-Took}
use protos.Socks5.{ConnectionState, Sent, wrote, Connection}
use protos.Socks5.Filling.{readable, unreadable, drop-length}
use protos.Socks5.Relay.{
  Answers, remote_write_run, client_write_run, remote_written, client_written, with_interests,
}

remote_write_run-sends :
    (c : Connection) (n : ℕ) (a : Answers) {w : ArrayBuffer}
    → Buffer.can_read c.write_buffer ≡ true
    → Buffer.read_adv c.write_buffer (pos n) ≡ some w
    → remote_write_run c (wrote n) a
      ≡ some (ConnectionState.remote_write, record c { write_buffer = w })
unfolding remote_write_run Buffer.read_ptr Buffer.can_read
remote_write_run-sends c n a h e = ground arith

client_write_run-sends :
    (c : Connection) (n : ℕ) (a : Answers) {w : ArrayBuffer}
    → Buffer.can_read c.write_buffer ≡ true
    → Buffer.read_adv c.write_buffer (pos n) ≡ some w
    → client_write_run c (wrote n) a
      ≡ some (ConnectionState.client_write, record c { write_buffer = w })
unfolding client_write_run Buffer.read_ptr Buffer.can_read
client_write_run-sends c n a h e = ground arith

-- The interests are accepted.
abbrev pub IsAccepted : Answers → Type 0
IsAccepted a = (a.client_set ≡ true) × (a.remote_set ≡ true)

remote_write_run-written :
    (c : Connection) (s : Sent) (a : Answers)
    → Buffer.can_read c.write_buffer ≡ false
    → remote_write_run c s a ≡ some (remote_written c a)
unfolding remote_write_run
remote_write_run-written c s a h = ground arith

remote_written-connected :
    (c : Connection) (a : Answers)
    → c.client.can_read ≡ true
    → IsAccepted a
    → (remote_written c a).0 ≡ ConnectionState.connected
unfolding remote_written with_interests
remote_written-connected c a h k = ground arith

client_write_run-written :
    (c : Connection) (s : Sent) (a : Answers)
    → Buffer.can_read c.write_buffer ≡ false
    → client_write_run c s a ≡ some (client_written c a)
unfolding client_write_run
client_write_run-written c s a h = ground arith

client_written-connected :
    (c : Connection) (a : Answers)
    → c.remote.can_read ≡ true
    → IsAccepted a
    → (client_written c a).0 ≡ ConnectionState.connected
unfolding client_written with_interests
client_written-connected c a h k = ground arith

module _ (c : Connection) (s : Sent) (a a' : Answers) (v : IsValid c.write_buffer)
    (some_left : 0 < length (contents c.write_buffer)) (accepted : IsAccepted a') where
  -- With something to send in a valid buffer, the other side still open and the interests accepted:
  -- when the socket takes all the bytes, `RemoteWriteRun` stays in its state, and its next run goes
  -- on to `connected`; and so does `ClientWriteRun`.
  pub relay_completes :
      c.client.can_read ≡ true
      → c.remote.can_read ≡ true
      → ((c' : Connection) × (remote_write_run c (wrote (length (contents c.write_buffer))) a
            ≡ some (ConnectionState.remote_write, c'))
          × (remote_write_run c' s a' ≡ some (remote_written c' a'))
          × ((remote_written c' a').0 ≡ ConnectionState.connected))
        × (c' : Connection) × (client_write_run c (wrote (length (contents c.write_buffer))) a
            ≡ some (ConnectionState.client_write, c'))
        × (client_write_run c' s a' ≡ some (client_written c' a'))
        × ((client_written c' a').0 ≡ ConnectionState.connected)
  relay_completes client_open remote_open =
      let n = length (contents c.write_buffer) in
      let (w, e, took) = read_adv-Took v n (omega arith) in
      let none_left : length (contents w) ≡ 0 =
        ap length took.holds ∙ drop-length (contents c.write_buffer) in
      let sent = record c { write_buffer = w } in
      let empty = unreadable took.valid none_left in
      (
        (
          sent,
          remote_write_run-sends c n a (readable v some_left) e,
          remote_write_run-written sent s a' empty,
          remote_written-connected sent a' client_open accepted,
        ),
        sent,
        client_write_run-sends c n a (readable v some_left) e,
        client_write_run-written sent s a' empty,
        client_written-connected sent a' remote_open accepted,
      )
