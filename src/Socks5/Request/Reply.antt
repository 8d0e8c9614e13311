-- ===== src/Socks5/Request/Reply.antt =====
-- The reply reaches the client whole before the relay starts.
use protos.Base.{
  ℕ, ◌+◌, ◌-◌, ◌≤◌, true, false, List, [], ◌∷◌, ◌++◌, some, ◌≡◌, ◌≢◌, refl, sym, ap, ◌∙◌, arith,
}
use mathlib.Core.Path.{subst}
use protos.Base.Fallible.{◌>>=◌}
use protos.Base.Int.{ℤ, pos, negsuc}
use protos.Buffer
use protos.Buffer.{ArrayBuffer}
use protos.Buffer.Inv.{IsValid}
use protos.Buffer.Contents.{contents}
use protos.Socks5.{ConnectionState, Sent, wrote, Connection, fill}
use protos.Socks5.Filling.{filled, filled-IsValid, contents-filled}
use protos.Socks5.Messages.{build_request_response, to_byte}
use protos.Socks5.Relay.{Answers}
use protos.Socks5.Relay.Senders.{Sender, Sends, all_sent, sent}
use protos.Socks5.Request.{is_succeeded, write_init, written, write_run}

reply-sends :
    (c : Connection) (n : ℕ) (a : Answers) (c' : Connection)
    → Buffer.can_read c.write_buffer ≡ true
    → write_run c (wrote n) a ≡ some (ConnectionState.request_write, c')
    → (Buffer.read_adv c.write_buffer (pos n) >>= sent ConnectionState.request_write c)
      ≡ some (ConnectionState.request_write, c')
unfolding write_run Buffer.read_ptr Buffer.can_read
reply-sends c n a c' h r = ground arith

reply-idles :
    (c : Connection) (s : Sent) (a : Answers) (c' : Connection)
    → Buffer.can_read c.write_buffer ≡ false
    → write_run c s a ≢ some (ConnectionState.request_write, c')
unfolding write_run written
reply-idles c s a c' h = ground arith

reply-ends :
    (c : Connection) (s : Sent) (a : Answers) (c' : Connection)
    → write_run c s a ≡ some (ConnectionState.connected, c')
    → Buffer.can_read c.write_buffer ≡ false
unfolding write_run
reply-ends c s a c' h = ground arith

reply-Sender : Sender write_run ConnectionState.request_write
reply-Sender = record { sends = reply-sends; idles = reply-idles; ends = reply-ends }

-- The connection is only entered with the reply "succeeded".
write_run-succeeded :
    (c : Connection) (s : Sent) (a : Answers) (c' : Connection)
    → write_run c s a ≡ some (ConnectionState.connected, c')
    → is_succeeded c.command ≡ true
unfolding write_run written
write_run-succeeded c s a c' h = ground arith

write_run-command :
    (c : Connection) (n : ℕ) (a : Answers) (c' : Connection)
    → write_run c (wrote n) a ≡ some (ConnectionState.request_write, c')
    → c'.command ≡ c.command
unfolding write_run written
write_run-command c n a c' h = ground arith

Sends-command :
    {c c' : Connection} {out : List ℕ}
    → Sends write_run ConnectionState.request_write c out c'
    → c'.command ≡ c.command
Sends-command Sends.nothing = refl
Sends-command (Sends.more {c} {c'} n a fits r rest) =
    Sends-command rest ∙ write_run-command c n a c' r

succeeded_pos : (k : ℤ) → is_succeeded k ≡ true → k ≡ pos 0
unfolding is_succeeded
succeeded_pos (pos n) h = ap pos (ground arith)
succeeded_pos (negsuc n) h = absurd (ground arith)

-- The reply for a code, with the address 0.0.0.0 and the port 0.
abbrev pub reply : ℤ → List ℕ
reply code = 0x05 ∷ to_byte code ∷ 0 ∷ 0x01 ∷ 0 ∷ 0 ∷ 0 ∷ 0 ∷ 0 ∷ 0 ∷ []

build_request_response-room :
    (room : ℕ) (code : ℤ) → 10 ≤ room → build_request_response room code ≡ reply code
unfolding build_request_response
build_request_response-room room code h = ground arith

module _ (c : Connection) (v : IsValid c.write_buffer)
    (room : c.write_buffer.write_head + 10 ≤ c.write_buffer.size) where
  room_left :
      Buffer.write_ptr c.write_buffer ≡ some (c.write_buffer.size - c.write_buffer.write_head)
  unfolding Buffer.write_ptr
  room_left = ground (arith, v.inside)

  advanced_reply :
      Buffer.write_adv (fill c.write_buffer (reply c.command)) (pos 10)
      ≡ some (filled v (reply c.command) room)
  unfolding Buffer.write_adv fill
  advanced_reply = ground arith

  write_init-filled :
      write_init c ≡ some (record c { write_buffer = filled v (reply c.command) room })
  unfolding write_init
  write_init-filled =
      let built =
        build_request_response-room (c.write_buffer.size - c.write_buffer.write_head) c.command
          (omega (arith, room)) in
      rw (room_left, built, advanced_reply) refl

-- `RequestWriteInit` on a valid buffer that is empty and has room for ten bytes builds the reply.
-- When `RequestWriteRun` is then run for any number of sends that each take some of the bytes
-- offered, and goes on to `connected`: the reply code was "succeeded", and the bytes sent to the
-- client are exactly the version 5, that code, a zero byte, the address type of IPv4, and the
-- address and port zero.
pub reply_reaches_client :
    (c c1 c2 c3 : Connection) (out : List ℕ) (s : Sent) (a : Answers)
    → IsValid c.write_buffer
    → contents c.write_buffer ≡ []
    → c.write_buffer.write_head + 10 ≤ c.write_buffer.size
    → write_init c ≡ some c1
    → Sends write_run ConnectionState.request_write c1 out c2
    → write_run c2 s a ≡ some (ConnectionState.connected, c3)
    → (c.command ≡ pos 0) × (out ≡ 0x05 ∷ 0 ∷ 0 ∷ 0x01 ∷ 0 ∷ 0 ∷ 0 ∷ 0 ∷ 0 ∷ 0 ∷ [])
unfolding to_byte
reply_reaches_client c c1 c2 c3 out s a v empty room built sends on =
    let same : record c { write_buffer = filled v (reply c.command) room } ≡ c1 =
      ground (arith, write_init-filled c v room) in
    let held : c1.write_buffer ≡ filled v (reply c.command) room =
      ap (λ d. d.write_buffer) (sym same) in
    let all : out ≡ contents c1.write_buffer =
      all_sent reply-Sender out c1 c2 c3 s a (subst IsValid (sym held) (filled-IsValid v _ room))
        sends on in
    let code : c.command ≡ pos 0 =
      ap (λ d. d.command) same
      ∙ sym (Sends-command sends)
      ∙ succeeded_pos c2.command (write_run-succeeded c2 s a c3 on) in
    (
      code,
      all
          ∙ ap contents held
          ∙ contents-filled v (reply c.command) room
          ∙ ap (λ l. l ++ reply c.command) empty
          ∙ ap reply code,
    )
