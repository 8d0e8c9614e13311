-- ===== src/Socks5/Hello/Refusal.antt =====
-- What follows the answer that no method is acceptable.
use protos.Base.{ℕ, ◌<◌, Bool, true, false, some, ◌≡◌, ap, ◌∙◌, arith, length}
use protos.Base.Int.{pos}
use protos.Buffer
use protos.Buffer.{ArrayBuffer}
use protos.Buffer.Inv.{IsValid}
use protos.Buffer.Contents.{contents, read_adv-Took}
use protos.Socks5.{ConnectionState, Interest, Sent, wrote, Connection, set_client}
use protos.Socks5.Filling.{readable, unreadable, drop-length}
use protos.Socks5.Hello.{auth_invalid, write_run}

write_run-sends :
    (c : Connection) (n : ℕ) (ok : Bool) {w : ArrayBuffer}
    → Buffer.can_read c.write_buffer ≡ true
    → Buffer.read_adv c.write_buffer (pos n) ≡ some w
    → write_run c (wrote n) ok ≡ some (ConnectionState.hello_write, record c { write_buffer = w })
unfolding write_run Buffer.read_ptr Buffer.can_read
write_run-sends c n ok h e = ground arith

write_run-refused :
    (c : Connection) (s : Sent)
    → Buffer.can_read c.write_buffer ≡ false
    → c.authentication_method ≡ auth_invalid
    → write_run c s true ≡ some (ConnectionState.request_read, set_client Interest.read c true)
unfolding write_run
write_run-refused c s h e = ground arith

-- A connection whose method is 0xFF, no acceptable method, with an answer left to send: when
-- `HelloWriteRun` has sent all of it, its next run, if the selector accepts the interest, goes on
-- to read a request, as for a client that needs no authentication.
pub refusal_goes_on :
    (c : Connection) (s : Sent)
    → IsValid c.write_buffer
    → 0 < length (contents c.write_buffer)
    → c.authentication_method ≡ auth_invalid
    → (c' : Connection) × (write_run c (wrote (length (contents c.write_buffer))) true
        ≡ some (ConnectionState.hello_write, c'))
      × (write_run c' s true
          ≡ some (ConnectionState.request_read, set_client Interest.read c' true))
refusal_goes_on c s v some_left method =
    let n = length (contents c.write_buffer) in
    let (w, e, took) = read_adv-Took v n (omega arith) in
    let done : length (contents w) ≡ 0 =
      ap length took.holds ∙ drop-length (contents c.write_buffer) in
    (
      record c { write_buffer = w },
      write_run-sends c n true (readable v some_left) e,
      write_run-refused (record c { write_buffer = w }) s (unreadable took.valid done) method,
    )
