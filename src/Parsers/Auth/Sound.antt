-- ===== src/Parsers/Auth/Sound.antt =====
-- Only messages of the subnegotiation's grammar are accepted.
use mathlib.Core.Path.{subst₃}
use protos.Base.{
  ℕ, zero, suc, ◌+◌, ◌<◌, ◌≢◌, List, [], ◌∷◌, ◌++◌, ◌≡◌, refl, sym, ap, ◌∙◌, arith, append_assoc,
  length, IsBytes, IsBytes-drop, ℕ_discrete,
}
use protos.Stream
use protos.Stream.Field.{Outcome, part, whole, Field-Outcome, resume-stopped}
use protos.Parsers.Auth.{AuthState, AuthParser, feed, has_finished, reset, machine, consume}
use protos.Parsers.Auth.Message.{
  auth_message, reading_name, read_name, reading_passwd, read_passwd, name-Field, passwd-Field,
  header, middle, Accepted, Accepted-read_passwd, length-auth_message,
}

module _ {count : ℕ} {p : AuthParser} where
  after_middle :
      (name : List ℕ) (n : ℕ) (cs : List ℕ)
      → (0 < length name) × (length name < 256)
      → 0 < n
      → n < 256
      → Outcome machine n (reading_passwd name n) (read_passwd name n) (2 + length name + 1) cs
      → Stream.consume_from machine (2 + length name + 1) (reading_passwd name n []) cs ≡ (count, p)
      → p.state ≡ AuthState.finished
      → Accepted (0x01 ∷ length name ∷ (name ++ n ∷ cs)) count p
  unfolding reading_passwd auth_message has_finished read_passwd
  after_middle name n cs h pos k (part _ e) run d = absurd (cc)
  after_middle name n cs h pos k (whole passwd rest e l r) run d =
      subst₃ Accepted bytes_eq (sym (ap (λ t. t.0) stopped ∙ total))
        (sym (ap (λ t. t.1) stopped ∙ same))
        (Accepted-read_passwd name passwd rest h (omega arith, omega arith))
    where
      stopped :
          ◌≡◌ {A = ℕ × AuthParser}
            (count, p)
            (2 + length name + 1 + length passwd, read_passwd name n passwd)
      stopped =
          sym run
          ∙ r
          ∙ resume-stopped machine (2 + length name + 1 + length passwd) (read_passwd name n passwd)
              rest refl

      total : 2 + length name + 1 + length passwd ≡ length (auth_message name passwd)
      total = sym (length-auth_message name passwd)

      same : read_passwd name n passwd ≡ read_passwd name (length passwd) passwd
      same = ap (λ k. read_passwd name k passwd) (sym l)

      bytes_eq : auth_message name passwd ++ rest ≡ 0x01 ∷ length name ∷ (name ++ n ∷ cs)
      bytes_eq =
          rw (e, ← l)
            (ap (λ t. 0x01 ∷ length name ∷ t) (append_assoc name (length passwd ∷ passwd) rest))

  after_name :
      (name after : List ℕ)
      → (0 < length name) × (length name < 256)
      → IsBytes after
      → Stream.resume machine (2 + length name) (read_name (length name) name) after ≡ (count, p)
      → p.state ≡ AuthState.finished
      → Accepted (0x01 ∷ length name ∷ (name ++ after)) count p
  unfolding Stream.resume has_finished read_name feed Stream.consume_from
  after_name name [] h b run d = absurd (cc)
  after_name name (zero ∷ cs) h b run d = absurd (ground arith)
  after_name name (suc n ∷ cs) h b run d =
      after_middle name (suc n) cs h (omega arith) b.0
        (Field-Outcome (passwd-Field name (suc n)) (2 + length name + 1) cs (omega arith))
        (sym (middle (2 + length name) name (suc n) cs (omega arith)) ∙ run) d

  named :
      (n : ℕ) (name after : List ℕ)
      → length name ≡ n
      → 0 < n
      → n < 256
      → IsBytes after
      → Stream.resume machine (2 + length name) (read_name n name) after ≡ (count, p)
      → p.state ≡ AuthState.finished
      → Accepted (0x01 ∷ n ∷ (name ++ after)) count p
  named n name after l = rw (← l) (λ pos h. after_name name after (pos, h))

  after_header :
      (n : ℕ) (cs : List ℕ)
      → 0 < n
      → n < 256
      → IsBytes cs
      → Outcome machine n (reading_name n) (read_name n) 2 cs
      → Stream.consume_from machine 2 (reading_name n []) cs ≡ (count, p)
      → p.state ≡ AuthState.finished
      → Accepted (0x01 ∷ n ∷ cs) count p
  unfolding reading_name
  after_header n cs pos h b (part _ e) run d = absurd (cc)
  after_header n cs pos h b (whole name after e l r) run d =
      rw e (named n name after l pos h (IsBytes-drop name after (rw e at b)) (sym r ∙ run) d)

  module _ (q : AuthParser) (v : ℕ) where
    short : consume (reset q) (v ∷ []) ≡ (count, p) → p.state ≢ AuthState.finished
    unfolding consume Stream.consume Stream.consume_from reset feed has_finished
    short run d = ground arith

    no_name :
        (cs : List ℕ) → consume (reset q) (v ∷ 0 ∷ cs) ≡ (count, p) → p.state ≢ AuthState.finished
    unfolding consume Stream.consume Stream.consume_from reset feed has_finished
    no_name cs run d = ground arith

    other_version :
        (cs : List ℕ)
        → v ≢ 0x01
        → consume (reset q) (v ∷ cs) ≡ (count, p)
        → p.state ≢ AuthState.finished
    unfolding consume Stream.consume Stream.consume_from reset feed has_finished
    other_version cs h run d = ground arith

  -- A parser that is finished without an error after some bytes was given a message of the
  -- grammar, with a name and a password that are not empty. The call has returned its length;
  -- the arrays hold the two strings, each with a zero byte behind it.
  pub auth_consume-Accepted :
      (q : AuthParser) (bytes : List ℕ)
      → IsBytes bytes
      → consume (reset q) bytes ≡ (count, p)
      → p.state ≡ AuthState.finished
      → Accepted bytes count p
  auth_consume-Accepted q [] b run d =
      unfold consume Stream.consume Stream.consume_from reset in absurd (cc)
  auth_consume-Accepted q (v ∷ []) b run d = absurd (short q v run d)
  auth_consume-Accepted q (v ∷ zero ∷ cs) b run d = absurd (no_name q v cs run d)
  auth_consume-Accepted q (v ∷ suc n ∷ cs) b run d = elim (ℕ_discrete v 0x01) [
    | yes e ↦ rw e (
        after_header (suc n) cs (omega arith) b.1.0 b.1.1
          (Field-Outcome (name-Field (suc n)) 2 cs (omega arith))
          (sym (header q (suc n) cs (omega arith)) ∙ (rw e at run)) d)
    | no e ↦ absurd (other_version q v (suc n ∷ cs) e run d)
  ]
