-- ===== src/Parsers/Request/Sound.antt =====
-- Only requests of the grammar are accepted.
use protos.Base.{ℕ, zero, suc, List, [], ◌∷◌, ◌≡◌, sym, ◌∙◌, arith, IsBytes, ℕ_discrete}
use protos.Stream.Field.{Field-Outcome}
use protos.Parsers.Request.{RequestState, RequestParser, reset, consume}
use protos.Parsers.Request.Message.{ipv4, ipv6, fqdn, address-Field}
use protos.Parsers.Request.Tail.{Accepted, after_header, finish_ipv4, finish_ipv6, finish_fqdn}
use protos.Parsers.Request.Refused.{
  unread, other_version, reserved, other_type, no_name, empty_name, header_ipv4, header_ipv6,
  header_fqdn, unstarted,
}

module _ (q : RequestParser) (cmd : ℕ) {count : ℕ} {p : RequestParser} where
  named :
      (cs : List ℕ)
      → IsBytes cs
      → consume (reset q) (0x05 ∷ cmd ∷ 0 ∷ 0x03 ∷ cs) ≡ (count, p)
      → p.state ≡ RequestState.done
      → Accepted (0x05 ∷ cmd ∷ 0 ∷ 0x03 ∷ cs) count p
  named [] b run d = absurd (no_name q 0 cmd run d)
  named (zero ∷ cs) b run d = absurd (empty_name q 0 cmd cs run d)
  named (suc n ∷ cs) b run d = finish_fqdn cmd (suc n) cs (omega arith) b.0 (
      after_header cmd 0x03 5 (suc n) (fqdn []) cs
        (Field-Outcome (address-Field cmd 0x03 (suc n) (fqdn []) (omega arith) b.0) 5 cs
          (omega arith))
        (sym (header_fqdn q cmd cs n) ∙ run) d)

  typed :
      (t : ℕ) (cs : List ℕ)
      → IsBytes cs
      → consume (reset q) (0x05 ∷ cmd ∷ 0 ∷ t ∷ cs) ≡ (count, p)
      → p.state ≡ RequestState.done
      → Accepted (0x05 ∷ cmd ∷ 0 ∷ t ∷ cs) count p
  typed t cs b run d = elim (ℕ_discrete t 0x01) [
    | yes e ↦ rw e (
        finish_ipv4 cmd cs (
          after_header cmd 0x01 4 4 (ipv4 []) cs
            (Field-Outcome (address-Field cmd 0x01 4 (ipv4 []) (omega arith) (omega arith)) 4 cs
              (omega arith))
            (sym (header_ipv4 q cmd cs) ∙ (rw e at run)) d))
    | no n1 ↦ elim (ℕ_discrete t 0x04) [
      | yes e ↦ rw e (
          finish_ipv6 cmd cs (
            after_header cmd 0x04 4 16 (ipv6 []) cs
              (Field-Outcome (address-Field cmd 0x04 16 (ipv6 []) (omega arith) (omega arith)) 4 cs
                (omega arith))
              (sym (header_ipv6 q cmd cs) ∙ (rw e at run)) d))
      | no n4 ↦ elim (ℕ_discrete t 0x03) [
        | yes e ↦ rw e (named cs b (rw e at run) d)
        | no n3 ↦ absurd (other_type q 0 cmd t cs (n1, n4, n3) run d)
      ]
    ]
  ]

  reserved_zero :
      (r t : ℕ) (cs : List ℕ)
      → IsBytes cs
      → consume (reset q) (0x05 ∷ cmd ∷ r ∷ t ∷ cs) ≡ (count, p)
      → p.state ≡ RequestState.done
      → Accepted (0x05 ∷ cmd ∷ r ∷ t ∷ cs) count p
  reserved_zero r t cs b run d = elim (ℕ_discrete r 0) [
    | yes e ↦ rw e (typed t cs b (rw e at run) d)
    | no n ↦ absurd (reserved q 0 cmd r (t ∷ cs) n run d)
  ]

module _ (q : RequestParser) {count : ℕ} {p : RequestParser} where
  -- A parser that is done after some bytes was given a request of the grammar: version 5, any
  -- command, a zero byte, and an address of one of the three kinds with a port. The call has
  -- returned the request's length, and the parser holds exactly its parts, the address with a
  -- zero byte behind it.
  pub request_consume-Accepted :
      (bytes : List ℕ)
      → IsBytes bytes
      → consume (reset q) bytes ≡ (count, p)
      → p.state ≡ RequestState.done
      → Accepted bytes count p
  request_consume-Accepted [] b run d = absurd (unstarted q run d)
  request_consume-Accepted (v ∷ []) b run d = absurd (unread q v 0 [] (omega arith) run d)
  request_consume-Accepted (v ∷ c ∷ []) b run d = absurd (unread q v 0 (c ∷ []) (omega arith) run d)
  request_consume-Accepted (v ∷ c ∷ r ∷ []) b run d =
      absurd (unread q v 0 (c ∷ r ∷ []) (omega arith) run d)
  request_consume-Accepted (v ∷ c ∷ r ∷ t ∷ cs) b run d = elim (ℕ_discrete v 0x05) [
    | yes e ↦ rw e (reserved_zero q c r t cs b.1.1.1.1 (rw e at run) d)
    | no n ↦ absurd (other_version q v 0 (c ∷ r ∷ t ∷ cs) n run d)
  ]
