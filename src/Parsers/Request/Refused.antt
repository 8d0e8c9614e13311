-- ===== src/Parsers/Request/Refused.antt =====
-- The bytes of a request before its address: what is refused, and what leads to an address.
use protos.Base.{ℕ, suc, ◌<◌, ◌≢◌, List, [], ◌∷◌, ◌≡◌, refl, arith, length, store}
use protos.Stream
use protos.Parsers.Request.{
  RequestState, RequestParser, feed_in, feed, has_finished, reset, machine, consume,
}
use protos.Parsers.Request.Message.{ipv4, reading, header}

-- The bytes before the address that are refused, or that end too early.
module _ (q : RequestParser) (v cmd : ℕ) {count : ℕ} {p : RequestParser} where
  pub unread :
      (cs : List ℕ)
      → length cs < 3
      → consume (reset q) (v ∷ cs) ≡ (count, p)
      → p.state ≢ RequestState.done
  unfolding consume Stream.consume Stream.consume_from reset feed feed_in has_finished
  unread [] h run d = ground arith
  unread (c ∷ []) h run d = ground arith
  unread (c ∷ r ∷ []) h run d = ground arith
  unread (c ∷ r ∷ t ∷ cs) h run d = absurd (omega arith)

  pub other_version :
      (cs : List ℕ)
      → v ≢ 0x05
      → consume (reset q) (v ∷ cs) ≡ (count, p)
      → p.state ≢ RequestState.done
  unfolding consume Stream.consume Stream.consume_from reset feed feed_in has_finished
  other_version cs h run d = ground arith

  pub reserved :
      (r : ℕ) (cs : List ℕ)
      → r ≢ 0
      → consume (reset q) (0x05 ∷ cmd ∷ r ∷ cs) ≡ (count, p)
      → p.state ≢ RequestState.done
  unfolding consume Stream.consume Stream.consume_from reset feed feed_in has_finished
  reserved r cs h run d = ground arith

  pub other_type :
      (t : ℕ) (cs : List ℕ)
      → (t ≢ 0x01) × (t ≢ 0x04) × (t ≢ 0x03)
      → consume (reset q) (0x05 ∷ cmd ∷ 0 ∷ t ∷ cs) ≡ (count, p)
      → p.state ≢ RequestState.done
  unfolding consume Stream.consume Stream.consume_from reset feed feed_in has_finished
  other_type t cs h run d = ground arith

  pub no_name :
      consume (reset q) (0x05 ∷ cmd ∷ 0 ∷ 0x03 ∷ []) ≡ (count, p) → p.state ≢ RequestState.done
  unfolding consume Stream.consume Stream.consume_from reset feed feed_in has_finished
  no_name run d = ground arith

  pub empty_name :
      (cs : List ℕ)
      → consume (reset q) (0x05 ∷ cmd ∷ 0 ∷ 0x03 ∷ 0 ∷ cs) ≡ (count, p)
      → p.state ≢ RequestState.done
  unfolding consume Stream.consume Stream.consume_from reset feed feed_in has_finished
  empty_name cs run d = ground arith

-- The bytes before the address that are accepted.
module _ (q : RequestParser) (cmd : ℕ) (cs : List ℕ) where
  pub header_ipv4 :
      consume (reset q) (0x05 ∷ cmd ∷ 0 ∷ 0x01 ∷ cs)
      ≡ Stream.consume_from machine 4 (reading RequestState.dest_addr_ipv4 cmd 0x01 4 []) cs
  header_ipv4 = header q cmd (ipv4 (0 ∷ 0 ∷ 0 ∷ 0 ∷ [])) cs (omega arith) refl

  pub header_ipv6 :
      consume (reset q) (0x05 ∷ cmd ∷ 0 ∷ 0x04 ∷ cs)
      ≡ Stream.consume_from machine 4 (reading RequestState.dest_addr_ipv6 cmd 0x04 16 []) cs
  unfolding consume Stream.consume Stream.consume_from reset feed feed_in has_finished reading store
  header_ipv6 = refl

  pub header_fqdn :
      (n : ℕ)
      → consume (reset q) (0x05 ∷ cmd ∷ 0 ∷ 0x03 ∷ suc n ∷ cs)
        ≡ Stream.consume_from machine 5 (reading RequestState.dest_addr_fqdn cmd 0x03 (suc n) []) cs
  unfolding consume Stream.consume Stream.consume_from reset feed feed_in has_finished reading store
  header_fqdn n = ground arith

pub unstarted :
    (q : RequestParser) {count : ℕ} {p : RequestParser}
    → consume (reset q) [] ≡ (count, p)
    → p.state ≢ RequestState.done
unfolding consume Stream.consume Stream.consume_from reset
unstarted q run d = ground arith
