-- ===== src/Parsers/Request/Tail.antt =====
-- What the request's parser has read once it is done, from the address on.
use mathlib.Core.Path.{subst, subst₃}
use protos.Base.{
  ℕ, ◌+◌, ◌<◌, List, [], ◌∷◌, ◌++◌, ◌≡◌, refl, sym, ap, ◌∙◌, arith, length, take, get_elem?, some,
  take-store_start, get_elem?-store, get_elem?-replicate, length-replicate,
}
use protos.Stream
use protos.Stream.Field.{Outcome, part, whole}
use protos.Parsers.Request.{RequestState, RequestParser, feed_in, feed, has_finished, machine}
use protos.Parsers.Request.Message.{
  Destination, ipv4, ipv6, fqdn, IsDestination, address, type_of, state_of, prefix, request_message,
  zeros, reading, addressed, requested, requested_for, resume-port, address_short, message-append,
  length-message,
}

-- What a parser that is done has read. `address_ends` says that the array holds a string: the
-- byte behind the address is zero.
pub record Accepted (bytes : List ℕ) (count : ℕ) (p : RequestParser) : Type 0 where
  pub cmd : ℕ
  pub destination : Destination
  pub hi : ℕ
  pub lo : ℕ
  pub rest : List ℕ
  pub valid : IsDestination destination
  pub message : bytes ≡ request_message cmd destination hi lo ++ rest
  pub read : count ≡ length (request_message cmd destination hi lo)
  pub cmd_kept : p.cmd ≡ cmd
  pub type_kept : p.a_type ≡ type_of destination
  pub address_kept : take p.address_length p.dest_address ≡ address destination
  pub address_ends : get_elem? p.dest_address p.address_length ≡ some 0
  pub port_kept : p.dest_port ≡ hi ∷ lo ∷ []

pub Accepted-requested :
    (cmd : ℕ) (d : Destination) (hi lo : ℕ) (rest : List ℕ)
    → IsDestination d
    → Accepted
        (request_message cmd d hi lo ++ rest)
        (length (request_message cmd d hi lo))
        (requested_for cmd d hi lo)
unfolding requested reading
Accepted-requested cmd d hi lo rest h = record {
  cmd = cmd;
  destination = d;
  hi = hi;
  lo = lo;
  rest = rest;
  valid = h;
  message = refl;
  read = refl;
  cmd_kept = refl;
  type_kept = refl;
  address_kept =
      take-store_start zeros (address d)
        (omega (arith, address_short d h, length-replicate {A = ℕ} 256 0));
  address_ends =
      get_elem?-store zeros 0 (address d) (length (address d)) (omega arith)
      ∙ get_elem?-replicate 256 0 (length (address d)) (address_short d h);
  port_kept = refl;
}

-- What stands behind the header of an accepted request: the address, the port and the rest.
pub data Tail (cmd t i n : ℕ) (cs : List ℕ) (count : ℕ) (p : RequestParser) : Type 0 where
  tail :
      (xs : List ℕ) (hi lo : ℕ) (rest : List ℕ)
      → length xs ≡ n
      → cs ≡ xs ++ hi ∷ lo ∷ rest
      → count ≡ i + n + 2
      → p ≡ requested cmd t n xs hi lo
      → Tail cmd t i n cs count p

module _ (cmd t i n : ℕ) {count : ℕ} {p : RequestParser} where
  after_address :
      (xs after : List ℕ)
      → length xs ≡ n
      → Stream.resume machine (i + length xs) (addressed cmd t n xs) after ≡ (count, p)
      → p.state ≡ RequestState.done
      → Tail cmd t i n (xs ++ after) count p
  after_address xs [] l run d =
      unfold Stream.resume Stream.consume_from has_finished addressed reading in absurd (cc)
  after_address xs (hi ∷ []) l run d =
      unfold Stream.resume Stream.consume_from feed feed_in has_finished addressed reading in
      absurd (cc)
  after_address xs (hi ∷ lo ∷ rest) l run d =
      let stopped = sym run ∙ resume-port cmd t n (i + length xs) xs hi lo rest in
      tail xs hi lo rest l refl (omega (arith, ap (λ r. r.0) stopped)) (ap (λ r. r.1) stopped)

  pub after_header :
      (d : Destination) (cs : List ℕ)
      → Outcome machine n (reading (state_of d) cmd t n) (addressed cmd t n) i cs
      → Stream.consume_from machine i (reading (state_of d) cmd t n []) cs ≡ (count, p)
      → p.state ≡ RequestState.done
      → Tail cmd t i n cs count p
  unfolding reading
  after_header (ipv4 a) cs (part _ e) run d = absurd (cc)
  after_header (ipv6 a) cs (part _ e) run d = absurd (cc)
  after_header (fqdn a) cs (part _ e) run d = absurd (cc)
  after_header k cs (whole xs after e l r) run d = rw e (after_address xs after l (sym r ∙ run) d)

module _ {count : ℕ} {p : RequestParser} where
  finish :
      (cmd : ℕ) (d : Destination) (hi lo : ℕ) (rest cs : List ℕ)
      → IsDestination d
      → cs ≡ address d ++ hi ∷ lo ∷ rest
      → count ≡ length (prefix cmd d) + length (address d) + 2
      → p ≡ requested_for cmd d hi lo
      → Accepted (prefix cmd d ++ cs) count p
  finish cmd d hi lo rest cs h e c r =
      subst₃ Accepted (message-append cmd d hi lo rest ∙ ap (λ t. prefix cmd d ++ t) (sym e))
        (length-message cmd d hi lo ∙ sym c) (sym r) (Accepted-requested cmd d hi lo rest h)

  pub finish_ipv4 :
      (cmd : ℕ) (cs : List ℕ)
      → Tail cmd 0x01 4 4 cs count p
      → Accepted (0x05 ∷ cmd ∷ 0 ∷ 0x01 ∷ cs) count p
  finish_ipv4 cmd cs (tail xs hi lo rest l e c r) =
      finish cmd (ipv4 xs) hi lo rest cs l e (omega arith)
        (r ∙ ap (λ k. requested cmd 0x01 k xs hi lo) (sym l))

  pub finish_ipv6 :
      (cmd : ℕ) (cs : List ℕ)
      → Tail cmd 0x04 4 16 cs count p
      → Accepted (0x05 ∷ cmd ∷ 0 ∷ 0x04 ∷ cs) count p
  finish_ipv6 cmd cs (tail xs hi lo rest l e c r) =
      finish cmd (ipv6 xs) hi lo rest cs l e (omega arith)
        (r ∙ ap (λ k. requested cmd 0x04 k xs hi lo) (sym l))

  pub finish_fqdn :
      (cmd n : ℕ) (cs : List ℕ)
      → 0 < n
      → n < 256
      → Tail cmd 0x03 5 n cs count p
      → Accepted (0x05 ∷ cmd ∷ 0 ∷ 0x03 ∷ n ∷ cs) count p
  finish_fqdn cmd n cs pos h (tail xs hi lo rest l e c r) =
      subst (λ k. Accepted (0x05 ∷ cmd ∷ 0 ∷ 0x03 ∷ k ∷ cs) count p) l
        (finish cmd (fqdn xs) hi lo rest cs (omega arith, omega arith) e (omega arith)
          (r ∙ ap (λ k. requested cmd 0x03 k xs hi lo) (sym l)))
