-- ===== src/Socks5/Connect/Tests.antt =====
-- A connection to a host of three addresses.
use protos.Base.{true, false, [], ◌∷◌, some, none, ◌≡◌, refl}
use protos.Base.Fallible.{◌>>=◌}
use protos.Socks5.{ConnectionState, Interest}
use protos.Socks5.Connect.{
  Family, CurrentAddress, Attempt, Readiness, reply_general_failure, connect_init, connect_run,
}
use protos.Socks5.Connect.Freed.{asked, looking, failed_connection_faults}
use protos.Socks5.Connect.Walk.{fail_on, stuck_at, connecting_to, addresses_are_tried}
use protos.Socks5.Tests.{connection}

abbrev attempt : Attempt
attempt = record {
  connection = connection;
  remote_address = [];
  current = CurrentAddress.null_address;
  has_remote = false;
}

addresses_are_tried_example :
    (fail_on 1 (
          stuck_at Family.ipv4
            (Family.ipv6 ∷ Family.ipv4 ∷ [])
            attempt
            Family.ipv4
            (Family.ipv6 ∷ Family.ipv4 ∷ []))
        >>= (λ b. connect_run b Readiness.ready true true >>= λ r. connect_init r.1 true true)
      ≡ some (connecting_to Family.ipv4 (Family.ipv6 ∷ Family.ipv4 ∷ []) attempt Family.ipv4 []))
    × (fail_on 1 (
            stuck_at Family.ipv4
              (Family.ipv6 ∷ Family.ipv4 ∷ [])
              attempt
              Family.ipv4
              (Family.ipv6 ∷ []))
          >>= (λ b. connect_run b Readiness.ready true true)
        ≡ some (
          ConnectionState.request_write,
          record (stuck_at Family.ipv4 (Family.ipv6 ∷ Family.ipv4 ∷ []) attempt Family.ipv6 []) {
            connection = record connection {
              command = reply_general_failure;
              client_interest = Interest.write;
            };
          },
        ))
addresses_are_tried_example =
    addresses_are_tried Family.ipv4 (Family.ipv6 ∷ Family.ipv4 ∷ []) attempt Family.ipv4 Family.ipv4
      (Family.ipv6 ∷ []) [] refl

failed_connection_faults_example :
    (connect_init (asked attempt Family.ipv4) false true
        >>= (λ b. connect_run b Readiness.pending true true)
      ≡ none)
    × (connect_init (asked attempt Family.ipv4) true true
          >>= (λ b. connect_run b (Readiness.failed 5) true true)
        ≡ none)
    × (connect_run (looking attempt Family.ipv6 []) Readiness.pending true true
          >>= (λ s. connect_run s.1 (Readiness.failed 5) true true)
        ≡ none)
failed_connection_faults_example =
    failed_connection_faults attempt Family.ipv4 Family.ipv6 [] 5 Readiness.pending true true true
      refl
