-- ===== src/Socks5/Connect/Freed.antt =====
-- Where a connection that fails reads memory that is gone.
use protos.Base.{ℕ, Bool, true, false, List, [], none, ◌≡◌, refl}
use protos.Base.Fallible.{◌>>=◌}
use protos.Socks5.{set_client}
use protos.Socks5.Connect.{
  Family, CurrentAddress, Attempt, Readiness, can_connect, reply_not_decided, try_address,
  connect_init, connect_run, next_or_reply, next_address,
}

-- An attempt that arrives to connect to the address of the request, and one that is connecting to
-- an address that was resolved.
abbrev pub asked : Attempt → Family → Attempt
asked a f = record a {
  remote_address = [];
  current = CurrentAddress.requested f;
  connection = record a.connection { command = reply_not_decided };
}

abbrev pub looking : Attempt → Family → List Family → Attempt
looking a g rest = record a {
  current = CurrentAddress.resolved g rest;
  connection = record a.connection { command = reply_not_decided };
}

-- After a request that names an address, a connection that fails makes the handler read the
-- address that was freed when it was tried, whether the failure is seen at once or later, whatever
-- the error is. After a name, an error that comes when the connection was on its way makes the
-- handler follow the pointer that it has set to null.
pub failed_connection_faults :
    (a : Attempt) (f g : Family) (rest : List Family) (code : ℕ) (r : Readiness)
    (ok client_ok remote_ok : Bool)
    → can_connect f ≡ true
    → (connect_init (asked a f) false ok >>= (λ b. connect_run b r client_ok remote_ok) ≡ none)
      × (connect_init (asked a f) true ok
            >>= (λ b. connect_run b (Readiness.failed code) client_ok remote_ok)
          ≡ none)
      × (connect_run (looking a g rest) Readiness.pending client_ok remote_ok
            >>= (λ s. connect_run s.1 (Readiness.failed code) client_ok remote_ok)
          ≡ none)
unfolding connect_init connect_run try_address next_or_reply next_address set_client
failed_connection_faults a Family.ipv4 g rest code r ok client_ok remote_ok h = (refl, refl, refl)
failed_connection_faults a Family.ipv6 g rest code r ok client_ok remote_ok h = (refl, refl, refl)
failed_connection_faults a Family.unspecified g rest code r ok client_ok remote_ok h = cc
