-- ===== src/Socks5/Connect/Walk.antt =====
-- That the walk over the resolved addresses tries each of them.
use protos.Base.{
  ℕ, zero, suc, true, false, List, [], ◌∷◌, ◌++◌, Option, some, ◌≡◌, refl, ap, ◌∙◌, length,
}
use protos.Base.Fallible.{◌>>=◌}
use protos.Socks5.{ConnectionState, Interest, set_client}
use protos.Socks5.Connect.{
  Family, CurrentAddress, Attempt, Readiness, can_connect, reply_not_decided, reply_general_failure,
  try_address, connect_init, connect_run, next_or_reply, next_address, with_client,
}

-- `tries` addresses in turn, each after an attempt that has failed, to none of which there is a
-- connection: the handler, and the call on its state's reentry.
unfoldable pub fail_on : ℕ → Attempt → Option Attempt
unfolding connect_run connect_init
fail_on zero a = some a
fail_on (suc tries) a = connect_run a Readiness.ready true true >>= λ r.
    connect_init r.1 false true >>= λ b. fail_on tries b

-- The last of the addresses.
abbrev last_of : Family → List Family → Family
last_of f [] = f
last_of f (g ∷ gs) = last_of g gs

module _ (x : Family) (xs : List Family) (a : Attempt) where
  -- An attempt that has failed, on one of the addresses that were resolved.
  abbrev pub stuck_at : Family → List Family → Attempt
  stuck_at f rest = record a {
    remote_address = x ∷ xs;
    current = CurrentAddress.resolved f rest;
    has_remote = false;
    connection = record a.connection {
      command = reply_general_failure;
      client_interest = Interest.both;
    };
  }

  -- An attempt that is on its way to one of them.
  abbrev pub connecting_to : Family → List Family → Attempt
  connecting_to f rest = record (stuck_at f rest) {
    has_remote = true;
    connection = record a.connection {
      command = reply_not_decided;
      client_interest = Interest.both;
    };
  }

  fails_again :
      (f g : Family) (rest : List Family)
      → connect_run (stuck_at f (g ∷ rest)) Readiness.ready true true
          >>= (λ r. connect_init r.1 false true)
        ≡ some (stuck_at g rest)
  unfolding connect_run connect_init try_address next_or_reply next_address set_client
  fails_again f Family.ipv4 rest = refl
  fails_again f Family.ipv6 rest = refl
  fails_again f Family.unspecified rest = refl

  connects_at :
      (f g : Family) (rest : List Family)
      → can_connect g ≡ true
      → connect_run (stuck_at f (g ∷ rest)) Readiness.ready true true
          >>= (λ r. connect_init r.1 true true)
        ≡ some (connecting_to g rest)
  unfolding connect_run connect_init try_address next_or_reply next_address set_client
  connects_at f Family.ipv4 rest h = refl
  connects_at f Family.ipv6 rest h = refl
  connects_at f Family.unspecified rest h = cc

  fail_on-stuck_at :
      (f : Family) (fs rest : List Family)
      → fail_on (length fs) (stuck_at f (fs ++ rest)) ≡ some (stuck_at (last_of f fs) rest)
  unfolding fail_on
  fail_on-stuck_at f [] rest = refl
  fail_on-stuck_at f (g ∷ fs) rest =
      ap (λ m. m >>= fail_on (length fs)) (fails_again f g (fs ++ rest))
      ∙ fail_on-stuck_at g fs rest

  gives_up :
      (f : Family)
      → connect_run (stuck_at f []) Readiness.ready true true
        ≡ some (
          ConnectionState.request_write,
          record (stuck_at f []) {
            connection = record a.connection {
              command = reply_general_failure;
              client_interest = Interest.write;
            };
          },
        )
  unfolding connect_run next_or_reply next_address with_client set_client
  gives_up f = refl

  -- When a name was resolved and the connection to its first address could not be opened, the
  -- handler tries the others in order: if those of `fs` fail the same way and one to `g` can be
  -- opened, the connection goes on with `g` and no reply is decided; if all of them fail, the
  -- client is told of a general failure.
  pub addresses_are_tried :
      (f g : Family) (fs rest : List Family)
      → can_connect g ≡ true
      → (fail_on (length fs) (stuck_at f (fs ++ g ∷ rest))
            >>= (λ b. connect_run b Readiness.ready true true >>= λ r. connect_init r.1 true true)
          ≡ some (connecting_to g rest))
        × (fail_on (length fs) (stuck_at f (fs ++ []))
              >>= (λ b. connect_run b Readiness.ready true true)
            ≡ some (
              ConnectionState.request_write,
              record (stuck_at (last_of f fs) []) {
                connection = record a.connection {
                  command = reply_general_failure;
                  client_interest = Interest.write;
                };
              },
            ))
  addresses_are_tried f g fs rest h = (
    ap
          (λ m.
            m
            >>= (λ b. connect_run b Readiness.ready true true >>= λ r. connect_init r.1 true true))
          (fail_on-stuck_at f fs (g ∷ rest))
        ∙ connects_at (last_of f fs) g rest h,
    ap (λ m. m >>= (λ b. connect_run b Readiness.ready true true)) (fail_on-stuck_at f fs [])
        ∙ gives_up (last_of f fs),
  )
