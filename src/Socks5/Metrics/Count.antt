-- ===== src/Socks5/Metrics/Count.antt =====
-- What the counters say after any sequence of connections, disconnections and transfers.
use protos.Base.{ℕ, ◌+◌, ◌-◌, List, [], ◌∷◌, ◌≡◌, refl, arith, leb, ltb, true}
use Prim.Native.Nat.{◌%◌}
use protos.Socks5.Metrics.{
  Metrics, init, register_connection, register_disconnection, register_bytes,
}

-- What is registered.
pub data Registered : Type 0 where
  connection disconnection : Registered
  transfer : ℕ → Registered

unfoldable pub register : Registered → Metrics → Metrics
unfolding register_connection register_disconnection register_bytes
register Registered.connection m = register_connection m
register Registered.disconnection m = register_disconnection m
register (Registered.transfer n) m = register_bytes n m

unfoldable pub register_all : List Registered → Metrics → Metrics
unfolding register
register_all [] m = m
register_all (r ∷ rs) m = register_all rs (register r m)

unfoldable pub connections : List Registered → ℕ
connections [] = 0
connections (Registered.connection ∷ rs) = 1 + connections rs
connections (Registered.disconnection ∷ rs) = connections rs
connections (Registered.transfer n ∷ rs) = connections rs

unfoldable pub disconnections : List Registered → ℕ
disconnections [] = 0
disconnections (Registered.connection ∷ rs) = disconnections rs
disconnections (Registered.disconnection ∷ rs) = 1 + disconnections rs
disconnections (Registered.transfer n ∷ rs) = disconnections rs

unfoldable pub total : List Registered → ℕ
total [] = 0
total (Registered.connection ∷ rs) = total rs
total (Registered.disconnection ∷ rs) = total rs
total (Registered.transfer n ∷ rs) = n + total rs

-- The counters `m'`, which have gone on from `m` by so many.
abbrev Counted : Metrics → Metrics → ℕ → ℕ → ℕ → Type 0
Counted m m' c d b =
    (m'.historical_connections ≡ (m.historical_connections + c) % 18446744073709551616)
    × ((m'.current_connections + d) % 18446744073709551616
        ≡ (m.current_connections + c) % 18446744073709551616)
    × (m'.bytes_transferred ≡ (m.bytes_transferred + b) % 18446744073709551616)
    × (ltb m'.current_connections 18446744073709551616 ≡ true)

-- Counters that fit in their words.
abbrev Fits : Metrics → Type 0
Fits m =
    (ltb m.historical_connections 18446744073709551616 ≡ true)
    × (ltb m.current_connections 18446744073709551616 ≡ true)
    × (ltb m.bytes_transferred 18446744073709551616 ≡ true)

register-Fits : (r : Registered) (m : Metrics) → Fits m → Fits (register r m)
unfolding register register_connection register_disconnection register_bytes
register-Fits Registered.connection m (h, u, b) = (ground arith, ground arith, b)
register-Fits Registered.disconnection m (h, u, b) = (h, ground arith, b)
register-Fits (Registered.transfer n) m (h, u, b) = (h, u, ground arith)

-- Any run of registrations adds up.
register_all-Counted :
    (rs : List Registered) (m : Metrics)
    → Fits m
    → Counted m (register_all rs m) (connections rs) (disconnections rs) (total rs)
unfolding register_all register register_connection register_disconnection register_bytes
    connections disconnections total
register_all-Counted [] m (h, u, b) = (ground arith, refl, ground arith, u)
register_all-Counted (Registered.connection ∷ rs) m f =
    let (h, u, b, w) =
      register_all-Counted rs (register_connection m) (register-Fits Registered.connection m f) in
    (omega arith, omega arith, b, w)
register_all-Counted (Registered.disconnection ∷ rs) m f =
    let (h, u, b, w) =
      register_all-Counted rs (register_disconnection m)
        (register-Fits Registered.disconnection m f) in
    (h, omega arith, b, w)
register_all-Counted (Registered.transfer n ∷ rs) m f =
    let (h, u, b, w) =
      register_all-Counted rs (register_bytes n m) (register-Fits (Registered.transfer n) m f) in
    (h, u, omega arith, w)

-- After the counters are set to 0, and any sequence of connections, disconnections and transfers
-- with no more disconnections than connections in all, even if some came first, the counters are
-- the number of connections, the number of those still open, and the sum of the bytes, each
-- modulo 2 ^ 64.
pub metrics_count :
    (rs : List Registered)
    → leb (disconnections rs) (connections rs) ≡ true
    → ((register_all rs init).historical_connections ≡ connections rs % 18446744073709551616)
      × ((register_all rs init).current_connections
          ≡ (connections rs - disconnections rs) % 18446744073709551616)
      × ((register_all rs init).bytes_transferred ≡ total rs % 18446744073709551616)
metrics_count rs le =
    let (h, u, b, w) = register_all-Counted rs init (refl, refl, refl) in
    (omega arith, ground arith, omega arith)
