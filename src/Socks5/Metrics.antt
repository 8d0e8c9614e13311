-- ===== src/Socks5/Metrics.antt =====
-- socks5d/lib/socks5/socks5_metrics.c: the counters of connections and bytes. They are
-- `unsigned long`s of 64 bits, and wrap around.
pub mod Count
mod Tests
use protos.Base.{ℕ, ◌+◌}
use Prim.Native.Nat.{◌%◌}

-- `Socks5Metrics`
pub record Metrics : Type 0 where
  pub historical_connections : ℕ
  pub current_connections : ℕ
  pub bytes_transferred : ℕ

-- `InitSocks5Metrics`
abbrev pub init : Metrics
init = record { historical_connections = 0; current_connections = 0; bytes_transferred = 0 }

-- `RegisterConnectionInSocks5Metrics`
unfoldable pub register_connection : Metrics → Metrics
register_connection m = record m {
  historical_connections = (m.historical_connections + 1) % 18446744073709551616;
  current_connections = (m.current_connections + 1) % 18446744073709551616;
}

-- `RegisterDisconnectionInSocks5Metrics`: one less is 2 ^ 64 - 1 more.
unfoldable pub register_disconnection : Metrics → Metrics
register_disconnection m = record m {
  current_connections = (m.current_connections + 18446744073709551615) % 18446744073709551616;
}

-- `RegisterBytesTransferredInSocks5Metrics`
unfoldable pub register_bytes : ℕ → Metrics → Metrics
register_bytes n m = record m {
  bytes_transferred = (m.bytes_transferred + n) % 18446744073709551616;
}
