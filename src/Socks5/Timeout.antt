-- ===== src/Socks5/Timeout.antt =====
-- socks5d/lib/socks5/socks5_timeout.c: the connections that have been silent for too long are
-- closed. The answers of `time` are arguments: `none` is -1. `none` as a result is the end of the
-- program, by a fatal error or by following a null pointer.
pub mod Idle
mod Tests
use protos.Base.{
  ℕ, zero, suc, ◌+◌, Bool, true, false, ◌||◌, List, ◌∷◌, [], Option, none, some, leb, if◌then◌else◌,
}
use protos.Base.Fallible.{◌>>=◌}
use protos.Base.Int.{ℤ, pos, negsuc}
use protos.Pool.{ObjectPool, execute_on_existing}

-- What the check reads of a connection: when it was last used, and whether
-- `RemoteAddressString` and `RemoteTcpConnection` are set.
pub record Timed : Type 0 where
  pub last_connection_on : ℤ
  pub has_address : Bool
  pub has_remote : Bool

-- `NotifySocks5ConnectionAccess`. `none` is the null pointer.
unfoldable pub notify_access : Option ℕ → Option Timed → Option Timed
notify_access clock none = none
notify_access none (some c) = some (record c { last_connection_on = negsuc 0 })
notify_access (some now) (some c) = some (record c { last_connection_on = pos now })

-- `currentTime - connection->LastConnectionOn >= socksMaxTimeout`
unfoldable pub is_late : ℕ → ℤ → ℕ → Bool
is_late now (pos last) timeout = leb (last + timeout) now
is_late now (negsuc k) timeout = leb timeout (now + suc k)

-- `CheckForTimeoutInSingleConnection`: whether the connection is disposed of. The message that is
-- logged names the address, or the descriptors of both sockets where there is no address.
unfoldable pub check_single : ℤ → Option ℕ → Timed → Option Bool
unfolding is_late
check_single (negsuc k) clock c = some false
check_single (pos zero) clock c = some false
check_single (pos (suc m)) none c = none
check_single (pos (suc m)) (some now) c =
    if is_late now c.last_connection_on (suc m)
    then if c.has_address || c.has_remote then some true else none
    else some false

-- The callback of the pool: the object is added to those that are disposed of.
unfoldable pub check_object :
    ℤ → (ℕ → Option ℕ) → (ℕ → Timed) → ℕ → Option (List ℕ) → Option (List ℕ)
unfolding check_single
check_object timeout clock memory object disposed = disposed >>= λ os.
    check_single timeout (clock object) (memory object) >>= λ late.
    some (if late then object ∷ os else os)

-- `CheckForTimeoutInSocks5Connections`: the objects that it disposes of, the last one first.
-- `clock` is what `time` answers when an object is checked.
unfoldable pub check_all :
    {T : Type 0} → ℤ → (ℕ → Option ℕ) → (ℕ → Timed) → ObjectPool T → Option (List ℕ)
unfolding execute_on_existing check_object
check_all timeout clock memory p =
    execute_on_existing (check_object timeout clock memory) p (some [])
