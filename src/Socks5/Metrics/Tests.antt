-- ===== src/Socks5/Metrics/Tests.antt =====
-- Two connections, one of them closed, and a transfer.
use protos.Base.{List, [], ◌∷◌, ◌≡◌, refl}
use protos.Socks5.Metrics.{init}
use protos.Socks5.Metrics.Count.{
  Registered, register_all, connections, disconnections, total, metrics_count,
}

abbrev run : List Registered
run =
    Registered.connection
    ∷ Registered.transfer 7
    ∷ Registered.connection
    ∷ Registered.disconnection
    ∷ []

metrics_count_example :
    ((register_all run init).historical_connections ≡ 2)
    × ((register_all run init).current_connections ≡ 1)
    × ((register_all run init).bytes_transferred ≡ 7)
unfolding connections disconnections total
metrics_count_example = metrics_count run refl
