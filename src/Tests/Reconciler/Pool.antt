-- ===== src/Tests/Reconciler/Pool.antt =====
-- pkg/reconciler/connection_pool.go: the contexts of a pool that connects to two hosts and then closes.
use control_protocol.Prelude.{ℕ, ◌≡◌, refl, true, List, [], ◌∷◌, arith}
use control_protocol.Prelude.Equality.{nat_eq}
use control_protocol.Prelude.Maps.{contains, lookup, insert, erase, empty, keys}
use control_protocol.Reconciler.ConnectionPool.{
  new_pool, close, reconcile_connections, get_connected_hosts, set_difference, connect_all,
  disconnect_all, dial_control_service, remove_connection,
}
use control_protocol.Reconciler.ConnectionPool.Life.{
  Operation, reconcile, remove, AllCareful, apply_all, close-apply_all,
}
use control_protocol.Reconciler.ConnectionPool.Tracking.{Distinct}
use control_protocol.Tests.Reconciler.{dialer}

abbrev operations : List (Operation ℕ ℕ)
operations = reconcile 1 (2 ∷ 3 ∷ 9 ∷ []) ∷ remove 1 3 ∷ []

close-apply_all_example : contains 1 (close (apply_all dialer new_pool operations)).cancelled ≡ true
unfolding AllCareful Distinct apply_all reconcile_connections get_connected_hosts set_difference
    connect_all disconnect_all dial_control_service lookup insert empty erase keys remove_connection
close-apply_all_example =
    close-apply_all dialer operations 1 ((refl, (refl, (refl, tt))), (tt, tt)) (omega arith)
