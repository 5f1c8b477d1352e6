-- ===== src/Tests/Reconciler/Interleaved.antt =====
-- pkg/reconciler/connection_pool.go: goroutines that share a pool.
use control_protocol.Prelude.{
  ℕ, zero, suc, ◌≡◌, ◌≢◌, refl, false, Option, some, List, [], ◌∷◌, arith,
}
use control_protocol.Prelude.Equality.{nat_eq}
use control_protocol.Prelude.Maps.{Map, empty, lookup, insert, lookup-empty, contains, erase, keys}
use control_protocol.Errors.{Result}
use control_protocol.Reconciler.ConnectionPool.{
  new_pool, get_connected_hosts, set_difference, remove_all_connections,
}
use control_protocol.Reconciler.ConnectionPool.Hosts.{holder_at}
use control_protocol.Reconciler.ConnectionPool.Interleaved.{
  PoolTask, starting, dialing, closing, removing, removing_all, finished, PoolCalls, advance_task,
  begin_dial, pool_step, run_pool,
}
use control_protocol.Reconciler.ConnectionPool.Interleaved.Progress.{Ends}
use control_protocol.Reconciler.ConnectionPool.Interleaved.Leaking.{run_pool-leaks}
use control_protocol.Reconciler.ConnectionPool.Interleaved.Alive.{
  new_calls, NoneHolds, NoneHolds-insert, run_pool-alive,
}
use control_protocol.Reconciler.ConnectionPool.Hosts.{context_at}
use control_protocol.Reconciler.ConnectionPool.Interleaved.Separate.{
  AvoidedBut, AvoidedBut-insert, run_pool-Ends,
}
use control_protocol.Tests.Reconciler.{dialer, small_pool}

-- Goroutine 0 reconciles key 1, and two others work under key 5.
abbrev tasks : Map ℕ (PoolTask ℕ ℕ ℕ)
tasks =
    insert 0 (starting 1 (3 ∷ 4 ∷ []))
      (insert 1 (starting 5 (2 ∷ 9 ∷ [])) (insert 2 (removing 5 2) empty))

abbrev calls : PoolCalls ℕ ℕ ℕ
calls = record { pool = small_pool; tasks = tasks; called = [] }

abbrev in_turns : ℕ → List ℕ
in_turns zero = []
in_turns (suc n) = 0 ∷ 1 ∷ 2 ∷ in_turns n

tasks-AvoidedBut : AvoidedBut 0 1 tasks
tasks-AvoidedBut =
    AvoidedBut-insert 0 0 1 (starting 1 (3 ∷ 4 ∷ [])) _ (λ n. absurd (ground (arith, n)))
      (AvoidedBut-insert 0 1 1 (starting 5 (2 ∷ 9 ∷ [])) _ (λ n. refl)
        (AvoidedBut-insert 0 2 1 (removing 5 2) empty (λ n. refl)
          (λ j task at. absurd (ground (arith, at, lookup-empty {V = PoolTask ℕ ℕ ℕ} j)))))

run_pool-Ends_example :
    let c = run_pool dialer calls (in_turns 9) in
    (r : Result (Option (Map ℕ ℕ))) × (lookup 0 c.tasks ≡ some (finished r))
    × Ends 1 (3 ∷ 4 ∷ []) small_pool c.pool r
unfolding get_connected_hosts lookup insert keys empty
run_pool-Ends_example =
    run_pool-Ends dialer 0 1 (3 ∷ 4 ∷ []) calls (in_turns 9) refl tasks-AvoidedBut (omega arith)

abbrev two_calls : PoolCalls ℕ ℕ ℕ
two_calls = record {
  pool = new_pool;
  tasks = insert 0 (starting 1 (2 ∷ [])) (insert 1 (starting 1 (2 ∷ [])) empty);
  called = [];
}

-- Two reconciliations of one key that both look before either dials: each dials the host, and the
-- context of the first is in the pool no more and was not cancelled.
dialed_twice :
    let c = run_pool dialer two_calls (0 ∷ 1 ∷ 0 ∷ 1 ∷ 0 ∷ 1 ∷ []) in
    (holder_at c.pool 1 2 ≡ some (record { service = 12; cancel_fn = 1 }))
    × (c.pool.contexts ≡ 2)
    × (c.pool.cancelled ≡ [])
unfolding run_pool pool_step advance_task begin_dial get_connected_hosts set_difference lookup
    insert empty erase keys
dialed_twice = (refl, refl, refl)

-- Two reconciliations of one key, one of another, a removal, and a dial.
abbrev rivals : Map ℕ (PoolTask ℕ ℕ ℕ)
rivals = insert 0 (starting 1 (2 ∷ 3 ∷ [])) (
    insert 1 (starting 1 (3 ∷ 9 ∷ []))
      (insert 2 (removing_all 1) (insert 3 (starting 5 (2 ∷ [])) (insert 4 (dialing 1 3) empty))))

rivals-NoneHolds : NoneHolds rivals
rivals-NoneHolds = NoneHolds-insert 0 (starting 1 (2 ∷ 3 ∷ [])) _ refl (
    NoneHolds-insert 1 (starting 1 (3 ∷ 9 ∷ [])) _ refl (
      NoneHolds-insert 2 (removing_all 1) _ refl (
        NoneHolds-insert 3 (starting 5 (2 ∷ [])) _ refl (
          NoneHolds-insert 4 (dialing 1 3) empty refl
            (λ i. ground (arith, lookup-empty {V = PoolTask ℕ ℕ ℕ} i))))))

abbrev rivalry : List ℕ
rivalry = 0 ∷ 0 ∷ 0 ∷ 2 ∷ 1 ∷ 3 ∷ 1 ∷ 1 ∷ 3 ∷ 4 ∷ 0 ∷ 3 ∷ 0 ∷ 4 ∷ 1 ∷ 1 ∷ []

run_pool-alive_example :
    let cc = (run_pool dialer (new_calls rivals) rivalry).pool in
    (contains 3 cc.cancelled ≡ false) × (context_at cc 5 2 ≢ some 3)
unfolding run_pool pool_step advance_task begin_dial get_connected_hosts set_difference
    remove_all_connections lookup insert empty erase keys
run_pool-alive_example = run_pool-alive dialer rivals rivalry 1 5 3 2 3 rivals-NoneHolds refl refl

-- Both reconciliations of key 1 dial host 2, the second puts its connection over the first's, and the
-- pool is closed.
abbrev with_close : Map ℕ (PoolTask ℕ ℕ ℕ)
with_close =
    insert 0 (starting 1 (2 ∷ [])) (insert 1 (starting 1 (2 ∷ [])) (insert 2 closing empty))

with_close-NoneHolds : NoneHolds with_close
with_close-NoneHolds = NoneHolds-insert 0 (starting 1 (2 ∷ [])) _ refl (
    NoneHolds-insert 1 (starting 1 (2 ∷ [])) _ refl (
      NoneHolds-insert 2 closing empty refl
        (λ i. ground (arith, lookup-empty {V = PoolTask ℕ ℕ ℕ} i))))

run_pool-leaks_example :
    let s = pool_step dialer (run_pool dialer (new_calls with_close) (0 ∷ 1 ∷ 0 ∷ 1 ∷ 0 ∷ [])) 1 in
    let cc = (run_pool dialer s (2 ∷ 2 ∷ 2 ∷ [])).pool in
    (holder_at s.pool 1 2 ≡ some (record { service = 12; cancel_fn = 1 }))
    × (contains 0 cc.cancelled ≡ false)
    × ((key' : ℕ) (host' : ℕ) → context_at cc key' host' ≢ some 0)
unfolding run_pool pool_step advance_task begin_dial get_connected_hosts set_difference lookup
    insert empty erase keys
run_pool-leaks_example =
    run_pool-leaks dialer with_close (0 ∷ 1 ∷ 0 ∷ 1 ∷ 0 ∷ []) (2 ∷ 2 ∷ 2 ∷ []) 1 0 1 2
      (record { service = 12; cancel_fn = 1 }) [] [] with_close-NoneHolds refl refl
