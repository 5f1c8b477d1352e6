-- ===== src/Reconciler/ConnectionPool/Interleaved/Alive.antt =====
-- Goroutines that work under any keys of one pool, and the contexts of its connections.
use control_protocol.Prelude.{
  Option, ℕ, suc, ◌≡◌, ◌≢◌, refl, inl, inr, false, ◌&&◌, Option-cases, none, some, List, [], ◌∷◌,
  ◌++◌, arith,
}
use control_protocol.Prelude.Equality.{Comparable, ◌==◌, nat_eq}
use control_protocol.Prelude.Maps.{Map, lookup, insert, contains, lookup-empty}
use control_protocol.Errors.{Error, Result, ok, err}
use control_protocol.Reconciler.ConnectionPool.{
  ClientServiceHolder, ConnectionPool, new_pool, Options, dialer_of, one_more_dial,
}
use control_protocol.Reconciler.ConnectionPool.Hosts.{context_at}
use control_protocol.Reconciler.ConnectionPool.Interleaved.{
  PoolTask, starting, connecting, holding, disconnecting, dialing, storing, removing, removing_all,
  closing, finished, PoolCalls, started_client, generated_dialer, begin_dial, after_dial,
  cannot_reconcile, advance_task, pool_step, run_pool,
}
use control_protocol.Reconciler.ConnectionPool.Interleaved.Gaining.{
  put-IsSound, gain-IsSound, spend-IsSound, recount-IsSound,
}
use control_protocol.Reconciler.ConnectionPool.Interleaved.Owners.{
  Owner, place, hand, lost, in_hand, held_by, owned, IsSound, idle-IsSound, remove-IsSound,
  remove_all-IsSound, close-IsSound, held_by-insert,
}
use control_protocol.Reconciler.ConnectionPool.Interleaved.Cancelled.{empty-AllFound}

module _ {K H V : Type 0} ⦃k : Comparable K⦄ ⦃h : Comparable H⦄ where
  module _ {D : Type 0} (options : Options H V D) {forgotten : Option ℕ} where
    dial-IsSound :
        (cc : ConnectionPool K H V) (tasks : Map ℕ (PoolTask K H V)) (i : ℕ) (host : H)
        (failed : Error → PoolTask K H V) (dialed : ClientServiceHolder V → PoolTask K H V)
        → ((e : Error) → in_hand (failed e) ≡ none)
        → ((holder : ClientServiceHolder V) → in_hand (dialed holder) ≡ some holder.cancel_fn)
        → IsSound forgotten cc tasks
        → let t = after_dial options failed dialed (begin_dial options cc host) in
          IsSound forgotten t.pool (insert i t.task tasks)
    unfolding begin_dial generated_dialer started_client after_dial
    dial-IsSound cc tasks i host failed dialed idle has s =
        counted (generated_dialer options cc host (dialer_of options cc.dials))
          (generated (dialer_of options cc.dials))
      where
        counted :
            (r : ConnectionPool K H V × Result (ClientServiceHolder V))
            → (let t = after_dial options failed dialed r in
                IsSound forgotten t.pool (insert i t.task tasks))
            → let t = after_dial options failed dialed (one_more_dial r) in
              IsSound forgotten t.pool (insert i t.task tasks)
        counted (cc', err e) h = recount-IsSound cc' _ _ h
        counted (cc', ok holder) h = recount-IsSound cc' _ _ h

        started :
            (r : Result V)
            → let t = after_dial options failed dialed (started_client options cc r) in
              IsSound forgotten t.pool (insert i t.task tasks)
        started (err e) =
            idle-IsSound
              (record cc {
                contexts = suc cc.contexts;
                cancelled = cc.cancelled ++ cc.contexts ∷ [];
              })
              tasks i (failed e) (idle e) (spend-IsSound cc tasks s)
        started (ok svc) = gain-IsSound cc tasks i (dialed _) (has _) s

        generated :
            (r : Result D)
            → let t = after_dial options failed dialed (generated_dialer options cc host r) in
              IsSound forgotten t.pool (insert i t.task tasks)
        generated (err e) = idle-IsSound cc tasks i (failed e) (idle e) s
        generated (ok dialer) = started (options.start_control_client cc.contexts dialer host)

    advance_task-IsSound :
        (cc : ConnectionPool K H V) (tasks : Map ℕ (PoolTask K H V)) (i : ℕ) (task : PoolTask K H V)
        → lookup i tasks ≡ some task
        → IsSound forgotten cc tasks
        → let t = advance_task options cc task in IsSound forgotten t.pool (insert i t.task tasks)
    unfolding advance_task
    advance_task-IsSound cc tasks i (starting key want) at s = idle-IsSound cc tasks i _ refl s
    advance_task-IsSound cc tasks i (connecting key [] old) at s = idle-IsSound cc tasks i _ refl s
    advance_task-IsSound cc tasks i (connecting key (host ∷ new) old) at s =
        dial-IsSound cc tasks i host cannot_reconcile (λ holder. holding key host holder new old)
          (λ e. refl) (λ holder. refl) s
    advance_task-IsSound cc tasks i (holding key host holder new old) at s =
        put-IsSound cc tasks i _ key host holder (ground (arith, at)) refl s
    advance_task-IsSound cc tasks i (disconnecting key []) at s = idle-IsSound cc tasks i _ refl s
    advance_task-IsSound cc tasks i (disconnecting key (host ∷ old)) at s =
        remove-IsSound cc tasks i _ key host refl s
    advance_task-IsSound cc tasks i (dialing key host) at s =
        dial-IsSound cc tasks i host (λ e. finished (err e)) (storing key host) (λ e. refl)
          (λ holder. refl) s
    advance_task-IsSound cc tasks i (storing key host holder) at s =
        put-IsSound cc tasks i _ key host holder (ground (arith, at)) refl s
    advance_task-IsSound cc tasks i (removing key host) at s =
        remove-IsSound cc tasks i _ key host refl s
    advance_task-IsSound cc tasks i (removing_all key) at s =
        remove_all-IsSound cc tasks i _ key refl s
    advance_task-IsSound cc tasks i closing at s = close-IsSound cc tasks i _ refl s
    advance_task-IsSound cc tasks i (finished r) at s = idle-IsSound cc tasks i _ refl s

    pool_step-IsSound :
        (s : PoolCalls K H V) (i : ℕ)
        → IsSound forgotten s.pool s.tasks
        → IsSound forgotten (pool_step options s i).pool (pool_step options s i).tasks
    unfolding pool_step
    pool_step-IsSound s i sound = elim (Option-cases (lookup i s.tasks)) [
      | inl e ↦ rw (e, pool_step) sound
      | inr (task, e) ↦ rw (e, pool_step) (advance_task-IsSound s.pool s.tasks i task e sound)
    ]

    pub run_pool-IsSound :
        (schedule : List ℕ) (s : PoolCalls K H V)
        → IsSound forgotten s.pool s.tasks
        → IsSound forgotten (run_pool options s schedule).pool (run_pool options s schedule).tasks
    unfolding run_pool
    run_pool-IsSound [] s sound = sound
    run_pool-IsSound (i ∷ schedule) s sound =
        run_pool-IsSound schedule (pool_step options s i) (pool_step-IsSound s i sound)

  -- The goroutines have dialed nothing that is not in the pool.
  abbrev pub NoneHolds : Map ℕ (PoolTask K H V) → Type 0
  NoneHolds tasks = (i : ℕ) → held_by tasks i ≡ none

  pub NoneHolds-insert :
      (i : ℕ) (task : PoolTask K H V) (tasks : Map ℕ (PoolTask K H V))
      → in_hand task ≡ none
      → NoneHolds tasks
      → NoneHolds (insert i task tasks)
  NoneHolds-insert i task tasks idle none_holds j =
      ground (arith, held_by-insert i j task tasks, idle, none_holds j)

  pub new-IsSound : (tasks : Map ℕ (PoolTask K H V)) → NoneHolds tasks → IsSound none new_pool tasks
  unfolding owned
  new-IsSound tasks none_holds = record {
    ledger = record {
      made = λ o i p. absurd (nobody o i p);
      past = λ i p. absurd (ground (arith, p));
      alive = λ o i p. refl;
      own = λ o o' i p q. absurd (nobody o i p);
    };
    found = empty-AllFound K H (ClientServiceHolder V);
  }
    where
      nobody : (o : Owner K H) (i : ℕ) → owned none new_pool tasks o ≢ some i
      nobody (place key host) i p =
          ground (arith, p, lookup-empty {V = Map H (ClientServiceHolder V)} key)
      nobody lost i p = ground (arith, p)
      nobody (hand j) i p = ground (arith, p, none_holds j)

  -- A pool that was just made, and goroutines.
  abbrev pub new_calls : Map ℕ (PoolTask K H V) → PoolCalls K H V
  new_calls tasks = record { pool = new_pool; tasks = tasks; called = [] }

  -- However the steps of goroutines on a new pool interleave, under the same keys or others, and
  -- whatever they dial, remove and close: the context of a connection in the pool was not cancelled,
  -- and it is the context of no other connection in the pool.
  pub run_pool-alive :
      {D : Type 0} (options : Options H V D) (tasks : Map ℕ (PoolTask K H V)) (schedule : List ℕ)
      (key key' : K) (host host' : H) (i : ℕ)
      → NoneHolds tasks
      → context_at (run_pool options (new_calls tasks) schedule).pool key host ≡ some i
      → (key == key' && host == host') ≡ false
      → let cc = (run_pool options (new_calls tasks) schedule).pool in
        (contains i cc.cancelled ≡ false) × (context_at cc key' host' ≢ some i)
  unfolding owned
  run_pool-alive options tasks schedule key key' host host' i none_holds at other =
      let sound =
        run_pool-IsSound options schedule (new_calls tasks) (new-IsSound tasks none_holds) in
      (
        sound.ledger.alive (place key host) i at,
        λ at'. ground (
          arith,
          other,
          k.equal_iff key key',
          h.equal_iff host host',
          sound.ledger.own (place key host) (place key' host') i at at',
        ),
      )
