-- ===== src/Reconciler/ConnectionPool/Interleaved/Leaking.antt =====
-- A connection that is put where there is one: what becomes of the old one's context.
use control_protocol.Prelude.{
  ℕ, ◌≡◌, ◌≢◌, ◌⊎◌, refl, sym, ap, ap₂, subst, ◌∙◌, inl, inr, false, ◌&&◌, Bool-cases, Option, none,
  some, List, ◌++◌, if◌then◌else◌, arith,
}
use control_protocol.Prelude.Equality.{Comparable, ◌==◌, nat_eq, ==_refl}
use control_protocol.Prelude.Maps.{Map, lookup, insert, contains}
use control_protocol.Reconciler.Nested.{get_in-insert_in}
use control_protocol.Reconciler.ConnectionPool.{
  ClientServiceHolder, ConnectionPool, Options, put_holder,
}
use control_protocol.Reconciler.ConnectionPool.Hosts.{holder_at, context_at}
use control_protocol.Reconciler.ConnectionPool.Interleaved.{
  PoolTask, connecting, holding, PoolCalls, advance_task, pool_step, run_pool,
}
use control_protocol.Reconciler.ConnectionPool.Interleaved.Separate.{pool_step-some}
use control_protocol.Reconciler.ConnectionPool.Interleaved.Ledger.{Ledger, Ledger-move}
use control_protocol.Reconciler.ConnectionPool.Interleaved.Cancelled.{put_holder-AllFound}
use control_protocol.Reconciler.ConnectionPool.Interleaved.Owners.{
  Owner, place, hand, lost, in_hand, held_by, owned, IsSound, held_by-insert,
}
use control_protocol.Reconciler.ConnectionPool.Interleaved.Alive.{
  NoneHolds, new_calls, new-IsSound, run_pool-IsSound,
}

module _ {K H V : Type 0} ⦃k : Comparable K⦄ ⦃h : Comparable H⦄ where
  -- The owners while the connection to a host is taken out, and its context `n` belongs to nobody.
  taken : ConnectionPool K H V → Map ℕ (PoolTask K H V) → K → H → ℕ → Owner K H → Option ℕ
  taken cc tasks key host n (place key' host') =
      if key == key' && host == host' then none else context_at cc key' host'
  taken cc tasks key host n (hand j) = held_by tasks j
  taken cc tasks key host n lost = some n

  take-Ledger :
      (cc : ConnectionPool K H V) (tasks : Map ℕ (PoolTask K H V)) (key : K) (host : H) (n : ℕ)
      → context_at cc key host ≡ some n
      → Ledger (owned none cc tasks) cc.contexts cc.cancelled
      → Ledger (taken cc tasks key host n) cc.contexts cc.cancelled
  unfolding owned taken
  take-Ledger cc tasks key host n at l =
      Ledger-move (owned none cc tasks) (taken cc tasks key host n) lost (place key host)
        cc.contexts cc.cancelled from l
    where
      from :
          (o : Owner K H) (i : ℕ)
          → taken cc tasks key host n o ≡ some i
          → ((owned none cc tasks o ≡ some i) × (o ≢ place key host))
            ⊎ ((o ≡ lost) × (context_at cc key host ≡ some i))
      from (place key' host') i p = elim (Bool-cases (key == key' && host == host')) [
        | inl here ↦ absurd (ground (arith, p, here))
        | inr there ↦
            inl (ground (arith, p, there), λ e. ground (arith, e, there, ==_refl key, ==_refl host))
      ]
      from (hand j) i p = inl (p, λ e. ground (arith, e))
      from lost i p = inr (refl, at ∙ p)

  replace-IsSound :
      (cc : ConnectionPool K H V) (tasks : Map ℕ (PoolTask K H V)) (j : ℕ) (task : PoolTask K H V)
      (key : K) (host : H) (holder : ClientServiceHolder V) (n : ℕ)
      → held_by tasks j ≡ some holder.cancel_fn
      → in_hand task ≡ none
      → context_at cc key host ≡ some n
      → IsSound none cc tasks
      → IsSound (some n) (put_holder cc key host holder) (insert j task tasks)
  unfolding put_holder owned taken
  replace-IsSound cc tasks j task key host holder n has idle at s = record {
    ledger =
        Ledger-move (taken cc tasks key host n)
          (owned (some n) (put_holder cc key host holder) (insert j task tasks)) (place key host)
          (hand j) cc.contexts cc.cancelled from (take-Ledger cc tasks key host n at s.ledger);
    found = put_holder-AllFound cc key host holder s.found;
  }
    where
      from :
          (o : Owner K H) (i : ℕ)
          → owned (some n) (put_holder cc key host holder) (insert j task tasks) o ≡ some i
          → ((taken cc tasks key host n o ≡ some i) × (o ≢ hand j))
            ⊎ ((o ≡ place key host) × (held_by tasks j ≡ some i))
      from (place key' host') i p = elim (Bool-cases (key == key' && host == host')) [
        | inl here ↦ inr (
          ap₂ place (sym ((k.equal_iff key key').0 (ground (arith, here))))
              (sym ((h.equal_iff host host').0 (ground (arith, here)))),
          has ∙ ground (arith, p, here, get_in-insert_in cc.conns key key' host host' holder),
        )
        | inr there ↦ inl (
          ground (arith, p, there, get_in-insert_in cc.conns key key' host host' holder),
          λ e. ground (arith, e),
        )
      ]
      from (hand l) i p = elim (Bool-cases (j == l)) [
        | inl own ↦ absurd (ground (arith, p, own, idle, held_by-insert j l task tasks))
        | inr other ↦ inl (
          ground (arith, p, other, held_by-insert j l task tasks),
          λ e. ground (arith, e, other, nat_eq.equal_iff j l),
        )
      ]
      from lost i p = inl (p, λ e. ground (arith, e))

  -- However goroutines used a new pool: a `ReconcileConnections` that puts the host it dialed where
  -- another connection has come to stand puts it in that one's place, and the old one's context was not
  -- cancelled and never is, nor is it that of any connection, whatever the goroutines do from then
  -- on, `Close` included.
  pub run_pool-leaks :
      {D : Type 0} (options : Options H V D) (tasks : Map ℕ (PoolTask K H V))
      (schedule later : List ℕ) (j n : ℕ) (key : K) (host : H) (holder : ClientServiceHolder V)
      (new old : List H)
      → NoneHolds tasks
      → lookup j (run_pool options (new_calls tasks) schedule).tasks
        ≡ some (holding key host holder new old)
      → context_at (run_pool options (new_calls tasks) schedule).pool key host ≡ some n
      → let s = pool_step options (run_pool options (new_calls tasks) schedule) j in
        let cc = (run_pool options s later).pool in
        (holder_at s.pool key host ≡ some holder)
        × (contains n cc.cancelled ≡ false)
        × ((key' : K) (host' : H) → context_at cc key' host' ≢ some n)
  unfolding advance_task put_holder owned
  run_pool-leaks options tasks schedule later j n key host holder new old none_holds dialed at =
      let before = run_pool options (new_calls tasks) schedule in
      let task = connecting key new old in
      let step = pool_step-some options before j (holding key host holder new old) dialed in
      let sound =
        replace-IsSound before.pool before.tasks j task key host holder n (ground (arith, dialed))
          refl at
          (run_pool-IsSound options schedule (new_calls tasks) (new-IsSound tasks none_holds)) in
      let start : PoolCalls K H V = record {
        pool = put_holder before.pool key host holder;
        tasks = insert j task before.tasks;
        called =
            before.called
            ++ (advance_task options before.pool (holding key host holder new old)).called;
      } in
      let l = (run_pool-IsSound options later start sound).ledger in
      let same = λ (X : PoolCalls K H V → Type 0) (x : X start). subst X (sym step) x in
      (
        ap (λ s. holder_at s.pool key host) step
            ∙ get_in-insert_in before.pool.conns key key host host holder
            ∙ ground (arith, ==_refl key, ==_refl host),
        same (λ s. contains n (run_pool options s later).pool.cancelled ≡ false)
            (l.alive lost n refl),
        same
            (λ s.
              (key' : K) (host' : H)
              → context_at (run_pool options s later).pool key' host' ≢ some n)
            (λ key' host' p. ground (arith, l.own (place key' host') lost n p refl)),
      )
