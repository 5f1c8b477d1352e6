-- ===== src/Reconciler/ConnectionPool/Interleaved/Separate.antt =====
-- A reconciliation beside goroutines that work under other keys.
use control_protocol.Prelude.{
  ℕ, suc, ◌+◌, ◌-◌, ◌*◌, ◌≤◌, ◌≡◌, refl, sym, ap, subst, ◌∙◌, inl, inr, false, Bool-cases,
  Option-cases, Option, none, some, List, [], ◌∷◌, ◌++◌, length, if◌then◌else◌, arith,
}
use control_protocol.Prelude.Equality.{Comparable, ◌==◌, ==_refl, nat_eq}
use control_protocol.Prelude.Maps.{Map, lookup, insert, lookup-insert, insert_each}
use control_protocol.Errors.{Result}
use control_protocol.Reconciler.ConnectionPool.{ConnectionPool, Options, get_connected_hosts}
use control_protocol.Reconciler.ConnectionPool.Interleaved.{
  PoolTask, starting, finished, PoolCalls, advance_task, pool_step, run_pool,
}
use control_protocol.Reconciler.ConnectionPool.Interleaved.Frame.{Avoids, advance_task-Avoids}
use control_protocol.Reconciler.ConnectionPool.Interleaved.Progress.{Goes, Ends, Goes-SameAt}
use control_protocol.Reconciler.ConnectionPool.Interleaved.Advancing.{advance_task-Goes}
use control_protocol.Reconciler.ConnectionPool.Interleaved.Steps.{
  steps_left, steps_left-SameAt, advance_task-steps_left, steps_left_none,
}

-- How often it is the turn of goroutine `i`.
abbrev pub turns_of : ℕ → List ℕ → ℕ
turns_of i [] = 0
turns_of i (j ∷ schedule) = let rest = turns_of i schedule in if i == j then suc rest else rest

module _ {K H V : Type 0} ⦃k : Comparable K⦄ ⦃h : Comparable H⦄ where
  -- All goroutines but `i` do nothing under the key.
  abbrev pub AvoidedBut : ℕ → K → Map ℕ (PoolTask K H V) → Type 0
  AvoidedBut i key tasks =
      (j : ℕ) (task : PoolTask K H V)
      → lookup j tasks ≡ some task
      → (i == j) ≡ false
      → Avoids key task

  pub AvoidedBut-insert :
      (i j : ℕ) (key : K) (task : PoolTask K H V) (tasks : Map ℕ (PoolTask K H V))
      → ((i == j) ≡ false → Avoids key task)
      → AvoidedBut i key tasks
      → AvoidedBut i key (insert j task tasks)
  AvoidedBut-insert i j key task tasks =
      insert_each (λ l other. (i == l) ≡ false → Avoids key other) j task tasks

  module _ {D : Type 0} (options : Options H V D) where
    pub pool_step-some :
        (s : PoolCalls K H V) (i : ℕ) (task : PoolTask K H V)
        → lookup i s.tasks ≡ some task
        → let r = advance_task options s.pool task in
          pool_step options s i
          ≡ record { pool = r.pool; tasks = insert i r.task s.tasks; called = s.called ++ r.called }
    unfolding pool_step
    pool_step-some s i task e = ground (arith, e)

    pool_step-none :
        (s : PoolCalls K H V) (i : ℕ) → lookup i s.tasks ≡ none → pool_step options s i ≡ s
    unfolding pool_step
    pool_step-none s i e = ground (arith, e)

  module _ {D : Type 0} (options : Options H V D) (i : ℕ) (key : K) (want : List H)
      (before : ConnectionPool K H V) where
    -- Goroutine `i` reconciles the key, in at most `n` more steps, and the others avoid it.
    record Runs (s : PoolCalls K H V) (n : ℕ) : Type 0 where
      task : PoolTask K H V
      at : lookup i s.tasks ≡ some task
      goes : Goes key want before s.pool task
      left : steps_left key s.pool task ≤ n
      others : AvoidedBut i key s.tasks

    own-Runs :
        (s : PoolCalls K H V) (n : ℕ)
        → Runs s n
        → (task : PoolTask K H V) → lookup i s.tasks ≡ some task
        → Goes key want before s.pool task
        → steps_left key s.pool task ≤ n
        → Runs (pool_step options s i) (n - 1)
    own-Runs s n r task at goes left =
        let t = advance_task options s.pool task in
        subst (λ s'. Runs s' (n - 1)) (sym (pool_step-some options s i task at))
          (record {
            task = t.task;
            at = lookup-insert i i t.task s.tasks ∙ ground (arith, ==_refl i);
            goes = advance_task-Goes key want before options s.pool task goes;
            left =
                omega
                  (arith, left, advance_task-steps_left key options want before s.pool task goes);
            others =
                AvoidedBut-insert i i key t.task s.tasks
                  (λ n. absurd (ground (arith, n, ==_refl i))) r.others;
          })

    other-Runs :
        (s : PoolCalls K H V) (j n : ℕ) (task : PoolTask K H V)
        → (i == j) ≡ false
        → lookup j s.tasks ≡ some task
        → Runs s n
        → Runs (pool_step options s j) n
    other-Runs s j n task other at r =
        let t = advance_task options s.pool task in
        let a = advance_task-Avoids options s.pool key task (r.others j task at other) in
        subst (λ s'. Runs s' n) (sym (pool_step-some options s j task at))
          (record {
            task = r.task;
            at =
                lookup-insert j i t.task s.tasks
                ∙ ground (arith, other, r.at, nat_eq.equal_iff j i, ==_refl i);
            goes = Goes-SameAt key want before s.pool t.pool r.task a.1 r.goes;
            left = omega (arith, r.left, steps_left-SameAt key s.pool t.pool r.task a.1);
            others = AvoidedBut-insert i j key t.task s.tasks (λ n. a.0) r.others;
          })

    pool_step-Runs :
        (s : PoolCalls K H V) (j n : ℕ)
        → Runs s n
        → Runs (pool_step options s j) (n - (if i == j then 1 else 0))
    pool_step-Runs s j n r = elim (Bool-cases (i == j)) [
      | inl own ↦
          subst (λ l. Runs (pool_step options s l) (n - (if i == j then 1 else 0)))
            ((nat_eq.equal_iff i j).0 own)
            (subst (Runs (pool_step options s i)) (ground (arith, own))
              (own-Runs s n r r.task r.at r.goes r.left))
      | inr other ↦
          subst (Runs (pool_step options s j)) (ground (arith, other))
            (elim (Option-cases (lookup j s.tasks)) [
              | inl idle ↦ subst (λ s'. Runs s' n) (sym (pool_step-none options s j idle)) r
              | inr (task, at) ↦ other-Runs s j n task other at r
            ])
    ]

    run_pool-Runs :
        (schedule : List ℕ) (s : PoolCalls K H V) (n : ℕ)
        → Runs s n
        → Runs (run_pool options s schedule) (n - turns_of i schedule)
    unfolding run_pool
    run_pool-Runs [] s n r = subst (Runs s) (omega arith) r
    run_pool-Runs (j ∷ schedule) s n r =
        subst (Runs (run_pool options (pool_step options s j) schedule)) (ground arith) (
          run_pool-Runs schedule (pool_step options s j) (n - (if i == j then 1 else 0))
            (pool_step-Runs s j n r))

    Runs-Ends :
        (s : PoolCalls K H V)
        → Runs s 0
        → (r : Result (Option (Map H V))) × (lookup i s.tasks ≡ some (finished r))
          × Ends key want before s.pool r
    unfolding Goes
    Runs-Ends s r =
        let done = steps_left_none key options want before s.pool r.task r.left in
        (done.0, r.at ∙ ap some done.1, subst (Goes key want before s.pool) done.1 r.goes)

    Starts :
        (s : PoolCalls K H V)
        → before ≡ s.pool
        → lookup i s.tasks ≡ some (starting key want)
        → AvoidedBut i key s.tasks
        → Runs s (3 + 2 * length want + length (get_connected_hosts s.pool key))
    unfolding Goes steps_left
    Starts s same at others = record {
      task = starting key want;
      at = at;
      goes = (refl, refl, ap (λ cc. lookup key cc.conns) (sym same));
      left = omega arith;
      others = others;
    }

  -- However the steps of goroutines on one pool interleave: a `ReconcileConnections` beside goroutines that
  -- do nothing under its key, and do not close the pool, has returned once it had three steps, two for
  -- each host wanted and one for each host connected at its start. If it returned no error, the hosts
  -- connected under the key are those wanted, the ones connected at its start with their connections
  -- of then, and the map returned holds their services. If it returned an error, every connection
  -- under the key at its start is still there.
  pub run_pool-Ends :
      {D : Type 0} (options : Options H V D) (i : ℕ) (key : K) (want : List H) (s : PoolCalls K H V)
      (schedule : List ℕ)
      → lookup i s.tasks ≡ some (starting key want)
      → AvoidedBut i key s.tasks
      → 3 + 2 * length want + length (get_connected_hosts s.pool key) ≤ turns_of i schedule
      → let s' = run_pool options s schedule in
        (r : Result (Option (Map H V))) × (lookup i s'.tasks ≡ some (finished r))
        × Ends key want s.pool s'.pool r
  run_pool-Ends options i key want s schedule at others enough =
      let start = Starts options i key want s.pool s refl at others in
      let n = 3 + 2 * length want + length (get_connected_hosts s.pool key) in
      Runs-Ends options i key want s.pool (run_pool options s schedule) (
        subst (Runs options i key want s.pool (run_pool options s schedule)) (omega (arith, enough))
          (run_pool-Runs options i key want s.pool schedule s n start))
