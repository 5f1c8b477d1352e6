-- ===== src/Reconciler/ConnectionPool/Interleaved/Steps.antt =====
-- How many steps a reconciliation has left.
use control_protocol.Prelude.{
  ℕ, suc, ◌+◌, ◌-◌, ◌*◌, ◌≤◌, ◌≡◌, refl, ap, Option, List, [], ◌∷◌, length, arith,
}
use control_protocol.Prelude.Equality.{Comparable}
use control_protocol.Prelude.Maps.{Map}
use control_protocol.Errors.{Result, ok, err}
use control_protocol.Reconciler.ConnectionPool.{
  ClientServiceHolder, ConnectionPool, Options, set_difference, get_connected_hosts, hosts_of,
}
use control_protocol.Reconciler.ConnectionPool.Interleaved.{
  PoolTask, starting, connecting, holding, disconnecting, dialing, storing, removing, removing_all,
  closing, finished, begin_dial, after_dial, cannot_reconcile, advance_task,
}
use control_protocol.Reconciler.ConnectionPool.Interleaved.Frame.{SameAt}
use control_protocol.Reconciler.ConnectionPool.Interleaved.Progress.{Goes}

pub length-set_difference :
    {H : Type 0} ⦃h : Comparable H⦄ (a b : List H) → length (set_difference a b) ≤ length a
unfolding set_difference
length-set_difference [] b = omega arith
length-set_difference (x ∷ a) b = ground (arith, length-set_difference a b)

module _ {K H V : Type 0} ⦃k : Comparable K⦄ ⦃h : Comparable H⦄ (key : K) where
  -- At most so many steps are left to a goroutine that works under the key.
  unfoldable pub steps_left : ConnectionPool K H V → PoolTask K H V → ℕ
  steps_left cc (starting key' want) = 3 + 2 * length want + length (get_connected_hosts cc key)
  steps_left cc (connecting key' new old) = 2 + 2 * length new + length old
  steps_left cc (holding key' host holder new old) = 3 + 2 * length new + length old
  steps_left cc (disconnecting key' old) = 1 + length old
  steps_left cc (dialing key' host) = 2
  steps_left cc (storing key' host holder) = 1
  steps_left cc (removing key' host) = 1
  steps_left cc (removing_all key') = 1
  steps_left cc closing = 1
  steps_left cc (finished r) = 0

  pub steps_left-SameAt :
      (cc cc' : ConnectionPool K H V) (task : PoolTask K H V)
      → SameAt key cc cc'
      → steps_left cc' task ≡ steps_left cc task
  unfolding steps_left get_connected_hosts
  steps_left-SameAt cc cc' (starting key' want) same =
      ap (λ o. 3 + 2 * length want + length (hosts_of o)) same
  steps_left-SameAt cc cc' (connecting key' new old) same = refl
  steps_left-SameAt cc cc' (holding key' host holder new old) same = refl
  steps_left-SameAt cc cc' (disconnecting key' old) same = refl
  steps_left-SameAt cc cc' (dialing key' host) same = refl
  steps_left-SameAt cc cc' (storing key' host holder) same = refl
  steps_left-SameAt cc cc' (removing key' host) same = refl
  steps_left-SameAt cc cc' (removing_all key') same = refl
  steps_left-SameAt cc cc' closing same = refl
  steps_left-SameAt cc cc' (finished r) same = refl

  module _ {D : Type 0} (options : Options H V D) (want : List H)
      (before : ConnectionPool K H V) where
    pub advance_task-steps_left :
        (cc : ConnectionPool K H V) (task : PoolTask K H V)
        → Goes key want before cc task
        → let s = advance_task options cc task in steps_left s.pool s.task ≤ steps_left cc task - 1
    unfolding advance_task steps_left after_dial Goes
    advance_task-steps_left cc (starting key' want') (p, q, same) = ground (
      arith,
      length-set_difference want' (get_connected_hosts cc key'),
      length-set_difference (get_connected_hosts cc key') want',
      ap (λ j. length (get_connected_hosts cc j)) p,
    )
    advance_task-steps_left cc (connecting key' [] old) g = omega arith
    advance_task-steps_left cc (connecting key' (host ∷ new) old) g =
        dialed (begin_dial options cc host)
      where
        dialed :
            (r : ConnectionPool K H V × Result (ClientServiceHolder V))
            → let s =
                after_dial options cannot_reconcile
                  (λ holder. holding key' host holder new old)
                  r in
              steps_left s.pool s.task ≤ 2 + 2 * suc (length new) + length old - 1
        dialed (cc', err e) = omega arith
        dialed (cc', ok holder) = omega arith
    advance_task-steps_left cc (holding key' host holder new old) g = omega arith
    advance_task-steps_left cc (disconnecting key' []) g = omega arith
    advance_task-steps_left cc (disconnecting key' (host ∷ old)) g = omega arith
    advance_task-steps_left cc (dialing key' host) g = absurd (ground (arith, g))
    advance_task-steps_left cc (storing key' host holder) g = omega arith
    advance_task-steps_left cc (removing key' host) g = omega arith
    advance_task-steps_left cc (removing_all key') g = omega arith
    advance_task-steps_left cc closing g = omega arith
    advance_task-steps_left cc (finished r) g = omega arith

    -- Where no step is left the reconciliation has returned.
    pub steps_left_none :
        (cc : ConnectionPool K H V) (task : PoolTask K H V)
        → steps_left cc task ≤ 0
        → (r : Result (Option (Map H V))) × (task ≡ finished r)
    unfolding steps_left
    steps_left_none cc (starting key' want') z = absurd (omega (arith, z))
    steps_left_none cc (connecting key' new old) z = absurd (omega (arith, z))
    steps_left_none cc (holding key' host holder new old) z = absurd (omega (arith, z))
    steps_left_none cc (disconnecting key' old) z = absurd (omega (arith, z))
    steps_left_none cc (dialing key' host) z = absurd (omega (arith, z))
    steps_left_none cc (storing key' host holder) z = absurd (omega (arith, z))
    steps_left_none cc (removing key' host) z = absurd (omega (arith, z))
    steps_left_none cc (removing_all key') z = absurd (omega (arith, z))
    steps_left_none cc closing z = absurd (omega (arith, z))
    steps_left_none cc (finished r) z = (r, refl)
