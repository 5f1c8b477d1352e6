-- ===== src/Reconciler/ConnectionPool/Interleaved/Owners.antt =====
-- Who has the contexts that a pool made, while goroutines work on it.
use control_protocol.Prelude.{
  ℕ, ◌≡◌, ◌⊎◌, refl, sym, inl, inr, true, Option-cases, Option, none, some, if◌then◌else◌, arith,
}
use control_protocol.Prelude.Equality.{Comparable, ◌==◌, nat_eq, ==_refl}
use control_protocol.Prelude.Maps.{
  Map, lookup, insert, contains, lookup-insert, lookup-erase, lookup-empty,
}
use control_protocol.Reconciler.ConnectionPool.{
  ClientServiceHolder, ConnectionPool, remove_connection, remove_all_connections, close,
}
use control_protocol.Reconciler.ConnectionPool.Hosts.{holder_at-remove_connection}
use control_protocol.Reconciler.ConnectionPool.Hosts.{context_at}
use control_protocol.Reconciler.ConnectionPool.Contexts.{remove_connection-Keeps, remove_all-Keeps}
use control_protocol.Reconciler.ConnectionPool.Interleaved.{
  PoolTask, starting, connecting, holding, disconnecting, dialing, storing, removing, removing_all,
  closing, finished,
}
use control_protocol.Reconciler.ConnectionPool.Interleaved.Ledger.{Ledger, Ledger-lose}
use control_protocol.Reconciler.ConnectionPool.Interleaved.Cancelled.{
  AllFound, empty-AllFound, remove_connection-AllFound, remove_all-AllFound, remove_connection-from,
  remove_all-from, close-from,
}

-- Who has a context: a connection of the pool, a goroutine that has dialed, or nobody any more.
pub data Owner (K H : Type 0) : Type 0 where
  place : K → H → Owner K H
  hand : ℕ → Owner K H
  lost : Owner K H

module _ {K H V : Type 0} ⦃k : Comparable K⦄ ⦃h : Comparable H⦄ where
  abbrev pub in_hand : PoolTask K H V → Option ℕ
  in_hand (starting key want) = none
  in_hand (connecting key new old) = none
  in_hand (holding key host holder new old) = some holder.cancel_fn
  in_hand (disconnecting key old) = none
  in_hand (dialing key host) = none
  in_hand (storing key host holder) = some holder.cancel_fn
  in_hand (removing key host) = none
  in_hand (removing_all key) = none
  in_hand closing = none
  in_hand (finished r) = none

  abbrev pub held_by : Map ℕ (PoolTask K H V) → ℕ → Option ℕ
  held_by tasks i = elim (lookup i tasks) [ none ↦ none | some task ↦ in_hand task ]

  unfoldable pub owned :
      Option ℕ → ConnectionPool K H V → Map ℕ (PoolTask K H V) → Owner K H → Option ℕ
  owned forgotten cc tasks (place key host) = context_at cc key host
  owned forgotten cc tasks (hand i) = held_by tasks i
  owned forgotten cc tasks lost = forgotten

  pub record IsSound (forgotten : Option ℕ) (cc : ConnectionPool K H V)
      (tasks : Map ℕ (PoolTask K H V)) : Type 0 where
    pub ledger : Ledger (owned forgotten cc tasks) cc.contexts cc.cancelled
    pub found : AllFound cc.conns

  pub held_by-insert :
      (i j : ℕ) (task : PoolTask K H V) (tasks : Map ℕ (PoolTask K H V))
      → held_by (insert i task tasks) j ≡ (if i == j then in_hand task else held_by tasks j)
  held_by-insert i j task tasks = ground (arith, lookup-insert i j task tasks)

  remove_all-Shrinks :
      (cc : ConnectionPool K H V) (key : K)
      → (key' : K) (host : H) (i : ℕ)
      → context_at (remove_all_connections cc key) key' host ≡ some i
      → context_at cc key' host ≡ some i
  unfolding remove_all_connections
  remove_all-Shrinks cc key key' host i p = elim (Option-cases (lookup key cc.conns)) [
    | inl e ↦ ground (arith, p, e)
    | inr (m, e) ↦ ground (arith, p, e, lookup-erase key key' cc.conns)
  ]

  context_at-remove_all :
      (cc : ConnectionPool K H V) (key : K) (host : H)
      → context_at (remove_all_connections cc key) key host ≡ none
  unfolding remove_all_connections
  context_at-remove_all cc key host = elim (Option-cases (lookup key cc.conns)) [
    | inl e ↦ ground (arith, e)
    | inr (m, e) ↦ ground (arith, e, lookup-erase key key cc.conns, ==_refl key)
  ]

module _ {K H V : Type 0} ⦃k : Comparable K⦄ ⦃h : Comparable H⦄ {forgotten : Option ℕ} where
  -- A step that takes connections out of the pool, if any, and leaves the goroutine with none.
  lose-IsSound :
      (cc cc' : ConnectionPool K H V) (tasks : Map ℕ (PoolTask K H V)) (i : ℕ)
      (task : PoolTask K H V)
      → in_hand task ≡ none
      → cc.contexts ≡ cc'.contexts
      → ((key : K) (host : H) (n : ℕ)
          → context_at cc' key host ≡ some n
          → context_at cc key host ≡ some n)
      → ((n : ℕ)
          → contains n cc'.cancelled ≡ true
          → (contains n cc.cancelled ≡ true)
            ⊎ ((key : K) × (host : H) × (context_at cc key host ≡ some n)
                × (context_at cc' key host ≡ none)))
      → AllFound cc'.conns
      → IsSound forgotten cc tasks
      → IsSound forgotten cc' (insert i task tasks)
  unfolding owned
  lose-IsSound cc cc' tasks i task idle same fewer from f s = record {
    ledger =
        Ledger-lose (owned forgotten cc tasks) (owned forgotten cc' (insert i task tasks))
          cc.contexts cc'.contexts cc.cancelled cc'.cancelled same still
          (λ n p. elim (from n p) [
            | inl old ↦ inl old
            | inr (key, host, q, r) ↦ inr (place key host, q, r)
          ])
          s.ledger;
    found = f;
  }
    where
      still :
          (o : Owner K H) (n : ℕ)
          → owned forgotten cc' (insert i task tasks) o ≡ some n
          → owned forgotten cc tasks o ≡ some n
      still (place key host) n p = fewer key host n p
      still lost n p = p
      still (hand j) n p = ground (arith, p, held_by-insert i j task tasks, idle)

  pub idle-IsSound :
      (cc : ConnectionPool K H V) (tasks : Map ℕ (PoolTask K H V)) (i : ℕ) (task : PoolTask K H V)
      → in_hand task ≡ none
      → IsSound forgotten cc tasks
      → IsSound forgotten cc (insert i task tasks)
  idle-IsSound cc tasks i task idle s =
      lose-IsSound cc cc tasks i task idle refl (λ key host n p. p) (λ n p. inl p) s.found s

  pub remove-IsSound :
      (cc : ConnectionPool K H V) (tasks : Map ℕ (PoolTask K H V)) (i : ℕ) (task : PoolTask K H V)
      (key : K) (host : H)
      → in_hand task ≡ none
      → IsSound forgotten cc tasks
      → IsSound forgotten (remove_connection cc key host) (insert i task tasks)
  remove-IsSound cc tasks i task key host idle s =
      let at = λ (key' : K) (host' : H). holder_at-remove_connection cc key key' host host' in
      lose-IsSound cc (remove_connection cc key host) tasks i task idle
        (sym (remove_connection-Keeps cc key host).0)
        (λ key' host' n p. ground (arith, p, at key' host'))
        (λ n p. elim (remove_connection-from cc key host n p) [
          | inl old ↦ inl old
          | inr q ↦ inr (key, host, q, ground (arith, at key host, ==_refl key, ==_refl host))
        ])
        (remove_connection-AllFound cc key host s.found) s

  pub remove_all-IsSound :
      (cc : ConnectionPool K H V) (tasks : Map ℕ (PoolTask K H V)) (i : ℕ) (task : PoolTask K H V)
      (key : K)
      → in_hand task ≡ none
      → IsSound forgotten cc tasks
      → IsSound forgotten (remove_all_connections cc key) (insert i task tasks)
  remove_all-IsSound cc tasks i task key idle s =
      lose-IsSound cc (remove_all_connections cc key) tasks i task idle
        (sym (remove_all-Keeps cc key).0) (remove_all-Shrinks cc key)
        (λ n p. elim (remove_all-from cc key n s.found p) [
          | inl old ↦ inl old
          | inr (host, q) ↦ inr (key, host, q, context_at-remove_all cc key host)
        ])
        (remove_all-AllFound cc key s.found) s

  pub close-IsSound :
      (cc : ConnectionPool K H V) (tasks : Map ℕ (PoolTask K H V)) (i : ℕ) (task : PoolTask K H V)
      → in_hand task ≡ none
      → IsSound forgotten cc tasks
      → IsSound forgotten (close cc) (insert i task tasks)
  unfolding close
  close-IsSound cc tasks i task idle s =
      lose-IsSound cc (close cc) tasks i task idle refl
        (λ key host n p.
          absurd (ground (arith, p, lookup-empty {V = Map H (ClientServiceHolder V)} key)))
        (λ n p. elim (close-from cc n s.found p) [
          | inl old ↦ inl old
          | inr (key, host, q) ↦
              inr
                (key, host, q, ground (arith, lookup-empty {V = Map H (ClientServiceHolder V)} key))
        ])
        (empty-AllFound K H (ClientServiceHolder V)) s
