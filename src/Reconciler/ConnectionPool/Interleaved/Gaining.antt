-- ===== src/Reconciler/ConnectionPool/Interleaved/Gaining.antt =====
-- Steps that make a context, and that put a connection into the pool.
use control_protocol.Prelude.{
  Option, ℕ, suc, ◌≡◌, ◌≢◌, ◌⊎◌, refl, sym, ap, ap₂, ◌∙◌, inl, inr, ◌&&◌, Bool-cases, none, some,
  [], ◌∷◌, ◌++◌, arith,
}
use control_protocol.Prelude.Equality.{Comparable, ◌==◌, nat_eq}
use control_protocol.Prelude.Maps.{Map, insert}
use control_protocol.Reconciler.Nested.{get_in-insert_in}
use control_protocol.Reconciler.ConnectionPool.{ClientServiceHolder, ConnectionPool, put_holder}
use control_protocol.Reconciler.ConnectionPool.Interleaved.{PoolTask}
use control_protocol.Reconciler.ConnectionPool.Interleaved.Ledger.{
  Ledger-spend, Ledger-gain, Ledger-move, Ledger-lose,
}
use control_protocol.Reconciler.ConnectionPool.Interleaved.Cancelled.{put_holder-AllFound}
use control_protocol.Reconciler.ConnectionPool.Interleaved.Owners.{
  Owner, place, hand, lost, in_hand, held_by, owned, IsSound, held_by-insert,
}

module _ {K H V : Type 0} ⦃k : Comparable K⦄ ⦃h : Comparable H⦄ {forgotten : Option ℕ} where
  pub put-IsSound :
      (cc : ConnectionPool K H V) (tasks : Map ℕ (PoolTask K H V)) (i : ℕ) (task : PoolTask K H V)
      (key : K) (host : H) (holder : ClientServiceHolder V)
      → held_by tasks i ≡ some holder.cancel_fn
      → in_hand task ≡ none
      → IsSound forgotten cc tasks
      → IsSound forgotten (put_holder cc key host holder) (insert i task tasks)
  unfolding put_holder owned
  put-IsSound cc tasks i task key host holder has idle s = record {
    ledger =
        Ledger-move (owned forgotten cc tasks)
          (owned forgotten (put_holder cc key host holder) (insert i task tasks)) (place key host)
          (hand i) cc.contexts cc.cancelled from s.ledger;
    found = put_holder-AllFound cc key host holder s.found;
  }
    where
      from :
          (o : Owner K H) (n : ℕ)
          → owned forgotten (put_holder cc key host holder) (insert i task tasks) o ≡ some n
          → ((owned forgotten cc tasks o ≡ some n) × (o ≢ hand i))
            ⊎ ((o ≡ place key host) × (held_by tasks i ≡ some n))
      from (place key' host') n p = elim (Bool-cases (key == key' && host == host')) [
        | inl here ↦ inr (
          ap₂ place (sym ((k.equal_iff key key').0 (ground (arith, here))))
              (sym ((h.equal_iff host host').0 (ground (arith, here)))),
          has ∙ ground (arith, p, here, get_in-insert_in cc.conns key key' host host' holder),
        )
        | inr there ↦ inl (
          ground (arith, p, there, get_in-insert_in cc.conns key key' host host' holder),
          λ e. ground (arith, e),
        )
      ]
      from lost n p = inl (p, λ e. ground (arith, e))
      from (hand j) n p = elim (Bool-cases (i == j)) [
        | inl own ↦ absurd (ground (arith, p, own, idle, held_by-insert i j task tasks))
        | inr other ↦ inl (
          ground (arith, p, other, held_by-insert i j task tasks),
          λ e. ground (arith, e, other, nat_eq.equal_iff i j),
        )
      ]

  pub gain-IsSound :
      (cc : ConnectionPool K H V) (tasks : Map ℕ (PoolTask K H V)) (i : ℕ) (task : PoolTask K H V)
      → in_hand task ≡ some cc.contexts
      → IsSound forgotten cc tasks
      → IsSound forgotten (record cc { contexts = suc cc.contexts }) (insert i task tasks)
  unfolding owned
  gain-IsSound cc tasks i task has s = record {
    ledger =
        Ledger-gain (owned forgotten cc tasks)
          (owned forgotten (record cc { contexts = suc cc.contexts }) (insert i task tasks))
          (hand i) cc.contexts cc.cancelled from s.ledger;
    found = s.found;
  }
    where
      from :
          (o : Owner K H) (n : ℕ)
          → owned forgotten (record cc { contexts = suc cc.contexts }) (insert i task tasks) o
            ≡ some n
          → (owned forgotten cc tasks o ≡ some n) ⊎ ((o ≡ hand i) × (n ≡ cc.contexts))
      from (place key host) n p = inl p
      from lost n p = inl p
      from (hand j) n p = elim (Bool-cases (i == j)) [
        | inl own ↦ inr (
          ap hand (sym ((nat_eq.equal_iff i j).0 own)),
          ground (arith, p, own, has, held_by-insert i j task tasks),
        )
        | inr other ↦ inl (ground (arith, p, other, held_by-insert i j task tasks))
      ]

  pub spend-IsSound :
      (cc : ConnectionPool K H V) (tasks : Map ℕ (PoolTask K H V))
      → IsSound forgotten cc tasks
      → IsSound forgotten
          (record cc { contexts = suc cc.contexts; cancelled = cc.cancelled ++ cc.contexts ∷ [] })
          tasks
  unfolding owned
  spend-IsSound cc tasks s = record {
    ledger =
        Ledger-lose (owned forgotten cc tasks) (owned forgotten spent tasks) (suc cc.contexts)
          (suc cc.contexts) spent.cancelled spent.cancelled refl same (λ n p. inl p)
          (Ledger-spend (owned forgotten cc tasks) cc.contexts cc.cancelled s.ledger);
    found = s.found;
  }
    where
      spent : ConnectionPool K H V
      spent = record cc { contexts = suc cc.contexts; cancelled = cc.cancelled ++ cc.contexts ∷ [] }

      same :
          (o : Owner K H) (n : ℕ)
          → owned forgotten spent tasks o ≡ some n
          → owned forgotten cc tasks o ≡ some n
      same (place key host) n p = p
      same lost n p = p
      same (hand i) n p = p

  pub recount-IsSound :
      (cc : ConnectionPool K H V) (tasks : Map ℕ (PoolTask K H V)) (n : ℕ)
      → IsSound forgotten cc tasks
      → IsSound forgotten (record cc { dials = n }) tasks
  unfolding owned
  recount-IsSound cc tasks n s = record {
    ledger =
        Ledger-lose (owned forgotten cc tasks) (owned forgotten (record cc { dials = n }) tasks)
          cc.contexts cc.contexts cc.cancelled cc.cancelled refl same (λ i p. inl p) s.ledger;
    found = s.found;
  }
    where
      same :
          (o : Owner K H) (i : ℕ)
          → owned forgotten (record cc { dials = n }) tasks o ≡ some i
          → owned forgotten cc tasks o ≡ some i
      same (place key host) i p = p
      same lost i p = p
      same (hand j) i p = p
