-- ===== src/Reconciler/ConnectionPool/Interleaved/Cancelled.antt =====
-- What the pool's operations cancel is the contexts of connections that they take out of the pool.

use control_protocol.Prelude.{
  ℕ, ◌≡◌, ◌⊎◌, subst, inl, inr, true, Bool-cases, Option-cases, some, [], ◌∷◌, if_both, arith,
}
use control_protocol.Prelude.Equality.{Comparable, ◌==◌, nat_eq}
use control_protocol.Prelude.Maps.{
  Map, empty, lookup, insert, erase, is_empty, values, contains, contains-append, lookup-insert,
  lookup-erase, lookup-empty,
}
use control_protocol.Prelude.Maps.Entries.{
  IsFound, empty-IsFound, insert-IsFound, erase-IsFound, values-IsFound,
}
use control_protocol.Reconciler.Nested.{Nested, inner_or_new, put_or_delete}
use control_protocol.Reconciler.ConnectionPool.{
  ClientServiceHolder, ConnectionPool, cancel_holder, remove_holder, remove_connection,
  remove_all_connections, close, put_holder,
}
use control_protocol.Reconciler.ConnectionPool.Cancelling.{cancel_all-from, cancel_each-from}
use control_protocol.Reconciler.ConnectionPool.Hosts.{context_at}

module _ {K H W : Type 0} ⦃k : Comparable K⦄ ⦃h : Comparable H⦄ where
  -- A lookup finds every entry of the maps.
  pub record AllFound (n : Nested K H W) : Type 0 where
    pub outer : IsFound n
    pub inner : (key : K) (m : Map H W) → lookup key n ≡ some m → IsFound m

  insert-AllFound :
      (n : Nested K H W) (key : K) (m : Map H W)
      → IsFound m
      → AllFound n
      → AllFound (insert key m n)
  insert-AllFound n key m f a = record {
    outer = insert-IsFound key m n a.outer;
    inner = λ key' m' at. elim (Bool-cases (key == key')) [
      | inl same ↦ subst IsFound (ground (arith, at, lookup-insert key key' m n, same)) f
      | inr other ↦ a.inner key' m' (ground (arith, at, lookup-insert key key' m n, other))
    ];
  }

  erase-AllFound : (n : Nested K H W) (key : K) → AllFound n → AllFound (erase key n)
  erase-AllFound n key a = record {
    outer = erase-IsFound key n a.outer;
    inner = λ key' m' at. a.inner key' m' (ground (arith, at, lookup-erase key key' n));
  }

  inner_or_new-IsFound :
      (n : Nested K H W) (key : K) → AllFound n → IsFound (inner_or_new (lookup key n))
  inner_or_new-IsFound n key a = elim (Option-cases (lookup key n)) [
    | inl e ↦ rw e (empty-IsFound H W)
    | inr (m, e) ↦ rw e (a.inner key m e)
  ]

  put_or_delete-AllFound :
      (n : Nested K H W) (key : K) (m : Map H W)
      → IsFound m
      → AllFound n
      → AllFound (put_or_delete n key m)
  unfolding put_or_delete
  put_or_delete-AllFound n key m f a =
      if_both AllFound (is_empty m) (erase-AllFound n key a) (insert-AllFound n key m f a)

pub empty-AllFound :
    (K H W : Type 0) ⦃k : Comparable K⦄ ⦃h : Comparable H⦄ → AllFound (empty {K = K} {V = Map H W})
empty-AllFound K H W = record {
  outer = empty-IsFound K (Map H W);
  inner = λ key m at. absurd (ground (arith, at, lookup-empty {V = Map H W} key));
}

module _ {K H V : Type 0} ⦃k : Comparable K⦄ ⦃h : Comparable H⦄ where
  pub put_holder-AllFound :
      (cc : ConnectionPool K H V) (key : K) (host : H) (holder : ClientServiceHolder V)
      → AllFound cc.conns
      → AllFound (put_holder cc key host holder).conns
  unfolding put_holder
  put_holder-AllFound cc key host holder a =
      insert-AllFound cc.conns key (insert host holder (inner_or_new (lookup key cc.conns)))
        (insert-IsFound host holder (inner_or_new (lookup key cc.conns))
          (inner_or_new-IsFound cc.conns key a))
        a

  pub remove_connection-AllFound :
      (cc : ConnectionPool K H V) (key : K) (host : H)
      → AllFound cc.conns
      → AllFound (remove_connection cc key host).conns
  unfolding remove_connection remove_holder
  remove_connection-AllFound cc key host a = elim (Option-cases (lookup key cc.conns)) [
    | inl e ↦ rw (e, remove_connection) a
    | inr (m, e) ↦ elim (Option-cases (lookup host m)) [
      | inl f ↦ rw (e, f, remove_connection) a
      | inr (x, f) ↦
          rw (e, f, remove_connection)
            (put_or_delete-AllFound cc.conns key (erase host m)
              (erase-IsFound host m (a.inner key m e)) a)
    ]
  ]

  pub remove_all-AllFound :
      (cc : ConnectionPool K H V) (key : K)
      → AllFound cc.conns
      → AllFound (remove_all_connections cc key).conns
  unfolding remove_all_connections
  remove_all-AllFound cc key a = elim (Option-cases (lookup key cc.conns)) [
    | inl e ↦ rw (e, remove_all_connections) a
    | inr (m, e) ↦ rw (e, remove_all_connections) (erase-AllFound cc.conns key a)
  ]

  pub remove_connection-from :
      (cc : ConnectionPool K H V) (key : K) (host : H) (i : ℕ)
      → contains i (remove_connection cc key host).cancelled ≡ true
      → (contains i cc.cancelled ≡ true) ⊎ (context_at cc key host ≡ some i)
  unfolding remove_connection remove_holder cancel_holder
  remove_connection-from cc key host i p = elim (Option-cases (lookup key cc.conns)) [
    | inl e ↦ inl (ground (arith, p, e))
    | inr (m, e) ↦ elim (Option-cases (lookup host m)) [
      | inl f ↦ inl (ground (arith, p, e, f))
      | inr (x, f) ↦ elim (Bool-cases (contains i cc.cancelled)) [
        | inl old ↦ inl old
        | inr n ↦
            inr (ground (arith, p, e, f, n, contains-append i cc.cancelled (x.cancel_fn ∷ [])))
      ]
    ]
  ]

  pub remove_all-from :
      (cc : ConnectionPool K H V) (key : K) (i : ℕ)
      → AllFound cc.conns
      → contains i (remove_all_connections cc key).cancelled ≡ true
      → (contains i cc.cancelled ≡ true) ⊎ ((host : H) × (context_at cc key host ≡ some i))
  unfolding remove_all_connections
  remove_all-from cc key i a p = elim (Option-cases (lookup key cc.conns)) [
    | inl e ↦ inl (ground (arith, p, e))
    | inr (m, e) ↦ elim (cancel_all-from i (values m) cc.cancelled (ground (arith, p, e))) [
      | inl old ↦ inl old
      | inr (x, mem, q) ↦
          let at = values-IsFound m x (a.inner key m e) mem in
          inr (at.0, ground (arith, e, at.1, q))
    ]
  ]

  pub close-from :
      (cc : ConnectionPool K H V) (i : ℕ)
      → AllFound cc.conns
      → contains i (close cc).cancelled ≡ true
      → (contains i cc.cancelled ≡ true)
        ⊎ ((key : K) × (host : H) × (context_at cc key host ≡ some i))
  unfolding close
  close-from cc i a p = elim (cancel_each-from i (values cc.conns) cc.cancelled p) [
    | inl old ↦ inl old
    | inr (m, there, x, mem, q) ↦
        let e = values-IsFound cc.conns m a.outer there in
        let at = values-IsFound m x (a.inner e.0 m e.1) mem in
        inr (e.0, at.0, ground (arith, e.1, at.1, q))
  ]
