-- ===== src/Reconciler/ConnectionPool/Contexts.antt =====
-- The contexts that the pool made: each is the context of a connection, or cancelled.

use control_protocol.Prelude.{
  ℕ, ◌<◌, ◌≡◌, ◌⊎◌, refl, ap, ap₂, subst, ◌∙◌, inl, inr, true, false, ◌&&◌, Bool-cases,
  Option-cases, Option, none, some, [], ◌∷◌, arith,
}
use control_protocol.Prelude.Equality.{Comparable, ◌==◌, nat_eq, ==_refl}
use control_protocol.Prelude.Maps.{
  contains-append, Map, lookup, erase, contains, values, lookup-erase, Memᴰ-values,
}
use control_protocol.Reconciler.ConnectionPool.{
  ClientServiceHolder, ConnectionPool, cancel_holder, cancel_all, cancel_each, remove_holder,
  remove_connection, remove_all_connections, close,
}
use control_protocol.Reconciler.ConnectionPool.Hosts.{holder_at-remove_connection}
use control_protocol.Reconciler.ConnectionPool.Hosts.{context_at}
use control_protocol.Reconciler.ConnectionPool.Cancelling.{
  cancel_all-keeps, cancel_all-cancels, cancel_each-keeps, cancel_each-cancels,
}

module _ {K H V : Type 0} ⦃k : Comparable K⦄ ⦃h : Comparable H⦄ where
  -- A context of a connection, with the maps that hold it.
  record Found (cc : ConnectionPool K H V) (key : K) (host : H) (i : ℕ) : Type 0 where
    inner : Map H (ClientServiceHolder V)
    holder : ClientServiceHolder V
    at_key : lookup key cc.conns ≡ some inner
    at_host : lookup host inner ≡ some holder
    number : holder.cancel_fn ≡ i

  found :
      (cc : ConnectionPool K H V) (key : K) (host : H) (i : ℕ)
      → context_at cc key host ≡ some i
      → Found cc key host i
  found cc key host i p = elim (Option-cases (lookup key cc.conns)) [
    | inl e ↦ absurd (ground (arith, p, e))
    | inr (m, e) ↦ elim (Option-cases (lookup host m)) [
      | inl f ↦ absurd (ground (arith, p, e, f))
      | inr (x, f) ↦ record {
        inner = m;
        holder = x;
        at_key = e;
        at_host = f;
        number = ground (arith, p, e, f);
      }
    ]
  ]

  pub same_place :
      (cc : ConnectionPool K H V) (key key' : K) (host host' : H) (i : ℕ)
      → (key == key' && host == host') ≡ true
      → context_at cc key' host' ≡ some i
      → context_at cc key host ≡ some i
  same_place cc key key' host host' i same p =
      ap₂ (context_at cc) ((k.equal_iff key key').0 (ground (arith, same)))
        ((h.equal_iff host host').0 (ground (arith, same)))
      ∙ p

  -- The context is that of a connection, or was cancelled.
  abbrev pub Tracked : ConnectionPool K H V → ℕ → Type 0
  Tracked cc i =
      ((key : K) × (host : H) × (context_at cc key host ≡ some i))
      ⊎ (contains i cc.cancelled ≡ true)

  abbrev pub IsTracked : ConnectionPool K H V → Type 0
  IsTracked cc = (i : ℕ) → i < cc.contexts → Tracked cc i

  remove_connection-cancels :
      (cc : ConnectionPool K H V) (key : K) (host : H) (i : ℕ)
      → Found cc key host i
      → contains i (remove_connection cc key host).cancelled ≡ true
  unfolding remove_connection remove_holder cancel_holder
  remove_connection-cancels cc key host i f =
      ground (arith, f, contains-append i cc.cancelled (i ∷ []), ==_refl i)

  -- Nothing that was cancelled is forgotten, and no context is made.
  abbrev pub Keeps : ConnectionPool K H V → ConnectionPool K H V → Type 0
  Keeps cc cc' =
      (cc'.contexts ≡ cc.contexts)
      × ((i : ℕ) → contains i cc.cancelled ≡ true → contains i cc'.cancelled ≡ true)

  pub remove_connection-Keeps :
      (cc : ConnectionPool K H V) (key : K) (host : H) → Keeps cc (remove_connection cc key host)
  unfolding remove_connection remove_holder cancel_holder
  remove_connection-Keeps cc key host = in_map (lookup key cc.conns)
    where
      in_holders :
          (m : Map H (ClientServiceHolder V)) (o : Option (ClientServiceHolder V))
          → Keeps cc (remove_holder cc key host m o)
      in_holders m none = (refl, λ i c. c)
      in_holders m (some x) =
          (refl, λ i c. ground (arith, c, contains-append i cc.cancelled (x.cancel_fn ∷ [])))

      in_map :
          (o : Option (Map H (ClientServiceHolder V)))
          → Keeps cc (elim o [ none ↦ cc | some m ↦ remove_holder cc key host m (lookup host m) ])
      in_map none = (refl, λ i c. c)
      in_map (some m) = in_holders m (lookup host m)

  pub remove_connection-IsTracked :
      (cc : ConnectionPool K H V) (key : K) (host : H)
      → IsTracked cc
      → IsTracked (remove_connection cc key host)
  remove_connection-IsTracked cc key host t i b =
      elim (t i (ground (arith, b, (remove_connection-Keeps cc key host).0))) [
        | inr c ↦ inr ((remove_connection-Keeps cc key host).1 i c)
        | inl (key', host', p) ↦ elim (Bool-cases (key == key' && host == host')) [
          | inl same ↦ inr (
              remove_connection-cancels cc key host i
                (found cc key host i (same_place cc key key' host host' i same p)))
          | inr other ↦ inl (
            key',
            host',
            ground (arith, p, other, holder_at-remove_connection cc key key' host host'),
          )
        ]
      ]

  pub remove_all-Keeps :
      (cc : ConnectionPool K H V) (key : K) → Keeps cc (remove_all_connections cc key)
  unfolding remove_all_connections
  remove_all-Keeps cc key = in_map (lookup key cc.conns)
    where
      in_map :
          (o : Option (Map H (ClientServiceHolder V)))
          → Keeps cc (elim o [
            | none ↦ cc
            | some m ↦ record cc {
              conns = erase key cc.conns;
              cancelled = cancel_all (values m) cc.cancelled;
            }
          ])
      in_map none = (refl, λ i c. c)
      in_map (some m) = (refl, λ i c. cancel_all-keeps i (values m) cc.cancelled c)

  remove_all-cancels :
      (cc : ConnectionPool K H V) (key : K) (host : H) (i : ℕ)
      → Found cc key host i
      → contains i (remove_all_connections cc key).cancelled ≡ true
  unfolding remove_all_connections
  remove_all-cancels cc key host i f = ground (
    arith,
    f,
    cancel_all-cancels f.holder (values f.inner) cc.cancelled
        (Memᴰ-values host f.holder f.inner f.at_host),
  )

  context_at-remove_all :
      (cc : ConnectionPool K H V) (key key' : K) (host : H) (i : ℕ)
      → (key == key') ≡ false
      → context_at cc key' host ≡ some i
      → context_at (remove_all_connections cc key) key' host ≡ some i
  unfolding remove_all_connections
  context_at-remove_all cc key key' host i n p =
      ground (arith, n, p, lookup-erase key key' cc.conns)

  pub remove_all_connections-IsTracked :
      (cc : ConnectionPool K H V) (key : K)
      → IsTracked cc
      → IsTracked (remove_all_connections cc key)
  remove_all_connections-IsTracked cc key t i b =
      elim (t i (ground (arith, b, (remove_all-Keeps cc key).0))) [
        | inr c ↦ inr ((remove_all-Keeps cc key).1 i c)
        | inl (key', host, p) ↦ elim (Bool-cases (key == key')) [
          | inl same ↦ inr (
              remove_all-cancels cc key host i (
                found cc key host i
                  (ap (λ a. context_at cc a host) ((k.equal_iff key key').0 same) ∙ p)))
          | inr other ↦ inl (key', host, context_at-remove_all cc key key' host i other p)
        ]
      ]

  -- `Close` cancels every context that the pool keeps track of.
  pub close-cancels :
      (cc : ConnectionPool K H V) (i : ℕ)
      → IsTracked cc
      → i < cc.contexts
      → contains i (close cc).cancelled ≡ true
  unfolding close
  close-cancels cc i t b = elim (t i b) [
    | inr c ↦ cancel_each-keeps i (values cc.conns) cc.cancelled c
    | inl (key, host, p) ↦
        let f = found cc key host i p in
        subst (λ j. contains j (cancel_each (values cc.conns) cc.cancelled) ≡ true) f.number
          (cancel_each-cancels f.holder f.inner (values cc.conns) cc.cancelled
            (Memᴰ-values key f.inner cc.conns f.at_key)
            (Memᴰ-values host f.holder f.inner f.at_host))
  ]
