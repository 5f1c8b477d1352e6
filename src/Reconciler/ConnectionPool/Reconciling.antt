-- ===== src/Reconciler/ConnectionPool/Reconciling.antt =====
-- `ReconcileConnections`: which hosts are connected behind it.
use control_protocol.Prelude.{
  ◌<◌, ◌≡◌, refl, sym, ap, ◌∙◌, inl, inr, true, false, Bool-cases, Option, none, some, List, arith,
}
use control_protocol.Prelude.Equality.{Comparable, ◌==◌, ==_refl, nat_eq}
use control_protocol.Prelude.Maps.{
  Map, lookup, contains, is_some, map_option, lookup-map_values, map_values,
}
use control_protocol.Errors.{Error, ok, err}
use control_protocol.Reconciler.ConnectionPool.{
  Called, ClientServiceHolder, ConnectionPool, Options, set_difference, get_connected_hosts,
  get_services, connect_all, disconnect_all, finish, reconcile_connections,
}
use control_protocol.Reconciler.ConnectionPool.Sparing.{connect_all-Spares}
use control_protocol.Reconciler.ConnectionPool.Hosts.{
  contains-set_difference, holder_at, contains-get_connected_hosts, holder_at-disconnect_all,
  connect_all-Others, connect_all-Grown,
}

-- The host's service in what `GetServices` returns.
abbrev pub service_of : {H V : Type 0} ⦃h : Comparable H⦄ → H → Option (Map H V) → Option V
service_of host none = none
service_of host (some m) = lookup host m

module _ {K H V : Type 0} ⦃k : Comparable K⦄ ⦃h : Comparable H⦄ where
  pub service_of-get_services :
      (cc : ConnectionPool K H V) (key : K) (host : H)
      → service_of host (get_services cc key)
        ≡ map_option (λ holder. holder.service) (holder_at cc key host)
  unfolding get_services
  service_of-get_services cc key host = in_services (lookup key cc.conns)
    where
      in_services :
          (o : Option (Map H (ClientServiceHolder V)))
          → service_of host
              (elim o [ none ↦ none | some m ↦ some (map_values (λ holder. holder.service) m) ])
            ≡ map_option
                (λ holder. holder.service)
                (elim o [ none ↦ none | some m ↦ lookup host m ])
      in_services none = refl
      in_services (some m) = lookup-map_values (λ holder. holder.service) host m

  finish_ok :
      (key : K) (old : List H) (c : ConnectionPool K H V × List (Called H V) × Option Error)
      (services : Option (Map H V))
      → (finish key old c).2 ≡ ok services
      → (c.2 ≡ none)
        × ((finish key old c).0 ≡ disconnect_all c.0 key old)
        × (services ≡ get_services (disconnect_all c.0 key old) key)
  unfolding finish
  finish_ok key old (cc, calls, some e) services h = absurd (ground (arith, h))
  finish_ok key old (cc, calls, none) services h = (refl, refl, ground (arith, h))

  finish_err :
      (key : K) (old : List H) (c : ConnectionPool K H V × List (Called H V) × Option Error)
      (e : Error)
      → (finish key old c).2 ≡ err e
      → (finish key old c).0 ≡ c.0
  unfolding finish
  finish_err key old (cc, calls, some e) e' h = refl
  finish_err key old (cc, calls, none) e h = absurd (ground (arith, h))

  -- What a reconciliation that succeeds leaves in the pool, and returns.
  pub record Reconciled (cc : ConnectionPool K H V) (key : K) (want : List H)
      (services : Option (Map H V)) (cc' : ConnectionPool K H V) : Type 0 where
    pub connected : (host : H) → is_some (holder_at cc' key host) ≡ contains host want
    pub kept :
        (host : H)
        → is_some (holder_at cc key host) ≡ true
        → contains host want ≡ true
        → holder_at cc' key host ≡ holder_at cc key host
    pub other_keys :
        (key' : K) (host : H)
        → (key == key') ≡ false
        → holder_at cc' key' host ≡ holder_at cc key' host
    pub returned :
        (host : H)
        → service_of host services ≡ map_option (λ holder. holder.service) (holder_at cc' key host)

  module _ {D : Type 0} (options : Options H V D) where
    -- `ReconcileConnections` that returns no error: the hosts connected under the key are just those
    -- that are wanted; the ones that were connected before keep their connection; other keys are left
    -- alone; and the map returned holds the service of each connected host.
    pub reconcile_connections-Reconciled :
        (cc : ConnectionPool K H V) (key : K) (want : List H) (services : Option (Map H V))
        → (reconcile_connections options cc key want).2 ≡ ok services
        → Reconciled cc key want services (reconcile_connections options cc key want).0
    unfolding reconcile_connections
    reconcile_connections-Reconciled cc key want services e =
        let existing = get_connected_hosts cc key in
        let new = set_difference want existing in
        let old = set_difference existing want in
        let c = connect_all options cc key new in
        let f = finish_ok key old c services e in
        let others = connect_all-Others options cc key new in
        let grown = connect_all-Grown options cc key new f.0 in
        let new_iff = λ (host : H). contains-set_difference host want existing in
        let old_iff = λ (host : H). contains-set_difference host existing want in
        let was = λ (host : H). contains-get_connected_hosts cc key host in
        record {
          connected = λ host.
              ap (λ p. is_some (holder_at p key host)) f.1
              ∙ ground (
                arith,
                ==_refl key,
                holder_at-disconnect_all c.0 key key old host,
                old_iff host,
                new_iff host,
                was host,
                others key host,
                grown key host,
              );
          kept = λ host there wanted.
              ap (λ p. holder_at p key host) f.1
              ∙ ground (
                arith,
                there,
                wanted,
                holder_at-disconnect_all c.0 key key old host,
                old_iff host,
                new_iff host,
                was host,
                others key host,
              );
          other_keys = λ key' host other.
              ap (λ p. holder_at p key' host) f.1
              ∙ ground
                  (arith, other, holder_at-disconnect_all c.0 key key' old host, others key' host);
          returned = λ host.
              ap (service_of host) f.2
              ∙ service_of-get_services (disconnect_all c.0 key old) key host
              ∙ ap (λ p. map_option (λ holder. holder.service) (holder_at p key host)) (sym f.1);
        }

    -- `ReconcileConnections` that returns an error leaves each connection in the pool, under any key, with
    -- the holder it had, and has not cancelled its context, if the pool made that.
    pub reconcile_connections_failed :
        (cc : ConnectionPool K H V) (key key' : K) (want : List H) (host : H)
        (holder : ClientServiceHolder V) (e : Error)
        → (reconcile_connections options cc key want).2 ≡ err e
        → holder_at cc key' host ≡ some holder
        → holder.cancel_fn < cc.contexts
        → let cc' = (reconcile_connections options cc key want).0 in
          (holder_at cc' key' host ≡ some holder)
          × (contains holder.cancel_fn cc'.cancelled ≡ contains holder.cancel_fn cc.cancelled)
    unfolding reconcile_connections
    reconcile_connections_failed cc key key' want host holder e failed there made =
        let existing = get_connected_hosts cc key in
        let new = set_difference want existing in
        let c = connect_all options cc key new in
        let same = finish_err key (set_difference existing want) c e failed in
        (
          ap (λ p. holder_at p key' host) same
              ∙ connect_all-Others options cc key new key' host (elim (Bool-cases (key == key')) [
                | inl at ↦ ground (
                  arith,
                  at,
                  there,
                  contains-set_difference host want existing,
                  contains-get_connected_hosts cc key host,
                  ap (λ a. is_some (holder_at cc a host)) ((k.equal_iff key key').0 at),
                )
                | inr other ↦ ground (arith, other)
              ])
              ∙ there,
          ap (λ p. contains holder.cancel_fn p.cancelled) same
              ∙ (connect_all-Spares options cc key new).spared holder.cancel_fn made,
        )
