-- ===== src/Reconciler/ConnectionPool/Tracking.antt =====
-- Dialing and reconciling keep track of the contexts, where no connection is replaced.
use control_protocol.Prelude.{
  suc, ◌≡◌, ap, ◌∙◌, inl, inr, true, false, ◌&&◌, if_both, Bool-cases, Option, none, some, List, [],
  ◌∷◌, ◌==ℕ◌, if◌then◌else◌, arith,
}
use control_protocol.Prelude.Equality.{Comparable, ◌==◌, nat_eq, ==_refl}
use control_protocol.Prelude.Maps.{contains-append, contains}
use control_protocol.Errors.{Error, Result, ok, err}
use control_protocol.Reconciler.Nested.{get_in, get_in-insert_in}
use control_protocol.Reconciler.ConnectionPool.{
  ConnectionPool, Options, Called, set_difference, get_connected_hosts, remove_connection, close,
  dialer_of, put_holder, keep_client, start_client, dial_control_service, apply_wrappers,
  connect_round, connect_all, disconnect_all, finish, reconcile_connections,
}
use control_protocol.Reconciler.ConnectionPool.Hosts.{
  holder_at, Dialed, dial-Dialed, contains-set_difference, contains-get_connected_hosts,
}
use control_protocol.Reconciler.ConnectionPool.Hosts.{context_at}
use control_protocol.Reconciler.ConnectionPool.Contexts.{
  IsTracked, same_place, remove_connection-IsTracked, close-cancels,
}

-- A list of hosts without repetition.
unfoldable pub Distinct : {A : Type 0} ⦃eq : Comparable A⦄ → List A → Type 0
Distinct [] = Unit
Distinct (x ∷ l) = (contains x l ≡ false) × Distinct l

set_difference-Distinct :
    {A : Type 0} ⦃eq : Comparable A⦄ (a b : List A) → Distinct a → Distinct (set_difference a b)
unfolding set_difference Distinct
set_difference-Distinct [] b d = tt
set_difference-Distinct (x ∷ a) b d =
    if_both Distinct (contains x b) (set_difference-Distinct a b d.1)
      (ground (arith, d.0, contains-set_difference x a b), set_difference-Distinct a b d.1)

module _ {K H V : Type 0} ⦃k : Comparable K⦄ ⦃h : Comparable H⦄ where
  pub close-IsTracked : (cc : ConnectionPool K H V) → IsTracked cc → IsTracked (close cc)
  unfolding close
  close-IsTracked cc t i b = inr (close-cancels cc i t b)

  disconnect_all-IsTracked :
      (cc : ConnectionPool K H V) (key : K) (hosts : List H)
      → IsTracked cc
      → IsTracked (disconnect_all cc key hosts)
  unfolding disconnect_all
  disconnect_all-IsTracked cc key [] t = t
  disconnect_all-IsTracked cc key (host ∷ hosts) t =
      disconnect_all-IsTracked (remove_connection cc key host) key hosts
        (remove_connection-IsTracked cc key host t)

  finish-IsTracked :
      (key : K) (old : List H) (c : ConnectionPool K H V × List (Called H V) × Option Error)
      → IsTracked c.0
      → IsTracked (finish key old c).0
  unfolding finish
  finish-IsTracked key old (cc, calls, some e) t = t
  finish-IsTracked key old (cc, calls, none) t = disconnect_all-IsTracked cc key old t

  -- None of the hosts is connected under the key.
  AllFree : ConnectionPool K H V → K → List H → Type 0
  AllFree cc key hosts = (host : H) → contains host hosts ≡ true → holder_at cc key host ≡ none

  module _ {D : Type 0} (options : Options H V D) where
    pub dial-IsTracked :
        (cc : ConnectionPool K H V) (key : K) (host : H)
        → holder_at cc key host ≡ none
        → IsTracked cc
        → IsTracked (dial_control_service options cc key host).0
    unfolding dial_control_service start_client keep_client put_holder
    dial-IsTracked cc key host free t = started (dialer_of options cc.dials)
      where
        placed : (svc : V) → ConnectionPool K H V
        placed svc =
            put_holder (record cc { contexts = suc cc.contexts }) key host
              (record { service = apply_wrappers options.wrappers svc; cancel_fn = cc.contexts })

        at_place :
            (svc : V) (key' : K) (host' : H)
            → context_at (placed svc) key' host' ≡ (
                if key == key' && host == host' then some cc.contexts else context_at cc key' host')
        at_place svc key' host' = ground (
          arith,
          get_in-insert_in cc.conns key key' host host'
              (record { service = apply_wrappers options.wrappers svc; cancel_fn = cc.contexts }),
        )

        kept : (r : Result V) → IsTracked (keep_client options cc key host r).0
        kept (err e) i b = elim (Bool-cases (i ==ℕ cc.contexts)) [
          | inl same ↦ inr (ground (arith, same, contains-append i cc.cancelled (cc.contexts ∷ [])))
          | inr other ↦ elim (t i (ground (arith, b, other))) [
            | inl place ↦ inl place
            | inr c ↦ inr (ground (arith, c, contains-append i cc.cancelled (cc.contexts ∷ [])))
          ]
        ]
        kept (ok svc) i b = elim (Bool-cases (i ==ℕ cc.contexts)) [
          | inl same ↦
              inl
                (key, host, ground (arith, same, at_place svc key host, ==_refl key, ==_refl host))
          | inr other ↦ elim (t i (ground (arith, b, other))) [
            | inl (key', host', p) ↦ inl (
              key',
              host',
              ground (arith, p, at_place svc key' host', free, same_place cc key key' host host' i),
            )
            | inr c ↦ inr c
          ]
        ]

        started : (r : Result D) → IsTracked (start_client options cc key host r).0
        started (err e) = t
        started (ok dialer) = kept (options.start_control_client cc.contexts dialer host)

    dial-AllFree :
        (cc : ConnectionPool K H V) (key : K) (host : H) (hosts : List H)
        → contains host hosts ≡ false
        → ((x : H) → contains x hosts ≡ true → holder_at cc key x ≡ none)
        → (r : ConnectionPool K H V × Result V) → Dialed options cc key host r
        → AllFree r.0 key hosts
    unfolding Dialed AllFree
    dial-AllFree cc key host hosts new free (cc', err e) d x c =
        ap (λ n. get_in n key x) d ∙ free x c
    dial-AllFree cc key host hosts new free (cc', ok svc) d x c = elim (Bool-cases (host == x)) [
      | inl same ↦
          absurd (ground (arith, c, new, ap (λ y. contains y hosts) ((h.equal_iff host x).0 same)))
      | inr other ↦ ground (arith, other, d key x, free x c)
    ]

    round-IsTracked :
        (host : H) (r : ConnectionPool K H V × Result V)
        (rest : ConnectionPool K H V × List (Called H V) × Option Error)
        → IsTracked r.0
        → IsTracked rest.0
        → IsTracked (connect_round host r rest).0
    unfolding connect_round
    round-IsTracked host (cc, err e) rest t u = t
    round-IsTracked host (cc, ok svc) rest t u = u

    connect_all-IsTracked :
        (cc : ConnectionPool K H V) (key : K) (hosts : List H)
        → Distinct hosts
        → AllFree cc key hosts
        → IsTracked cc
        → IsTracked (connect_all options cc key hosts).0
    unfolding connect_all Distinct AllFree
    connect_all-IsTracked cc key [] d free t = t
    connect_all-IsTracked cc key (host ∷ hosts) d free t =
        let r = dial_control_service options cc key host in
        let tracked = dial-IsTracked cc key host (free host (ground (arith, ==_refl host))) t in
        round-IsTracked host r (connect_all options r.0 key hosts) tracked (
          connect_all-IsTracked r.0 key hosts d.1
            (dial-AllFree cc key host hosts d.0 (λ x c. free x (ground (arith, c))) r
              (dial-Dialed options cc key host))
            tracked)

    pub reconcile_connections-IsTracked :
        (cc : ConnectionPool K H V) (key : K) (want : List H)
        → Distinct want
        → IsTracked cc
        → IsTracked (reconcile_connections options cc key want).0
    unfolding reconcile_connections AllFree
    reconcile_connections-IsTracked cc key want d t =
        let existing = get_connected_hosts cc key in
        finish-IsTracked key (set_difference existing want)
          (connect_all options cc key (set_difference want existing))
          (connect_all-IsTracked cc key (set_difference want existing)
            (set_difference-Distinct want existing d)
            (λ x c. ground (
              arith,
              c,
              contains-set_difference x want existing,
              contains-get_connected_hosts cc key x,
            ))
            t)
