-- ===== src/Reconciler/ConnectionPool.antt =====
-- pkg/reconciler/connection_pool.go. `K` stands for the keys and `H` for the hosts, both strings, and
-- `V` for `control.Service`. The TLS dialer factory and the client are parameters: what they return
-- the i-th time that they are called. Here an operation is one step; Interleaved takes it apart.
pub mod Hosts
pub mod Cancelling
pub mod Contexts
pub mod Tracking
pub mod Life
pub mod Sparing
pub mod Reconciling
pub mod Interleaved
pub mod Making
use control_protocol.Prelude.{
  ℕ, suc, ◌+◌, Bool, true, false, Option, none, some, List, [], ◌∷◌, ◌++◌, if◌then◌else◌, codes,
}
use control_protocol.Prelude.Equality.{Comparable, ◌==◌}
use control_protocol.Prelude.Maps.{
  Map, empty, lookup, insert, erase, is_empty, keys, values, map_values, contains,
}
use control_protocol.Errors.{Error, Text, wrapped, Result, ok, err}
use control_protocol.Reconciler.Nested.{Nested, inner_or_new, put_or_delete}

-- `clientServiceHolder`: a `cancelFn` is the number of its context.
pub record ClientServiceHolder (V : Type 0) : Type 0 where
  pub service : V
  pub cancel_fn : ℕ

-- The pool: `dials` counts the calls of `DialControlService` and `contexts` the contexts made, and
-- `cancelled` lists those whose `cancelFn` was called.
pub record ConnectionPool (K H V : Type 0) : Type 0 where
  pub conns : Nested K H (ClientServiceHolder V)
  pub dials : ℕ
  pub contexts : ℕ
  pub cancelled : List ℕ

-- The pool of `NewControlPlaneConnectionPool`, whose options the operations take.
abbrev pub new_pool : {K H V : Type 0} → ConnectionPool K H V
new_pool = record { conns = empty; dials = 0; contexts = 0; cancelled = [] }

-- What a pool was made with. `D` stands for the dialers.
pub record Options (H V D : Type 0) : Type 0 where
  pub base_dialer : D
  pub tls_dialer_factory : Option (ℕ → Result D)
  pub start_control_client : ℕ → D → H → Result V
  pub wrappers : List (V → V)

-- A call of one of the two callbacks.
pub data Called (H V : Type 0) : Type 0 where
  new_service : H → V → Called H V
  old_service : H → Called H V

abbrev pub apply_wrappers : {V : Type 0} → List (V → V) → V → V
apply_wrappers [] svc = svc
apply_wrappers (wrap ∷ wrappers) svc = apply_wrappers wrappers (wrap svc)

abbrev pub cannot_connect : Text
cannot_connect = codes "cannot connect to the pod: "

-- The items of `a` that are not in `b`, in the order of `a`.
unfoldable pub set_difference : {A : Type 0} ⦃eq : Comparable A⦄ → List A → List A → List A
set_difference [] b = []
set_difference (x ∷ a) b = let diff = set_difference a b in if contains x b then diff else x ∷ diff

cancel_holder : {V : Type 0} → List ℕ → ClientServiceHolder V → List ℕ
cancel_holder cancelled holder = cancelled ++ holder.cancel_fn ∷ []

pub cancel_all : {V : Type 0} → List (ClientServiceHolder V) → List ℕ → List ℕ
unfolding cancel_holder
cancel_all [] cancelled = cancelled
cancel_all (holder ∷ holders) cancelled = cancel_all holders (cancel_holder cancelled holder)

pub cancel_each : {H V : Type 0} → List (Map H (ClientServiceHolder V)) → List ℕ → List ℕ
unfolding cancel_all
cancel_each [] cancelled = cancelled
cancel_each (m ∷ maps) cancelled = cancel_each maps (cancel_all (values m) cancelled)

hosts_of : {H V : Type 0} → Option (Map H (ClientServiceHolder V)) → List H
hosts_of none = []
hosts_of (some m) = keys m

-- The dialer of the i-th call; without a factory it is always the base dialer.
dialer_of : {H V D : Type 0} → Options H V D → ℕ → Result D
dialer_of options i = elim options.tls_dialer_factory [
  | none ↦ ok options.base_dialer
  | some generate ↦ generate i
]

old_calls : {H V : Type 0} → List H → List (Called H V)
old_calls [] = []
old_calls (host ∷ hosts) = old_service host ∷ old_calls hosts

-- The call is counted.
abbrev pub one_more_dial : {K H V A : Type 0} → ConnectionPool K H V × A → ConnectionPool K H V × A
one_more_dial r = (record r.0 { dials = suc r.0.dials }, r.1)

module _ {K H V : Type 0} ⦃k : Comparable K⦄ ⦃h : Comparable H⦄ where
  unfoldable pub get_connected_hosts : ConnectionPool K H V → K → List H
  unfolding hosts_of
  get_connected_hosts cc key = hosts_of (lookup key cc.conns)

  -- `none` stands for a nil map.
  unfoldable pub get_services : ConnectionPool K H V → K → Option (Map H V)
  get_services cc key = elim (lookup key cc.conns) [
    | none ↦ none
    | some m ↦ some (map_values (λ holder. holder.service) m)
  ]

  -- `none` stands for the empty host and the nil service.
  unfoldable pub resolve_control_interface : ConnectionPool K H V → K → H → Option (H × V)
  resolve_control_interface cc key host = elim (lookup key cc.conns) [
    | none ↦ none
    | some m ↦ elim (lookup host m) [ none ↦ none | some holder ↦ some (host, holder.service) ]
  ]

  remove_holder :
      ConnectionPool K H V
      → K
      → H
      → Map H (ClientServiceHolder V)
      → Option (ClientServiceHolder V)
      → ConnectionPool K H V
  unfolding cancel_holder
  remove_holder cc key host m none = cc
  remove_holder cc key host m (some holder) = record cc {
    conns = put_or_delete cc.conns key (erase host m);
    cancelled = cancel_holder cc.cancelled holder;
  }

  unfoldable pub remove_connection : ConnectionPool K H V → K → H → ConnectionPool K H V
  unfolding remove_holder
  remove_connection cc key host = elim (lookup key cc.conns) [
    | none ↦ cc
    | some m ↦ remove_holder cc key host m (lookup host m)
  ]

  unfoldable pub remove_all_connections : ConnectionPool K H V → K → ConnectionPool K H V
  unfolding cancel_all
  remove_all_connections cc key = elim (lookup key cc.conns) [
    | none ↦ cc
    | some m ↦ record cc {
      conns = erase key cc.conns;
      cancelled = cancel_all (values m) cc.cancelled;
    }
  ]

  unfoldable pub close : ConnectionPool K H V → ConnectionPool K H V
  unfolding cancel_each
  close cc = record cc { conns = empty; cancelled = cancel_each (values cc.conns) cc.cancelled }

  -- The holder stands in the pool from here on, in place of any other for the host.
  pub put_holder : ConnectionPool K H V → K → H → ClientServiceHolder V → ConnectionPool K H V
  put_holder cc key host holder = record cc {
    conns = insert key (insert host holder (inner_or_new (lookup key cc.conns))) cc.conns;
  }

  -- The loop over the old connections.
  unfoldable pub disconnect_all : ConnectionPool K H V → K → List H → ConnectionPool K H V
  disconnect_all cc key [] = cc
  disconnect_all cc key (host ∷ hosts) = disconnect_all (remove_connection cc key host) key hosts

  connect_round :
      H
      → ConnectionPool K H V × Result V
      → ConnectionPool K H V × List (Called H V) × Option Error
      → ConnectionPool K H V × List (Called H V) × Option Error
  connect_round host (cc, err e) rest = (cc, [], some (wrapped cannot_connect e))
  connect_round host (cc, ok svc) rest = (rest.0, new_service host svc ∷ rest.1, rest.2)

  finish :
      K
      → List H
      → ConnectionPool K H V × List (Called H V) × Option Error
      → ConnectionPool K H V × List (Called H V) × Result (Option (Map H V))
  unfolding old_calls
  finish key old (cc, calls, some e) = (cc, calls, err e)
  finish key old (cc, calls, none) =
      let done = disconnect_all cc key old in
      (done, calls ++ old_calls old, ok (get_services done key))

  module _ {D : Type 0} (options : Options H V D) where
    keep_client : ConnectionPool K H V → K → H → Result V → ConnectionPool K H V × Result V
    unfolding put_holder
    keep_client cc key host (err e) = (
      record cc { contexts = suc cc.contexts; cancelled = cc.cancelled ++ cc.contexts ∷ [] },
      err e,
    )
    keep_client cc key host (ok svc) =
        let new_svc = apply_wrappers options.wrappers svc in
        (
          put_holder (record cc { contexts = suc cc.contexts }) key host
              (record { service = new_svc; cancel_fn = cc.contexts }),
          ok new_svc,
        )

    start_client : ConnectionPool K H V → K → H → Result D → ConnectionPool K H V × Result V
    unfolding keep_client
    start_client cc key host (err e) = (cc, err e)
    start_client cc key host (ok dialer) =
        keep_client cc key host (options.start_control_client cc.contexts dialer host)

    -- Where it returns no error it returns the host, too.
    unfoldable pub dial_control_service :
        ConnectionPool K H V → K → H → ConnectionPool K H V × Result V
    unfolding start_client dialer_of
    dial_control_service cc key host =
        one_more_dial (start_client cc key host (dialer_of options cc.dials))

    -- The loop over the new connections, with the error that ends it.
    unfoldable pub connect_all :
        ConnectionPool K H V → K → List H → ConnectionPool K H V × List (Called H V) × Option Error
    unfolding connect_round
    connect_all cc key [] = (cc, [], none)
    connect_all cc key (host ∷ hosts) =
        let d = dial_control_service cc key host in
        let rest = connect_all d.0 key hosts in connect_round host d rest

    -- `ReconcileConnections`, with both callbacks given. The calls of them stand in their order.
    unfoldable pub reconcile_connections :
        ConnectionPool K H V
        → K
        → List H
        → ConnectionPool K H V × List (Called H V) × Result (Option (Map H V))
    unfolding finish
    reconcile_connections cc key want =
        let existing = get_connected_hosts cc key in
        finish key (set_difference existing want)
          (connect_all cc key (set_difference want existing))
