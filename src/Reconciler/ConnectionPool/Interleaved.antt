-- ===== src/Reconciler/ConnectionPool/Interleaved.antt =====
-- pkg/reconciler/connection_pool.go: operations of several goroutines on one pool. The lock is held for
-- each look at the connections and each change of them, and not for a whole `ReconcileConnections`
-- or for the dialing of a `DialControlService`: a step of a goroutine goes to its next use of the lock.
-- A callback is called in the step of the change that it tells of.
pub mod Advancing
pub mod Alive
pub mod Cancelled
pub mod Frame
pub mod Gaining
pub mod Leaking
pub mod Ledger
pub mod Owners
pub mod Progress
pub mod Separate
pub mod Steps
use control_protocol.Prelude.{ℕ, suc, Option, none, some, List, [], ◌∷◌, ◌++◌}
use control_protocol.Prelude.Equality.{Comparable, nat_eq}
use control_protocol.Prelude.Maps.{Map, empty, lookup, insert}
use control_protocol.Errors.{Error, wrapped, Result, ok, err}
use control_protocol.Reconciler.ConnectionPool.{
  ClientServiceHolder, ConnectionPool, Options, Called, new_service, old_service, apply_wrappers,
  cannot_connect, set_difference, get_connected_hosts, get_services, remove_connection,
  remove_all_connections, close, put_holder, dialer_of, one_more_dial,
}

-- Where a goroutine stands. In its two loops a reconciliation has the hosts still to dial, and those
-- still to remove; `holding` and `storing` have dialed a host that is not in the pool yet, the one for
-- a reconciliation and the other for a call of `DialControlService`.
pub data PoolTask (K H V : Type 0) : Type 0 where
  starting : K → List H → PoolTask K H V
  connecting : K → List H → List H → PoolTask K H V
  holding : K → H → ClientServiceHolder V → List H → List H → PoolTask K H V
  disconnecting : K → List H → PoolTask K H V
  dialing : K → H → PoolTask K H V
  storing : K → H → ClientServiceHolder V → PoolTask K H V
  removing : K → H → PoolTask K H V
  removing_all : K → PoolTask K H V
  closing : PoolTask K H V
  finished : Result (Option (Map H V)) → PoolTask K H V

abbrev pub cannot_reconcile : {K H V : Type 0} → Error → PoolTask K H V
cannot_reconcile e = finished (err (wrapped cannot_connect e))

-- What a step of a goroutine does: to the pool, to the goroutine, and to the callbacks.
pub record TaskStep (K H V : Type 0) : Type 0 where
  pub pool : ConnectionPool K H V
  pub task : PoolTask K H V
  pub called : List (Called H V)

pub record PoolCalls (K H V : Type 0) : Type 0 where
  pub pool : ConnectionPool K H V
  pub tasks : Map ℕ (PoolTask K H V)
  pub called : List (Called H V)

module _ {K H V : Type 0} ⦃k : Comparable K⦄ ⦃h : Comparable H⦄ where
  module _ {D : Type 0} (options : Options H V D) where
    started_client :
        ConnectionPool K H V → Result V → ConnectionPool K H V × Result (ClientServiceHolder V)
    started_client cc (err e) = (
      record cc { contexts = suc cc.contexts; cancelled = cc.cancelled ++ cc.contexts ∷ [] },
      err e,
    )
    started_client cc (ok svc) = (
      record cc { contexts = suc cc.contexts },
      ok (record { service = apply_wrappers options.wrappers svc; cancel_fn = cc.contexts }),
    )

    generated_dialer :
        ConnectionPool K H V → H → Result D → ConnectionPool K H V × Result (ClientServiceHolder V)
    unfolding started_client
    generated_dialer cc host (err e) = (cc, err e)
    generated_dialer cc host (ok dialer) =
        started_client cc (options.start_control_client cc.contexts dialer host)

    -- `DialControlService` up to the lock.
    unfoldable pub begin_dial :
        ConnectionPool K H V → H → ConnectionPool K H V × Result (ClientServiceHolder V)
    unfolding generated_dialer dialer_of
    begin_dial cc host = one_more_dial (generated_dialer cc host (dialer_of options cc.dials))

    -- How a goroutine goes on with an error and with a holder.
    after_dial :
        (Error → PoolTask K H V)
        → (ClientServiceHolder V → PoolTask K H V)
        → ConnectionPool K H V × Result (ClientServiceHolder V)
        → TaskStep K H V
    after_dial failed dialed (cc, err e) = record { pool = cc; task = failed e; called = [] }
    after_dial failed dialed (cc, ok holder) = record {
      pool = cc;
      task = dialed holder;
      called = [];
    }

    -- The service that `DialControlService` returns stands alone in a map.
    unfoldable pub advance_task : ConnectionPool K H V → PoolTask K H V → TaskStep K H V
    unfolding after_dial put_holder
    advance_task cc (starting key want) =
        let existing = get_connected_hosts cc key in
        record {
          pool = cc;
          task = connecting key (set_difference want existing) (set_difference existing want);
          called = [];
        }
    advance_task cc (connecting key [] old) = record {
      pool = cc;
      task = disconnecting key old;
      called = [];
    }
    advance_task cc (connecting key (host ∷ new) old) =
        after_dial cannot_reconcile (λ holder. holding key host holder new old) (begin_dial cc host)
    advance_task cc (holding key host holder new old) = record {
      pool = put_holder cc key host holder;
      task = connecting key new old;
      called = new_service host holder.service ∷ [];
    }
    advance_task cc (disconnecting key []) = record {
      pool = cc;
      task = finished (ok (get_services cc key));
      called = [];
    }
    advance_task cc (disconnecting key (host ∷ old)) = record {
      pool = remove_connection cc key host;
      task = disconnecting key old;
      called = old_service host ∷ [];
    }
    advance_task cc (dialing key host) =
        after_dial (λ e. finished (err e)) (storing key host) (begin_dial cc host)
    advance_task cc (storing key host holder) = record {
      pool = put_holder cc key host holder;
      task = finished (ok (some (insert host holder.service empty)));
      called = [];
    }
    advance_task cc (removing key host) = record {
      pool = remove_connection cc key host;
      task = finished (ok none);
      called = [];
    }
    advance_task cc (removing_all key) = record {
      pool = remove_all_connections cc key;
      task = finished (ok none);
      called = [];
    }
    advance_task cc closing = record { pool = close cc; task = finished (ok none); called = [] }
    advance_task cc (finished r) = record { pool = cc; task = finished r; called = [] }

    -- The next step of goroutine `i`.
    unfoldable pub pool_step : PoolCalls K H V → ℕ → PoolCalls K H V
    pool_step s i = elim (lookup i s.tasks) [
      | none ↦ s
      | some task ↦
          let r = advance_task s.pool task in
          record { pool = r.pool; tasks = insert i r.task s.tasks; called = s.called ++ r.called }
    ]

    unfoldable pub run_pool : PoolCalls K H V → List ℕ → PoolCalls K H V
    run_pool s [] = s
    run_pool s (i ∷ schedule) = run_pool (pool_step s i) schedule
