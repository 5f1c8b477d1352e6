-- ===== src/Tests/Reconciler.antt =====
-- pkg/reconciler: a store of notifications and a pool of connections, both small.
mod Pool
mod Results
mod Interleaved
use control_protocol.Prelude.{
  false, ℕ, zero, suc, length, ◌+◌, ◌≡◌, ◌≢◌, refl, ◌&&◌, Option, none, some, List, [], ◌∷◌, arith,
  ◌==ℕ◌, if◌then◌else◌,
}
use control_protocol.Prelude.Equality.{nat_eq, bytes_eq, bytes_equal, ◌==◌}
use control_protocol.Prelude.Maps.{
  contains, Map, empty, lookup, insert, erase, is_empty, keys, map_values,
}
use control_protocol.Errors.{eof, wrapped, Result, ok, err}
use control_protocol.Message.{Message}
use control_protocol.AsyncCommand.{AsyncCommandResult, marshal_binary, returns}
use control_protocol.Service.{ack}
use control_protocol.Reconciler.Nested.{put_or_delete}
use control_protocol.Reconciler.NotificationStore.{
  NotificationStore, Notifications, get_pod_notification, store_new_value, store_value,
  clean_pod_notification, clean_pods_notifications, pass_new_value, value_or_nil, message_handler,
}
use control_protocol.Reconciler.NotificationStore.Laws.{
  get-store_new_value, get-clean, store_new_value_quiet,
}
use control_protocol.Reconciler.NotificationStore.Invariant.{
  IsClean, Change, arrives, clean_pod, clean_pods, apply_all, apply_all-IsClean,
}
use control_protocol.Reconciler.NotificationStore.Replay.{
  StoreEvent, received, pod_cleaned, ReadsAs, happen_all, seen_all, nothing_seen,
  new_notification_store, happen_all-ReadsAs,
}
use control_protocol.Reconciler.CommandResults.{
  command_result_handler, get_command_result, get-command_result_handler,
}
use control_protocol.Reconciler.ConnectionPool.{
  ConnectionPool, Options, set_difference, get_connected_hosts, connect_all, disconnect_all,
  remove_connection, get_services, dial_control_service, reconcile_connections, cannot_connect,
}
use control_protocol.Reconciler.ConnectionPool.Hosts.{holder_at}
use control_protocol.Reconciler.ConnectionPool.Reconciling.{
  Reconciled, reconcile_connections-Reconciled, reconcile_connections_failed,
}
use control_protocol.Tests.AsyncCommand.{failed_command, failed_command-Fits}
use control_protocol.Tests.Message.{uuid}

abbrev nothing : Notifications ℕ ℕ ℕ
nothing = empty

abbrev one_pod : Notifications ℕ ℕ ℕ
one_pod = insert 1 (insert 2 (some 7) empty) empty

abbrev changes : List (Change ℕ ℕ ℕ)
changes =
    arrives 1 2 pass_new_value (some 7)
    ∷ arrives 1 2 pass_new_value none
    ∷ clean_pod 1 2
    ∷ clean_pods 1
    ∷ []

apply_all-IsClean_example : IsClean (apply_all nothing changes)
apply_all-IsClean_example = apply_all-IsClean changes

abbrev new_store : NotificationStore ℕ ℕ AsyncCommandResult
new_store = record { notification_store = empty; enqueued = [] }

abbrev result_message : Message
result_message = record {
  header = record { version = 0; flags = 0; opcode = 20; uuid = uuid; size = 12 };
  payload = some (marshal_binary failed_command);
}

set_difference_runs : set_difference {A = ℕ} (1 ∷ 2 ∷ 3 ∷ []) (2 ∷ []) ≡ 1 ∷ 3 ∷ []
unfolding set_difference
set_difference_runs = refl

-- Host 9 refuses connections, and the service of a host is its number and ten.
abbrev pub dialer : Options ℕ ℕ ℕ
dialer = record {
  base_dialer = 0;
  tls_dialer_factory = none;
  start_control_client = λ i d host. if host ==ℕ 9 then err eof else ok (host + 10);
  wrappers = [];
}

abbrev pub small_pool : ConnectionPool ℕ ℕ ℕ
small_pool = record {
  conns =
      insert 1
        (insert 2 (record { service = 12; cancel_fn = 0 })
          (insert 3 (record { service = 13; cancel_fn = 1 }) empty))
        empty;
  dials = 2;
  contexts = 2;
  cancelled = [];
}

abbrev wanted : List ℕ
wanted = 3 ∷ 4 ∷ []

reconciled :
    (services : Option (Map ℕ ℕ)) × ((reconcile_connections dialer small_pool 1 wanted).2
      ≡ ok services)
unfolding reconcile_connections get_connected_hosts set_difference connect_all dial_control_service
    disconnect_all remove_connection put_or_delete get_services lookup insert erase empty is_empty
    keys map_values
reconciled = (_, refl)

reconcile_connections-Reconciled_example :
    Reconciled small_pool 1 wanted reconciled.0 (reconcile_connections dialer small_pool 1 wanted).0
reconcile_connections-Reconciled_example =
    reconcile_connections-Reconciled dialer small_pool 1 wanted reconciled.0 reconciled.1

reconcile_connections_failed_example :
    let cc = (reconcile_connections dialer small_pool 1 (9 ∷ [])).0 in
    (holder_at cc 1 2 ≡ some (record { service = 12; cancel_fn = 0 }))
    × (contains 0 cc.cancelled ≡ false)
unfolding reconcile_connections get_connected_hosts set_difference connect_all dial_control_service
    lookup insert erase empty keys
reconcile_connections_failed_example =
    reconcile_connections_failed dialer small_pool 1 1 (9 ∷ []) 2
      (record { service = 12; cancel_fn = 0 }) (wrapped cannot_connect eof) refl refl (omega arith)

-- A payload is its first byte, and an empty one does not parse.
abbrev first_byte : List ℕ → Result (Option ℕ)
first_byte [] = err eof
first_byte (zero ∷ bytes) = ok none
first_byte (suc n ∷ bytes) = ok (some (suc n))

abbrev message_of : List ℕ → Message
message_of bytes = record {
  header = record { version = 0; flags = 0; opcode = 20; uuid = uuid; size = length bytes };
  payload = some bytes;
}

abbrev store_events : List (StoreEvent ℕ ℕ ℕ)
store_events =
    received 1 2 pass_new_value (message_of (7 ∷ []))
    ∷ received 1 2 pass_new_value (message_of [])
    ∷ received 1 3 pass_new_value (message_of (8 ∷ []))
    ∷ received 1 2 pass_new_value (message_of (7 ∷ []))
    ∷ received 1 2 pass_new_value (message_of (0 ∷ []))
    ∷ pod_cleaned 1 3
    ∷ []

happen_all-ReadsAs_example :
    ReadsAs
      (happen_all first_byte new_notification_store store_events)
      (seen_all first_byte nothing_seen store_events)
happen_all-ReadsAs_example = happen_all-ReadsAs first_byte store_events

happen_all_runs :
    (happen_all first_byte new_notification_store store_events).enqueued ≡ 1 ∷ 1 ∷ 1 ∷ []
unfolding happen_all message_handler store_new_value clean_pod_notification lookup insert empty
    erase is_empty store_value put_or_delete
happen_all_runs = refl
