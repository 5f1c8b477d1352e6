-- ===== src/Reconciler/CommandResults.antt =====
-- pkg/reconciler/async_command_notification_store.go: the notification store for the results of
-- asynchronous commands. `K` stands for `types.NamespacedName`, `P` for the names of pods.
pub mod Delivered
use control_protocol.Prelude.{
  ℕ, ◌≡◌, ◌↔◌, refl, ap, ◌∙◌, Bool, true, false, ◌&&◌, Option, none, some, List, [], ◌∷◌,
  if◌then◌else◌, arith,
}
use control_protocol.Prelude.Equality.{Comparable, ◌==◌, bytes_equal, bytes_equal_iff}
use control_protocol.Prelude.Maps.{empty}
use control_protocol.Errors.{Result, ok, err}
use control_protocol.Message.{Message}
use control_protocol.Message.Format.{bytes_of}
use control_protocol.AsyncCommand.{
  AsyncCommandResult, Call, returns, panics, ◌>>=◌, marshal_binary, parse_async_command_result,
}
use control_protocol.AsyncCommand.RoundTrip.{Fits, parse-marshal_binary}
use control_protocol.Service.{Effect, ack}
use control_protocol.Reconciler.NotificationStore.{
  clean_pod_notification, clean_pods_notifications, NotificationStore, pass_new_value,
  get_pod_notification, message_handler, value_to_store,
}
use control_protocol.Reconciler.NotificationStore.Laws.{get-clean, get-store_new_value, stored}

-- `reflect.DeepEqual`, on results that were parsed: their command ids are slices of the payload.
abbrev pub result_equal : AsyncCommandResult → AsyncCommandResult → Bool
result_equal a b = bytes_equal a.command_id b.command_id && bytes_equal a.error b.error

pub result_equal_iff : (a b : AsyncCommandResult) → (result_equal a b ≡ true) ↔ (a ≡ b)
result_equal_iff a b =
    ground (arith, bytes_equal_iff a.command_id b.command_id, bytes_equal_iff a.error b.error)

instance abbrev pub result_eq : Comparable AsyncCommandResult
result_eq = record { equal = result_equal; equal_iff = result_equal_iff }

-- `ParseAsyncCommandResult` as a `PayloadParser`.
abbrev pub as_interface : Result AsyncCommandResult → Result (Option AsyncCommandResult)
as_interface (ok result) = ok (some result)
as_interface (err e) = err e

-- The type assertion panics on nil.
with_command : List ℕ → Option (Option AsyncCommandResult) → Call (Option AsyncCommandResult)
with_command id none = returns none
with_command id (some none) = panics
with_command id (some (some res)) =
    returns (if bytes_equal res.command_id id then some res else none)

pass_new-stored :
    (old : Option (Option AsyncCommandResult)) (res : AsyncCommandResult)
    → stored (value_to_store pass_new_value old (some res)) ≡ some (some res)
pass_new-stored none res = refl
pass_new-stored (some old) res = refl

if-with_command :
    (b : Bool) (id : List ℕ) (x y : Option (Option AsyncCommandResult))
    → with_command id (if b then x else y) ≡ (if b then with_command id x else with_command id y)
if-with_command true id x y = refl
if-with_command false id x y = refl

module _ {K P : Type 0} ⦃k : Comparable K⦄ ⦃p : Comparable P⦄ where
  -- `MessageHandler`. It panics where the parser does.
  unfoldable pub command_result_handler :
      K
      → P
      → NotificationStore K P AsyncCommandResult
      → Message
      → Call (NotificationStore K P AsyncCommandResult × List Effect)
  command_result_handler src pod n m = do
    result ← parse_async_command_result (bytes_of m.payload)
    returns (message_handler (λ payload. as_interface result) src pod pass_new_value n m)

  -- `GetCommandResult`, for the command with the serialized id `id`.
  unfoldable pub get_command_result :
      NotificationStore K P AsyncCommandResult → K → P → List ℕ → Call (Option AsyncCommandResult)
  unfolding with_command
  get_command_result n src pod id =
      with_command id (get_pod_notification n.notification_store src pod)

  -- `NewAsyncCommandNotificationStore`
  unfoldable pub new_async_command_notification_store : NotificationStore K P AsyncCommandResult
  new_async_command_notification_store = record { notification_store = empty; enqueued = [] }

  -- `CleanPodsNotifications`
  unfoldable pub clean_command_results :
      NotificationStore K P AsyncCommandResult → K → NotificationStore K P AsyncCommandResult
  clean_command_results n src = record n {
    notification_store = clean_pods_notifications n.notification_store src;
  }

  -- `CleanPodNotification`
  unfoldable pub clean_command_result :
      NotificationStore K P AsyncCommandResult → K → P → NotificationStore K P AsyncCommandResult
  clean_command_result n src pod = record n {
    notification_store = clean_pod_notification n.notification_store src pod;
  }

  -- The result of a command that a pod sends is acked, and kept under that pod alone: from then on
  -- the query for the command gives it, the query for any other command of the pod gives nothing, and
  -- the queries for other pods give what they gave.
  pub get-command_result_handler :
      (n : NotificationStore K P AsyncCommandResult) (src : K) (pod : P) (m : Message)
      (res : AsyncCommandResult)
      → Fits res.command_id res.error
      → bytes_of m.payload ≡ marshal_binary res
      → (n' : NotificationStore K P AsyncCommandResult) × (command_result_handler src pod n m
          ≡ returns (n', ack ∷ []))
        × ((src' : K) (pod' : P) (id : List ℕ)
            → get_command_result n' src' pod' id ≡ (
                if src == src' && pod == pod'
                then returns (if bytes_equal res.command_id id then some res else none)
                else get_command_result n src' pod' id))
  unfolding command_result_handler message_handler get_command_result with_command
  get-command_result_handler n src pod m res f h = (
    (message_handler (λ payload. ok (some res)) src pod pass_new_value n m).0,
    ap
          (λ b. do
            result ← parse_async_command_result b
            returns (message_handler (λ payload. as_interface result) src pod pass_new_value n m))
          h
        ∙ rw (parse-marshal_binary res f, ◌>>=◌, as_interface, message_handler) refl,
    λ src' pod' id.
        ap (with_command id)
          (get-store_new_value n.notification_store src src' pod pod' pass_new_value (some res))
        ∙ if-with_command (src == src' && pod == pod') id
            (stored (
              value_to_store pass_new_value (get_pod_notification n.notification_store src pod)
                (some res)))
            (get_pod_notification n.notification_store src' pod')
        ∙ rw (pass_new-stored (get_pod_notification n.notification_store src pod) res) refl,
  )

  -- After a result is cleaned, no query for a command of that pod gives one, and all other queries
  -- give what they gave.
  pub get-clean_command_result :
      (n : NotificationStore K P AsyncCommandResult) (src src' : K) (pod pod' : P) (id : List ℕ)
      → (get_command_result (clean_command_result n src pod) src' pod' id ≡ (
          if src == src' && pod == pod' then returns none else get_command_result n src' pod' id))
        × (get_command_result (clean_command_results n src) src' pod' id
            ≡ (if src == src' then returns none else get_command_result n src' pod' id))
  unfolding get_command_result with_command clean_command_result clean_command_results
  get-clean_command_result n src src' pod pod' id =
      let (one, all) = get-clean n.notification_store src src' pod pod' in
      (
        ap (with_command id) one
            ∙ if-with_command (src == src' && pod == pod') id none
                (get_pod_notification n.notification_store src' pod'),
        ap (with_command id) all
            ∙ if-with_command (src == src') id none
                (get_pod_notification n.notification_store src' pod'),
      )
