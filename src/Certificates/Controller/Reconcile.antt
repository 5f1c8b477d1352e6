-- ===== src/Certificates/Controller/Reconcile.antt =====
-- pkg/certificates/reconciler/reconciler.go: `Reconcile`, over the changes of the finalizers.
use control_protocol.Prelude.{
  ℕ, Bool, true, false, ◌&&◌, ◌||◌, not, Option, none, some, ◌++◌, if◌then◌else◌, codes,
}
use control_protocol.Prelude.Equality.{bytes_eq}
use control_protocol.Errors.{Text, Error, plain, wrapped, Result, ok, err}
use control_protocol.Certificates.Reconciler.{Secret, Found, found, not_found, lister_failed}
use control_protocol.Certificates.Controller.{
  ReconcilerEvent, Event, error_event, Method, ReconcilerImpl, warning, given,
  set_finalizer_if_finalizer, clear_finalizer,
}

-- `state`, without the two copies of the reconciler.
pub record State : Type 0 where
  pub key : Text
  pub namespace : Text
  pub name : Text
  pub is_roi : Bool
  pub is_leader : Bool

-- The method to call; `unknown` has none.
pub data Do (W : Type 0) : Type 0 where
  do_reconcile_kind do_finalize_kind do_observe_kind : Method W → Do W
  unknown : Do W

abbrev pub failed_to_set : Text
failed_to_set = codes "failed to set finalizers: "

abbrev pub failed_to_clear : Text
failed_to_clear = codes "failed to clear finalizers: "

abbrev pub invalid_key : Text → Error
invalid_key key = plain (codes "invalid resource key: " ++ key)

module _ {W : Type 0} (r : ReconcilerImpl W) where
  unfoldable pub new_state : Text → Result (Text × Text) → Result State
  new_state key (err e) = err (invalid_key key)
  new_state key (ok (namespace, name)) = ok (record {
    key = key;
    namespace = namespace;
    name = name;
    is_roi = given r.observe_kind;
    is_leader = r.is_leader_for namespace name;
  })

  abbrev pub is_not_leader_nor_observer : State → Bool
  is_not_leader_nor_observer s = not s.is_leader && not s.is_roi

  -- With the deletion timestamp, the test for the leader, and the two optional methods. `s.roi` is the
  -- reconciler, where that observes.
  unfoldable pub method_for : Option ℕ → Bool → Option (Method W) → Option (Method W) → Do W
  method_for none true finalize observe = do_reconcile_kind r.reconcile_kind
  method_for none false finalize (some observe) = do_observe_kind observe
  method_for none false finalize none = unknown
  method_for (some t) true (some finalize) observe = do_finalize_kind finalize
  method_for (some t) true none observe = unknown
  method_for (some t) false finalize observe = unknown

  unfoldable pub reconcile_method_for : State → Secret → Do W
  unfolding method_for
  reconcile_method_for s o =
      method_for o.deletion_timestamp s.is_leader r.finalize_kind r.observe_kind

  unfoldable pub reported : Secret → Event → Option ReconcilerEvent → W → W × Option Event
  reported resource e (some event) w = (
    r.record_event resource event.event_type event.reason event.text w,
    if e.is_event then none else some e,
  )
  reported resource e none w =
      if e.is_skip_key || e.is_requeue_key
      then (w, some e)
      else (r.record_event resource warning (codes "InternalError") e.text w, some e)

  -- Where `Reconcile` reports the event, if any.
  unfoldable pub report : W × Secret × Option Event → W × Option Event
  unfolding reported
  report (w, resource, none) = (w, none)
  report (w, resource, some e) = reported resource e e.as_event w

  unfoldable pub reconcile_resource : Method W → W × Result Secret → W × Option Event
  unfolding report
  reconcile_resource do_it (w, err e) = (w, some (error_event (wrapped failed_to_set e)))
  reconcile_resource do_it (w, ok resource) = report (do_it resource w)

  unfoldable pub report_cleared : Option Event → W × Result Secret → W × Option Event
  unfolding report
  report_cleared event (w, err e) = (w, some (error_event (wrapped failed_to_clear e)))
  report_cleared event (w, ok resource) = report (w, resource, event)

  unfoldable pub finalize_resource : W × Secret × Option Event → W × Option Event
  unfolding report_cleared
  finalize_resource (w, resource, event) = report_cleared event (clear_finalizer r resource event w)

  unfoldable pub run_method : Do W → Secret → W → W × Option Event
  unfolding reconcile_resource finalize_resource report
  run_method (do_reconcile_kind do_it) resource w =
      reconcile_resource do_it (set_finalizer_if_finalizer r resource w)
  run_method (do_finalize_kind do_it) resource w = finalize_resource (do_it resource w)
  run_method (do_observe_kind do_it) resource w = report (do_it resource w)
  run_method unknown resource w = (w, none)

  unfoldable pub run_observe :
      Option (Text → Text → W → W × Option Event) → Text → Text → W → W × Option Event
  run_observe none namespace name w = (w, none)
  run_observe (some observe) namespace name w = observe namespace name w

  unfoldable pub reconcile_found : State → Found → W → W × Option Event
  unfolding run_observe run_method reconcile_method_for
  reconcile_found s not_found w = run_observe r.observe_deletion s.namespace s.name w
  reconcile_found s (lister_failed e) w = (w, some (error_event e))
  reconcile_found s (found original) w = run_method (reconcile_method_for s original) original w

  unfoldable pub reconcile_state : Result State → W → W × Option Event
  unfolding reconcile_found
  reconcile_state (err e) w = (w, none)
  reconcile_state (ok s) w =
      if is_not_leader_nor_observer s
      then (w, some (r.new_skip_key s.key))
      else reconcile_found s (r.get w s.namespace s.name) w

  -- `reconcilerImpl.Reconcile`
  unfoldable pub reconcile : Text → W → W × Option Event
  unfolding new_state reconcile_state
  reconcile key w = reconcile_state (new_state key (r.split_key key)) w
