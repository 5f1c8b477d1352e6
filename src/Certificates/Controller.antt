-- ===== src/Certificates/Controller.antt =====
-- pkg/certificates/reconciler/reconciler.go: the controller's reconciler, which wraps the one of the
-- certificates or any other. Calls on the cluster are functions on a state of type `W`.
pub mod Finalizers
pub mod Reconcile
pub mod Dispatch
pub mod Settling
pub mod Wiring
pub mod Making
use control_protocol.Prelude.{
  ℕ, Bool, true, false, ◌&&◌, ◌||◌, not, Option, none, some, List, [], ◌∷◌, ◌++◌, if◌then◌else◌,
  codes,
}
use control_protocol.Prelude.Equality.{◌==◌, bytes_eq}
use control_protocol.Prelude.Maps.{contains}
use control_protocol.Errors.{Text, Error, plain, wrapped, error_text, Result, ok, err}
use control_protocol.Certificates.Reconciler.{Secret, Found, found, not_found, lister_failed}

-- `pkgreconciler.ReconcilerEvent`, with the text of its `Error`.
pub record ReconcilerEvent : Type 0 where
  pub event_type : Text
  pub reason : Text
  pub text : Text

-- An error, as the code looks at it: `EventAs`, the type assertion to an event, `IsSkipKey`,
-- `IsRequeueKey` and `Error`.
pub record Event : Type 0 where
  pub as_event : Option ReconcilerEvent
  pub is_event : Bool
  pub is_skip_key : Bool
  pub is_requeue_key : Bool
  pub text : Text

-- An error of the kind that `fmt.Errorf` makes of an error of the API.
abbrev pub error_event : Error → Event
error_event e = record {
  as_event = none;
  is_event = false;
  is_skip_key = false;
  is_requeue_key = false;
  text = error_text e;
}

-- `ReconcileKind` and its like are given a pointer: the secret that they leave, and their event.
abbrev pub Method : Type 0 → Type 0
Method W = Secret → W → W × Secret × Option Event

-- The merge patch of a secret's metadata.
pub record Patch : Type 0 where
  pub finalizers : List Text
  pub resource_version : Text

-- `reconcilerImpl`. The two optional interfaces are options, and so is `OnDeletionInterface`;
-- `set_list` is `List` of `sets.String`, and `marshal_error` what `json.Marshal` returns.
pub record ReconcilerImpl (W : Type 0) : Type 0 where
  pub split_key : Text → Result (Text × Text)
  pub is_leader_for : Text → Text → Bool
  pub new_skip_key : Text → Event
  pub get : W → Text → Text → Found
  pub patch : Text → Text → Patch → W → W × Result Secret
  pub record_event : Secret → Text → Text → Text → W → W
  pub set_list : List Text → List Text
  pub marshal_error : Patch → Option Error
  pub reconcile_kind : Method W
  pub finalize_kind : Option (Method W)
  pub observe_kind : Option (Method W)
  pub observe_deletion : Option (Text → Text → W → W × Option Event)
  pub finalizer_name : Text

abbrev pub normal : Text
normal = codes "Normal"

abbrev pub warning : Text
warning = codes "Warning"

abbrev pub given : {A : Type 0} → Option A → Bool
given none = false
given (some a) = true

-- `sets.String.Delete`. A set of strings is a list of its members.
abbrev pub delete : Text → List Text → List Text
delete x [] = []
delete x (y ∷ l) = let rest = delete x l in if y == x then rest else y ∷ rest

-- A nil event or one of the type Normal.
abbrev pub is_normal : Option ReconcilerEvent → Bool
is_normal none = false
is_normal (some e) = e.event_type == normal

abbrev pub ends_cleanly : Option Event → Bool
ends_cleanly none = true
ends_cleanly (some e) = is_normal e.as_event

module _ {W : Type 0} (r : ReconcilerImpl W) where
  -- The recorder's texts are the source's, less the quotes of `%q`.
  unfoldable pub patched : Secret → W × Result Secret → W × Result Secret
  patched existing (w, err e) = (
    r.record_event existing warning (codes "FinalizerUpdateFailed")
        (codes "Failed to update finalizers for " ++ existing.name ++ codes ": " ++ error_text e) w,
    err e,
  )
  patched existing (w, ok updated) = (
    r.record_event updated normal (codes "FinalizerUpdate")
        (codes "Updated " ++ existing.name ++ codes " finalizers") w,
    ok updated,
  )

  unfoldable pub patch_with : Secret → Patch → Option Error → W → W × Result Secret
  unfolding patched
  patch_with resource p (some e) w = (w, err e)
  patch_with resource p none w = patched resource (r.patch resource.namespace resource.name p w)

  unfoldable pub patch_finalizers : Secret → List Text → W → W × Result Secret
  unfolding patch_with
  patch_finalizers resource finalizers w =
      let p : Patch = record {
        finalizers = finalizers;
        resource_version = resource.resource_version;
      } in
      patch_with resource p (r.marshal_error p) w

  unfoldable pub update_finalizers_filtered : Secret → List Text → W → W × Result Secret
  update_finalizers_filtered resource desired w =
      if contains r.finalizer_name desired
      then (if contains r.finalizer_name resource.finalizers
          then (w, ok resource)
          else patch_finalizers resource (resource.finalizers ++ r.finalizer_name ∷ []) w)
      else (if contains r.finalizer_name resource.finalizers
          then patch_finalizers resource (r.set_list (delete r.finalizer_name resource.finalizers))
              w
          else (w, ok resource))

  -- With the finalizing method, if there is one, and the deletion timestamp.
  unfoldable pub set_finalizer : Option (Method W) → Option ℕ → Secret → W → W × Result Secret
  set_finalizer none deleted resource w = (w, ok resource)
  set_finalizer (some finalize) none resource w =
      update_finalizers_filtered resource (r.finalizer_name ∷ resource.finalizers) w
  set_finalizer (some finalize) (some t) resource w =
      update_finalizers_filtered resource resource.finalizers w

  unfoldable pub set_finalizer_if_finalizer : Secret → W → W × Result Secret
  unfolding set_finalizer
  set_finalizer_if_finalizer resource w =
      set_finalizer r.finalize_kind resource.deletion_timestamp resource w

  unfoldable pub remove_finalizer :
      Option (Method W) → Option ℕ → Secret → Option Event → W → W × Result Secret
  remove_finalizer none deleted resource event w = (w, ok resource)
  remove_finalizer (some finalize) none resource event w = (w, ok resource)
  remove_finalizer (some finalize) (some t) resource event w =
      update_finalizers_filtered resource
        (if ends_cleanly event
          then delete r.finalizer_name resource.finalizers
          else resource.finalizers)
        w

  unfoldable pub clear_finalizer : Secret → Option Event → W → W × Result Secret
  unfolding remove_finalizer
  clear_finalizer resource event w =
      remove_finalizer r.finalize_kind resource.deletion_timestamp resource event w
