-- ===== src/Certificates/Controller/Making.antt =====
-- pkg/certificates/reconciler/controller_impl.go: what the controller of the certificates is made of. The
-- recorders are of type `R`, and what `Stop` stops, of type `S`.
use control_protocol.Prelude.{
  ℕ, suc, ◌+◌, ◌≡◌, refl, ap, ◌∙◌, Bool, false, Option, none, some, List, [], ◌∷◌, ◌++◌, length,
  length-append, ltb, if◌then◌else◌, codes, arith, ◌==ℕ◌,
}
use control_protocol.Prelude.Equality.{nat_eq, bytes_eq}
use control_protocol.Prelude.Maps.{contains}
use control_protocol.Errors.{Text}
use control_protocol.Certificates.Reconciler.{Reconciler, new_reconciler}
use control_protocol.Certificates.Controller.Wiring.{
  default_finalizer_name, Options, new_controller_reconciler,
}

abbrev pub default_controller_agent_name : Text
default_controller_agent_name = codes "secret-controller"

-- What the code has of client-go's event broadcasters.
pub record Broadcasting (B R S : Type 0) : Type 0 where
  pub broadcaster : B
  pub start_logging : B → S
  pub start_recording_to_sink : B → S
  pub new_recorder : B → Text → R

-- `createRecorder`, with the watches that its goroutine stops when the context is done. The first
-- argument is what the context has.
unfoldable pub create_recorder :
    {B R S : Type 0} → Option R → Broadcasting B R S → Text → R × List S
create_recorder (some recorder) b agent_name = (recorder, [])
create_recorder none b agent_name = (
  b.new_recorder b.broadcaster agent_name,
  b.start_logging b.broadcaster ∷ b.start_recording_to_sink b.broadcaster ∷ [],
)

-- `strings.ReplaceAll`, of one character by another.
replace_all : ℕ → ℕ → Text → Text
replace_all old new [] = []
replace_all old new (c ∷ s) = (if c ==ℕ old then new else c) ∷ replace_all old new s

abbrev slash : ℕ
slash = 47

abbrev dot : ℕ
dot = 46

-- The name of the reconciler's type, from its package's path and its own name.
unfoldable pub ctr_type_name : Text → Text → Text
unfolding replace_all
ctr_type_name pkg_path name = replace_all slash dot (pkg_path ++ dot ∷ name)

-- `controller.Impl`, in what the code gives it.
pub record Impl (C D R S : Type 0) : Type 0 where
  pub reconciler : Options C D
  pub recorder : R
  pub watches : List S
  pub work_queue_name : Text

replaced : (s : Text) → contains slash (replace_all slash dot s) ≡ false
unfolding replace_all
replaced [] = refl
replaced (c ∷ s) = ground (arith, replaced s)

length-replace_all : (old new : ℕ) (s : Text) → length (replace_all old new s) ≡ length s
unfolding replace_all
length-replace_all old new [] = refl
length-replace_all old new (c ∷ s) = ap suc (length-replace_all old new s)

module _ {B C D R S : Type 0} (from_context : Option R) (b : Broadcasting B R S) where
  -- `NewFilteredImpl`, with the name of the type of `r` and the test of `NewReconciler`; `none` says that
  -- it ends the process.
  unfoldable pub new_filtered_impl : Text → Text → Bool → List (Options C D) → Option (Impl C D R S)
  new_filtered_impl pkg_path name is_leader_aware options =
      if ltb 1 (length options)
      then none
      else let r = create_recorder from_context b default_controller_agent_name in
        elim (new_controller_reconciler is_leader_aware options) [
          | none ↦ none
          | some rec ↦ some (record {
            reconciler = rec;
            recorder = r.0;
            watches = r.1;
            work_queue_name = ctr_type_name pkg_path name;
          })
        ]

  -- `NewControllerFactory`'s constructor: the reconciler of the certificates and the controller around it.
  unfoldable pub new_controller : Text → Text → Text → Text → Option (Reconciler × Impl C D R S)
  new_controller pkg_path name component_name system_namespace =
      elim (new_filtered_impl pkg_path name false []) [
        | none ↦ none
        | some impl ↦ some (new_reconciler component_name system_namespace, impl)
      ]

  -- The constructor never ends the process: the controller finalizes under `secrets.core`, and the name of
  -- its work queue has no slash.
  new_controller-made :
      (pkg_path name component_name system_namespace : Text)
      → (c : Impl C D R S) × (new_controller pkg_path name component_name system_namespace
          ≡ some (new_reconciler component_name system_namespace, c))
        × (c.reconciler.finalizer_name ≡ default_finalizer_name)
        × (contains slash c.work_queue_name ≡ false)
        × (length c.work_queue_name ≡ length pkg_path + 1 + length name)
  unfolding new_controller new_filtered_impl new_controller_reconciler ctr_type_name
  new_controller-made pkg_path name component_name system_namespace = (
    _,
    refl,
    refl,
    replaced (pkg_path ++ dot ∷ name),
    length-replace_all slash dot (pkg_path ++ dot ∷ name)
        ∙ omega (arith, length-append pkg_path (dot ∷ name)),
  )
