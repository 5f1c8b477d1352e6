-- ===== src/Certificates/Controller/Dispatch.antt =====
-- pkg/certificates/reconciler/reconciler.go: which methods `Reconcile` calls. That one is not called is
-- said by putting any other in its place.
use control_protocol.Prelude.{ℕ, ◌≡◌, ◌⊎◌, false, Option-cases, inl, inr, Option, none, some, arith}
use control_protocol.Prelude.Maps.{map_option}
use control_protocol.Errors.{Text, Result, ok}
use control_protocol.Certificates.Reconciler.{Secret, found}
use control_protocol.Certificates.Controller.{
  Patch, Method, ReconcilerImpl, patched, patch_with, patch_finalizers, update_finalizers_filtered,
  set_finalizer, set_finalizer_if_finalizer, remove_finalizer, clear_finalizer,
}
use control_protocol.Certificates.Controller.Reconcile.{
  new_state, method_for, reconcile_method_for, reported, report, reconcile_resource, report_cleared,
  finalize_resource, run_method, run_observe, reconcile_found, reconcile_state, reconcile,
}

module _ {W : Type 0} (r : ReconcilerImpl W) where
  -- A replica that is not the leader for a key patches, reconciles and finalizes nothing under it.
  pub not_leader-reconcile :
      (patch : Text → Text → Patch → W → W × Result Secret) (m : Method W) (k : Option (Method W))
      (key namespace name : Text) (w : W)
      → r.split_key key ≡ ok (namespace, name)
      → r.is_leader_for namespace name ≡ false
      → reconcile (record r { patch = patch; reconcile_kind = m; finalize_kind = k }) key w
        ≡ reconcile r key w
  unfolding reconcile reconcile_state new_state reconcile_found run_observe run_method
      reconcile_method_for method_for report reported
  not_leader-reconcile patch m k key namespace name w h l = ground (arith, h, l)

  -- A secret that is not being deleted is never finalized, and one that is being deleted is never
  -- reconciled.
  pub reconcile_exclusive :
      (m : Method W) (key namespace name : Text) (w : W) (s : Secret)
      → r.split_key key ≡ ok (namespace, name)
      → r.get w namespace name ≡ found s
      → ((s.deletion_timestamp ≡ none)
          × (reconcile (record r { finalize_kind = map_option (λ f. m) r.finalize_kind }) key w
              ≡ reconcile r key w))
        ⊎ ((t : ℕ) × (s.deletion_timestamp ≡ some t)
            × (reconcile (record r { reconcile_kind = m }) key w ≡ reconcile r key w))
  unfolding reconcile reconcile_state new_state reconcile_found run_observe run_method
      reconcile_method_for method_for report reported reconcile_resource finalize_resource
      report_cleared set_finalizer_if_finalizer set_finalizer clear_finalizer remove_finalizer
      update_finalizers_filtered patch_finalizers patch_with patched
  reconcile_exclusive m key namespace name w s h g = elim (Option-cases s.deletion_timestamp) [
    | inl alive ↦ inl (alive, ground (arith, h, g, alive))
    | inr (t, dying) ↦ inr (t, dying, ground (arith, h, g, dying))
  ]
