-- ===== src/Certificates/Controller/Finalizers.antt =====
-- pkg/certificates/reconciler/reconciler.go: what becomes of the finalizers of a secret.
use control_protocol.Prelude.{
  ℕ, ◌≡◌, refl, sym, ap, ◌∙◌, Bool, true, false, ◌&&◌, ◌||◌, not, Option, none, some, List, [], ◌∷◌,
  ◌++◌, if◌then◌else◌, arith,
}
use control_protocol.Prelude.Equality.{◌==◌, bytes_eq, bytes_equal_iff, ==_refl}
use control_protocol.Prelude.Maps.{contains, contains-append}
use control_protocol.Errors.{Text, Error, Result, ok, err, ok_inj}
use control_protocol.Certificates.Reconciler.{Secret}
use control_protocol.Certificates.Controller.{
  Event, Patch, Method, ReconcilerImpl, delete, ends_cleanly, given, patched, patch_with,
  patch_finalizers, update_finalizers_filtered, set_finalizer, set_finalizer_if_finalizer,
  remove_finalizer, clear_finalizer,
}

contains-delete :
    (x y : Text) (l : List Text) → contains x (delete y l) ≡ (not (y == x) && contains x l)
contains-delete x y [] = ground arith
contains-delete x y (z ∷ l) =
    ground
      (arith, contains-delete x y l, bytes_equal_iff z x, bytes_equal_iff z y, bytes_equal_iff y x)

-- What the code relies on: `List` of a set gives its members, and a patch that succeeds returns the
-- secret with the finalizers of the patch.
pub record IsFaithful {W : Type 0} (r : ReconcilerImpl W) : Type 0 where
  pub same_members : (x : Text) (l : List Text) → contains x (r.set_list l) ≡ contains x l
  pub returns_patched :
      (namespace name : Text) (p : Patch) (w : W) (updated : Secret)
      → (r.patch namespace name p w).1 ≡ ok updated
      → updated.finalizers ≡ p.finalizers

module _ {W : Type 0} (r : ReconcilerImpl W) (f : IsFaithful r) where
  patched_ok :
      (existing : Secret) (p : W × Result Secret) (s : Secret)
      → (patched r existing p).1 ≡ ok s
      → p.1 ≡ ok s
  unfolding patched
  patched_ok existing (w, err e) s h = h
  patched_ok existing (w, ok updated) s h = h

  patch_finalizers_ok :
      (resource : Secret) (finalizers : List Text) (w : W) (s : Secret)
      → (patch_finalizers r resource finalizers w).1 ≡ ok s
      → s.finalizers ≡ finalizers
  unfolding patch_finalizers patch_with
  patch_finalizers_ok resource finalizers w s h = marshalled (r.marshal_error p) h
    where
      p : Patch
      p = record { finalizers = finalizers; resource_version = resource.resource_version }

      marshalled :
          (o : Option Error) → (patch_with r resource p o w).1 ≡ ok s → s.finalizers ≡ finalizers
      marshalled (some e) h = absurd (ground (arith, h))
      marshalled none h =
          f.returns_patched resource.namespace resource.name p w s
            (patched_ok resource (r.patch resource.namespace resource.name p w) s h)

  -- `updateFinalizersFiltered` that succeeds moves the finalizer's own name to where the desired set
  -- has it, and leaves all other finalizers.
  update_finalizers_filtered_ok :
      (resource : Secret) (desired : List Text) (w : W) (s : Secret) (x : Text)
      → (update_finalizers_filtered r resource desired w).1 ≡ ok s
      → contains x s.finalizers ≡ (
          if r.finalizer_name == x
          then contains r.finalizer_name desired
          else contains x resource.finalizers)
  unfolding update_finalizers_filtered
  update_finalizers_filtered_ok resource desired w s x h =
      moved (contains n desired) (contains n resource.finalizers) refl refl h
    where
      n : Text
      n = r.finalizer_name

      same_name : (l : List Text) → (n == x) ≡ true → contains x l ≡ contains n l
      same_name l e = ap (λ y. contains y l) (sym ((bytes_equal_iff n x).0 e))

      moved :
          (d e : Bool)
          → contains n desired ≡ d
          → contains n resource.finalizers ≡ e
          → (if d
              then (if e
                  then (w, ok resource)
                  else patch_finalizers r resource (resource.finalizers ++ n ∷ []) w)
              else (if e
                  then patch_finalizers r resource (r.set_list (delete n resource.finalizers)) w
                  else (w, ok resource))).1
            ≡ ok s
          → contains x s.finalizers
            ≡ (if n == x then contains n desired else contains x resource.finalizers)
      moved true true p q h = ground (
        arith,
        p,
        q,
        same_name resource.finalizers,
        ap (λ o. contains x o.finalizers) (ok_inj resource s h),
      )
      moved true false p q h =
          ap (contains x) (patch_finalizers_ok resource (resource.finalizers ++ n ∷ []) w s h)
          ∙ ground (arith, p, q, contains-append x resource.finalizers (n ∷ []))
      moved false true p q h =
          ap (contains x)
            (patch_finalizers_ok resource (r.set_list (delete n resource.finalizers)) w s h)
          ∙ f.same_members x (delete n resource.finalizers)
          ∙ ground (arith, p, q, contains-delete x n resource.finalizers)
      moved false false p q h = ground (
        arith,
        p,
        q,
        same_name resource.finalizers,
        ap (λ o. contains x o.finalizers) (ok_inj resource s h),
      )

  -- `setFinalizerIfFinalizer` that succeeds leaves a secret that is not being deleted with its old
  -- finalizers and, if the reconciler can finalize, with its own, if a patch that succeeds returns the
  -- secret with the finalizers that it sets.
  pub set_finalizer_if_finalizer_ok :
      (resource : Secret) (w : W) (s : Secret) (x : Text)
      → resource.deletion_timestamp ≡ none
      → (set_finalizer_if_finalizer r resource w).1 ≡ ok s
      → contains x s.finalizers
        ≡ ((given r.finalize_kind && r.finalizer_name == x) || contains x resource.finalizers)
  unfolding set_finalizer_if_finalizer set_finalizer
  set_finalizer_if_finalizer_ok resource w s x alive h =
      finalizing r.finalize_kind resource.deletion_timestamp alive h
    where
      finalizing :
          (k : Option (Method W)) (d : Option ℕ)
          → d ≡ none
          → (set_finalizer r k d resource w).1 ≡ ok s
          → contains x s.finalizers
            ≡ ((given k && r.finalizer_name == x) || contains x resource.finalizers)
      finalizing none d e h =
          ground (arith, ap (λ o. contains x o.finalizers) (ok_inj resource s h))
      finalizing (some m) (some t) e h = absurd (ground (arith, e))
      finalizing (some m) none e h =
          update_finalizers_filtered_ok resource (r.finalizer_name ∷ resource.finalizers) w s x h
          ∙ ground (arith, ==_refl r.finalizer_name)

  -- `clearFinalizer` that succeeds, on a secret that is being deleted, removes the finalizer's own name
  -- just when the reconciler can finalize and the finalization ended with no event or a normal one, and
  -- no other name, if a patch that succeeds returns the secret with the finalizers that it sets.
  pub clear_finalizer_ok :
      (resource : Secret) (event : Option Event) (w : W) (s : Secret) (x : Text) (t : ℕ)
      → resource.deletion_timestamp ≡ some t
      → (clear_finalizer r resource event w).1 ≡ ok s
      → contains x s.finalizers ≡ (
          not (given r.finalize_kind && ends_cleanly event && r.finalizer_name == x)
          && contains x resource.finalizers)
  unfolding clear_finalizer remove_finalizer
  clear_finalizer_ok resource event w s x t dying h =
      finalizing r.finalize_kind resource.deletion_timestamp dying h
    where
      desired : List Text
      desired =
          if ends_cleanly event
          then delete r.finalizer_name resource.finalizers
          else resource.finalizers

      desired-own :
          contains r.finalizer_name desired
          ≡ (not (ends_cleanly event) && contains r.finalizer_name resource.finalizers)
      desired-own = ground (
        arith,
        contains-delete r.finalizer_name r.finalizer_name resource.finalizers,
        ==_refl r.finalizer_name,
      )

      finalizing :
          (k : Option (Method W)) (d : Option ℕ)
          → d ≡ some t
          → (remove_finalizer r k d resource event w).1 ≡ ok s
          → contains x s.finalizers ≡ (
              not (given k && ends_cleanly event && r.finalizer_name == x)
              && contains x resource.finalizers)
      finalizing none d e h =
          ground (arith, ap (λ o. contains x o.finalizers) (ok_inj resource s h))
      finalizing (some m) none e h = absurd (ground (arith, e))
      finalizing (some m) (some t') e h =
          update_finalizers_filtered_ok resource desired w s x h
          ∙ ground (
            arith,
            desired-own,
            ap (λ y. contains y resource.finalizers) ((bytes_equal_iff r.finalizer_name x).0 _),
            bytes_equal_iff r.finalizer_name x,
          )
