-- ===== src/Controller/ResourceSet/Reconcile/Finalizer.antt =====
-- The finalizer goes only when k1s holds none of the managed resources.
use k1s_k8s_operator.Prelude.{◌≡◌, refl, true, false, if◌then◌else◌, ◌∙◌}
use k1s_k8s_operator.Go.Errors.{Error, Result, ok, err, Exec}
use k1s_k8s_operator.K1s.Client.Routes.{Api}
use k1s_k8s_operator.Api.Capability.{K1sResourceSet}
use k1s_k8s_operator.Controller.Helpers.{contains_string}
use k1s_k8s_operator.Controller.Platform.{Platform}
use k1s_k8s_operator.Controller.Patch.{patch_finalizers, patch_status, set_condition}
use k1s_k8s_operator.Controller.Managed.{delete_managed_resources}
use k1s_k8s_operator.Controller.Managed.Backend.{Address, any_at, Backend}
use k1s_k8s_operator.Controller.Managed.Pruning.{holds-delete_managed_resources}
use k1s_k8s_operator.Controller.ResourceSet.Types.{capability_finalizer, ReconcileResult, is_orphan}
use k1s_k8s_operator.Controller.ResourceSet.Status.{publish, delete_failed_status}
use k1s_k8s_operator.Controller.Separate.{Leaves, Separate, bind-Leaves, patch_object-Leaves}
use k1s_k8s_operator.Controller.ResourceSet.Reconcile.{remove_finalizer, finalize, after_deletes}

-- The platform with another patch of resource sets.
abbrev pub patching :
    {W : Type 0} → Platform W → (K1sResourceSet → K1sResourceSet → Exec W (Unit {0})) → Platform W
patching P patch = record P { resource_sets = record P.resource_sets { patch = patch } }

module _ {W : Type 0} (P : Platform W) (set : K1sResourceSet) (api : Api W) where
  -- If a delete fails, the reconciliation fails with its error, and sends no patch of the object, which
  -- would remove the finalizer: it comes to the same whatever such a patch would do.
  pub finalize_failed :
      (w w' : W) (e : Error)
      → contains_string set.meta.finalizers capability_finalizer ≡ true
      → is_orphan set.spec.delete_policy ≡ false
      → delete_managed_resources api set.status.managed_resources w ≡ (err e, w')
      → ((finalize P set api w).0 ≡ err e)
        × ((patch : K1sResourceSet → K1sResourceSet → Exec W (Unit {0}))
            → finalize (patching P patch) set api w ≡ finalize P set api w)
  unfolding finalize publish patch_status delete_failed_status set_condition
  finalize_failed w w' e has_it deletes failed =
      (rw (has_it, deletes, failed) refl, λ patch. rw (has_it, deletes, failed) refl)

  module _ (B : Backend P api) (S : Separate P P.resource_sets B.holds) where
    remove_finalizer-Leaves : Leaves B.holds (remove_finalizer P set)
    unfolding remove_finalizer patch_finalizers
    remove_finalizer-Leaves =
        bind-Leaves P P.resource_sets B.holds S _ _
          (patch_object-Leaves P P.resource_sets B.holds S set _) (λ _ w a. refl)

    after_deletes-holds :
        (r : Result (Unit {0})) (w : W) (a : Address) {out : ReconcileResult}
        → (after_deletes P set r w).0 ≡ ok out
        → (r ≡ ok tt) × (B.holds (after_deletes P set r w).1 a ≡ B.holds w a)
    after_deletes-holds (ok _) w a h = (refl, remove_finalizer-Leaves w a)
    after_deletes-holds (err e) w a h = cc

    -- When the deletion of a set that is not orphaned ends well, k1s holds none of the resources that
    -- the set managed, and holds everything else as before.
    pub holds-finalize :
        (w : W) (a : Address) {out : ReconcileResult}
        → contains_string set.meta.finalizers capability_finalizer ≡ true
        → is_orphan set.spec.delete_policy ≡ false
        → (finalize P set api w).0 ≡ ok out
        → B.holds (finalize P set api w).1 a
          ≡ (if any_at set.status.managed_resources a then false else B.holds w a)
    unfolding finalize
    holds-finalize w a has_it deletes h =
        let p = delete_managed_resources api set.status.managed_resources w in
        let (gone, same) = after_deletes-holds p.0 p.1 a (rw (has_it, deletes) at h) in
        rw (has_it, deletes)
          (same ∙ holds-delete_managed_resources P api B set.status.managed_resources w a gone)
