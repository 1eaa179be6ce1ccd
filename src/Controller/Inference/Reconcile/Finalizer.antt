-- ===== src/Controller/Inference/Reconcile/Finalizer.antt =====
-- The finalizer of a K1sInferenceEndpoint goes only when k1s does not hold its cell or cell set.
use k1s_k8s_operator.Prelude.{
  ◌≡◌, refl, ◌∙◌, true, false, Option, none, some, if◌then◌else◌, ◌==◌, string_eq,
}
use k1s_k8s_operator.Go.Errors.{Result, ok, err}
use k1s_k8s_operator.K1s.Client.Routes.{Api}
use k1s_k8s_operator.Api.Capability.{K1sInferenceCellSetSpec, K1sInferenceEndpoint}
use k1s_k8s_operator.Controller.Helpers.{contains_string}
use k1s_k8s_operator.Controller.Platform.{Platform}
use k1s_k8s_operator.Controller.Separate.{Leaves, Separate, bind-Leaves, patch_finalizers-Leaves}
use k1s_k8s_operator.Controller.Managed.{delete_reply}
use k1s_k8s_operator.Controller.Managed.Backend.{Address, address_eq, Backend}
use k1s_k8s_operator.Controller.ResourceSet.Types.{capability_finalizer, ReconcileResult, is_orphan}
use k1s_k8s_operator.Controller.Inference.Pass.Address.{inference_address, endpoint_address}
use k1s_k8s_operator.Controller.Inference.Reconcile.{
  delete_for, remove_inference_finalizer, after_inference_delete, finalize_inference,
}

module _ {W : Type 0} (P : Platform W) (endpoint : K1sInferenceEndpoint) (api : Api W)
    (B : Backend P api) (S : Separate P P.inference_endpoints B.holds) where
  pub remove_finalizer-Leaves : Leaves B.holds (remove_inference_finalizer P endpoint)
  unfolding remove_inference_finalizer
  remove_finalizer-Leaves =
      bind-Leaves P P.inference_endpoints B.holds S _ _
        (patch_finalizers-Leaves P P.inference_endpoints B.holds S endpoint _) (λ _ w x. refl)

  after_delete-holds :
      (r : Result (Unit {0})) (w : W) (x : Address) {out : ReconcileResult}
      → (after_inference_delete P endpoint r w).0 ≡ ok out
      → (r ≡ ok tt) × (B.holds (after_inference_delete P endpoint r w).1 x ≡ B.holds w x)
  after_delete-holds (ok _) w x h = (refl, remove_finalizer-Leaves w x)
  after_delete-holds (err e) w x h = cc

  pub delete_for-holds :
      (c : Option K1sInferenceCellSetSpec) (w : W) (x : Address)
      → (delete_reply api (delete_for P endpoint api c) w).0 ≡ ok tt
      → B.holds (delete_reply api (delete_for P endpoint api c) w).1 x ≡ (
          if x == inference_address endpoint.meta.namespace endpoint.meta.name c
          then false
          else B.holds w x)
  delete_for-holds none w x gone = B.deletes_cell _ _ w gone x
  delete_for-holds (some c) w x gone = B.deletes_cell_set _ _ w gone x

  -- When the deletion of an inference endpoint that is not orphaned ends well, so that its finalizer is
  -- removed, k1s does not hold the cell or cell set that a pass over the endpoint brings there, and holds
  -- everything else as before. The k1s API behaves as `Backend` says, and the calls of Kubernetes leave
  -- k1s alone.
  pub holds-finalize_inference :
      (w : W) (x : Address) {out : ReconcileResult}
      → contains_string endpoint.meta.finalizers capability_finalizer ≡ true
      → is_orphan endpoint.spec.delete_policy ≡ false
      → (finalize_inference P endpoint api w).0 ≡ ok out
      → B.holds (finalize_inference P endpoint api w).1 x
        ≡ (if x == endpoint_address endpoint then false else B.holds w x)
  unfolding finalize_inference
  holds-finalize_inference w x has_it deletes h =
      let p = delete_reply api (delete_for P endpoint api endpoint.spec.cell_set) w in
      let (gone, same) = after_delete-holds p.0 p.1 x (rw (has_it, deletes) at h) in
      rw (has_it, deletes) (same ∙ delete_for-holds endpoint.spec.cell_set w x gone)
