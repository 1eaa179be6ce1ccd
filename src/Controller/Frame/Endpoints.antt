-- ===== src/Controller/Frame/Endpoints.antt =====
-- A round of K1sInferenceEndpointReconciler touches nothing but what the manifest that it builds describes
-- and the cell or cell set of its name.
use k1s_k8s_operator.Prelude.{
  ◌≡◌, ◌∙◌, Bool, refl, false, not, Option, none, some, ◌==◌, string_eq, String, List,
}
use k1s_k8s_operator.Go.Errors.{Result, ok, err}
use k1s_k8s_operator.K1s.Status.{InferenceStatus}
use k1s_k8s_operator.K1s.Client.Routes.{Api}
use k1s_k8s_operator.Api.Cluster.{K1sCluster}
use k1s_k8s_operator.Api.Capability.{
  K1sInferenceCellSetSpec, K1sInferenceEndpoint, K1sInferenceEndpointStatus,
}
use k1s_k8s_operator.Controller.Helpers.{contains_string}
use k1s_k8s_operator.Controller.Platform.{Platform}
use k1s_k8s_operator.Controller.Patch.{patch_finalizers}
use k1s_k8s_operator.Controller.Inference.Manifest.{build_inference_manifest}
use k1s_k8s_operator.Controller.Separate.{
  Leaves, Separate, patch_status-Leaves, patch_finalizers-Leaves,
}
use k1s_k8s_operator.Controller.Keeps.{Keeps, bind-Keeps, handle-Keeps, if-Keeps, Leaves-Keeps}
use k1s_k8s_operator.Controller.Managed.{delete_reply}
use k1s_k8s_operator.Controller.Managed.Backend.{Address, address_eq}
use k1s_k8s_operator.Controller.ResourceSet.Types.{capability_finalizer, is_deleted, is_orphan}
use k1s_k8s_operator.Controller.Upkeep.{Outcome}
use k1s_k8s_operator.Controller.Inference.Status.{publish_inference, inference_delete_failed_status}
use k1s_k8s_operator.Controller.Inference.Pass.{
  ask_for, inference_status_for_endpoint, upkept_inference, inference_work, settle_inference,
  sync_inference,
}
use k1s_k8s_operator.Controller.Inference.Pass.Address.{inference_address, endpoint_address}
use k1s_k8s_operator.Controller.Inference.Reconcile.{
  delete_for, remove_inference_finalizer, after_inference_delete, finalize_inference,
  add_inference_finalizer, built, reconcile_inference_with,
}
use k1s_k8s_operator.Controller.Frame.{Misses, Local}
use k1s_k8s_operator.Controller.Frame.Pass.{upkeep-Keeps}

module _ {W : Type 0} (P : Platform W) (api : Api W) (holds : W → Address → Bool)
    (local : Local P api holds) (a : Address) (b : Bool) (o : K1sInferenceEndpoint)
    (S : Separate P P.inference_endpoints holds) (undeleted : (a == endpoint_address o) ≡ false)
    (unwanted : (raw : String) → build_inference_manifest o P ≡ ok raw → Misses P a raw) where
  abbrev Same : W → Type 0
  Same w = holds w a ≡ b

  publish-Keeps : (status : K1sInferenceEndpointStatus) → Keeps Same (publish_inference P o status)
  unfolding publish_inference
  publish-Keeps status =
      Leaves-Keeps holds (publish_inference P o status)
        (patch_status-Leaves P P.inference_endpoints holds S o _) a b

  finalizers-Keeps :
      (finalizers : List String)
      → Keeps Same (patch_finalizers P P.inference_endpoints o finalizers)
  finalizers-Keeps finalizers =
      Leaves-Keeps holds (patch_finalizers P P.inference_endpoints o finalizers)
        (patch_finalizers-Leaves P P.inference_endpoints holds S o finalizers) a b

  after_delete-Keeps : (r : Result (Unit {0})) → Keeps Same (after_inference_delete P o r)
  unfolding remove_inference_finalizer
  after_delete-Keeps (ok _) = bind-Keeps Same _ _ (finalizers-Keeps _) (λ _ w q. q)
  after_delete-Keeps (err e) = λ w. publish-Keeps (inference_delete_failed_status P o e (P.now w)) w

  delete_for-same :
      (c : Option K1sInferenceCellSetSpec)
      → (a == inference_address o.meta.namespace o.meta.name c) ≡ false
      → (w : W) → holds (delete_reply api (delete_for P o api c) w).1 a ≡ holds w a
  delete_for-same none elsewhere w = local.deletes_cell _ _ w a elsewhere
  delete_for-same (some c) elsewhere w = local.deletes_cell_set _ _ w a elsewhere

  asks : (c : Option K1sInferenceCellSetSpec) → Leaves holds (ask_for P o api c)
  asks none = local.asks_cell _ _
  asks (some c) = local.asks_cell_set _ _

  finalize-Keeps : Keeps Same (finalize_inference P o api)
  unfolding finalize_inference
  finalize-Keeps =
      if-Keeps Same (not (contains_string o.meta.finalizers capability_finalizer)) _ _ (λ _ w q. q)
        λ _.
          if-Keeps Same (is_orphan o.spec.delete_policy) _ _ (λ _. after_delete-Keeps (ok tt))
            λ _.
              handle-Keeps Same (delete_reply api (delete_for P o api o.spec.cell_set))
                (after_inference_delete P o)
                (λ w q. delete_for-same o.spec.cell_set undeleted w ∙ q) after_delete-Keeps

  settle-Keeps :
      (cluster : K1sCluster) (x : Outcome InferenceStatus)
      → Keeps Same (settle_inference P o api cluster x)
  unfolding settle_inference
  settle-Keeps cluster x w =
      bind-Keeps Same (publish_inference P o _) _ (publish-Keeps _) (λ _ w q. q) w

  sync-Keeps :
      (cluster : K1sCluster) (raw : String)
      → Misses P a raw
      → Keeps Same (sync_inference P o api cluster raw)
  unfolding sync_inference inference_work inference_status_for_endpoint
  sync-Keeps cluster raw miss =
      bind-Keeps Same (inference_work P o api raw) (settle_inference P o api cluster)
        (upkeep-Keeps P api holds local a b (upkept_inference P o api raw) S (asks o.spec.cell_set)
          miss)
        (settle-Keeps cluster)

  built-Keeps :
      (cluster : K1sCluster) (r : Result String)
      → build_inference_manifest o P ≡ r
      → Keeps Same (built P o api cluster r)
  built-Keeps cluster (ok raw) made = sync-Keeps cluster raw (unwanted raw made)
  built-Keeps cluster (err e) made =
      λ w. bind-Keeps Same (publish_inference P o _) _ (publish-Keeps _) (λ _ w q. q) w

  -- whether it ends well or not
  pub reconcile_inference_with-Keeps :
      (cluster : K1sCluster) → Keeps Same (reconcile_inference_with P o api cluster)
  unfolding reconcile_inference_with add_inference_finalizer
  reconcile_inference_with-Keeps cluster =
      if-Keeps Same (is_deleted o.meta) _ _ (λ _. finalize-Keeps)
        λ _.
          if-Keeps Same (not (contains_string o.meta.finalizers capability_finalizer)) _ _
            (λ _. bind-Keeps Same _ _ (finalizers-Keeps _) (λ _ w q. q))
            (λ _. built-Keeps cluster (build_inference_manifest o P) refl)
