-- ===== src/Controller/Inference/Reconcile.antt =====
-- `Reconcile` of K1sInferenceEndpointReconciler: the finalizer, the building of the manifest, and the
-- pass.
pub mod Finalizer
use k1s_k8s_operator.Prelude.{
  String, not, List, [], ◌∷◌, ◌++◌, true, Option, none, some, string_eq, if◌then◌else◌,
}
use k1s_k8s_operator.Go.Values.{Fields}
use k1s_k8s_operator.Go.Errors.{is_kube_not_found, Result, ok, err, Exec, pure, fail, handle, ◌>>◌}
use k1s_k8s_operator.K1s.Client.Routes.{Api, client_api}
use k1s_k8s_operator.Api.Meta.{NamespacedName}
use k1s_k8s_operator.Api.Cluster.{K1sCluster}
use k1s_k8s_operator.Api.Capability.{K1sInferenceCellSetSpec, K1sInferenceEndpoint}
use k1s_k8s_operator.Controller.Helpers.{contains_string, remove_string}
use k1s_k8s_operator.Controller.Platform.{Platform}
use k1s_k8s_operator.Controller.Patch.{patch_finalizers}
use k1s_k8s_operator.Controller.Auth.{write_client}
use k1s_k8s_operator.Controller.Managed.{delete_reply}
use k1s_k8s_operator.Controller.ResourceSet.Types.{
  capability_finalizer, ReconcileResult, done, is_deleted, is_orphan,
}
use k1s_k8s_operator.Controller.Inference.Manifest.{build_inference_manifest}
use k1s_k8s_operator.Controller.Inference.Status.{
  publish_inference, inference_no_client_status, inference_delete_failed_status,
  invalid_inference_status,
}
use k1s_k8s_operator.Controller.Inference.Pass.{sync_inference}

module _ {W : Type 0} (P : Platform W) where
  module _ (endpoint : K1sInferenceEndpoint) where
    abbrev pub delete_for : Api W → Option K1sInferenceCellSetSpec → Exec W Fields
    delete_for api none = api.delete_inference_cell endpoint.meta.namespace endpoint.meta.name
    delete_for api (some cell_set) =
        api.delete_inference_cell_set endpoint.meta.namespace endpoint.meta.name

    unfoldable pub remove_inference_finalizer : Exec W ReconcileResult
    remove_inference_finalizer = do
      patch_finalizers P P.inference_endpoints endpoint
          (remove_string endpoint.meta.finalizers capability_finalizer)
      pure done

    abbrev pub after_inference_delete : Result (Unit {0}) → Exec W ReconcileResult
    after_inference_delete (ok _) w = remove_inference_finalizer w
    after_inference_delete (err e) w =
        handle
          (publish_inference P endpoint (inference_delete_failed_status P endpoint e (P.now w)))
          (λ _. fail e) w

    -- the branch for an object that is being deleted
    unfoldable pub finalize_inference : Api W → Exec W ReconcileResult
    finalize_inference api =
        if not (contains_string endpoint.meta.finalizers capability_finalizer)
        then pure done
        else if is_orphan endpoint.spec.delete_policy
        then remove_inference_finalizer
        else handle (delete_reply api (delete_for api endpoint.spec.cell_set))
            after_inference_delete

    unfoldable pub add_inference_finalizer : Exec W ReconcileResult
    add_inference_finalizer = do
      patch_finalizers P P.inference_endpoints endpoint
          (endpoint.meta.finalizers ++ capability_finalizer ∷ [])
      pure (record { requeue = true; requeue_after = 0 })

    abbrev pub built : Api W → K1sCluster → Result String → Exec W ReconcileResult
    built api cluster (ok manifest) w = sync_inference P endpoint api cluster manifest w
    built api cluster (err e) w =
        (publish_inference P endpoint (invalid_inference_status P endpoint e (P.now w))
            >> pure done)
          w

    unfoldable pub reconcile_inference_with : Api W → K1sCluster → Exec W ReconcileResult
    reconcile_inference_with api cluster =
        if is_deleted endpoint.meta
        then finalize_inference api
        else if not (contains_string endpoint.meta.finalizers capability_finalizer)
        then add_inference_finalizer
        else built api cluster (build_inference_manifest endpoint P)

    unfoldable pub reconcile_inference_found : Exec W ReconcileResult
    reconcile_inference_found =
        handle (write_client P endpoint.meta.namespace endpoint.spec.cluster_ref) λ r. elim r [
          | err e ↦ λ w.
              (publish_inference P endpoint (inference_no_client_status P endpoint e (P.now w))
                  >> pure done)
                w
          | ok (c, cluster) ↦ reconcile_inference_with (client_api P.transport c) cluster
        ]

  unfoldable pub reconcile_inference : NamespacedName → Exec W ReconcileResult
  reconcile_inference key = handle (P.inference_endpoints.get key) λ r. elim r [
    | err e ↦ if is_kube_not_found e then pure done else fail e
    | ok endpoint ↦ reconcile_inference_found endpoint
  ]
