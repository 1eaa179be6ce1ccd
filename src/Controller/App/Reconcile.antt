-- ===== src/Controller/App/Reconcile.antt =====
-- `Reconcile` of K1sAppReconciler: the finalizer, the checks of the manifest, and the pass.
pub mod Finalizer
pub mod Refusal
use k1s_k8s_operator.Prelude.{
  String, true, not, List, [], ◌∷◌, ◌++◌, ◌==◌, string_eq, if◌then◌else◌,
}
use k1s_k8s_operator.Go.Errors.{
  is_kube_not_found, is_not_found, Result, ok, err, Exec, pure, fail, handle, ◌>>◌,
}
use k1s_k8s_operator.K1s.Client.Routes.{Api, client_api}
use k1s_k8s_operator.Api.Meta.{NamespacedName}
use k1s_k8s_operator.Api.Cluster.{K1sCluster}
use k1s_k8s_operator.Api.Capability.{K1sApp}
use k1s_k8s_operator.Controller.Helpers.{contains_string, remove_string, first_non_empty}
use k1s_k8s_operator.Controller.Platform.{Platform}
use k1s_k8s_operator.Controller.Patch.{patch_finalizers}
use k1s_k8s_operator.Controller.Auth.{write_client}
use k1s_k8s_operator.Controller.Manifest.{kind_from_manifest, app_name_from_manifest}
use k1s_k8s_operator.Controller.Managed.{gone, delete_reply}
use k1s_k8s_operator.Controller.ResourceSet.Types.{
  capability_finalizer, ReconcileResult, done, is_deleted, is_orphan,
}
use k1s_k8s_operator.Controller.App.Status.{
  publish_app, app_no_client_status, app_delete_failed_status, no_manifest_status,
  wrong_kind_status,
}
use k1s_k8s_operator.Controller.App.Pass.{sync_app}

module _ {W : Type 0} (P : Platform W) where
  module _ (app : K1sApp) where
    -- `appDeleteName`
    unfoldable pub app_delete_name : String
    unfolding first_non_empty
    app_delete_name =
        first_non_empty
          (app.status.app_name ∷ app_name_from_manifest P app.spec.manifest ∷ app.meta.name ∷ [])

    unfoldable pub remove_app_finalizer : Exec W ReconcileResult
    remove_app_finalizer = do
      patch_finalizers P P.apps app (remove_string app.meta.finalizers capability_finalizer)
      pure done

    abbrev pub after_app_delete : Result (Unit {0}) → Exec W ReconcileResult
    after_app_delete (ok _) w = remove_app_finalizer w
    after_app_delete (err e) w =
        handle (publish_app P app (app_delete_failed_status P app e (P.now w))) (λ _. fail e) w

    -- the branch for an object that is being deleted
    unfoldable pub finalize_app : Api W → Exec W ReconcileResult
    finalize_app api =
        if not (contains_string app.meta.finalizers capability_finalizer)
        then pure done
        else if is_orphan app.spec.delete_policy
        then remove_app_finalizer
        else handle (delete_reply api (api.delete_app app_delete_name true)) after_app_delete

    unfoldable pub add_app_finalizer : Exec W ReconcileResult
    add_app_finalizer = do
      patch_finalizers P P.apps app (app.meta.finalizers ++ capability_finalizer ∷ [])
      pure (record { requeue = true; requeue_after = 0 })

    unfoldable pub check_and_sync : Api W → K1sCluster → Exec W ReconcileResult
    check_and_sync api cluster w =
        if app.spec.manifest == ""
        then (publish_app P app (no_manifest_status P app (P.now w)) >> pure done) w
        else if not (kind_from_manifest P app.spec.manifest == "Deployment")
        then (publish_app P app
                (wrong_kind_status P app (kind_from_manifest P app.spec.manifest) (P.now w))
              >> pure done)
            w
        else sync_app P app api cluster w

    unfoldable pub reconcile_app_with : Api W → K1sCluster → Exec W ReconcileResult
    reconcile_app_with api cluster =
        if is_deleted app.meta
        then finalize_app api
        else if not (contains_string app.meta.finalizers capability_finalizer)
        then add_app_finalizer
        else check_and_sync api cluster

    unfoldable pub reconcile_app_found : Exec W ReconcileResult
    reconcile_app_found = handle (write_client P app.meta.namespace app.spec.cluster_ref) λ r.
        elim r [
          | err e ↦ λ w. (publish_app P app (app_no_client_status P app e (P.now w)) >> pure done) w
          | ok (c, cluster) ↦ reconcile_app_with (client_api P.transport c) cluster
        ]

  unfoldable pub reconcile_app : NamespacedName → Exec W ReconcileResult
  reconcile_app key = handle (P.apps.get key) λ r. elim r [
    | err e ↦ if is_kube_not_found e then pure done else fail e
    | ok app ↦ reconcile_app_found app
  ]
