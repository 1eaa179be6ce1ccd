-- ===== src/Controller/Frame/Apps.antt =====
-- A round of K1sAppReconciler touches nothing but what its manifest describes and the app that it deletes.
use k1s_k8s_operator.Prelude.{
  ◌≡◌, ◌∙◌, Bool, true, false, Bool-cases, inl, inr, not, ◌==◌, string_eq, String, List,
}
use k1s_k8s_operator.Go.Errors.{Result, ok, err, pure}
use k1s_k8s_operator.K1s.Status.{AppStatus}
use k1s_k8s_operator.K1s.Client.Routes.{Api}
use k1s_k8s_operator.Api.Cluster.{K1sCluster}
use k1s_k8s_operator.Api.Capability.{K1sApp, K1sAppStatus}
use k1s_k8s_operator.Controller.Helpers.{contains_string}
use k1s_k8s_operator.Controller.Platform.{Platform}
use k1s_k8s_operator.Controller.Patch.{patch_finalizers}
use k1s_k8s_operator.Controller.Manifest.{kind_from_manifest}
use k1s_k8s_operator.Controller.Separate.{Separate, patch_status-Leaves, patch_finalizers-Leaves}
use k1s_k8s_operator.Controller.Keeps.{Keeps, bind-Keeps, handle-Keeps, if-Keeps, Leaves-Keeps}
use k1s_k8s_operator.Controller.Managed.{delete_reply}
use k1s_k8s_operator.Controller.Managed.Backend.{Address, app, address_eq}
use k1s_k8s_operator.Controller.ResourceSet.Types.{
  capability_finalizer, done, is_deleted, is_orphan,
}
use k1s_k8s_operator.Controller.Upkeep.{Outcome}
use k1s_k8s_operator.Controller.App.Status.{
  publish_app, app_delete_failed_status, no_manifest_status, wrong_kind_status,
}
use k1s_k8s_operator.Controller.App.Pass.{ask_status, upkept_app, app_work, settle_app, sync_app}
use k1s_k8s_operator.Controller.App.Reconcile.{
  app_delete_name, remove_app_finalizer, after_app_delete, finalize_app, add_app_finalizer,
  check_and_sync, reconcile_app_with,
}
use k1s_k8s_operator.Controller.Frame.{Misses, Local}
use k1s_k8s_operator.Controller.Frame.Pass.{upkeep-Keeps}

module _ {W : Type 0} (P : Platform W) (api : Api W) (holds : W → Address → Bool)
    (local : Local P api holds) (a : Address) (b : Bool) (o : K1sApp) (S : Separate P P.apps holds)
    (undeleted : (a == app (app_delete_name P o)) ≡ false)
    (unwanted : Misses P a o.spec.manifest) where
  abbrev Same : W → Type 0
  Same w = holds w a ≡ b

  publish-Keeps : (status : K1sAppStatus) → Keeps Same (publish_app P o status)
  unfolding publish_app
  publish-Keeps status =
      Leaves-Keeps holds (publish_app P o status) (patch_status-Leaves P P.apps holds S o _) a b

  finalizers-Keeps :
      (finalizers : List String) → Keeps Same (patch_finalizers P P.apps o finalizers)
  finalizers-Keeps finalizers =
      Leaves-Keeps holds (patch_finalizers P P.apps o finalizers)
        (patch_finalizers-Leaves P P.apps holds S o finalizers) a b

  after_delete-Keeps : (r : Result (Unit {0})) → Keeps Same (after_app_delete P o r)
  unfolding remove_app_finalizer
  after_delete-Keeps (ok _) = bind-Keeps Same _ _ (finalizers-Keeps _) (λ _ w q. q)
  after_delete-Keeps (err e) = λ w. publish-Keeps (app_delete_failed_status P o e (P.now w)) w

  finalize-Keeps : Keeps Same (finalize_app P o api)
  unfolding finalize_app
  finalize-Keeps =
      if-Keeps Same (not (contains_string o.meta.finalizers capability_finalizer)) _ _ (λ _ w q. q)
        λ _.
          if-Keeps Same (is_orphan o.spec.delete_policy) _ _ (λ _. after_delete-Keeps (ok tt))
            λ _.
              handle-Keeps Same (delete_reply api (api.delete_app (app_delete_name P o) true))
                (after_app_delete P o)
                (λ w q. local.deletes_app (app_delete_name P o) w a undeleted ∙ q)
                after_delete-Keeps

  settle-Keeps :
      (cluster : K1sCluster) (x : Outcome AppStatus) → Keeps Same (settle_app P o api cluster x)
  unfolding settle_app
  settle-Keeps cluster x w = bind-Keeps Same (publish_app P o _) _ (publish-Keeps _) (λ _ w q. q) w

  sync-Keeps : (cluster : K1sCluster) → Keeps Same (sync_app P o api cluster)
  unfolding sync_app app_work ask_status
  sync-Keeps cluster =
      bind-Keeps Same (app_work P o api) (settle_app P o api cluster)
        (upkeep-Keeps P api holds local a b (upkept_app P o api) S (local.asks_app _ _) unwanted)
        (settle-Keeps cluster)

  check-Keeps : (cluster : K1sCluster) → Keeps Same (check_and_sync P o api cluster)
  unfolding check_and_sync
  check-Keeps cluster w q =
      let told = λ (status : K1sAppStatus).
        bind-Keeps Same (publish_app P o status) (λ _. pure done) (publish-Keeps status)
          (λ _ v h. h) w q in
      elim (Bool-cases (o.spec.manifest == "")) [
        | inl blank ↦ rw blank (told (no_manifest_status P o (P.now w)))
        | inr given ↦ elim (Bool-cases (kind_from_manifest P o.spec.manifest == "Deployment")) [
          | inl right ↦ rw (given, right) (sync-Keeps cluster w q)
          | inr wrong ↦
              rw (given, wrong)
                (told (wrong_kind_status P o (kind_from_manifest P o.spec.manifest) (P.now w)))
        ]
      ]

  -- whether it ends well or not
  pub reconcile_app_with-Keeps :
      (cluster : K1sCluster) → Keeps Same (reconcile_app_with P o api cluster)
  unfolding reconcile_app_with add_app_finalizer
  reconcile_app_with-Keeps cluster =
      if-Keeps Same (is_deleted o.meta) _ _ (λ _. finalize-Keeps)
        λ _.
          if-Keeps Same (not (contains_string o.meta.finalizers capability_finalizer)) _ _
            (λ _. bind-Keeps Same _ _ (finalizers-Keeps _) (λ _ w q. q)) (λ _. check-Keeps cluster)
