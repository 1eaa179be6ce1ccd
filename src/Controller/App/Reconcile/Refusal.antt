-- ===== src/Controller/App/Reconcile/Refusal.antt =====
-- A K1sApp whose manifest is missing or of another kind never reaches k1s.
use k1s_k8s_operator.Prelude.{◌≡◌, inl, inr, false, ◌==◌, string_eq, Bool-cases}
use k1s_k8s_operator.K1s.Client.Routes.{Api}
use k1s_k8s_operator.Api.Cluster.{K1sCluster}
use k1s_k8s_operator.Api.Capability.{K1sApp}
use k1s_k8s_operator.Controller.Helpers.{contains_string}
use k1s_k8s_operator.Controller.Platform.{Platform}
use k1s_k8s_operator.Controller.Manifest.{kind_from_manifest}
use k1s_k8s_operator.Controller.ResourceSet.Types.{capability_finalizer, is_deleted}
use k1s_k8s_operator.Controller.App.Reconcile.{check_and_sync, reconcile_app_with}

module _ {W : Type 0} (P : Platform W) (app : K1sApp) (api api' : Api W)
    (cluster : K1sCluster) where
  check_and_sync_same :
      (w : W)
      → (kind_from_manifest P app.spec.manifest == "Deployment") ≡ false
      → check_and_sync P app api cluster w ≡ check_and_sync P app api' cluster w
  unfolding check_and_sync
  check_and_sync_same w other = elim (Bool-cases (app.spec.manifest == "")) [
    | inl blank ↦ rw blank
    | inr text ↦ rw (text, other)
  ]

  -- While an app is not being deleted, a manifest of a kind other than Deployment (or with none that can be
  -- read) keeps the reconciliation from calling k1s at all: it comes to the same whatever the k1s API would
  -- do.
  pub reconcile_app_other_kind :
      (w : W)
      → is_deleted app.meta ≡ false
      → (kind_from_manifest P app.spec.manifest == "Deployment") ≡ false
      → reconcile_app_with P app api cluster w ≡ reconcile_app_with P app api' cluster w
  unfolding reconcile_app_with
  reconcile_app_other_kind w alive other =
      elim (Bool-cases (contains_string app.meta.finalizers capability_finalizer)) [
        | inl has_it ↦ rw (alive, has_it) (check_and_sync_same w other)
        | inr lacks_it ↦ rw (alive, lacks_it)
      ]
