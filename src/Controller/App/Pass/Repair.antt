-- ===== src/Controller/App/Pass/Repair.antt =====
-- What a pass over a K1sApp does to k1s where k1s has lost the app: it applies it again.
use k1s_k8s_operator.Prelude.{◌≡◌, String, true, false, ◌||◌, string_eq}
use k1s_k8s_operator.Go.Errors.{Error, is_not_found, ok, err}
use k1s_k8s_operator.K1s.Status.{AppStatus}
use k1s_k8s_operator.K1s.Client.Routes.{Api}
use k1s_k8s_operator.Api.Capability.{K1sApp, K1sManagedResourceStatus}
use k1s_k8s_operator.Controller.Platform.{Platform}
use k1s_k8s_operator.Controller.Manifest.{managed_resource_from_manifest}
use k1s_k8s_operator.Controller.Separate.{Leaves, Separate}
use k1s_k8s_operator.Controller.Managed.Backend.{Address, stands_at, Backend}
use k1s_k8s_operator.Controller.Upkeep.{Outcome, was_applied, manifest_changed}
use k1s_k8s_operator.Controller.Upkeep.Repair.{upkeep-restores}
use k1s_k8s_operator.Controller.App.Pass.{ask_status, upkept_app, app_work}

module _ {W : Type 0} (P : Platform W) (app : K1sApp) (api : Api W) where
  -- If k1s answers, of an app that was applied before, that it does not know it, then a pass whose apply
  -- does not fail has brought the app back, and has changed nothing else in k1s. The k1s API behaves as
  -- `Backend` says; reading a status and the calls of Kubernetes change nothing in k1s.
  pub app_work-restores :
      (B : Backend P api)
      → Separate P P.apps B.holds
      → ((namespace name : String) → Leaves B.holds (api.app_status namespace name))
      → (r : K1sManagedResourceStatus) (w w' : W) (e : Error) (o : Outcome AppStatus) (a : Address)
      → managed_resource_from_manifest P app.spec.manifest ≡ ok r
      → manifest_changed P api (upkept_app P app api) ≡ false
      → ask_status P app api w ≡ (err e, w')
      → is_not_found e ≡ true
      → (app_work P app api w).0 ≡ ok o
      → was_applied o.observation ≡ true
      → B.holds (app_work P app api w).1 a ≡ (stands_at r a || B.holds w a)
  unfolding app_work ask_status
  app_work-restores B S asks =
      upkeep-restores P api (upkept_app P app api) B S (λ w a. asks _ _ w a)
