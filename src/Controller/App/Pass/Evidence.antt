-- ===== src/Controller/App/Pass/Evidence.antt =====
-- A K1sApp is Ready only on the word of k1s.
use k1s_k8s_operator.Prelude.{◌≡◌, Bool, true}
use k1s_k8s_operator.Go.Errors.{ok}
use k1s_k8s_operator.K1s.Status.{AppStatus}
use k1s_k8s_operator.K1s.Client.Routes.{Api}
use k1s_k8s_operator.Api.Meta.{Time}
use k1s_k8s_operator.Api.Capability.{K1sApp, K1sAppStatus}
use k1s_k8s_operator.Controller.Platform.{Platform}
use k1s_k8s_operator.Controller.Upkeep.{Observation, not_applied, observed, unread, Outcome}
use k1s_k8s_operator.Controller.Upkeep.Evidence.{Told, Founded, upkeep-Founded}
use k1s_k8s_operator.Controller.App.Status.{
  apply_observed_app_status, observed_status, with_ready_condition, final_status,
}
use k1s_k8s_operator.Controller.App.Pass.{upkept_app, app_work}

module _ {W : Type 0} (P : Platform W) (app : K1sApp) (api : Api W) where
  ready-Founded :
      (should : Bool) (o : Observation AppStatus) (status : K1sAppStatus) (now : Time)
      → (observed_status P app should o status now).ready ≡ true
      → Founded P api (upkept_app P app api) o
      → (seen : AppStatus) × Told P api (upkept_app P app api) seen × (seen.ready ≡ true)
  unfolding observed_status apply_observed_app_status
  ready-Founded should (not_applied e) status now h f = cc
  ready-Founded should (observed seen) status now h f = (seen, f, h)
  ready-Founded should (unread e) status now h f = cc

  -- If the status that a pass publishes is Ready, then k1s has told, of the app that the manifest names,
  -- a status that is ready.
  pub final_status_evidence :
      (w : W) (o : Outcome AppStatus) (now : Time)
      → (app_work P app api w).0 ≡ ok o
      → (final_status P app o.should o.out o.observation now).ready ≡ true
      → (seen : AppStatus) × Told P api (upkept_app P app api) seen × (seen.ready ≡ true)
  unfolding app_work final_status with_ready_condition
  final_status_evidence w o now h ready =
      ready-Founded o.should o.observation _ now ready
        (upkeep-Founded P api (upkept_app P app api) w o h)
