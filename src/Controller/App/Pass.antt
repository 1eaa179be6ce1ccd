-- ===== src/Controller/App/Pass.antt =====
-- One pass over a K1sApp whose manifest is accepted: what is upheld is the app of its manifest.
pub mod Evidence
pub mod Repair
use k1s_k8s_operator.Prelude.{false}
use k1s_k8s_operator.Go.Errors.{Exec, pure, ◌>>◌, ◌>>=◌}
use k1s_k8s_operator.K1s.Status.{AppStatus}
use k1s_k8s_operator.K1s.Client.Routes.{Api}
use k1s_k8s_operator.Api.Cluster.{K1sCluster}
use k1s_k8s_operator.Api.Capability.{K1sApp}
use k1s_k8s_operator.Controller.Helpers.{poll_interval}
use k1s_k8s_operator.Controller.Platform.{Platform}
use k1s_k8s_operator.Controller.Manifest.{app_ref_from_manifest}
use k1s_k8s_operator.Controller.Upkeep.{Upkept, Outcome, upkeep}
use k1s_k8s_operator.Controller.ResourceSet.Types.{ReconcileResult}
use k1s_k8s_operator.Controller.App.Status.{final_status, publish_app}

module _ {W : Type 0} (P : Platform W) (app : K1sApp) (api : Api W) where
  unfoldable pub ask_status : Exec W AppStatus
  ask_status =
      let (namespace, name) = app_ref_from_manifest P app.spec.manifest in
      api.app_status namespace name

  abbrev pub upkept_app : Upkept W K1sApp AppStatus
  upkept_app = record {
    kube = P.apps;
    object = app;
    meta = app.meta;
    manifest = app.spec.manifest;
    ask = ask_status;
  }

  unfoldable pub app_work : Exec W (Outcome AppStatus)
  app_work = upkeep P api upkept_app

  unfoldable pub settle_app : K1sCluster → Outcome AppStatus → Exec W ReconcileResult
  settle_app cluster o w =
      (do
        publish_app P app (final_status P app o.should o.out o.observation (P.now w))
        pure (record {
          requeue = false;
          requeue_after = poll_interval cluster.spec.poll_interval_seconds;
        }))
        w

  unfoldable pub sync_app : K1sCluster → Exec W ReconcileResult
  sync_app cluster = app_work >>= settle_app cluster
