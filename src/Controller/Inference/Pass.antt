-- ===== src/Controller/Inference/Pass.antt =====
-- One pass over a K1sInferenceEndpoint whose manifest could be built: what is upheld is its cell, or
-- its cell set.
pub mod Evidence
pub mod Address
use k1s_k8s_operator.Prelude.{String, false, Option, none, some}
use k1s_k8s_operator.Go.Values.{Fields}
use k1s_k8s_operator.Go.Errors.{Exec, pure, ◌>>◌, ◌>>=◌}
use k1s_k8s_operator.K1s.Status.{InferenceStatus}
use k1s_k8s_operator.K1s.Client.Routes.{Api}
use k1s_k8s_operator.Api.Cluster.{K1sCluster}
use k1s_k8s_operator.Api.Capability.{K1sInferenceCellSetSpec, K1sInferenceEndpoint}
use k1s_k8s_operator.Controller.Helpers.{poll_interval}
use k1s_k8s_operator.Controller.Platform.{Platform}
use k1s_k8s_operator.Controller.Upkeep.{Upkept, Outcome, upkeep}
use k1s_k8s_operator.Controller.ResourceSet.Types.{ReconcileResult}
use k1s_k8s_operator.Controller.Inference.Status.{final_inference_status, publish_inference}

module _ {W : Type 0} (P : Platform W) (endpoint : K1sInferenceEndpoint) (api : Api W) where
  abbrev pub ask_for : Option K1sInferenceCellSetSpec → Exec W InferenceStatus
  ask_for none = api.inference_cell_status endpoint.meta.namespace endpoint.meta.name
  ask_for (some cell_set) = api.inference_cell_set_status endpoint.meta.namespace endpoint.meta.name

  unfoldable pub inference_status_for_endpoint : Exec W InferenceStatus
  inference_status_for_endpoint = ask_for endpoint.spec.cell_set

  abbrev pub upkept_inference : String → Upkept W K1sInferenceEndpoint InferenceStatus
  upkept_inference manifest = record {
    kube = P.inference_endpoints;
    object = endpoint;
    meta = endpoint.meta;
    manifest = manifest;
    ask = inference_status_for_endpoint;
  }

  unfoldable pub inference_work : String → Exec W (Outcome InferenceStatus)
  inference_work manifest = upkeep P api (upkept_inference manifest)

  unfoldable pub settle_inference : K1sCluster → Outcome InferenceStatus → Exec W ReconcileResult
  settle_inference cluster o w =
      (do
        publish_inference P endpoint
            (final_inference_status P endpoint o.should o.out o.observation (P.now w))
        pure (record {
          requeue = false;
          requeue_after = poll_interval cluster.spec.poll_interval_seconds;
        }))
        w

  unfoldable pub sync_inference : K1sCluster → String → Exec W ReconcileResult
  sync_inference cluster manifest = inference_work manifest >>= settle_inference cluster
