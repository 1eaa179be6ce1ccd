-- ===== src/Controller/Inference/Pass/Evidence.antt =====
-- A K1sInferenceEndpoint is Ready only on the word of k1s.
use k1s_k8s_operator.Prelude.{◌≡◌, String, Bool, true, arith, string_eq}
use k1s_k8s_operator.Go.Errors.{ok}
use k1s_k8s_operator.K1s.Status.{InferenceStatus}
use k1s_k8s_operator.K1s.Client.Routes.{Api}
use k1s_k8s_operator.Api.Meta.{Time}
use k1s_k8s_operator.Api.Capability.{K1sInferenceEndpoint, K1sInferenceEndpointStatus}
use k1s_k8s_operator.Controller.Platform.{Platform}
use k1s_k8s_operator.Controller.Upkeep.{Observation, not_applied, observed, unread, Outcome}
use k1s_k8s_operator.Controller.Upkeep.Evidence.{Told, Founded, upkeep-Founded}
use k1s_k8s_operator.Controller.Inference.Status.{
  apply_observed_inference_status, observed_inference_status, with_inference_ready,
  final_inference_status,
}
use k1s_k8s_operator.Controller.Inference.Pass.{upkept_inference, inference_work}

module _ {W : Type 0} (P : Platform W) (endpoint : K1sInferenceEndpoint) (api : Api W)
    (manifest : String) where
  apply_observed-ready :
      (status : K1sInferenceEndpointStatus) (seen : InferenceStatus)
      → (apply_observed_inference_status status seen).ready ≡ seen.ready
  unfolding apply_observed_inference_status
  apply_observed-ready status seen = ground arith

  ready-Founded :
      (should : Bool) (o : Observation InferenceStatus) (status : K1sInferenceEndpointStatus)
      (now : Time)
      → (observed_inference_status P endpoint should o status now).ready ≡ true
      → Founded P api (upkept_inference P endpoint api manifest) o
      → (seen : InferenceStatus) × Told P api (upkept_inference P endpoint api manifest) seen
        × (seen.ready ≡ true)
  unfolding observed_inference_status
  ready-Founded should (not_applied e) status now h f = cc
  ready-Founded should (observed seen) status now h f = (seen, f, cc (apply_observed-ready _ seen))
  ready-Founded should (unread e) status now h f = cc

  -- If the status that a pass publishes is Ready, then k1s has told, of the cell or the cell set of the
  -- endpoint, a status that is ready.
  final_inference_status_evidence :
      (w : W) (o : Outcome InferenceStatus) (now : Time)
      → (inference_work P endpoint api manifest w).0 ≡ ok o
      → (final_inference_status P endpoint o.should o.out o.observation now).ready ≡ true
      → (seen : InferenceStatus) × Told P api (upkept_inference P endpoint api manifest) seen
        × (seen.ready ≡ true)
  unfolding inference_work final_inference_status with_inference_ready
  final_inference_status_evidence w o now h ready =
      ready-Founded o.should o.observation _ now ready
        (upkeep-Founded P api (upkept_inference P endpoint api manifest) w o h)
