-- ===== src/Controller/Inference/Status.antt =====
-- The status that each outcome of a reconciliation of a K1sInferenceEndpoint writes.
use k1s_k8s_operator.Prelude.{
  String, ◌<>◌, Bool, false, List, [], ◌∷◌, Option, none, some, ◌==◌, string_eq, if◌then◌else◌,
}
use k1s_k8s_operator.Go.Values.{Fields}
use k1s_k8s_operator.Go.Errors.{Error, error_text, Exec}
use k1s_k8s_operator.K1s.Status.{InferenceStatus}
use k1s_k8s_operator.Api.Meta.{Time, Condition, ConditionStatus, is_true, is_false}
use k1s_k8s_operator.Api.Common.{
  condition_ready, condition_credentials_valid, condition_accepted, condition_applied, reason_ready,
  reason_unavailable, reason_missing, reason_invalid, reason_applied, reason_unsupported,
}
use k1s_k8s_operator.Api.Capability.{
  K1sInferenceCellSetSpec, K1sInferenceEndpoint, K1sInferenceEndpointStatus,
}
use k1s_k8s_operator.Controller.Helpers.{
  condition_status, reason_for_bool, ready_message, str_map, first_non_empty,
}
use k1s_k8s_operator.Controller.Platform.{Platform}
use k1s_k8s_operator.Controller.Patch.{set_condition, patch_status}
use k1s_k8s_operator.Controller.Upkeep.{Observation, not_applied, observed, unread}

-- `applyObservedInferenceStatus`
unfoldable pub apply_observed_inference_status :
    K1sInferenceEndpointStatus → InferenceStatus → K1sInferenceEndpointStatus
unfolding first_non_empty
apply_observed_inference_status status seen =
    let seen_status : K1sInferenceEndpointStatus = record status {
      ready = seen.ready;
      phase = first_non_empty (seen.phase ∷ seen.status ∷ status.phase ∷ []);
      api_endpoint = first_non_empty (seen.api_endpoint ∷ status.api_endpoint ∷ []);
      active_executor = first_non_empty (seen.active_executor ∷ status.active_executor ∷ []);
      last_error = seen.last_error;
    } in
    if seen.kind == "InferenceCellSet"
    then record seen_status {
      cell_name = "";
      cell_set_name = first_non_empty (seen.name ∷ status.cell_set_name ∷ []);
    }
    else record seen_status { cell_name = first_non_empty (seen.name ∷ status.cell_name ∷ []) }

module _ {W : Type 0} (P : Platform W) (endpoint : K1sInferenceEndpoint) where
  abbrev pub mark_inference :
      (conditions : List Condition) (kind : String)
      → ConditionStatus
      → (reason text : String) → Time
      → List Condition
  mark_inference conditions kind status reason text now =
      set_condition P conditions kind status reason text endpoint.meta.generation now

  unfoldable pub publish_inference : K1sInferenceEndpointStatus → Exec W (Unit {0})
  unfolding patch_status
  publish_inference status =
      patch_status P P.inference_endpoints endpoint λ current. record current { status = status }

  unfoldable pub inference_no_client_status : Error → Time → K1sInferenceEndpointStatus
  inference_no_client_status e now = record endpoint.status {
    observed_generation = endpoint.meta.generation;
    conditions =
        mark_inference endpoint.status.conditions condition_credentials_valid is_false
          reason_missing (error_text e) now;
  }

  unfoldable pub inference_delete_failed_status : Error → Time → K1sInferenceEndpointStatus
  inference_delete_failed_status e now = record endpoint.status {
    observed_generation = endpoint.meta.generation;
    last_error = error_text e;
    conditions =
        mark_inference endpoint.status.conditions condition_applied is_false reason_unavailable
          ("failed to delete k1s inference resource: " <> error_text e) now;
  }

  unfoldable pub invalid_inference_status : Error → Time → K1sInferenceEndpointStatus
  invalid_inference_status e now = record endpoint.status {
    observed_generation = endpoint.meta.generation;
    conditions =
        mark_inference endpoint.status.conditions condition_accepted is_false reason_invalid
          (error_text e) now;
  }

  abbrev pub cell_name_for : Option K1sInferenceCellSetSpec → String
  cell_name_for none = endpoint.meta.name
  cell_name_for (some cell_set) = ""

  abbrev pub cell_set_name_for : Option K1sInferenceCellSetSpec → String
  cell_set_name_for none = ""
  cell_set_name_for (some cell_set) = endpoint.meta.name

  -- the status before what is observed goes into it; `out` is the reply to the apply
  unfoldable pub accepted_inference_status : Fields → Time → K1sInferenceEndpointStatus
  unfolding first_non_empty str_map
  accepted_inference_status out now = record endpoint.status {
    observed_generation = endpoint.meta.generation;
    last_sync_time = some now;
    cell_name = cell_name_for endpoint.spec.cell_set;
    cell_set_name = cell_set_name_for endpoint.spec.cell_set;
    phase = first_non_empty (str_map out "phase" ∷ str_map out "status" ∷ "Applied" ∷ []);
    api_endpoint = str_map out "api_endpoint";
    active_executor = str_map out "active_executor";
    conditions =
        mark_inference endpoint.status.conditions condition_accepted is_true reason_ready
          "K1sInferenceEndpoint accepted by operator" now;
  }

  -- after an apply that did not fail, or one that was not needed
  abbrev pub applied_inference_status :
      Bool → K1sInferenceEndpointStatus → Time → K1sInferenceEndpointStatus
  applied_inference_status should status now = record status {
    last_error = "";
    conditions =
        mark_inference status.conditions condition_applied is_true reason_applied
          (if should
            then "inference manifest applied to k1s"
            else "inference manifest already applied to k1s")
          now;
  }

  abbrev pub unread_inference_status :
      Error → K1sInferenceEndpointStatus → Time → K1sInferenceEndpointStatus
  unread_inference_status e status now = record status {
    ready = false;
    last_error = error_text e;
    conditions =
        mark_inference status.conditions condition_ready is_false reason_unavailable
          ("manifest applied but inference status could not be read: " <> error_text e) now;
  }

  -- Every branch sets `Ready` again, so its first value, which is read off the phase, is not kept.
  unfoldable pub observed_inference_status :
      Bool
      → Observation InferenceStatus
      → K1sInferenceEndpointStatus
      → Time
      → K1sInferenceEndpointStatus
  observed_inference_status should (not_applied e) status now = record status {
    ready = false;
    phase = "Unsupported";
    last_error = error_text e;
    conditions =
        mark_inference status.conditions condition_applied is_false reason_unsupported
          ("k1s inference CRUD API is not available or rejected the request: " <> error_text e) now;
  }
  observed_inference_status should (observed seen) status now =
      apply_observed_inference_status (applied_inference_status should status now) seen
  observed_inference_status should (unread e) status now =
      unread_inference_status e (applied_inference_status should status now) now

  unfoldable pub with_inference_ready :
      K1sInferenceEndpointStatus → Time → K1sInferenceEndpointStatus
  with_inference_ready status now = record status {
    conditions =
        mark_inference status.conditions condition_ready (condition_status status.ready)
          (reason_for_bool status.ready) (ready_message status.ready) now;
  }

  unfoldable pub final_inference_status :
      Bool → Fields → Observation InferenceStatus → Time → K1sInferenceEndpointStatus
  unfolding accepted_inference_status
  final_inference_status should out o now =
      with_inference_ready
        (observed_inference_status should o (accepted_inference_status out now) now) now
