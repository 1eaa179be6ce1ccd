-- ===== src/Controller/App/Status.antt =====
-- The status that each outcome of a reconciliation of a K1sApp writes.
use k1s_k8s_operator.Prelude.{
  String, ◌<>◌, Bool, false, List, [], ◌∷◌, some, string_eq, if◌then◌else◌,
}
use k1s_k8s_operator.Go.Values.{Fields}
use k1s_k8s_operator.Go.Errors.{Error, error_text, Exec}
use k1s_k8s_operator.K1s.Status.{AppStatus}
use k1s_k8s_operator.Api.Meta.{Time, Condition, ConditionStatus, is_true, is_false}
use k1s_k8s_operator.Api.Common.{
  condition_ready, condition_credentials_valid, condition_accepted, condition_applied,
  condition_app_ready, reason_ready, reason_unavailable, reason_missing, reason_invalid,
  reason_applied,
}
use k1s_k8s_operator.Api.Capability.{K1sApp, K1sAppStatus}
use k1s_k8s_operator.Controller.Auth.{quoted}
use k1s_k8s_operator.Controller.Helpers.{
  condition_status, reason_for_bool, ready_message, app_ready_message, str_map, first_non_empty,
  observed_endpoint,
}
use k1s_k8s_operator.Controller.Platform.{Platform}
use k1s_k8s_operator.Controller.Patch.{set_condition, patch_status}
use k1s_k8s_operator.Controller.Manifest.{app_name_from_manifest}
use k1s_k8s_operator.Controller.Upkeep.{Observation, not_applied, observed, unread}

-- `applyObservedAppStatus`
unfoldable pub apply_observed_app_status : K1sAppStatus → AppStatus → K1sAppStatus
unfolding first_non_empty observed_endpoint
apply_observed_app_status status seen = record status {
  app_name = first_non_empty (seen.app_name ∷ status.app_name ∷ []);
  ready = seen.ready;
  phase = first_non_empty (seen.revision_status ∷ status.phase ∷ []);
  endpoint = observed_endpoint seen;
  replicas = record {
    desired = seen.desired_replicas;
    ready = seen.ready_replicas;
    live = seen.live_replicas;
  };
  image = seen.image;
  revision = seen.revision;
}

module _ {W : Type 0} (P : Platform W) (app : K1sApp) where
  abbrev pub mark_app :
      (conditions : List Condition) (kind : String)
      → ConditionStatus
      → (reason text : String) → Time
      → List Condition
  mark_app conditions kind status reason text now =
      set_condition P conditions kind status reason text app.meta.generation now

  unfoldable pub publish_app : K1sAppStatus → Exec W (Unit {0})
  unfolding patch_status
  publish_app status = patch_status P P.apps app λ current. record current { status = status }

  unfoldable pub app_no_client_status : Error → Time → K1sAppStatus
  app_no_client_status e now = record app.status {
    observed_generation = app.meta.generation;
    conditions =
        mark_app app.status.conditions condition_credentials_valid is_false reason_missing
          (error_text e) now;
  }

  unfoldable pub app_delete_failed_status : Error → Time → K1sAppStatus
  app_delete_failed_status e now = record app.status {
    observed_generation = app.meta.generation;
    conditions =
        mark_app app.status.conditions condition_applied is_false reason_unavailable
          ("failed to delete k1s app: " <> error_text e) now;
  }

  unfoldable pub no_manifest_status : Time → K1sAppStatus
  no_manifest_status now = record app.status {
    observed_generation = app.meta.generation;
    conditions =
        mark_app app.status.conditions condition_accepted is_false reason_invalid
          "manifest is required" now;
  }

  unfoldable pub wrong_kind_status : String → Time → K1sAppStatus
  wrong_kind_status kind now = record app.status {
    observed_generation = app.meta.generation;
    app_name = app_name_from_manifest P app.spec.manifest;
    conditions =
        mark_app
          (mark_app app.status.conditions condition_accepted is_false reason_invalid
            ("K1sApp supports kind Deployment, got " <> quoted kind) now)
          condition_ready is_false reason_invalid "resource is not ready" now;
  }

  -- the status before what is observed goes into it; `out` is the reply to the apply
  unfoldable pub accepted_status : Fields → Time → K1sAppStatus
  unfolding first_non_empty str_map
  accepted_status out now = record app.status {
    observed_generation = app.meta.generation;
    last_sync_time = some now;
    app_name =
        first_non_empty
          (str_map out "app" ∷ app_name_from_manifest P app.spec.manifest ∷ app.meta.name ∷ []);
    phase = first_non_empty (str_map out "status" ∷ "Applied" ∷ []);
    conditions =
        mark_app app.status.conditions condition_accepted is_true reason_ready
          "K1sApp accepted by operator" now;
  }

  abbrev pub with_conditions : K1sAppStatus → List Condition → K1sAppStatus
  with_conditions status conditions = record status { conditions = conditions }

  abbrev pub applied_condition : Bool → List Condition → Time → List Condition
  applied_condition should conditions now =
      mark_app conditions condition_applied is_true reason_applied
        (if should then "manifest applied to k1s" else "manifest already applied to k1s") now

  -- Every branch sets `Ready` again, so its first value, which is read off the phase, is not kept.
  unfoldable pub observed_status : Bool → Observation AppStatus → K1sAppStatus → Time → K1sAppStatus
  observed_status should (not_applied e) status now = record status {
    ready = false;
    conditions =
        mark_app
          (mark_app status.conditions condition_applied is_false reason_unavailable (error_text e)
            now)
          condition_app_ready is_false reason_unavailable "manifest was not applied" now;
  }
  observed_status should (observed seen) status now =
      with_conditions (apply_observed_app_status status seen) (
        mark_app (applied_condition should status.conditions now) condition_app_ready
          (condition_status seen.ready) (reason_for_bool seen.ready) (app_ready_message seen.ready)
          now)
  observed_status should (unread e) status now = record status {
    ready = false;
    conditions =
        mark_app (applied_condition should status.conditions now) condition_app_ready is_false
          reason_unavailable ("manifest applied but app status could not be read: " <> error_text e)
          now;
  }

  unfoldable pub with_ready_condition : K1sAppStatus → Time → K1sAppStatus
  with_ready_condition status now = with_conditions status (
      mark_app status.conditions condition_ready (condition_status status.ready)
        (reason_for_bool status.ready) (ready_message status.ready) now)

  -- the status at the end of a pass
  unfoldable pub final_status : Bool → Fields → Observation AppStatus → Time → K1sAppStatus
  final_status should out seen now =
      with_ready_condition (observed_status should seen (accepted_status out now) now) now
