-- ===== src/Controller/ResourceSet/Status.antt =====
-- The status that each outcome of a reconciliation writes.
use k1s_k8s_operator.Prelude.{
  String, ◌<>◌, Bool, true, false, not, ◌&&◌, List, length, Option, none, some, string_eq,
  if◌then◌else◌, pos, wrap32, eqb_ℤ,
}
use k1s_k8s_operator.Go.Errors.{Error, error_text, Exec}
use k1s_k8s_operator.Api.Meta.{Time, Condition, ConditionStatus, is_true, is_false}
use k1s_k8s_operator.Api.Common.{
  condition_ready, condition_credentials_valid, condition_applied, condition_policy_allowed,
  reason_ready, reason_unavailable, reason_missing, reason_applied, reason_denied,
}
use k1s_k8s_operator.Api.Capability.{K1sManagedResourceStatus, K1sResourceSet, K1sResourceSetStatus}
use k1s_k8s_operator.Controller.Helpers.{condition_status, reason_for_bool, ready_message}
use k1s_k8s_operator.Controller.Platform.{Platform}
use k1s_k8s_operator.Controller.Patch.{set_condition, patch_status}
use k1s_k8s_operator.Controller.ResourceSet.Types.{Progress}

module _ {W : Type 0} (P : Platform W) where
  module _ (set : K1sResourceSet) where
    abbrev pub mark :
        (conditions : List Condition) (kind : String)
        → ConditionStatus
        → (reason text : String) → Time
        → List Condition
    mark conditions kind status reason text now =
        set_condition P conditions kind status reason text set.meta.generation now

    unfoldable pub publish : K1sResourceSetStatus → Exec W (Unit {0})
    unfolding patch_status
    publish status =
        patch_status P P.resource_sets set λ current. record current { status = status }

    -- the credentials, or the client, cannot be had
    unfoldable pub no_client_status : Error → Time → K1sResourceSetStatus
    unfolding set_condition error_text
    no_client_status e now = record set.status {
      observed_generation = set.meta.generation;
      conditions =
          mark set.status.conditions condition_credentials_valid is_false reason_missing
            (error_text e) now;
    }

    unfoldable pub delete_failed_status : Error → Time → K1sResourceSetStatus
    unfolding set_condition error_text
    delete_failed_status e now = record set.status {
      observed_generation = set.meta.generation;
      conditions =
          mark set.status.conditions condition_applied is_false reason_unavailable
            ("failed to delete managed k1s resources: " <> error_text e) now;
    }

    unfoldable pub denied_status : Error → Time → K1sResourceSetStatus
    unfolding set_condition error_text
    denied_status e now =
        let text = error_text e in
        let policy =
          mark set.status.conditions condition_policy_allowed is_false reason_denied text now in
        let applied = mark policy condition_applied is_false reason_denied text now in
        record set.status {
          observed_generation = set.meta.generation;
          last_sync_time = some now;
          ready = false;
          applied = pos 0;
          conditions =
              mark applied condition_ready is_false reason_denied "resource is not ready" now;
        }

    abbrev pub synced_conditions : Bool → Option Error → Time → List Condition
    synced_conditions should (some e) now =
        mark
          (mark set.status.conditions condition_policy_allowed is_false reason_denied (error_text e)
            now)
          condition_applied is_false reason_unavailable (error_text e) now
    synced_conditions should none now =
        mark
          (mark set.status.conditions condition_policy_allowed is_true reason_ready
            "all manifest kinds are allowed" now)
          condition_applied is_true reason_applied
          (if should then "resource set applied to k1s" else "resource set already applied to k1s")
          now

    abbrev pub has_failed : Option Error → Bool
    has_failed none = false
    has_failed (some _) = true

    -- the status at the end of a pass; the counter `applied` is an int32
    unfoldable pub synced_status :
        Bool → Progress → List K1sManagedResourceStatus → Time → K1sResourceSetStatus
    unfolding set_condition error_text condition_status reason_for_bool ready_message
    synced_status should progress managed now =
        let applied = wrap32 (pos progress.applied) in
        let ready =
          not (has_failed progress.failure)
          && eqb_ℤ applied (wrap32 (pos (length set.spec.manifests))) in
        record {
          observed_generation = set.meta.generation;
          applied = applied;
          ready = ready;
          managed_resources = managed;
          last_sync_time = some now;
          conditions =
              mark (synced_conditions should progress.failure now) condition_ready
                (condition_status ready) (reason_for_bool ready) (ready_message ready) now;
        }
