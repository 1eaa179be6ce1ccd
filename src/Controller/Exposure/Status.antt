-- ===== src/Controller/Exposure/Status.antt =====
-- The status that each outcome of a reconciliation of a K1sExposure writes.
use k1s_k8s_operator.Prelude.{
  String, Bool, true, false, ◌&&◌, List, [], Option, none, some, length, string_eq, if◌then◌else◌,
  pos, wrap32,
}
use k1s_k8s_operator.Go.Errors.{Error, error_text, Result, ok, err, Exec}
use k1s_k8s_operator.K1s.Status.{AppStatus}
use k1s_k8s_operator.Api.Meta.{Time, Condition, ConditionStatus, is_true, is_false, is_unknown}
use k1s_k8s_operator.Api.Common.{
  condition_ready, condition_cluster_ready, condition_app_found, condition_app_ready,
  condition_proxy_endpoints_ready, condition_ingress_ready, condition_resources_applied,
  condition_traffic_ready, reason_ready, reason_unavailable, reason_missing, reason_invalid,
  reason_applied, reason_pending,
}
use k1s_k8s_operator.Api.Exposure.{K1sExposure, K1sExposureStatus, ingress_enabled_or_default}
use k1s_k8s_operator.Controller.Helpers.{
  condition_status, reason_for_bool, ready_message, app_ready_message,
}
use k1s_k8s_operator.Controller.Names.{
  exposure_service_name, exposure_endpoint_slice_name, exposure_ingress_name,
}
use k1s_k8s_operator.Controller.Platform.{KubeClient, Platform}
use k1s_k8s_operator.Controller.Patch.{set_condition, patch_status}
use k1s_k8s_operator.Controller.Proxy.{ProxyEndpoint, Discovery}
use k1s_k8s_operator.Controller.Cluster.{proxy_message, has_endpoints}

-- What the reconciliation has seen before it writes an object: `appStatus` and `appErr`, and the two
-- results of `discoverProxyEndpoints`.
pub record Sighting : Type 0 where
  pub reply : Result AppStatus
  pub proxy : Discovery

-- What the status tells of in the end: the sighting, the error of `reconcileIngress` and, where the
-- traffic probe is enabled, that of the probe.
pub record ExposureOutcome : Type 0 where
  pub sighting : Sighting
  pub ingress : Result (Unit {0})
  pub probe : Option (Result (Unit {0}))

-- the zero value
abbrev pub no_app_status : AppStatus
no_app_status = record {
  app_name = "";
  name = "";
  namespace = "";
  ready = false;
  desired_replicas = pos 0;
  ready_replicas = pos 0;
  live_replicas = pos 0;
  revision = "";
  revision_status = "";
  image = "";
  ingress_host = "";
  ingress_path = "";
  placements = [];
}

-- `appStatus`, which is the zero value where the client returns an error
abbrev pub app_status_of : Result AppStatus → AppStatus
app_status_of (ok seen) = seen
app_status_of (err e) = no_app_status

abbrev pub is_found : Result AppStatus → Bool
is_found (ok seen) = true
is_found (err e) = false

-- `appMessage`: where the app is not found there is an error
unfoldable pub app_message : Result AppStatus → String
app_message (ok seen) = "k1s app status was read"
app_message (err e) = error_text e

abbrev pub is_reached : Discovery → Bool
is_reached proxy = elim proxy.failure [ none ↦ has_endpoints proxy.endpoints | some e ↦ false ]

abbrev pub traffic_endpoints_for : Result AppStatus → List ProxyEndpoint → List ProxyEndpoint
traffic_endpoints_for (ok seen) endpoints = endpoints
traffic_endpoints_for (err e) endpoints = []

unfoldable pub traffic_endpoints : Sighting → List ProxyEndpoint
traffic_endpoints s = traffic_endpoints_for s.reply s.proxy.endpoints

abbrev pub traffic_ready : Option (Result (Unit {0})) → Bool
traffic_ready none = true
traffic_ready (some (ok _)) = true
traffic_ready (some (err e)) = false

unfoldable pub exposure_ready : ExposureOutcome → Bool
exposure_ready o =
    let s = o.sighting in
    is_found s.reply
    && ((app_status_of s.reply).ready && (is_reached s.proxy && traffic_ready o.probe))

module _ {W : Type 0} (P : Platform W) (exposure : K1sExposure) where
  abbrev pub mark_exposure :
      (kind : String)
      → ConditionStatus
      → (reason text : String) → Time
      → List Condition
      → List Condition
  mark_exposure kind status reason text now conditions =
      set_condition P conditions kind status reason text exposure.meta.generation now

  abbrev pub mark_exposure_if :
      (kind : String) → Bool → (text : String) → Time → List Condition → List Condition
  mark_exposure_if kind b text now conditions =
      mark_exposure kind (condition_status b) (reason_for_bool b) text now conditions

  abbrev pub unready_conditions : (reason text why : String) → Time → List Condition
  unready_conditions reason text why now =
      mark_exposure condition_ready is_false reason_unavailable why now
        (mark_exposure condition_cluster_ready is_false reason text now exposure.status.conditions)

  unfoldable pub no_cluster_status : Error → Time → K1sExposureStatus
  no_cluster_status e now = record exposure.status {
    observed_generation = exposure.meta.generation;
    conditions =
        unready_conditions reason_missing (error_text e) "referenced cluster is not ready" now;
  }

  unfoldable pub no_credentials_status : Error → Time → K1sExposureStatus
  no_credentials_status e now = record exposure.status {
    observed_generation = exposure.meta.generation;
    conditions =
        unready_conditions reason_missing (error_text e) "cluster credentials are not available"
          now;
  }

  -- `Ready` keeps the value that it had.
  unfoldable pub no_api_status : Error → Time → K1sExposureStatus
  no_api_status e now = record exposure.status {
    observed_generation = exposure.meta.generation;
    conditions =
        mark_exposure condition_cluster_ready is_false reason_invalid (error_text e) now
          exposure.status.conditions;
  }

  unfoldable pub mark_sighting : Sighting → Time → List Condition → List Condition
  mark_sighting s now conditions =
      let found = is_found s.reply in
      let ready = (app_status_of s.reply).ready in
      mark_exposure_if condition_proxy_endpoints_ready (is_reached s.proxy)
        (proxy_message (length s.proxy.endpoints)) now
        (mark_exposure_if condition_app_ready ready (app_ready_message ready) now
          (mark_exposure_if condition_app_found found (app_message s.reply) now conditions))

  abbrev pub mark_ingress : Result (Unit {0}) → Time → List Condition → List Condition
  mark_ingress (ok _) =
      mark_exposure condition_ingress_ready is_true reason_applied "ingress reconciled"
  mark_ingress (err e) =
      mark_exposure condition_ingress_ready is_false reason_invalid (error_text e)

  abbrev pub mark_traffic : Option (Result (Unit {0})) → Time → List Condition → List Condition
  mark_traffic none =
      mark_exposure condition_traffic_ready is_unknown reason_pending "traffic probe disabled"
  mark_traffic (some (ok _)) =
      mark_exposure condition_traffic_ready is_true reason_ready "traffic probe succeeded"
  mark_traffic (some (err e)) =
      mark_exposure condition_traffic_ready is_false reason_unavailable (error_text e)

  unfoldable pub exposure_conditions : ExposureOutcome → Time → List Condition
  exposure_conditions o now =
      let ready = exposure_ready o in
      mark_exposure_if condition_ready ready (ready_message ready) now (
        mark_traffic o.probe now (
          mark_exposure condition_cluster_ready is_true reason_ready "referenced cluster loaded" now
            (mark_exposure condition_resources_applied is_true reason_applied
              "generated resources reconciled" now
              (mark_ingress o.ingress now
                (mark_sighting o.sighting now exposure.status.conditions)))))

  unfoldable pub exposure_status : ExposureOutcome → Time → K1sExposureStatus
  unfolding exposure_conditions mark_sighting
  exposure_status o now = record {
    observed_generation = exposure.meta.generation;
    app_ready = (app_status_of o.sighting.reply).ready;
    service_name = exposure_service_name exposure;
    endpoint_slice_name = exposure_endpoint_slice_name exposure;
    ingress_name =
        if ingress_enabled_or_default exposure.spec.ingress
        then exposure_ingress_name exposure
        else "";
    proxy_endpoint_count = wrap32 (pos (length (traffic_endpoints o.sighting)));
    last_app_sync_time = some now;
    conditions = exposure_conditions o now;
  }

  unfoldable pub publish_exposure : KubeClient W K1sExposure → K1sExposureStatus → Exec W (Unit {0})
  unfolding patch_status
  publish_exposure exposures status =
      patch_status P exposures exposure λ current. record current { status = status }
