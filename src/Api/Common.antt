-- ===== src/Api/Common.antt =====
-- api/v1alpha1/common_types.go
use k1s_k8s_operator.Prelude.{String, List, ◌==◌, string_eq, if◌then◌else◌}
use k1s_k8s_operator.Api.Meta.{Condition}

pub record NamespacedNameRef : Type 0 where
  pub name : String
  pub namespace : String

-- `NamespaceOr` of `NamespacedNameRef` and of `K1sAuthSecretRef`, on the reference's namespace
unfoldable pub namespace_or : String → String → String
namespace_or namespace default = if namespace == "" then default else namespace

pub record K1sEndpointSpec : Type 0 where
  pub url : String

pub record K1sAuthSecretRef : Type 0 where
  pub name : String
  pub namespace : String
  pub controller_read_token_key : String
  pub controller_write_token_key : String
  pub apishim_read_token_key : String
  pub apishim_write_token_key : String
  pub ca_bundle_key : String

pub record K1sAppRef : Type 0 where
  pub name : String
  pub namespace : String

unfoldable pub namespace_or_default : K1sAppRef → String
namespace_or_default r = if r.namespace == "" then "default" else r.namespace

-- The types of the conditions, and their reasons.
abbrev pub condition_ready : String
condition_ready = "Ready"

abbrev pub condition_controller_available : String
condition_controller_available = "ControllerAvailable"

abbrev pub condition_proxy_ready : String
condition_proxy_ready = "ProxyReady"

abbrev pub condition_credentials_valid : String
condition_credentials_valid = "CredentialsValid"

abbrev pub condition_bootstrap_loaded : String
condition_bootstrap_loaded = "BootstrapLoaded"

abbrev pub condition_apishim_available : String
condition_apishim_available = "ApishimAvailable"

abbrev pub condition_cluster_ready : String
condition_cluster_ready = "ClusterReady"

abbrev pub condition_app_found : String
condition_app_found = "AppFound"

abbrev pub condition_app_ready : String
condition_app_ready = "AppReady"

abbrev pub condition_proxy_endpoints_ready : String
condition_proxy_endpoints_ready = "ProxyEndpointsReady"

abbrev pub condition_resources_applied : String
condition_resources_applied = "ResourcesApplied"

abbrev pub condition_ingress_ready : String
condition_ingress_ready = "IngressReady"

abbrev pub condition_traffic_ready : String
condition_traffic_ready = "TrafficReady"

abbrev pub condition_accepted : String
condition_accepted = "Accepted"

abbrev pub condition_applied : String
condition_applied = "Applied"

abbrev pub condition_policy_allowed : String
condition_policy_allowed = "PolicyAllowed"

abbrev pub reason_ready : String
reason_ready = "Ready"

abbrev pub reason_unavailable : String
reason_unavailable = "Unavailable"

abbrev pub reason_missing : String
reason_missing = "Missing"

abbrev pub reason_invalid : String
reason_invalid = "Invalid"

abbrev pub reason_applied : String
reason_applied = "Applied"

abbrev pub reason_pending : String
reason_pending = "Pending"

abbrev pub reason_unsupported : String
reason_unsupported = "Unsupported"

abbrev pub reason_denied : String
reason_denied = "Denied"

record ConditionedStatus : Type 0 where
  conditions : List Condition

-- The raw JSON text of the manifest.
record NativeManifest : Type 0 where
  raw : String
