-- ===== src/Api/Exposure.antt =====
-- api/v1alpha1/exposure_types.go
use k1s_k8s_operator.Prelude.{ℕ, String, Bool, true, false, List, Option, none, some, ℤ}
use k1s_k8s_operator.Api.Meta.{Time, StringMap, ObjectMeta, Condition}
use k1s_k8s_operator.Api.Common.{NamespacedNameRef, K1sAppRef}

pub record K1sExposureServiceSpec : Type 0 where
  pub name : String
  pub port : ℤ

pub record K1sExposureIngressSpec : Type 0 where
  pub enabled : Option Bool
  pub name : String
  pub class_name : Option String
  pub tls_secret_name : String
  pub annotations : StringMap

unfoldable pub ingress_enabled_or_default : K1sExposureIngressSpec → Bool
ingress_enabled_or_default s = elim s.enabled [ none ↦ true | some b ↦ b ]

-- `K1sTrafficProbeType` and `K1sTrafficProbeScheme` are strings; "" is unset.
pub record K1sExposureTrafficProbeSpec : Type 0 where
  pub enabled : Option Bool
  pub kind : String
  pub scheme : String
  pub path : String
  pub port : ℤ
  pub timeout_seconds : ℤ
  pub expected_status : String

unfoldable pub probe_enabled_or_default : K1sExposureTrafficProbeSpec → Bool
probe_enabled_or_default s = elim s.enabled [ none ↦ false | some b ↦ b ]

pub record K1sExposureSpec : Type 0 where
  pub cluster_ref : NamespacedNameRef
  pub app_ref : K1sAppRef
  pub host : String
  pub path : String
  pub service : K1sExposureServiceSpec
  pub ingress : K1sExposureIngressSpec
  pub traffic_probe : K1sExposureTrafficProbeSpec

pub record K1sExposureStatus : Type 0 where
  pub observed_generation : ℕ
  pub app_ready : Bool
  pub service_name : String
  pub endpoint_slice_name : String
  pub ingress_name : String
  pub proxy_endpoint_count : ℤ
  pub last_app_sync_time : Option Time
  pub conditions : List Condition

pub record K1sExposure : Type 0 where
  pub meta : ObjectMeta
  pub spec : K1sExposureSpec
  pub status : K1sExposureStatus

record K1sExposureList : Type 0 where
  items : List K1sExposure

abbrev k1s_traffic_probe_type_http : String
k1s_traffic_probe_type_http = "HTTP"

abbrev pub k1s_traffic_probe_type_tcp : String
k1s_traffic_probe_type_tcp = "TCP"

abbrev pub k1s_traffic_probe_scheme_http : String
k1s_traffic_probe_scheme_http = "HTTP"

abbrev k1s_traffic_probe_scheme_https : String
k1s_traffic_probe_scheme_https = "HTTPS"
