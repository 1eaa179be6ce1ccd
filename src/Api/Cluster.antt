-- ===== src/Api/Cluster.antt =====
-- api/v1alpha1/cluster_types.go
use k1s_k8s_operator.Prelude.{ℕ, String, Bool, List, Option, ℤ}
use k1s_k8s_operator.Api.Meta.{ObjectMeta, Condition}
use k1s_k8s_operator.Api.Common.{K1sEndpointSpec, NamespacedNameRef, K1sAuthSecretRef}

-- `K1sProxyMode` is a string: a value that is neither mode is kept.
pub data K1sProxyMode : Type 0 where
  service external : K1sProxyMode
  unsupported : String → K1sProxyMode

pub record K1sProxyServiceRef : Type 0 where
  pub name : String
  pub namespace : String
  pub port : ℤ

pub record K1sProxyExternalSpec : Type 0 where
  pub addresses : List String
  pub dns_name : String
  pub port : ℤ

pub record K1sProxySpec : Type 0 where
  pub mode : K1sProxyMode
  pub service_ref : Option K1sProxyServiceRef
  pub external : Option K1sProxyExternalSpec

pub record K1sClusterSpec : Type 0 where
  pub controller : K1sEndpointSpec
  pub apishim : Option K1sEndpointSpec
  pub bootstrap_config_map_ref : Option NamespacedNameRef
  pub auth_secret_ref : Option K1sAuthSecretRef
  pub proxy : K1sProxySpec
  pub poll_interval_seconds : Option ℤ

pub record K1sNodeSummary : Type 0 where
  pub ready : ℤ
  pub stale : ℤ
  pub total : ℤ

pub record K1sClusterStatus : Type 0 where
  pub observed_generation : ℕ
  pub controller_available : Bool
  pub apishim_available : Bool
  pub proxy_ready : Bool
  pub stack_domain : String
  pub wildcard_apps_domain : String
  pub node_summary : K1sNodeSummary
  pub conditions : List Condition

pub record K1sCluster : Type 0 where
  pub meta : ObjectMeta
  pub spec : K1sClusterSpec
  pub status : K1sClusterStatus

record K1sClusterList : Type 0 where
  items : List K1sCluster
