-- ===== src/Api/Capability.antt =====
-- api/v1alpha1/capability_types.go
use k1s_k8s_operator.Prelude.{ℕ, String, Bool, List, Option, ℤ}
use k1s_k8s_operator.Api.Meta.{Time, ObjectMeta, Condition}
use k1s_k8s_operator.Api.Common.{NamespacedNameRef}
use k1s_k8s_operator.Api.Mirror.{K1sReplicaSummary}

-- A string in the source: the code tells only "Orphan" from the rest.
pub data K1sDeletePolicy : Type 0 where
  delete orphan unset : K1sDeletePolicy

-- A `runtime.RawExtension` is its raw text.
pub record K1sAppSpec : Type 0 where
  pub cluster_ref : NamespacedNameRef
  pub manifest : String
  pub delete_policy : K1sDeletePolicy

pub record K1sAppStatus : Type 0 where
  pub observed_generation : ℕ
  pub app_name : String
  pub ready : Bool
  pub phase : String
  pub endpoint : String
  pub replicas : K1sReplicaSummary
  pub image : String
  pub revision : String
  pub last_sync_time : Option Time
  pub conditions : List Condition

pub record K1sApp : Type 0 where
  pub meta : ObjectMeta
  pub spec : K1sAppSpec
  pub status : K1sAppStatus

pub record K1sInferenceModelSpec : Type 0 where
  pub model_id : String
  pub local_path : String

pub record K1sInferenceParallelismSpec : Type 0 where
  pub tp : ℤ
  pub pp : ℤ

pub record K1sInferenceExecutorSpec : Type 0 where
  pub kind : String
  pub fallback_mode : String
  pub ray_image : String
  pub mp_image : String
  pub launcher_image : String
  pub dtype : String
  pub runtime_class_name : String

pub record K1sInferenceMemberSpec : Type 0 where
  pub site_id : String
  pub node_id : String
  pub gpu_count : ℤ

pub record K1sInferenceFabricSpec : Type 0 where
  pub mode : String
  pub policy_mode : String
  pub ttl_seconds : ℤ

pub record K1sInferenceCellSetSpec : Type 0 where
  pub replicas : ℤ
  pub name_format : String

pub record K1sInferenceEndpointSpec : Type 0 where
  pub cluster_ref : NamespacedNameRef
  pub model : K1sInferenceModelSpec
  pub parallelism : K1sInferenceParallelismSpec
  pub executor : K1sInferenceExecutorSpec
  pub fabric : K1sInferenceFabricSpec
  -- none is the nil slice
  pub members : Option (List K1sInferenceMemberSpec)
  pub cell_set : Option K1sInferenceCellSetSpec
  pub delete_policy : K1sDeletePolicy

pub record K1sInferenceEndpointStatus : Type 0 where
  pub observed_generation : ℕ
  pub ready : Bool
  pub phase : String
  pub cell_name : String
  pub cell_set_name : String
  pub api_endpoint : String
  pub active_executor : String
  pub last_error : String
  pub last_sync_time : Option Time
  pub conditions : List Condition

pub record K1sInferenceEndpoint : Type 0 where
  pub meta : ObjectMeta
  pub spec : K1sInferenceEndpointSpec
  pub status : K1sInferenceEndpointStatus

pub record K1sResourceSetSpec : Type 0 where
  pub cluster_ref : NamespacedNameRef
  pub manifests : List String
  pub allowed_kinds : List String
  pub prune : Bool
  pub delete_policy : K1sDeletePolicy

pub record K1sManagedResourceStatus : Type 0 where
  pub kind : String
  pub namespace : String
  pub name : String
  pub hash : String

pub record K1sResourceSetStatus : Type 0 where
  pub observed_generation : ℕ
  pub applied : ℤ
  pub ready : Bool
  pub managed_resources : List K1sManagedResourceStatus
  pub last_sync_time : Option Time
  pub conditions : List Condition

pub record K1sResourceSet : Type 0 where
  pub meta : ObjectMeta
  pub spec : K1sResourceSetSpec
  pub status : K1sResourceSetStatus

record K1sAppList : Type 0 where
  items : List K1sApp

record K1sInferenceEndpointList : Type 0 where
  items : List K1sInferenceEndpoint

record K1sResourceSetList : Type 0 where
  items : List K1sResourceSet
