-- ===== src/Api/Mirror.antt =====
-- api/v1alpha1/mirror_types.go
use k1s_k8s_operator.Prelude.{ℕ, String, Bool, List, Option, ℤ}
use k1s_k8s_operator.Api.Meta.{Time, ObjectMeta, Condition}
use k1s_k8s_operator.Api.Common.{NamespacedNameRef, K1sAppRef}

pub record K1sAppMirrorSpec : Type 0 where
  pub cluster_ref : NamespacedNameRef
  pub app_ref : K1sAppRef
  pub exposure_ref : Option NamespacedNameRef

pub record K1sReplicaSummary : Type 0 where
  pub desired : ℤ
  pub ready : ℤ
  pub live : ℤ

pub record K1sPlacementStatus : Type 0 where
  pub node : String
  pub site : String
  pub ready : Bool

pub record K1sAppMirrorStatus : Type 0 where
  pub observed_generation : ℕ
  pub ready : Bool
  pub replicas : K1sReplicaSummary
  pub image : String
  pub revision : String
  pub observed_host : String
  pub placements : List K1sPlacementStatus
  pub last_sync_time : Option Time
  pub conditions : List Condition

pub record K1sAppMirror : Type 0 where
  pub meta : ObjectMeta
  pub spec : K1sAppMirrorSpec
  pub status : K1sAppMirrorStatus

record K1sAppMirrorList : Type 0 where
  items : List K1sAppMirror
