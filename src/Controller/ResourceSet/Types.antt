-- ===== src/Controller/ResourceSet/Types.antt =====
-- What the reconcilers of capability_controller.go share.
use k1s_k8s_operator.Prelude.{ℕ, String, Bool, true, false, Option, none, some, string_eq}
use k1s_k8s_operator.Go.Errors.{Error}
use k1s_k8s_operator.Api.Meta.{ObjectMeta}
use k1s_k8s_operator.Api.Capability.{K1sDeletePolicy, orphan}

abbrev pub capability_finalizer : String
capability_finalizer = "operator.k1s.io/capability-cleanup"

-- `ctrl.Result`; the delay is in seconds. Beside an error it is not read, and not modelled.
pub record ReconcileResult : Type 0 where
  pub requeue : Bool
  pub requeue_after : ℕ

abbrev pub done : ReconcileResult
done = record { requeue = false; requeue_after = 0 }

-- whether `DeletionTimestamp` is set
abbrev pub is_deleted : ObjectMeta → Bool
is_deleted meta = elim meta.deletion_timestamp [ none ↦ false | some _ ↦ true ]

abbrev pub is_orphan : K1sDeletePolicy → Bool
is_orphan orphan = true
is_orphan _ = false

-- The first error of a pass over the manifests, and how many of them were counted as applied.
pub record Progress : Type 0 where
  pub applied : ℕ
  pub failure : Option Error
