-- ===== src/Controller/ResourceSet/Pass/Separate.antt =====
-- Recording the hash does not change what k1s holds.
use k1s_k8s_operator.Prelude.{refl, Bool, true, false}
use k1s_k8s_operator.Api.Capability.{K1sResourceSet}
use k1s_k8s_operator.Controller.Platform.{Platform}
use k1s_k8s_operator.Controller.Patch.{patch_last_applied_hash}
use k1s_k8s_operator.Controller.Separate.{Leaves, Separate, patch_object-Leaves}
use k1s_k8s_operator.Controller.Managed.Backend.{Address}
use k1s_k8s_operator.Controller.ResourceSet.Pass.{record_hash}

module _ {W : Type 0} (P : Platform W) (holds : W → Address → Bool)
    (S : Separate P P.resource_sets holds) where
  pub record_hash-Leaves :
      (set : K1sResourceSet) (should : Bool) → Leaves holds (record_hash P set should)
  unfolding record_hash patch_last_applied_hash
  record_hash-Leaves set false w a = refl
  record_hash-Leaves set true w a = patch_object-Leaves P P.resource_sets holds S set _ w a
