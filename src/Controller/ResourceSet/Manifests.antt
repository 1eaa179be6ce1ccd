-- ===== src/Controller/ResourceSet/Manifests.antt =====
-- The two loops over the manifests: the one that reads them, and the one that applies them.
pub mod Laws
use k1s_k8s_operator.Prelude.{
  ℕ, suc, String, ◌<>◌, Bool, true, false, List, [], ◌∷◌, none, some, contains, string_eq,
  if◌then◌else◌,
}
use k1s_k8s_operator.Go.Values.{Fields}
use k1s_k8s_operator.Go.Errors.{message, Result, ok, err}
use k1s_k8s_operator.K1s.Client.Routes.{Api}
use k1s_k8s_operator.Api.Capability.{K1sManagedResourceStatus}
use k1s_k8s_operator.Controller.Platform.{Platform}
use k1s_k8s_operator.Controller.Auth.{quoted}
use k1s_k8s_operator.Controller.Kinds.{KindSet}
use k1s_k8s_operator.Controller.Manifest.{managed_resource_from_manifest}
use k1s_k8s_operator.Controller.ResourceSet.Types.{Progress}

-- the loop over the manifests that applies them, or only counts them
module _ {W : Type 0} (api : Api W) where
  abbrev pub next_manifest : (W → Progress × W) → ℕ → Result Fields × W → Progress × W
  next_manifest again applied (ok _, w) = again w
  next_manifest again applied (err e, w) = (record { applied = applied; failure = some e }, w)

  unfoldable pub apply_manifests : Bool → List String → ℕ → W → Progress × W
  apply_manifests should [] applied w = (record { applied = applied; failure = none }, w)
  apply_manifests false (manifest ∷ manifests) applied w =
      apply_manifests false manifests (suc applied) w
  apply_manifests true (manifest ∷ manifests) applied w =
      next_manifest (apply_manifests true manifests (suc applied)) applied (api.apply manifest w)

-- One round of the loop that reads, before the rounds behind it.
abbrev pub admit :
    KindSet
    → Result K1sManagedResourceStatus
    → Result (List K1sManagedResourceStatus)
    → Result (List K1sManagedResourceStatus)
admit allowed (err e) rest = err e
admit allowed (ok ref) rest =
    if contains allowed ref.kind
    then elim rest [ err e ↦ err e | ok refs ↦ ok (ref ∷ refs) ]
    else err (message ("kind " <> (quoted ref.kind <> " is not allowed by this K1sResourceSet")))

-- The loop that reads the manifests: `desired`, or the error of the first one that is refused.
module _ {W : Type 0} (P : Platform W) (allowed : KindSet) where
  unfoldable pub desired_resources : List String → Result (List K1sManagedResourceStatus)
  desired_resources [] = ok []
  desired_resources (manifest ∷ manifests) =
      admit allowed (managed_resource_from_manifest P manifest) (desired_resources manifests)
