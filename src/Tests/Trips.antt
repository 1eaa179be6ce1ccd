-- ===== src/Tests/Trips.antt =====
-- The refinement of a pass at a set of one Deployment, and numbers that are written and read back.
use k1s_k8s_operator.Prelude.{
  ◌≡◌, refl, String, code, Bool, true, ◌&&◌, not, ◌∷◌, [], All, arith, ◌==◌, string_eq, nat_eq,
}
use k1s_k8s_operator.Api.Capability.{K1sResourceSet}
use k1s_k8s_operator.Controller.Kinds.{default_resource_set_allowed_kinds}
use k1s_k8s_operator.Controller.Managed.Backend.{Address, cell, any_at}
use k1s_k8s_operator.Controller.Managed.Keys.{NoSlash, IsPlain}
use k1s_k8s_operator.Controller.ResourceSet.Pass.{work}
use k1s_k8s_operator.Controller.ResourceSet.Pass.Refinement.{settled, work-settled}
use k1s_k8s_operator.Tests.Objects.{set_of}
use k1s_k8s_operator.Tests.World.{platform, api, api-Backend, platform-Separate}
use k1s_k8s_operator.Tests.Sets.{held, synced, work-synced, must_apply-synced}

no_slash : String → Bool
no_slash String.[] = true
no_slash (String.◌∷◌ c s) = not (code c == b'/') && no_slash s

NoSlash-of : (s : String) → no_slash s ≡ true → NoSlash s
unfolding no_slash
NoSlash-of String.[] h = tt
NoSlash-of (String.◌∷◌ c s) h = (ground arith, NoSlash-of s (ground arith))

abbrev web_set : K1sResourceSet
web_set = set_of ("web" ∷ [])

IsPlain-before : All IsPlain web_set.status.managed_resources
unfolding no_slash nat_eq
IsPlain-before = ((NoSlash-of "InferenceCell" refl, NoSlash-of "shop" refl), tt)

IsPlain-after : All IsPlain synced.managed
unfolding no_slash nat_eq
IsPlain-after = ((NoSlash-of "Deployment" refl, NoSlash-of "shop" refl), tt)

abbrev llm : Address
llm = cell "shop" "llm"

work-settled_example :
    api-Backend.holds (work platform web_set api default_resource_set_allowed_kinds held).1 llm
    ≡ settled
        (any_at web_set.status.managed_resources llm)
        (any_at synced.managed llm)
        (api-Backend.holds held llm)
work-settled_example =
    work-settled platform web_set api api-Backend default_resource_set_allowed_kinds held synced llm
      platform-Separate refl IsPlain-before IsPlain-after must_apply-synced work-synced refl
