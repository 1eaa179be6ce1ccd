-- ===== src/Controller/ResourceSet/Manifests/Laws.antt =====
-- What the loops over the manifests come to, and what applying leaves in k1s.
use k1s_k8s_operator.Prelude.{
  ℕ, suc, ◌+◌, String, ◌≡◌, refl, Bool, true, false, ◌||◌, List, [], ◌∷◌, length, none, arith,
  contains, string_eq,
}
use k1s_k8s_operator.Go.Values.{Fields}
use k1s_k8s_operator.Go.Errors.{Result, ok, err}
use k1s_k8s_operator.K1s.Client.Routes.{Api}
use k1s_k8s_operator.Api.Capability.{K1sManagedResourceStatus}
use k1s_k8s_operator.Controller.Platform.{Platform}
use k1s_k8s_operator.Controller.Kinds.{KindSet}
use k1s_k8s_operator.Controller.Manifest.{managed_resource_from_manifest}
use k1s_k8s_operator.Controller.Managed.Backend.{Address, any_at, Backend}
use k1s_k8s_operator.Controller.ResourceSet.Types.{Progress}
use k1s_k8s_operator.Controller.ResourceSet.Manifests.{
  next_manifest, apply_manifests, admit, desired_resources,
}

-- A round that succeeds: the manifest was read, its kind is allowed, and the rest was read too.
pub admit-eq-ok :
    (allowed : KindSet) (r : Result K1sManagedResourceStatus)
    (rest : Result (List K1sManagedResourceStatus)) {ds : List K1sManagedResourceStatus}
    → admit allowed r rest ≡ ok ds
    → (ref : K1sManagedResourceStatus) × (refs : List K1sManagedResourceStatus) × (r ≡ ok ref)
      × (rest ≡ ok refs)
      × (contains allowed ref.kind ≡ true)
      × (ds ≡ ref ∷ refs)
admit-eq-ok allowed (err e) rest h = cc
admit-eq-ok allowed (ok ref) (err e) h = ground arith
admit-eq-ok allowed (ok ref) (ok refs) h = (ref, refs, refl, refl, ground arith, ground arith)

module _ {W : Type 0} (api : Api W) where
  -- A round of applying that does not fail goes on behind a reply.
  next_manifest-eq :
      (again : W → Progress × W) (n : ℕ) (p : Result Fields × W)
      → (next_manifest api again n p).0.failure ≡ none
      → (out : Fields) × (p.0 ≡ ok out) × (next_manifest api again n p ≡ again p.1)
  next_manifest-eq again n (ok out, w) h = (out, refl, refl)
  next_manifest-eq again n (err e, w) h = cc

  -- Without a failure every manifest is counted.
  pub applied-apply_manifests :
      (should : Bool) (ms : List String) (n : ℕ) (w : W)
      → (apply_manifests api should ms n w).0.failure ≡ none
      → (apply_manifests api should ms n w).0.applied ≡ n + length ms
  unfolding apply_manifests
  applied-apply_manifests should [] n w h = omega arith
  applied-apply_manifests false (m ∷ ms) n w h =
      omega (arith, applied-apply_manifests false ms (suc n) w h)
  applied-apply_manifests true (m ∷ ms) n w h =
      let (_, _, on) = next_manifest-eq (apply_manifests api true ms (suc n)) n (api.apply m w) h in
      rw on (omega (arith, applied-apply_manifests true ms (suc n) _ (rw on at h)))

  -- With nothing to apply the loop only counts, and changes nothing.
  pub apply_manifests_count :
      (ms : List String) (n : ℕ) (w : W)
      → apply_manifests api false ms n w ≡ (record { applied = n + length ms; failure = none }, w)
  unfolding apply_manifests
  apply_manifests_count [] n w = ground arith
  apply_manifests_count (m ∷ ms) n w = ground (arith, apply_manifests_count ms (suc n) w)

module _ {W : Type 0} (P : Platform W) (api : Api W) (B : Backend P api) (allowed : KindSet) where
  pub holds-apply_manifests :
      (ms : List String) (ds : List K1sManagedResourceStatus) (n : ℕ) (w : W) (a : Address)
      → desired_resources P allowed ms ≡ ok ds
      → (apply_manifests api true ms n w).0.failure ≡ none
      → B.holds (apply_manifests api true ms n w).1 a ≡ (any_at ds a || B.holds w a)
  unfolding desired_resources apply_manifests any_at
  holds-apply_manifests [] ds n w a h f = ground arith
  holds-apply_manifests (m ∷ ms) ds n w a h f =
      let (ref, refs, read, others, _, all) =
        admit-eq-ok allowed (managed_resource_from_manifest P m) (desired_resources P allowed ms)
          h in
      let (out, sent, on) = next_manifest-eq api (apply_manifests api true ms (suc n)) n _ f in
      rw (on, all)
        (ground (
          arith,
          holds-apply_manifests ms refs (suc n) (api.apply m w).1 a others (rw on at f),
          B.applies m ref w out read sent a,
        ))
