-- ===== src/Controller/ResourceSet/Pass/Refinement.antt =====
-- A pass of a set that prunes does to k1s what an abstract set does to its places.
use k1s_k8s_operator.Prelude.{
  ◌≡◌, refl, ◌∙◌, Bool, true, false, ◌||◌, none, All, arith, map, if◌then◌else◌,
}
use k1s_k8s_operator.Go.Errors.{ok}
use k1s_k8s_operator.K1s.Client.Routes.{Api}
use k1s_k8s_operator.Api.Capability.{K1sResourceSet}
use k1s_k8s_operator.Controller.Platform.{Platform}
use k1s_k8s_operator.Controller.Kinds.{KindSet}
use k1s_k8s_operator.Controller.Managed.{managed_resource_key}
use k1s_k8s_operator.Controller.Managed.Backend.{Address, any_at, Backend}
use k1s_k8s_operator.Controller.Managed.Pruning.{stale}
use k1s_k8s_operator.Controller.Managed.Keys.{IsPlain, any_at-stale, any_at-stale-false}
use k1s_k8s_operator.Controller.ResourceSet.Pass.{Outcome, must_apply, work}
use k1s_k8s_operator.Controller.ResourceSet.Pass.Convergence.{work-converges}
use k1s_k8s_operator.Controller.Separate.{Separate}

-- The specification of a pass, at one place: a set owns the places that it managed before and those that it
-- wants; k1s holds what the set wants there, and all else as it was.
abbrev pub settled : (managed wanted held : Bool) → Bool
settled managed wanted held = if managed || wanted then wanted else held

settled_lem :
    (managed wanted gone held : Bool)
    → (managed ≡ true → (gone || wanted) ≡ true)
    → (managed ≡ false → gone ≡ false)
    → (wanted || (if gone then false else held)) ≡ settled managed wanted held
settled_lem true wanted gone held covers leaves = let h = covers refl in ground arith
settled_lem false wanted gone held covers leaves = let h = leaves refl in ground arith

module _ {W : Type 0} (P : Platform W) (set : K1sResourceSet) (api : Api W)
    (B : Backend P api) where
  -- A pass of a set that prunes, with something to apply, that reports no failure, refines the
  -- specification `settled`: at each place that the set managed or wants, k1s holds what the set wants,
  -- and elsewhere nothing has changed. The kinds and namespaces have no slash; the k1s API behaves as
  -- `Backend` says, and the calls of Kubernetes leave it alone.
  pub work-settled :
      (allowed : KindSet) (w : W) (o : Outcome) (a : Address)
      → Separate P P.resource_sets B.holds
      → set.spec.prune ≡ true
      → All IsPlain set.status.managed_resources
      → All IsPlain o.managed
      → must_apply P set ≡ true
      → (work P set api allowed w).0 ≡ ok o
      → o.progress.failure ≡ none
      → B.holds (work P set api allowed w).1 a
        ≡ settled (any_at set.status.managed_resources a) (any_at o.managed a) (B.holds w a)
  work-settled allowed w o a S prunes plain_before plain m h g =
      let (_, _, converges) = work-converges P set api B allowed w o S m h g in
      let previous = set.status.managed_resources in
      converges a
      ∙ rw prunes (
          settled_lem (any_at previous a) (any_at o.managed a)
            (any_at (stale (map managed_resource_key o.managed) previous) a) (B.holds w a)
            (any_at-stale o.managed a previous plain plain_before)
            (any_at-stale-false _ a previous))
