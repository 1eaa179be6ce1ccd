-- ===== src/Controller/Frame/Sets.antt =====
-- A round of K1sResourceSetReconciler touches nothing that the set neither manages nor wants.
use k1s_k8s_operator.Prelude.{
  ℕ, suc, ◌≡◌, ◌∙◌, Bool, true, false, not, ◌||◌, String, List, [], ◌∷◌, Option, none, some, All,
  ◌==◌, contains, string_eq, arith, Bool-cases, inl, inr,
}
use k1s_k8s_operator.Go.Values.{Fields}
use k1s_k8s_operator.Go.Errors.{Error, Result, ok, err}
use k1s_k8s_operator.K1s.Client.Routes.{Api}
use k1s_k8s_operator.Api.Cluster.{K1sCluster}
use k1s_k8s_operator.Api.Capability.{K1sManagedResourceStatus, K1sResourceSet, K1sResourceSetStatus}
use k1s_k8s_operator.Controller.Helpers.{contains_string}
use k1s_k8s_operator.Controller.Platform.{Platform}
use k1s_k8s_operator.Controller.Kinds.{KindSet, allowed_kinds_for}
use k1s_k8s_operator.Controller.Patch.{patch_finalizers}
use k1s_k8s_operator.Controller.Separate.{Separate, patch_status-Leaves, patch_finalizers-Leaves}
use k1s_k8s_operator.Controller.Keeps.{Keeps, bind-Keeps, handle-Keeps, if-Keeps, Leaves-Keeps}
use k1s_k8s_operator.Controller.Managed.{
  delete_managed_resource, delete_managed_resources, prune_against, prune_managed_resources,
  managed_resource_key,
}
use k1s_k8s_operator.Controller.Managed.Backend.{Address, address_eq, stands_at, any_at}
use k1s_k8s_operator.Controller.ResourceSet.Types.{
  capability_finalizer, is_deleted, is_orphan, Progress,
}
use k1s_k8s_operator.Controller.ResourceSet.Status.{publish, delete_failed_status}
use k1s_k8s_operator.Controller.ResourceSet.Manifests.{next_manifest, apply_manifests}
use k1s_k8s_operator.Controller.ResourceSet.Pass.{
  Outcome, record_hash, applied_all, prune_step, apply_step, proceed, must_apply, work, settle,
  sync,
}
use k1s_k8s_operator.Controller.ResourceSet.Pass.Separate.{record_hash-Leaves}
use k1s_k8s_operator.Controller.ResourceSet.Reconcile.{
  remove_finalizer, add_finalizer, after_deletes, finalize, under_policy, reconcile_with,
}
use k1s_k8s_operator.Controller.Frame.{Misses, Local}

module _ {W : Type 0} (P : Platform W) (api : Api W) (holds : W → Address → Bool)
    (local : Local P api holds) (a : Address) (b : Bool) where
  -- It stays so whether k1s holds what stands at the address.
  abbrev Same : W → Type 0
  Same w = holds w a ≡ b

  delete_managed_resource-Keeps :
      (r : K1sManagedResourceStatus)
      → stands_at r a ≡ false
      → Keeps Same (delete_managed_resource api r)
  unfolding delete_managed_resource stands_at
  delete_managed_resource-Keeps r elsewhere = elim (Bool-cases (r.kind == "Deployment")) [
    | inl is_app ↦ rw is_app λ w q. local.deletes_app _ w a (rw is_app at elsewhere) ∙ q
    | inr no_app ↦ elim (Bool-cases (r.kind == "InferenceCell")) [
      | inl is_cell ↦
          rw (no_app, is_cell)
            λ w q. local.deletes_cell _ _ w a (rw (no_app, is_cell) at elsewhere) ∙ q
      | inr no_cell ↦ elim (Bool-cases (r.kind == "InferenceCellSet")) [
        | inl is_set ↦
            rw (no_app, no_cell, is_set)
              λ w q. local.deletes_cell_set _ _ w a (rw (no_app, no_cell, is_set) at elsewhere) ∙ q
        | inr other ↦ rw (no_app, no_cell, other) λ w q. q
      ]
    ]
  ]

  here_elsewhere : (x y : Bool) → (x || y) ≡ false → x ≡ false
  here_elsewhere x y h = ground arith

  rest_elsewhere : (x y : Bool) → (x || y) ≡ false → y ≡ false
  rest_elsewhere x y h = ground arith

  delete_managed_resources-Keeps :
      (rs : List K1sManagedResourceStatus)
      → any_at rs a ≡ false
      → Keeps Same (delete_managed_resources api rs)
  unfolding delete_managed_resources any_at
  delete_managed_resources-Keeps [] elsewhere = λ w q. q
  delete_managed_resources-Keeps (r ∷ rs) elsewhere =
      bind-Keeps Same (delete_managed_resource api r) (λ _. delete_managed_resources api rs)
        (delete_managed_resource-Keeps r (here_elsewhere _ _ elsewhere))
        (λ _. delete_managed_resources-Keeps rs (rest_elsewhere (stands_at r a) _ elsewhere))

  prune_against-Keeps :
      (keys : List String) (rs : List K1sManagedResourceStatus)
      → any_at rs a ≡ false
      → Keeps Same (prune_against api keys rs)
  unfolding prune_against any_at
  prune_against-Keeps keys [] elsewhere = λ w q. q
  prune_against-Keeps keys (r ∷ rs) elsewhere =
      let behind = prune_against-Keeps keys rs (rest_elsewhere (stands_at r a) _ elsewhere) in
      if-Keeps Same (contains keys (managed_resource_key r)) _ _ (λ _. behind)
        (λ _.
          bind-Keeps Same (delete_managed_resource api r) (λ _. prune_against api keys rs)
            (delete_managed_resource-Keeps r (here_elsewhere _ _ elsewhere)) (λ _. behind))

  next_manifest-Same :
      (again : W → Progress × W) (n : ℕ) (p : Result Fields × W)
      → ((w : W) → Same w → Same (again w).1)
      → Same p.1
      → Same (next_manifest api again n p).1
  next_manifest-Same again n (ok out, w) h q = h w q
  next_manifest-Same again n (err e, w) h q = q

  apply_manifests-Same :
      (should : Bool) (ms : List String) (n : ℕ)
      → All (Misses P a) ms
      → (w : W) → Same w
      → Same (apply_manifests api should ms n w).1
  unfolding apply_manifests
  apply_manifests-Same should [] n misses w q = q
  apply_manifests-Same false (m ∷ ms) n (miss, misses) w q =
      apply_manifests-Same false ms (suc n) misses w q
  apply_manifests-Same true (m ∷ ms) n (miss, misses) w q =
      next_manifest-Same (apply_manifests api true ms (suc n)) n (api.apply m w)
        (apply_manifests-Same true ms (suc n) misses) (local.applies m w a miss ∙ q)

  module _ (set : K1sResourceSet) (S : Separate P P.resource_sets holds)
      (unmanaged : any_at set.status.managed_resources a ≡ false)
      (unwanted : All (Misses P a) set.spec.manifests) where
    applied_all-Keeps :
        (should : Bool) (desired : List K1sManagedResourceStatus) (n : ℕ) (failure : Option Error)
        → Keeps Same (applied_all P set should desired n failure)
    applied_all-Keeps should desired n (some e) = λ w q. q
    applied_all-Keeps should desired n none =
        bind-Keeps Same (record_hash P set should) _
          (Leaves-Keeps holds (record_hash P set should) (record_hash-Leaves P holds S set should) a
            b)
          (λ _ w q. q)

    prune_step-Keeps :
        (desired : List K1sManagedResourceStatus) → Keeps Same (prune_step P set api desired)
    unfolding prune_step prune_managed_resources
    prune_step-Keeps desired =
        if-Keeps Same set.spec.prune _ _
          (λ _. prune_against-Keeps _ set.status.managed_resources unmanaged) (λ _ w q. q)

    apply_step-Keeps :
        (should : Bool) (desired : List K1sManagedResourceStatus) (r : Result (Unit {0}))
        → Keeps Same (apply_step P set api should desired r)
    unfolding apply_step
    apply_step-Keeps should desired (err e) w q = q
    apply_step-Keeps should desired (ok _) w q =
        let (progress, w') = apply_manifests api should set.spec.manifests 0 w in
        applied_all-Keeps should desired progress.applied progress.failure w'
          (apply_manifests-Same should set.spec.manifests 0 unwanted w q)

    proceed-Keeps : (r : Result (List K1sManagedResourceStatus)) → Keeps Same (proceed P set api r)
    proceed-Keeps (err e) = λ w q. q
    proceed-Keeps (ok desired) =
        handle-Keeps Same (prune_step P set api desired)
          (apply_step P set api (must_apply P set) desired) (prune_step-Keeps desired)
          (apply_step-Keeps (must_apply P set) desired)

    publish-Keeps : (status : K1sResourceSetStatus) → Keeps Same (publish P set status)
    unfolding publish
    publish-Keeps status =
        Leaves-Keeps holds (publish P set status)
          (patch_status-Leaves P P.resource_sets holds S set _) a b

    finalizers-Keeps :
        (finalizers : List String) → Keeps Same (patch_finalizers P P.resource_sets set finalizers)
    finalizers-Keeps finalizers =
        Leaves-Keeps holds (patch_finalizers P P.resource_sets set finalizers)
          (patch_finalizers-Leaves P P.resource_sets holds S set finalizers) a b

    settle-Keeps : (cluster : K1sCluster) (o : Outcome) → Keeps Same (settle P set cluster o)
    unfolding settle
    settle-Keeps cluster o w = bind-Keeps Same (publish P set _) _ (publish-Keeps _) (λ _ w q. q) w

    under_policy-Keeps :
        (cluster : K1sCluster) (r : Result KindSet) → Keeps Same (under_policy P set api cluster r)
    unfolding sync work
    under_policy-Keeps cluster (err e) =
        λ w. bind-Keeps Same (publish P set _) _ (publish-Keeps _) (λ _ w q. q) w
    under_policy-Keeps cluster (ok allowed) =
        bind-Keeps Same (work P set api allowed) (settle P set cluster) (proceed-Keeps _)
          (settle-Keeps cluster)

    after_deletes-Keeps : (r : Result (Unit {0})) → Keeps Same (after_deletes P set r)
    unfolding remove_finalizer
    after_deletes-Keeps (ok _) = bind-Keeps Same _ _ (finalizers-Keeps _) (λ _ w q. q)
    after_deletes-Keeps (err e) = λ w. publish-Keeps (delete_failed_status P set e (P.now w)) w

    finalize-Keeps : Keeps Same (finalize P set api)
    unfolding finalize
    finalize-Keeps =
        if-Keeps Same (not (contains_string set.meta.finalizers capability_finalizer)) _ _
          (λ _ w q. q)
          λ _.
            if-Keeps Same (is_orphan set.spec.delete_policy) _ _ (λ _. after_deletes-Keeps (ok tt))
              λ _.
                handle-Keeps Same (delete_managed_resources api set.status.managed_resources)
                  (after_deletes P set)
                  (delete_managed_resources-Keeps set.status.managed_resources unmanaged)
                  after_deletes-Keeps

    -- whether it ends well or not
    pub reconcile_with-Keeps :
        (configured : List String) (cluster : K1sCluster)
        → Keeps Same (reconcile_with P set configured api cluster)
    unfolding reconcile_with add_finalizer
    reconcile_with-Keeps configured cluster =
        if-Keeps Same (is_deleted set.meta) _ _ (λ _. finalize-Keeps)
          λ _.
            if-Keeps Same (not (contains_string set.meta.finalizers capability_finalizer)) _ _
              (λ _. bind-Keeps Same _ _ (finalizers-Keeps _) (λ _ w q. q))
              (λ _.
                under_policy-Keeps cluster (allowed_kinds_for configured set.spec.allowed_kinds))
