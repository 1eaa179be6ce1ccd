-- ===== src/Controller/Managed/Pruning.antt =====
-- What deleting and pruning do: which resources they delete, and what is left in k1s.
use k1s_k8s_operator.Prelude.{
  String, ◌≡◌, refl, true, false, List, [], ◌∷◌, map, arith, ◌==◌, contains, string_eq, Bool-cases,
  inl, inr, if◌then◌else◌,
}
use k1s_k8s_operator.Go.Errors.{ok, continue-eq-ok}
use k1s_k8s_operator.K1s.Client.Routes.{Api}
use k1s_k8s_operator.Api.Capability.{K1sManagedResourceStatus}
use k1s_k8s_operator.Controller.Platform.{Platform}
use k1s_k8s_operator.Controller.Managed.{
  managed_resource_key, delete_managed_resource, delete_managed_resources, prune_against,
  prune_managed_resources,
}
use k1s_k8s_operator.Controller.Managed.Backend.{Address, stands_at, any_at, Backend}

-- The resources whose key is none of the given ones, in their order.
unfoldable pub stale : List String → List K1sManagedResourceStatus → List K1sManagedResourceStatus
stale keys [] = []
stale keys (r ∷ rs) =
    let rest = stale keys rs in if contains keys (managed_resource_key r) then rest else r ∷ rest

module _ {W : Type 0} (api : Api W) where
  prune_against-stale :
      (keys : List String) (rs : List K1sManagedResourceStatus)
      → prune_against api keys rs ≡ delete_managed_resources api (stale keys rs)
  unfolding prune_against delete_managed_resources stale
  prune_against-stale keys [] = refl
  prune_against-stale keys (r ∷ rs) = elim (Bool-cases (contains keys (managed_resource_key r))) [
    | inl kept ↦ rw (kept, prune_against-stale keys rs)
    | inr gone ↦ rw (gone, prune_against-stale keys rs)
  ]

  -- Pruning deletes the previous resources that are no longer desired, in their order, and no others.
  pub prune_managed_resources-stale :
      (previous desired : List K1sManagedResourceStatus)
      → prune_managed_resources api previous desired
        ≡ delete_managed_resources api (stale (map managed_resource_key desired) previous)
  unfolding prune_managed_resources
  prune_managed_resources-stale previous desired =
      prune_against-stale (map managed_resource_key desired) previous

module _ {W : Type 0} (P : Platform W) (api : Api W) (B : Backend P api) where
  holds-delete_one :
      (r : K1sManagedResourceStatus) (w : W) (a : Address)
      → (delete_managed_resource api r w).0 ≡ ok tt
      → B.holds (delete_managed_resource api r w).1 a
        ≡ (if stands_at r a then false else B.holds w a)
  unfolding delete_managed_resource stands_at
  holds-delete_one r w a h = elim (Bool-cases (r.kind == "Deployment")) [
    | inl is_app ↦ rw is_app (B.deletes_app _ true w (rw is_app at h) a)
    | inr no_app ↦ elim (Bool-cases (r.kind == "InferenceCell")) [
      | inl is_cell ↦ rw (no_app, is_cell) (B.deletes_cell _ _ w (rw (no_app, is_cell) at h) a)
      | inr no_cell ↦ elim (Bool-cases (r.kind == "InferenceCellSet")) [
        | inl is_set ↦
            rw (no_app, no_cell, is_set)
              (B.deletes_cell_set _ _ w (rw (no_app, no_cell, is_set) at h) a)
        | inr no_set ↦ cc (rw (no_app, no_cell, no_set) at h)
      ]
    ]
  ]

  -- After deletes that all succeed, k1s holds none of the resources, and all else as before.
  pub holds-delete_managed_resources :
      (rs : List K1sManagedResourceStatus) (w : W) (a : Address)
      → (delete_managed_resources api rs w).0 ≡ ok tt
      → B.holds (delete_managed_resources api rs w).1 a
        ≡ (if any_at rs a then false else B.holds w a)
  unfolding delete_managed_resources any_at
  holds-delete_managed_resources [] w a h = refl
  holds-delete_managed_resources (r ∷ rs) w a h =
      let (_, first, rest) =
        continue-eq-ok (λ _. delete_managed_resources api rs) (delete_managed_resource api r w) h in
      rw
        (
          rest,
          holds-delete_managed_resources rs (delete_managed_resource api r w).1 a (rw rest at h),
        )
        (ground (arith, holds-delete_one r w a))
