-- ===== src/Controller/Managed.antt =====
-- The k1s resources that a K1sResourceSet manages: their keys, their deletion and the pruning.
pub mod Backend
pub mod Pruning
pub mod Keys
use k1s_k8s_operator.Prelude.{
  String, ◌<>◌, true, List, [], ◌∷◌, map, ◌==◌, contains, string_eq, if◌then◌else◌,
}
use k1s_k8s_operator.Go.Errors.{message, is_not_found, Result, ok, err, Exec, pure, fail, ◌>>◌}
use k1s_k8s_operator.Go.Values.{Fields}
use k1s_k8s_operator.K1s.Client.Routes.{Api}
use k1s_k8s_operator.Api.Capability.{K1sManagedResourceStatus}
use k1s_k8s_operator.Controller.Auth.{quoted}
use k1s_k8s_operator.Controller.Manifest.{resource_delete_name}

unfoldable pub managed_resource_key : K1sManagedResourceStatus → String
managed_resource_key r = r.kind <> ("/" <> (r.namespace <> ("/" <> r.name)))

-- what `deleteManagedResource` makes of the reply
abbrev pub gone : Result Fields → Result (Unit {0})
gone (ok _) = ok tt
gone (err e) = if is_not_found e then ok tt else err e

module _ {W : Type 0} (api : Api W) where
  abbrev pub delete_reply : Exec W Fields → Exec W (Unit {0})
  delete_reply m w = let (reply, w') = m w in (gone reply, w')

  unfoldable pub delete_managed_resource : K1sManagedResourceStatus → Exec W (Unit {0})
  delete_managed_resource r =
      if r.kind == "Deployment"
      then delete_reply (api.delete_app (resource_delete_name r.namespace r.name) true)
      else if r.kind == "InferenceCell"
      then delete_reply (api.delete_inference_cell r.namespace r.name)
      else if r.kind == "InferenceCellSet"
      then delete_reply (api.delete_inference_cell_set r.namespace r.name)
      else fail (message ("kind " <> (quoted r.kind <> " cannot be deleted by K1sResourceSet")))

  unfoldable pub delete_managed_resources : List K1sManagedResourceStatus → Exec W (Unit {0})
  delete_managed_resources [] = pure tt
  delete_managed_resources (r ∷ rs) = do delete_managed_resource r; delete_managed_resources rs

  -- the second loop of `pruneManagedResources`
  unfoldable pub prune_against : List String → List K1sManagedResourceStatus → Exec W (Unit {0})
  prune_against desired_keys [] = pure tt
  prune_against desired_keys (r ∷ rs) =
      if contains desired_keys (managed_resource_key r)
      then prune_against desired_keys rs
      else do delete_managed_resource r; prune_against desired_keys rs

  unfoldable pub prune_managed_resources :
      (previous desired : List K1sManagedResourceStatus) → Exec W (Unit {0})
  unfolding prune_against
  prune_managed_resources previous desired =
      prune_against (map managed_resource_key desired) previous
