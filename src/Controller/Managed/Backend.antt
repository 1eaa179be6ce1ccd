-- ===== src/Controller/Managed/Backend.antt =====
-- What a k1s API promises: which resources it holds after a call that succeeds.
use k1s_k8s_operator.Prelude.{
  String, ◌≡◌, Bool, false, ◌||◌, List, [], ◌∷◌, Eq, ◌==◌, string_eq, if◌then◌else◌,
}
use k1s_k8s_operator.Go.Values.{Fields}
use k1s_k8s_operator.Go.Errors.{ok}
use k1s_k8s_operator.K1s.Client.Routes.{Api}
use k1s_k8s_operator.Api.Capability.{K1sManagedResourceStatus}
use k1s_k8s_operator.Controller.Platform.{Platform}
use k1s_k8s_operator.Controller.Managed.{gone}
use k1s_k8s_operator.Controller.Manifest.{resource_delete_name, managed_resource_from_manifest}

-- How the k1s API addresses a resource: an app by one name.
pub data Address : Type 0 where
  app : String → Address
  cell cell_set : (namespace name : String) → Address

Address-discrete : Discrete Address
Address-discrete = hlevel string_eq.dec

instance unfoldable pub address_eq : Eq Address
unfolding Address-discrete string_eq
address_eq = record { dec = Address-discrete }

-- Whether a managed resource stands at an address; one of another kind stands at none.
unfoldable pub stands_at : K1sManagedResourceStatus → Address → Bool
stands_at r a =
    if r.kind == "Deployment"
    then a == app (resource_delete_name r.namespace r.name)
    else if r.kind == "InferenceCell"
    then a == cell r.namespace r.name
    else if r.kind == "InferenceCellSet"
    then a == cell_set r.namespace r.name
    else false

unfoldable pub any_at : List K1sManagedResourceStatus → Address → Bool
unfolding stands_at
any_at [] a = false
any_at (r ∷ rs) a = stands_at r a || any_at rs a

-- The documented behaviour of the k1s API: a delete that succeeds, or that is answered by 404, leaves
-- the resource absent; an apply that succeeds leaves it present; neither touches another address.
pub record Backend {W : Type 0} (P : Platform W) (api : Api W) : Type 0 where
  pub holds : W → Address → Bool
  pub deletes_app :
      (name : String) (purge : Bool) (w : W)
      → gone (api.delete_app name purge w).0 ≡ ok tt
      → (a : Address)
      → holds (api.delete_app name purge w).1 a ≡ (if a == app name then false else holds w a)
  pub deletes_cell :
      (namespace name : String) (w : W)
      → gone (api.delete_inference_cell namespace name w).0 ≡ ok tt
      → (a : Address)
      → holds (api.delete_inference_cell namespace name w).1 a
        ≡ (if a == cell namespace name then false else holds w a)
  pub deletes_cell_set :
      (namespace name : String) (w : W)
      → gone (api.delete_inference_cell_set namespace name w).0 ≡ ok tt
      → (a : Address)
      → holds (api.delete_inference_cell_set namespace name w).1 a
        ≡ (if a == cell_set namespace name then false else holds w a)
  pub applies :
      (raw : String) (r : K1sManagedResourceStatus) (w : W) (out : Fields)
      → managed_resource_from_manifest P raw ≡ ok r
      → (api.apply raw w).0 ≡ ok out
      → (a : Address) → holds (api.apply raw w).1 a ≡ (stands_at r a || holds w a)
