-- ===== src/Controller/Frame.antt =====
-- What the reconcilers of capability_controller.go leave alone in k1s: the calls that they make are about
-- addresses that their objects name.
pub mod Sets
pub mod Pass
pub mod Apps
pub mod Endpoints
pub mod Rounds
use k1s_k8s_operator.Prelude.{◌≡◌, Bool, true, false, String, ◌==◌}
use k1s_k8s_operator.Go.Errors.{ok}
use k1s_k8s_operator.K1s.Client.Routes.{Api}
use k1s_k8s_operator.Api.Capability.{K1sManagedResourceStatus}
use k1s_k8s_operator.Controller.Platform.{Platform}
use k1s_k8s_operator.Controller.Manifest.{managed_resource_from_manifest}
use k1s_k8s_operator.Controller.Separate.{Leaves}
use k1s_k8s_operator.Controller.Managed.Backend.{
  Address, app, cell, cell_set, address_eq, stands_at,
}

-- What a manifest describes, if anything, stands elsewhere.
abbrev pub Misses : {W : Type 0} → Platform W → Address → String → Type 0
Misses P a raw =
    (r : K1sManagedResourceStatus)
    → managed_resource_from_manifest P raw ≡ ok r
    → stands_at r a ≡ false

-- The documented behaviour of the k1s API, be the reply an error or not: a delete touches no address but
-- its own, an apply none but that of what the manifest describes, and a request for a status none.
pub record Local {W : Type 0} (P : Platform W) (api : Api W) (holds : W → Address → Bool)
    : Type 0 where
  pub deletes_app :
      (name : String) (w : W) (a : Address)
      → (a == app name) ≡ false
      → holds (api.delete_app name true w).1 a ≡ holds w a
  pub deletes_cell :
      (namespace name : String) (w : W) (a : Address)
      → (a == cell namespace name) ≡ false
      → holds (api.delete_inference_cell namespace name w).1 a ≡ holds w a
  pub deletes_cell_set :
      (namespace name : String) (w : W) (a : Address)
      → (a == cell_set namespace name) ≡ false
      → holds (api.delete_inference_cell_set namespace name w).1 a ≡ holds w a
  pub applies :
      (raw : String) (w : W) (a : Address)
      → Misses P a raw
      → holds (api.apply raw w).1 a ≡ holds w a
  pub asks_app : (namespace name : String) → Leaves holds (api.app_status namespace name)
  pub asks_cell :
      (namespace name : String) → Leaves holds (api.inference_cell_status namespace name)
  pub asks_cell_set :
      (namespace name : String) → Leaves holds (api.inference_cell_set_status namespace name)
