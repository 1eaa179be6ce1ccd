-- ===== src/Tests/Frames.antt =====
-- What rounds of other objects leave alone, in the world of the examples.
use mathlib.Core.Path.{subst}
use k1s_k8s_operator.Prelude.{
  ◌≡◌, refl, ◌∙◌, Bool, false, [], ◌∷◌, ◌==◌, contains, string_eq, nat_eq, if◌then◌else◌,
}
use k1s_k8s_operator.Go.Errors.{Result, ok, err, ok_inj}
use k1s_k8s_operator.Api.Capability.{K1sManagedResourceStatus, K1sResourceSet}
use k1s_k8s_operator.Controller.Manifest.{managed_resource, managed_resource_from_manifest}
use k1s_k8s_operator.Controller.Patch.{hash_bytes}
use k1s_k8s_operator.Controller.Managed.Backend.{
  Address, app, cell, cell_set, address_eq, stands_at, any_at,
}
use k1s_k8s_operator.Controller.ResourceSet.Reconcile.{reconcile_with}
use k1s_k8s_operator.Controller.Frame.{Misses, Local}
use k1s_k8s_operator.Controller.Frame.Rounds.{Apart, none_yet, then_round, set_round, Rounds-same}
use k1s_k8s_operator.Tests.Objects.{cluster, managed, set_of}
use k1s_k8s_operator.Tests.World.{
  World, platform, api, api-Backend, platform-Separate, platform-apps-Separate,
  platform-endpoints-Separate, app_status-Leaves, contains-without, contains-applied, applied,
}
use k1s_k8s_operator.Tests.Sets.{held}

kept :
    (w : World) (a b : Address) (x : Bool)
    → x ≡ (if a == b then false else contains w a)
    → (a == b) ≡ false
    → x ≡ contains w a
kept w a b x e h = rw h at e

applied-elsewhere :
    (x : Result K1sManagedResourceStatus) (w : World) (a : Address)
    → ((r : K1sManagedResourceStatus) → x ≡ ok r → stands_at r a ≡ false)
    → contains (applied x w).1 a ≡ contains w a
applied-elsewhere (ok r) w a miss = contains-applied (ok r) r w a refl ∙ rw (miss r refl) refl
applied-elsewhere (err e) w a miss = refl

api-Local : Local platform api api-Backend.holds
unfolding api-Backend
api-Local = record {
  deletes_app = λ name w a h. kept w a (app name) _ (contains-without (app name) w a) h;
  deletes_cell = λ namespace name w a h.
      kept w a (cell namespace name) _ (contains-without (cell namespace name) w a) h;
  deletes_cell_set = λ namespace name w a h.
      kept w a (cell_set namespace name) _ (contains-without (cell_set namespace name) w a) h;
  applies =
      λ raw w a miss. applied-elsewhere (managed_resource_from_manifest platform raw) w a miss;
  asks_app = app_status-Leaves;
  asks_cell = λ namespace name w a. refl;
  asks_cell_set = λ namespace name w a. refl;
}

platform-Apart : Apart platform api-Backend.holds
platform-Apart = record {
  sets = platform-Separate;
  apps = platform-apps-Separate;
  endpoints = platform-endpoints-Separate;
}

-- A set that manages a cell and wants the app `web`, and a cell of another name.
abbrev other_cell : Address
other_cell = cell "shop" "other"

abbrev web_set : K1sResourceSet
web_set = set_of ("web" ∷ [])

web-Misses : Misses platform other_cell "web"
unfolding managed_resource_from_manifest managed_resource stands_at address_eq string_eq hash_bytes
web-Misses r read =
    let same : managed "Deployment" "web" "web" ≡ r = ok_inj read in
    subst (λ (x : K1sManagedResourceStatus). stands_at x other_cell ≡ false) same refl

unmanaged : any_at web_set.status.managed_resources other_cell ≡ false
unfolding any_at stands_at address_eq string_eq
unmanaged = refl

Rounds-same_example :
    contains (reconcile_with platform web_set [] api cluster held).1 other_cell
    ≡ contains held other_cell
unfolding api-Backend
Rounds-same_example =
    Rounds-same platform api api-Backend.holds other_cell api-Local platform-Apart held
      (reconcile_with platform web_set [] api cluster held).1
      (then_round none_yet (set_round web_set [] cluster held unmanaged (web-Misses, tt)))
