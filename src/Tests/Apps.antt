-- ===== src/Tests/Apps.antt =====
-- The theorems on apps at an app of one Deployment.
use k1s_k8s_operator.Prelude.{
  ◌≡◌, refl, true, false, ◌||◌, [], ◌∷◌, ◌==◌, string_eq, nat_eq, if◌then◌else◌,
}
use k1s_k8s_operator.Go.Values.{empty}
use k1s_k8s_operator.Go.Errors.{api_error, is_not_found, ok, err}
use k1s_k8s_operator.K1s.Status.{AppStatus}
use k1s_k8s_operator.K1s.Client.Routes.{Api}
use k1s_k8s_operator.Api.Meta.{find, find_or_empty}
use k1s_k8s_operator.Api.Capability.{K1sApp}
use k1s_k8s_operator.Controller.Helpers.{contains_string}
use k1s_k8s_operator.Controller.Patch.{
  last_applied_hash_annotation, last_applied_hash, hash_bytes, patch_object, patch_finalizers,
  patch_last_applied_hash,
}
use k1s_k8s_operator.Controller.Manifest.{
  kind_from_manifest, app_ref_from_manifest, managed_resource, managed_resource_from_manifest,
  resource_delete_name,
}
use k1s_k8s_operator.Controller.Managed.Backend.{app, cell, address_eq, stands_at}
use k1s_k8s_operator.Controller.ResourceSet.Types.{
  capability_finalizer, done, is_deleted, is_orphan,
}
use k1s_k8s_operator.Controller.Upkeep.{
  observed, Outcome, manifest_changed, survey, apply_manifest, observe, upkeep,
}
use k1s_k8s_operator.Controller.Upkeep.Evidence.{Told}
use k1s_k8s_operator.Controller.App.Status.{
  apply_observed_app_status, observed_status, with_ready_condition, final_status,
}
use k1s_k8s_operator.Controller.App.Pass.{ask_status, upkept_app, app_work}
use k1s_k8s_operator.Controller.App.Pass.Evidence.{final_status_evidence}
use k1s_k8s_operator.Controller.App.Pass.Repair.{app_work-restores}
use k1s_k8s_operator.Controller.App.Reconcile.{
  remove_app_finalizer, finalize_app, reconcile_app_with,
}
use k1s_k8s_operator.Controller.App.Reconcile.Finalizer.{holds-finalize_app}
use k1s_k8s_operator.Controller.App.Reconcile.Refusal.{reconcile_app_other_kind}
use k1s_k8s_operator.Tests.Objects.{managed, running, app_of, cluster}
use k1s_k8s_operator.Tests.World.{
  World, platform, api, api-Backend, platform-apps-Separate, app_status-Leaves,
}

-- The app was applied before; k1s has it, or has lost it.
abbrev web : K1sApp
web = app_of "web" ((last_applied_hash_annotation, "web") ∷ [])

abbrev has_web : World
has_web = app "shop--web" ∷ []

abbrev lost_web : World
lost_web = cell "shop" "llm" ∷ []

unchanged : manifest_changed platform api (upkept_app platform web api) ≡ false
unfolding manifest_changed last_applied_hash hash_bytes find_or_empty find string_eq
unchanged = refl

lost : ask_status platform web api lost_web ≡ (err (api_error "GET" "/status" 404 ""), lost_web)
unfolding ask_status app_ref_from_manifest resource_delete_name string_eq address_eq
lost = refl

not_there : is_not_found (api_error "GET" "/status" 404 "") ≡ true
unfolding is_not_found nat_eq
not_there = refl

abbrev restored : Outcome AppStatus
restored = record { should = true; out = empty; observation = observed (running "web") }

work-restored : (app_work platform web api lost_web).0 ≡ ok restored
unfolding app_work upkeep survey manifest_changed last_applied_hash hash_bytes find_or_empty find
    ask_status app_ref_from_manifest resource_delete_name is_not_found apply_manifest observe
    managed_resource_from_manifest managed_resource patch_last_applied_hash patch_object string_eq
    nat_eq address_eq
work-restored = refl

read-web : managed_resource_from_manifest platform "web" ≡ ok (managed "Deployment" "web" "web")
unfolding managed_resource_from_manifest managed_resource hash_bytes string_eq
read-web = refl

app_work-restores_example :
    api-Backend.holds (app_work platform web api lost_web).1 (app "shop--web") ≡ (
      stands_at (managed "Deployment" "web" "web") (app "shop--web")
      || api-Backend.holds lost_web (app "shop--web"))
app_work-restores_example =
    app_work-restores platform web api api-Backend platform-apps-Separate app_status-Leaves
      (managed "Deployment" "web" "web") lost_web lost_web (api_error "GET" "/status" 404 "")
      restored (app "shop--web") read-web unchanged lost not_there work-restored refl

ready-restored :
    (final_status platform web restored.should restored.out restored.observation 7).ready ≡ true
unfolding final_status with_ready_condition observed_status apply_observed_app_status
ready-restored = refl

final_status_evidence_example :
    (seen : AppStatus) × Told platform api (upkept_app platform web api) seen × (seen.ready ≡ true)
final_status_evidence_example =
    final_status_evidence platform web api lost_web restored 7 work-restored ready-restored

has_finalizer : contains_string web.meta.finalizers capability_finalizer ≡ true
unfolding contains_string string_eq
has_finalizer = refl

-- The app of the status is not the one of the manifest any more.
abbrev renamed : K1sApp
renamed = record web { status = record web.status { app_name = "shop--old" } }

abbrev has_both : World
has_both = app "shop--old" ∷ app "shop--web" ∷ []

not_orphan : is_orphan renamed.spec.delete_policy ≡ false
not_orphan = refl

renamed-named : (renamed.status.app_name == "") ≡ false
unfolding string_eq
renamed-named = refl

finalize-ends : (finalize_app platform renamed api has_both).0 ≡ ok done
unfolding finalize_app remove_app_finalizer contains_string patch_finalizers patch_object string_eq
finalize-ends = refl

holds-finalize_app_example :
    api-Backend.holds (finalize_app platform renamed api has_both).1 (app "shop--old") ≡ (
      if app "shop--old" == app "shop--old"
      then false
      else api-Backend.holds has_both (app "shop--old"))
holds-finalize_app_example =
    holds-finalize_app platform renamed api api-Backend platform-apps-Separate has_both
      (app "shop--old") has_finalizer not_orphan renamed-named finalize-ends

alive : is_deleted (app_of "pod" []).meta ≡ false
alive = refl

other_kind : (kind_from_manifest platform (app_of "pod" []).spec.manifest == "Deployment") ≡ false
unfolding kind_from_manifest string_eq
other_kind = refl

abbrev other_api : Api World
other_api = record api { app_status = λ namespace name w. (ok (running name), w) }

reconcile_app_other_kind_example :
    reconcile_app_with platform (app_of "pod" []) api cluster has_web
    ≡ reconcile_app_with platform (app_of "pod" []) other_api cluster has_web
reconcile_app_other_kind_example =
    reconcile_app_other_kind platform (app_of "pod" []) api other_api cluster has_web alive
      other_kind
