-- ===== src/Tests/Lives.antt =====
-- The theorem on the life of an inference endpoint, at a Kubernetes that holds one.
use k1s_k8s_operator.Prelude.{
  ◌≡◌, refl, sym, inl, String, Bool, true, false, List, [], ◌∷◌, Option, none, some, string_eq,
  contains,
}
use k1s_k8s_operator.Go.Errors.{not_found, kube, Result, ok, err, Exec, pure}
use k1s_k8s_operator.K1s.Client.Routes.{Api}
use k1s_k8s_operator.Api.Meta.{find, find_or_empty}
use k1s_k8s_operator.Api.Capability.{K1sInferenceEndpoint}
use k1s_k8s_operator.Controller.Helpers.{contains_string}
use k1s_k8s_operator.Controller.Platform.{Platform}
use k1s_k8s_operator.Controller.Patch.{
  last_applied_hash, hash_bytes, patch_object, patch_finalizers, patch_last_applied_hash,
}
use k1s_k8s_operator.Controller.Manifest.{managed_resource, managed_resource_from_manifest}
use k1s_k8s_operator.Controller.Separate.{Separate}
use k1s_k8s_operator.Controller.Managed.Backend.{Address, app, cell, cell_set, address_eq, Backend}
use k1s_k8s_operator.Controller.ResourceSet.Types.{capability_finalizer, is_deleted}
use k1s_k8s_operator.Controller.Upkeep.{manifest_changed, survey, apply_manifest, observe, upkeep}
use k1s_k8s_operator.Controller.Inference.Status.{publish_inference}
use k1s_k8s_operator.Controller.Inference.Manifest.{build_inference_manifest}
use k1s_k8s_operator.Controller.Inference.Pass.{
  inference_status_for_endpoint, inference_work, settle_inference, sync_inference,
}
use k1s_k8s_operator.Controller.Inference.Reconcile.{
  add_inference_finalizer, reconcile_inference_with,
}
use k1s_k8s_operator.Controller.Inference.Life.{
  same_strings, patched_finalizers, Patched, refused, merged, removed, StatusPatched,
  status_refused, status_merged, Server, Guarded, round, edit, Reach, here, next,
}
use k1s_k8s_operator.Controller.Inference.Life.Leak.{Safe, Reach-Safe}
use k1s_k8s_operator.Tests.Objects.{meta, endpoint_of, serving, cluster}
use k1s_k8s_operator.Tests.World.{
  World, platform_in, platform, api, contains-without, contains-applied,
}

-- What Kubernetes and k1s hold.
pub record Cloud : Type 0 where
  pub object : Option K1sInferenceEndpoint
  pub held : World

abbrev left_with : List String → K1sInferenceEndpoint → Bool → Option K1sInferenceEndpoint
left_with [] o true = none
left_with xs o dead = some (record o { meta = record o.meta { finalizers = xs } })

-- what a patch makes of what is held
abbrev patched :
    (before after : K1sInferenceEndpoint)
    → Option K1sInferenceEndpoint
    → Option K1sInferenceEndpoint
patched before after none = none
patched before after (some o) =
    left_with (patched_finalizers before after o)
      (record o { meta = record after.meta { deletion_timestamp = o.meta.deletion_timestamp } })
      (is_deleted o.meta)

abbrev status_patched :
    K1sInferenceEndpoint → Option K1sInferenceEndpoint → Option K1sInferenceEndpoint
status_patched after none = none
status_patched after (some o) = some (record o { status = after.status })

abbrev given : Option K1sInferenceEndpoint → Result K1sInferenceEndpoint
given none = err (kube not_found "not found")
given (some o) = ok o

abbrev pub cloud_platform : Platform Cloud
cloud_platform = record (platform_in Cloud) {
  inference_endpoints = record {
    meta = λ o. o.meta;
    set_meta = λ o m. record o { meta = m };
    get = λ key w. (given w.object, w);
    patch = λ before after w. (ok tt, record w { object = patched before after w.object });
    patch_status = λ before after w. (ok tt, record w { object = status_patched after w.object });
  };
  transport = record (platform_in Cloud).transport { marshal = λ f. ok "cell" };
}

abbrev on_held : {A : Type 0} → Exec World A → Exec Cloud A
on_held m w = let (r, held) = m w.held in (r, record w { held = held })

abbrev pub cloud_api : Api Cloud
cloud_api = record {
  health = pure tt;
  nodes = on_held api.nodes;
  app_status = λ namespace name. on_held (api.app_status namespace name);
  apply = λ raw. on_held (api.apply raw);
  delete_app = λ name purge. on_held (api.delete_app name purge);
  inference_cell_status = λ namespace name. pure (serving name);
  inference_cell_set_status = λ namespace name. pure (serving name);
  delete_inference_cell = λ namespace name. on_held (api.delete_inference_cell namespace name);
  delete_inference_cell_set =
      λ namespace name. on_held (api.delete_inference_cell_set namespace name);
}

unfoldable pub cloud-Backend : Backend cloud_platform cloud_api
unfolding managed_resource_from_manifest managed_resource hash_bytes
cloud-Backend = record {
  holds = λ w. contains w.held;
  deletes_app = λ name purge w h a. contains-without (app name) w.held a;
  deletes_cell = λ namespace name w h a. contains-without (cell namespace name) w.held a;
  deletes_cell_set = λ namespace name w h a. contains-without (cell_set namespace name) w.held a;
  applies = λ raw r w out read h a.
      contains-applied (managed_resource_from_manifest platform raw) r w.held a read;
}

unfoldable pub cloud-Separate :
    Separate cloud_platform cloud_platform.inference_endpoints cloud-Backend.holds
unfolding cloud-Backend
cloud-Separate = record {
  get_leaves = λ key w a. refl;
  patch_leaves = λ before after w a. refl;
  patch_status_leaves = λ before after w a. refl;
  retry_leaves = λ m h. h;
}

left_with-Patched :
    (before after o o' : K1sInferenceEndpoint) (xs : List String) (dead : Bool)
    → patched_finalizers before after o ≡ xs
    → is_deleted o.meta ≡ dead
    → Patched before after (some o) (left_with xs o' dead)
left_with-Patched before after o o' [] true e h = removed o h e
left_with-Patched before after o o' [] false e h = merged o _ (sym e)
left_with-Patched before after o o' (x ∷ xs) dead e h = merged o _ (sym e)

patched-Patched :
    (before after : K1sInferenceEndpoint) (found : Option K1sInferenceEndpoint)
    → Patched before after found (patched before after found)
patched-Patched before after none = refused none
patched-Patched before after (some o) = left_with-Patched before after o _ _ _ refl refl

status_patched-StatusPatched :
    (after : K1sInferenceEndpoint) (found : Option K1sInferenceEndpoint)
    → StatusPatched found (status_patched after found)
status_patched-StatusPatched after none = status_refused none
status_patched-StatusPatched after (some o) = status_merged o _ refl

unfoldable cloud-Server : Server cloud_platform cloud_api
cloud-Server = record {
  object = λ w. w.object;
  reads_meta = λ o. refl;
  writes_meta = λ o m. refl;
  reads = λ key w. refl;
  patches = λ before after w. patched-Patched before after w.object;
  patches_status = λ before after w. status_patched-StatusPatched after w.object;
  retries = λ m Q h. h;
  applies = λ raw w. refl;
  asks_cell = λ namespace name w. refl;
  asks_cell_set = λ namespace name w. refl;
  deletes_cell = λ namespace name w. refl;
  deletes_cell_set = λ namespace name w. refl;
}

-- An endpoint as a user creates it, with its finalizer, and when its user deletes it.
abbrev created : K1sInferenceEndpoint
created = record (endpoint_of "llama") {
  meta = record (meta []) { name = "llm"; namespace = "shop" };
}

abbrev guarded : K1sInferenceEndpoint
guarded = record created { meta = record created.meta { finalizers = capability_finalizer ∷ [] } }

abbrev deleted : K1sInferenceEndpoint
deleted = record guarded { meta = record guarded.meta { deletion_timestamp = some 1 } }

abbrev llm : Address
llm = cell "shop" "llm"

abbrev after_round : K1sInferenceEndpoint → Cloud → Cloud
after_round o w = (reconcile_inference_with cloud_platform o cloud_api cluster w).1

-- It is created, one round adds the finalizer and one applies it; then it is deleted, also in k1s.
abbrev dawn : Cloud
dawn = record { object = some created; held = [] }

abbrev morning : Cloud
morning = after_round created dawn

abbrev noon : Cloud
noon = after_round guarded morning

abbrev dusk : Cloud
dusk = record noon { object = some deleted }

abbrev night : Cloud
night = after_round deleted dusk

noon-holds : contains noon.held llm ≡ true
unfolding reconcile_inference_with build_inference_manifest sync_inference inference_work upkeep
    survey manifest_changed apply_manifest last_applied_hash hash_bytes find_or_empty find
    contains_string managed_resource_from_manifest managed_resource settle_inference
    publish_inference string_eq patch_last_applied_hash add_inference_finalizer patch_finalizers
    patched_finalizers same_strings observe inference_status_for_endpoint address_eq
noon-holds = refl

morning-Guarded : Guarded cloud_platform cloud_api cloud-Server morning
unfolding cloud-Server reconcile_inference_with add_inference_finalizer patch_finalizers
    patch_object patched_finalizers same_strings contains_string string_eq
morning-Guarded = refl

dusk-Guarded : Guarded cloud_platform cloud_api cloud-Server dusk
unfolding cloud-Server contains_string string_eq
dusk-Guarded = refl

lived : Reach cloud_platform cloud_api cloud-Server cloud-Backend.holds llm dawn night
unfolding cloud-Server cloud-Backend
lived =
    next
      (next
        (next (next here (round cluster created dawn (λ has. cc) (λ dead. refl) (λ dead. refl)))
          (round cluster guarded morning (λ has. morning-Guarded) (λ dead. refl) (λ dead. refl)))
        (edit noon dusk (λ g. dusk-Guarded) (λ h. h)))
      (round cluster deleted dusk (λ has. dusk-Guarded) (λ dead. refl) (λ dead. refl))

dawn-Safe : Safe cloud_platform cloud_api cloud-Server cloud-Backend cloud-Separate llm dawn
unfolding cloud-Backend
dawn-Safe = inl refl

Reach-Safe_example :
    Safe cloud_platform cloud_api cloud-Server cloud-Backend cloud-Separate llm night
Reach-Safe_example =
    Reach-Safe cloud_platform cloud_api cloud-Server cloud-Backend cloud-Separate llm dawn night
      lived dawn-Safe
