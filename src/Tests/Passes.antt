-- ===== src/Tests/Passes.antt =====
-- Two passes over a resource set, at a Kubernetes that holds it.
use k1s_k8s_operator.Prelude.{
  ◌≡◌, refl, sym, ap, length, true, false, [], ◌∷◌, ◌==◌, string_eq, if◌then◌else◌, Bool-cases, inl,
  inr,
}
use k1s_k8s_operator.Go.Values.{empty}
use k1s_k8s_operator.Go.Errors.{Result, ok, ok_inj, message, fail, pure}
use k1s_k8s_operator.K1s.Client.Routes.{Api}
use k1s_k8s_operator.Api.Meta.{NamespacedName, find, find_or_empty, assign}
use k1s_k8s_operator.Api.Capability.{K1sResourceSet}
use k1s_k8s_operator.Controller.Platform.{Platform}
use k1s_k8s_operator.Controller.Patch.{
  last_applied_hash, hash_manifest_set, digest_input, hash_bytes, object_key,
  patch_last_applied_hash, patch_object,
}
use k1s_k8s_operator.Controller.Kinds.{default_resource_set_allowed_kinds}
use k1s_k8s_operator.Go.Text.{char_of}
use k1s_k8s_operator.Controller.Manifest.{managed_resource, managed_resource_from_manifest}
use k1s_k8s_operator.Controller.Managed.{
  managed_resource_key, prune_managed_resources, prune_against, delete_managed_resource,
}
use k1s_k8s_operator.Controller.ResourceSet.Manifests.{apply_manifests, desired_resources}
use k1s_k8s_operator.Controller.ResourceSet.Status.{synced_status}
use k1s_k8s_operator.Controller.ResourceSet.Pass.{
  Outcome, succeeded, must_apply, record_hash, prune_step, apply_step, work,
}
use k1s_k8s_operator.Controller.ResourceSet.Pass.Idempotence.{Recorder, work_again}
use k1s_k8s_operator.Tests.Objects.{managed, running, serving, set_of}
use k1s_k8s_operator.Tests.World.{platform_in}

abbrev under : NamespacedName → K1sResourceSet → K1sResourceSet
under key o = record o { meta = record o.meta { name = key.name; namespace = key.namespace } }

abbrev taken : (before after : K1sResourceSet) → K1sResourceSet → K1sResourceSet
taken before after w =
    if last_applied_hash before.meta == last_applied_hash after.meta then w else after

-- The world is the set that Kubernetes has.
abbrev holding : Platform K1sResourceSet
holding = record (platform_in K1sResourceSet) {
  resource_sets = record {
    meta = λ o. o.meta;
    set_meta = λ o m. record o { meta = m };
    get = λ key w. (ok (under key w), w);
    patch = λ before after w. (ok tt, taken before after w);
    patch_status = λ before after w. (ok tt, record w { status = after.status });
  };
}

abbrev willing : Api K1sResourceSet
willing = record {
  health = pure tt;
  nodes = fail (message "unavailable");
  app_status = λ namespace name. pure (running name);
  apply = λ raw. pure empty;
  delete_app = λ name purge. pure empty;
  inference_cell_status = λ namespace name. pure (serving name);
  inference_cell_set_status = λ namespace name. pure (serving name);
  delete_inference_cell = λ namespace name. pure empty;
  delete_inference_cell_set = λ namespace name. pure empty;
}

abbrev unwilling : Api K1sResourceSet
unwilling = record willing {
  apply = λ raw. fail (message "refused");
  delete_app = λ name purge. fail (message "refused");
}

taken-recorded :
    (before after w : K1sResourceSet)
    → last_applied_hash (taken before after w).meta ≡ (
        if last_applied_hash before.meta == last_applied_hash after.meta
        then last_applied_hash w.meta
        else last_applied_hash after.meta)
taken-recorded before after w =
    elim (Bool-cases (last_applied_hash before.meta == last_applied_hash after.meta)) [
      | inl same ↦ rw same refl
      | inr other ↦ rw other refl
    ]

abbrev webs : K1sResourceSet
webs = set_of ("web" ∷ [])

unfoldable holding-Recorder : Recorder holding (object_key webs.meta)
unfolding last_applied_hash
holding-Recorder = record {
  recorded = λ w. last_applied_hash w.meta;
  reads_meta = λ o. refl;
  writes_meta = λ o m. refl;
  gives = λ w o h.
      let e = ok_inj h in
      (
        sym (ap (λ (x : K1sResourceSet). object_key x.meta) e),
        sym (ap (λ (x : K1sResourceSet). last_applied_hash x.meta) e),
      );
  patches = λ before after w same h. taken-recorded before after w;
  ends = λ m w h. (w, refl);
}

abbrev web_applied : Outcome
web_applied = succeeded holding webs true 1 (managed "Deployment" "web" "web" ∷ [])

abbrev pass : Result Outcome × K1sResourceSet
pass = work holding webs willing default_resource_set_allowed_kinds webs

-- the set as the next round reads it
abbrev next : K1sResourceSet
next = record pass.1 {
  status = synced_status holding webs true web_applied.progress web_applied.managed 0;
}

pass-applied : pass.0 ≡ ok web_applied
unfolding work managed_resource_from_manifest managed_resource hash_bytes desired_resources
    must_apply last_applied_hash find_or_empty find hash_manifest_set digest_input prune_step
    apply_step apply_manifests prune_managed_resources prune_against managed_resource_key
    delete_managed_resource record_hash patch_last_applied_hash patch_object string_eq char_of
pass-applied = refl

webs-changed : must_apply holding webs ≡ true
unfolding must_apply last_applied_hash find_or_empty find hash_manifest_set digest_input string_eq
    char_of
webs-changed = refl

next-kept : next.spec.manifests ≡ webs.spec.manifests
unfolding work managed_resource_from_manifest managed_resource hash_bytes desired_resources
    must_apply last_applied_hash find_or_empty find hash_manifest_set digest_input prune_step
    apply_step apply_manifests prune_managed_resources prune_against managed_resource_key
    delete_managed_resource record_hash patch_last_applied_hash patch_object string_eq char_of
    assign
next-kept = refl

next-recorded : last_applied_hash next.meta ≡ holding-Recorder.recorded pass.1
unfolding holding-Recorder
next-recorded = refl

work_again_example :
    work holding next unwilling default_resource_set_allowed_kinds webs
    ≡ (ok (succeeded holding next false (length next.spec.manifests) web_applied.managed), webs)
work_again_example =
    work_again holding webs holding-Recorder willing unwilling default_resource_set_allowed_kinds
      webs webs web_applied next webs-changed pass-applied refl next-kept next-recorded refl
