-- ===== src/Controller/ResourceSet/Pass/Idempotence.antt =====
-- Two passes over a resource set, one after the other.
use native.Mathlib.Nat.{zero-add}
use mathlib.Core.Path.{subst}
use k1s_k8s_operator.Prelude.{
  ℕ, not, String, ◌≡◌, refl, sym, ap, ◌∙◌, true, false, List, [], ◌∷◌, map, length, Option, none,
  some, arith, contains, ◌==◌, string_eq, Bool-cases, inl, inr, if◌then◌else◌,
}
use k1s_k8s_operator.Go.Errors.{Error, Result, ok, err, Exec, continue, pure}
use k1s_k8s_operator.K1s.Client.Routes.{Api}
use k1s_k8s_operator.Api.Meta.{NamespacedName, ObjectMeta}
use k1s_k8s_operator.Api.Capability.{K1sManagedResourceStatus, K1sResourceSet}
use k1s_k8s_operator.Controller.Platform.{Platform}
use k1s_k8s_operator.Controller.Patch.{
  last_applied_hash_annotation, last_applied_hash, hash_manifest_set, object_key, with_hash,
  patch_object, patch_last_applied_hash,
}
use k1s_k8s_operator.Controller.Patch.Recorded.{find_or_empty-assign}
use k1s_k8s_operator.Controller.Kinds.{KindSet}
use k1s_k8s_operator.Controller.Managed.{managed_resource_key, delete_managed_resources}
use k1s_k8s_operator.Controller.Managed.Pruning.{stale, prune_managed_resources-stale}
use k1s_k8s_operator.Controller.ResourceSet.Manifests.{apply_manifests, desired_resources}
use k1s_k8s_operator.Controller.ResourceSet.Manifests.Laws.{apply_manifests_count}
use k1s_k8s_operator.Controller.ResourceSet.Status.{synced_status}
use k1s_k8s_operator.Controller.ResourceSet.Pass.{
  Outcome, succeeded, must_apply, record_hash, applied_all, prune_step, apply_step, proceed, work,
}

contains-cons_self : (k : String) (ks : List String) → contains (k ∷ ks) k ≡ true
contains-cons_self k ks = ground arith

contains-cons :
    (k j : String) (ks : List String) → contains ks k ≡ true → contains (j ∷ ks) k ≡ true
contains-cons k j ks h = ground arith

-- Nothing is stale among resources whose keys are all wanted.
stale-eq-nil :
    (keys : List String) (rs : List K1sManagedResourceStatus)
    → ((k : String) → contains (map managed_resource_key rs) k ≡ true → contains keys k ≡ true)
    → stale keys rs ≡ []
unfolding stale
stale-eq-nil keys [] h = refl
stale-eq-nil keys (r ∷ rs) h =
    let ks = map managed_resource_key rs in
    rw (
      h (managed_resource_key r) (contains-cons_self (managed_resource_key r) ks),
      stale-eq-nil keys rs (λ k e. h k (contains-cons k (managed_resource_key r) ks e)),
    )

-- The annotation with the hash, of the one object that the API server has under a key: a read that gives
-- the object gives it as it is there; a merge patch that is taken sends it where it changes it; and a
-- retry that ends well ends with a try that did.
pub record Recorder {W : Type 0} (P : Platform W) (key : NamespacedName) : Type 1 where
  pub recorded : W → String
  pub reads_meta : (o : K1sResourceSet) → P.resource_sets.meta o ≡ o.meta
  pub writes_meta :
      (o : K1sResourceSet) (m : ObjectMeta) → P.resource_sets.set_meta o m ≡ record o { meta = m }
  pub gives :
      (w : W) (o : K1sResourceSet)
      → (P.resource_sets.get key w).0 ≡ ok o
      → (object_key o.meta ≡ key)
        × (last_applied_hash o.meta ≡ recorded (P.resource_sets.get key w).1)
  pub patches :
      (before after : K1sResourceSet) (w : W)
      → object_key after.meta ≡ key
      → (P.resource_sets.patch before after w).0 ≡ ok tt
      → recorded (P.resource_sets.patch before after w).1 ≡ (
          if last_applied_hash before.meta == last_applied_hash after.meta
          then recorded w
          else last_applied_hash after.meta)
  pub ends :
      (m : Exec W (Unit {0})) (w : W)
      → (P.retry_on_conflict m w).0 ≡ ok tt
      → (v : W) × (m v ≡ P.retry_on_conflict m w)

sent-recorded :
    (was wanted there after : String)
    → was ≡ there
    → after ≡ (if was == wanted then there else wanted)
    → after ≡ wanted
sent-recorded was wanted there after h e = ground arith

module _ {W : Type 0} (P : Platform W) (set : K1sResourceSet)
    (K : Recorder P (object_key set.meta)) where
  last_applied_hash-with_hash :
      (hash : String) (m : ObjectMeta)
      → last_applied_hash (with_hash P P.resource_sets hash m) ≡ hash
  unfolding last_applied_hash
  last_applied_hash-with_hash hash m = find_or_empty-assign last_applied_hash_annotation hash _

  abbrev changed : String → K1sResourceSet → K1sResourceSet
  changed hash o =
      P.resource_sets.set_meta o (with_hash P P.resource_sets hash (P.resource_sets.meta o))

  changed-meta :
      (hash : String) (o : K1sResourceSet)
      → (changed hash o).meta ≡ with_hash P P.resource_sets hash o.meta
  changed-meta hash o = rw (K.writes_meta, K.reads_meta) refl

  tried :
      (hash : String) (w : W) (p : Result K1sResourceSet × W)
      → ((o : K1sResourceSet)
          → p.0 ≡ ok o
          → (object_key o.meta ≡ object_key set.meta) × (last_applied_hash o.meta ≡ K.recorded p.1))
      → (continue (λ o. P.resource_sets.patch o (changed hash o)) p).0 ≡ ok tt
      → K.recorded (continue (λ o. P.resource_sets.patch o (changed hash o)) p).1 ≡ hash
  tried hash w (err e, v) given h = cc
  tried hash w (ok o, v) given h =
      let (same_key, current) = given o refl in
      let meta = changed-meta hash o in
      sent-recorded (last_applied_hash o.meta) hash (K.recorded v) _ current (
        K.patches o (changed hash o) v (ap object_key meta ∙ same_key) h
        ∙ ap (λ (x : String). if last_applied_hash o.meta == x then K.recorded v else x)
            (ap last_applied_hash meta ∙ last_applied_hash-with_hash hash o.meta))

  gives_at :
      (v : W) (o : K1sResourceSet)
      → (P.resource_sets.get (object_key (P.resource_sets.meta set)) v).0 ≡ ok o
      → (object_key o.meta ≡ object_key set.meta)
        × (last_applied_hash o.meta
            ≡ K.recorded (P.resource_sets.get (object_key (P.resource_sets.meta set)) v).1)
  gives_at v =
      subst
        (λ key.
          (o : K1sResourceSet)
          → (P.resource_sets.get key v).0 ≡ ok o
          → (object_key o.meta ≡ object_key set.meta)
            × (last_applied_hash o.meta ≡ K.recorded (P.resource_sets.get key v).1))
        (sym (ap object_key (K.reads_meta set))) (K.gives v)

  patch_last_applied_hash-recorded :
      (hash : String) (w : W)
      → (patch_last_applied_hash P P.resource_sets set hash w).0 ≡ ok tt
      → K.recorded (patch_last_applied_hash P P.resource_sets set hash w).1 ≡ hash
  unfolding patch_last_applied_hash patch_object
  patch_last_applied_hash-recorded hash w h =
      let (v, same) = K.ends _ w h in
      ap (λ (p : Result (Unit {0}) × W). K.recorded p.1) (sym same)
      ∙ tried hash v (P.resource_sets.get (object_key (P.resource_sets.meta set)) v) (gives_at v)
          (ap (λ (p : Result (Unit {0}) × W). p.0) same ∙ h)

  continued-ok :
      (o' : Outcome) (p : Result (Unit {0}) × W) {o : Outcome}
      → (continue (λ _. pure o') p).0 ≡ ok o
      → (p.0 ≡ ok tt) × (o ≡ o') × ((continue (λ _. pure o') p).1 ≡ p.1)
  continued-ok o' (ok _, w) h = (refl, cc, refl)
  continued-ok o' (err e, w) h = cc

  -- What the pass leaves: its list of managed resources, and its hash recorded.
  abbrev Left : List K1sManagedResourceStatus → Outcome → W → Type 0
  Left ds o w = (o.managed ≡ ds) × (K.recorded w ≡ hash_manifest_set P set.spec.manifests)

  applied_all-Left :
      (ds : List K1sManagedResourceStatus) (n : ℕ) (f : Option Error) (w : W) {o : Outcome}
      → (applied_all P set true ds n f w).0 ≡ ok o
      → o.progress.failure ≡ none
      → Left ds o (applied_all P set true ds n f w).1
  unfolding record_hash
  applied_all-Left ds n (some e) w h g = ground arith
  applied_all-Left ds n none w h g =
      let hash = hash_manifest_set P set.spec.manifests in
      let (clean, same, left) =
        continued-ok (succeeded P set true n ds)
          (patch_last_applied_hash P P.resource_sets set hash w) h in
      (
        ap (λ (x : Outcome). x.managed) same,
        ap K.recorded left ∙ patch_last_applied_hash-recorded hash w clean,
      )

  apply_step-Left :
      (api : Api W) (ds : List K1sManagedResourceStatus) (r : Result (Unit {0})) (w : W)
      {o : Outcome}
      → (apply_step P set api true ds r w).0 ≡ ok o
      → o.progress.failure ≡ none
      → Left ds o (apply_step P set api true ds r w).1
  unfolding apply_step
  apply_step-Left api ds (err e) w h g = ground arith
  apply_step-Left api ds (ok _) w h g =
      let (progress, w') = apply_manifests api true set.spec.manifests 0 w in
      applied_all-Left ds progress.applied progress.failure w' h g

  proceed-Left :
      (api : Api W) (r : Result (List K1sManagedResourceStatus)) (w : W) {o : Outcome}
      → must_apply P set ≡ true
      → (proceed P set api r w).0 ≡ ok o
      → o.progress.failure ≡ none
      → (r ≡ ok o.managed)
        × (K.recorded (proceed P set api r w).1 ≡ hash_manifest_set P set.spec.manifests)
  proceed-Left api (err e) w m h g = ground arith
  proceed-Left api (ok ds) w m h g =
      let p = prune_step P set api ds w in
      let (same, recorded) = apply_step-Left api ds p.0 p.1 (rw m at h) g in
      rw m (ap ok (sym same), recorded)

  recorded-same : (x y : String) → x ≡ y → not (x == y) ≡ false
  recorded-same x y h = ground arith

  -- A pass does nothing in k1s or in Kubernetes, whatever the k1s API is, if the recorded hash is that
  -- of the manifests and nothing is to be pruned.
  work_idle :
      (api : Api W) (next : K1sResourceSet) (ds : List K1sManagedResourceStatus) (w : W)
      → must_apply P next ≡ false
      → stale (map managed_resource_key ds) next.status.managed_resources ≡ []
      → proceed P next api (ok ds) w
        ≡ (ok (succeeded P next false (length next.spec.manifests) ds), w)
  unfolding prune_step apply_step record_hash delete_managed_resources
  work_idle api next ds w m s = elim (Bool-cases next.spec.prune) [
    | inl on ↦ rw (m, on, prune_managed_resources-stale, s, apply_manifests_count, zero-add)
    | inr off ↦ rw (m, off, apply_manifests_count, zero-add)
  ]

  -- After a pass over a set with something to apply that reported no failure, the next pass over it
  -- succeeds again, with every manifest counted, and calls neither k1s nor Kubernetes: its world is as
  -- before, whatever the k1s API would do. The version of the set that the next pass reads has the same
  -- manifests, the hash that the API server had in the annotation after the first pass, and the list of managed
  -- resources of the status that the first pass published. The API server behaves as `Recorder` says, whose
  -- reads of the set are up to date in that annotation while the first pass lasts.
  pub work_again :
      (api api' : Api W) (allowed : KindSet) (w w' : W) (o : Outcome) (next : K1sResourceSet)
      → must_apply P set ≡ true
      → (work P set api allowed w).0 ≡ ok o
      → o.progress.failure ≡ none
      → next.spec.manifests ≡ set.spec.manifests
      → last_applied_hash next.meta ≡ K.recorded (work P set api allowed w).1
      → next.status.managed_resources
        ≡ (synced_status P set o.should o.progress o.managed (P.now w)).managed_resources
      → work P next api' allowed w'
        ≡ (ok (succeeded P next false (length next.spec.manifests) o.managed), w')
  unfolding work must_apply synced_status
  work_again api api' allowed w w' o next m h g same_spec same_hash published =
      let (read, recorded) =
        proceed-Left api (desired_resources P allowed set.spec.manifests) w m h g in
      let hash = same_hash ∙ recorded ∙ ap (hash_manifest_set P) (sym same_spec) in
      ap (λ r. proceed P next api' r w') (ap (desired_resources P allowed) same_spec ∙ read)
      ∙ work_idle api' next o.managed w' (recorded-same _ _ hash)
          (rw published (stale-eq-nil _ o.managed (λ k e. e)))
