-- ===== src/Controller/Patch.antt =====
-- internal/controller/patch.go, and `setCondition` of conditions.go.
pub mod Digest
pub mod Recorded
use k1s_k8s_operator.Prelude.{ℕ, String, ◌<>◌, List, [], ◌∷◌}
use k1s_k8s_operator.Go.Errors.{Exec, ◌>>=◌}
use k1s_k8s_operator.Go.Text.{char_of}
use k1s_k8s_operator.Api.Meta.{
  Time, NamespacedName, ObjectMeta, Condition, ConditionStatus, find_or_empty, assign,
}
use k1s_k8s_operator.Controller.Platform.{KubeClient, Platform}

abbrev pub last_applied_hash_annotation : String
last_applied_hash_annotation = "operator.k1s.io/last-applied-hash"

unfoldable pub last_applied_hash : ObjectMeta → String
last_applied_hash meta = find_or_empty last_applied_hash_annotation meta.annotations

-- what `hashManifestSet` feeds to the digest: each manifest behind a zero byte
unfoldable pub digest_input : List String → String
digest_input [] = ""
digest_input (manifest ∷ manifests) = String.◌∷◌ (char_of 0) (manifest <> digest_input manifests)

-- `client.ObjectKeyFromObject`
abbrev pub object_key : ObjectMeta → NamespacedName
object_key meta = record { namespace = meta.namespace; name = meta.name }

module _ {W : Type 0} (P : Platform W) where
  unfoldable pub hash_bytes : String → String
  hash_bytes raw = P.sha256_hex raw

  unfoldable pub hash_manifest_set : List String → String
  unfolding digest_input
  hash_manifest_set manifests = P.sha256_hex (digest_input manifests)

  unfoldable pub set_condition :
      List Condition
      → (kind : String) → ConditionStatus
      → (reason message : String) → (generation : ℕ) → Time
      → List Condition
  set_condition conditions kind status reason message generation now =
      P.set_status_condition conditions (record {
        kind = kind;
        status = status;
        reason = reason;
        message = message;
        observed_generation = generation;
        last_transition_time = now;
      })

  module _ {Object : Type 0} (kube : KubeClient W Object) where
    -- `mutate` changes the copy that was just read, never the caller's object.
    unfoldable pub patch_status : Object → (Object → Object) → Exec W (Unit {0})
    patch_status object mutate = P.retry_on_conflict (do
      current ← kube.get (object_key (kube.meta object))
      kube.patch_status current (mutate current))

    unfoldable pub patch_object : Object → (Object → Object) → Exec W (Unit {0})
    patch_object object mutate =
        P.retry_on_conflict (do
          current ← kube.get (object_key (kube.meta object))
          kube.patch current (mutate current))

    unfoldable pub patch_finalizers : Object → List String → Exec W (Unit {0})
    unfolding patch_object
    patch_finalizers object finalizers =
        patch_object object
          λ current. kube.set_meta current (record (kube.meta current) { finalizers = finalizers })

    abbrev pub with_hash : String → ObjectMeta → ObjectMeta
    with_hash hash meta = record meta {
      annotations = assign last_applied_hash_annotation hash meta.annotations;
    }

    unfoldable pub patch_last_applied_hash : Object → String → Exec W (Unit {0})
    unfolding patch_object
    patch_last_applied_hash object hash =
        patch_object object λ current. kube.set_meta current (with_hash hash (kube.meta current))
