-- ===== src/Controller/Inference/Life.antt =====
-- The life of a K1sInferenceEndpoint: rounds of its reconciler, between which users edit or delete the
-- object and k1s loses what it held.
pub mod Keeping
pub mod Guarded
pub mod Leak
use k1s_k8s_operator.Prelude.{
  ◌≡◌, Bool, true, false, ◌&&◌, String, List, [], ◌∷◌, Option, none, some, ◌==◌, string_eq,
  if◌then◌else◌,
}
use k1s_k8s_operator.Go.Errors.{Exec}
use k1s_k8s_operator.K1s.Client.Routes.{Api}
use k1s_k8s_operator.Api.Meta.{NamespacedName, ObjectMeta}
use k1s_k8s_operator.Api.Cluster.{K1sCluster}
use k1s_k8s_operator.Api.Capability.{K1sInferenceEndpoint}
use k1s_k8s_operator.Controller.Helpers.{contains_string}
use k1s_k8s_operator.Controller.Platform.{Platform}
use k1s_k8s_operator.Controller.Managed.Backend.{Address}
use k1s_k8s_operator.Controller.ResourceSet.Types.{capability_finalizer, is_deleted, is_orphan}
use k1s_k8s_operator.Controller.Inference.Pass.Address.{endpoint_address}
use k1s_k8s_operator.Controller.Inference.Reconcile.{reconcile_inference_with}

abbrev pub has_finalizer : K1sInferenceEndpoint → Bool
has_finalizer o = contains_string o.meta.finalizers capability_finalizer

unfoldable pub same_strings : List String → List String → Bool
same_strings [] [] = true
same_strings (x ∷ xs) (y ∷ ys) = x == y && same_strings xs ys
same_strings _ _ = false

-- The finalizers that a merge patch leaves of those that an object has: a patch that does not change
-- the list does not send it, and a patch that does replaces it.
unfoldable pub patched_finalizers : (before after o : K1sInferenceEndpoint) → List String
patched_finalizers before after o =
    if same_strings before.meta.finalizers after.meta.finalizers
    then o.meta.finalizers
    else after.meta.finalizers

-- What a merge patch, the difference of two versions, can make of what the API server has: nothing, be
-- it that there is nothing; the object with the finalizers that the patch leaves; or, of an object that
-- is being deleted, nothing more, if the patch leaves it no finalizer.
pub data Patched (before after : K1sInferenceEndpoint)
    : Option K1sInferenceEndpoint → Option K1sInferenceEndpoint → Type 0 where
  refused : (found : Option K1sInferenceEndpoint) → Patched before after found found
  merged :
      (o o' : K1sInferenceEndpoint)
      → o'.meta.finalizers ≡ patched_finalizers before after o
      → Patched before after (some o) (some o')
  removed :
      (o : K1sInferenceEndpoint)
      → is_deleted o.meta ≡ true
      → patched_finalizers before after o ≡ []
      → Patched before after (some o) none

-- What a patch of the status can: it changes no finalizer.
pub data StatusPatched : Option K1sInferenceEndpoint → Option K1sInferenceEndpoint → Type 0 where
  status_refused : (found : Option K1sInferenceEndpoint) → StatusPatched found found
  status_merged :
      (o o' : K1sInferenceEndpoint)
      → o'.meta.finalizers ≡ o.meta.finalizers
      → StatusPatched (some o) (some o')

-- What the API server has under the key of an endpoint, if anything, and what the calls of a round make
-- of it, whether their replies are errors or not. A read tells nothing of it, as it may be answered by a cache that
-- is behind; a retry does nothing but what it retries; and the calls of k1s leave the object alone.
pub record Server {W : Type 0} (P : Platform W) (api : Api W) : Type 1 where
  pub object : W → Option K1sInferenceEndpoint
  pub reads_meta : (o : K1sInferenceEndpoint) → P.inference_endpoints.meta o ≡ o.meta
  pub writes_meta :
      (o : K1sInferenceEndpoint) (m : ObjectMeta)
      → P.inference_endpoints.set_meta o m ≡ record o { meta = m }
  pub reads : (key : NamespacedName) (w : W) → object (P.inference_endpoints.get key w).1 ≡ object w
  pub patches :
      (before after : K1sInferenceEndpoint) (w : W)
      → Patched before after (object w) (object (P.inference_endpoints.patch before after w).1)
  pub patches_status :
      (before after : K1sInferenceEndpoint) (w : W)
      → StatusPatched (object w) (object (P.inference_endpoints.patch_status before after w).1)
  pub retries :
      (m : Exec W (Unit {0})) (Q : W → Type 0)
      → ((w : W) → Q w → Q (m w).1)
      → (w : W) → Q w
      → Q (P.retry_on_conflict m w).1
  pub applies : (raw : String) (w : W) → object (api.apply raw w).1 ≡ object w
  pub asks_cell :
      (namespace name : String) (w : W)
      → object (api.inference_cell_status namespace name w).1 ≡ object w
  pub asks_cell_set :
      (namespace name : String) (w : W)
      → object (api.inference_cell_set_status namespace name w).1 ≡ object w
  pub deletes_cell :
      (namespace name : String) (w : W)
      → object (api.delete_inference_cell namespace name w).1 ≡ object w
  pub deletes_cell_set :
      (namespace name : String) (w : W)
      → object (api.delete_inference_cell_set namespace name w).1 ≡ object w

abbrev pub guards : Option K1sInferenceEndpoint → Bool
guards none = false
guards (some o) = has_finalizer o

module _ {W : Type 0} (P : Platform W) (api : Api W) (server : Server P api) where
  -- The API server has the object, with the finalizer.
  abbrev pub Guarded : W → Type 0
  Guarded w = guards (server.object w) ≡ true

  -- A round is over the version of the object that its first read gives. It may be behind, but not from
  -- before the finalizer was removed; and if it is being deleted, its cell or cell set is at the address
  -- and its policy is to delete. An edit changes what it likes, also whether the endpoint is a cell set and its
  -- policy, but does not remove the finalizer nor brings anything to the address. A loss is of k1s.
  pub data Step (holds : W → Address → Bool) (a : Address) : W → W → Type 0 where
    round :
        (cluster : K1sCluster) (o : K1sInferenceEndpoint) (w : W)
        → (has_finalizer o ≡ true → Guarded w)
        → (is_deleted o.meta ≡ true → endpoint_address o ≡ a)
        → (is_deleted o.meta ≡ true → is_orphan o.spec.delete_policy ≡ false)
        → Step holds a w (reconcile_inference_with P o api cluster w).1
    edit :
        (w w' : W)
        → (Guarded w → Guarded w')
        → (holds w a ≡ false → holds w' a ≡ false)
        → Step holds a w w'
    loss : (w w' : W) → server.object w' ≡ server.object w → holds w' a ≡ false → Step holds a w w'

  pub data Reach (holds : W → Address → Bool) (a : Address) (w : W) : W → Type 0 where
    here : Reach holds a w w
    next : {v v' : W} → Reach holds a w v → Step holds a v v' → Reach holds a w v'
