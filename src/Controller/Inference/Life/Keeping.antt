-- ===== src/Controller/Inference/Life/Keeping.antt =====
-- The patches of a round keep the finalizer of an endpoint, unless they remove it themselves.
use k1s_k8s_operator.Prelude.{
  ◌≡◌, refl, ◌⊎◌, inl, inr, true, false, String, List, [], ◌∷◌, ◌++◌, Option, arith, Bool-cases,
  string_eq,
}
use k1s_k8s_operator.K1s.Client.Routes.{Api}
use k1s_k8s_operator.Api.Capability.{K1sInferenceEndpoint}
use k1s_k8s_operator.Controller.Helpers.{contains_string}
use k1s_k8s_operator.Controller.Platform.{Platform}
use k1s_k8s_operator.Controller.Patch.{patch_object, patch_status, patch_finalizers}
use k1s_k8s_operator.Controller.ResourceSet.Types.{capability_finalizer}
use k1s_k8s_operator.Controller.Keeps.{Keeps, bind-Keeps}
use k1s_k8s_operator.Controller.Inference.Life.{
  has_finalizer, same_strings, patched_finalizers, Patched, refused, merged, removed, StatusPatched,
  status_refused, status_merged, guards, Server, Guarded,
}

pub same_strings_refl : (xs : List String) → same_strings xs xs ≡ true
unfolding same_strings
same_strings_refl [] = refl
same_strings_refl (x ∷ xs) = ground (arith, same_strings_refl xs)

pub contains-last : (xs : List String) (x : String) → contains_string (xs ++ x ∷ []) x ≡ true
unfolding contains_string
contains-last [] x = ground arith
contains-last (y ∷ xs) x = ground (arith, contains-last xs x)

-- The patch does not send the finalizers, or sends the one that guards.
abbrev pub Spares : (before after : K1sInferenceEndpoint) → Type 0
Spares before after =
    (same_strings before.meta.finalizers after.meta.finalizers ≡ true)
    ⊎ (has_finalizer after ≡ true)

patched-guarded :
    (before after o : K1sInferenceEndpoint)
    → Spares before after
    → has_finalizer o ≡ true
    → contains_string (patched_finalizers before after o) capability_finalizer ≡ true
unfolding patched_finalizers
patched-guarded before after o (inl same) has = rw same has
patched-guarded before after o (inr sent) has =
    elim (Bool-cases (same_strings before.meta.finalizers after.meta.finalizers)) [
      | inl same ↦ rw same has
      | inr other ↦ rw other sent
    ]

empty-lacks :
    (xs : List String) → xs ≡ [] → contains_string xs capability_finalizer ≡ true → false ≡ true
unfolding contains_string
empty-lacks [] e h = h
empty-lacks (x ∷ xs) e h = cc

Patched-guards :
    (before after : K1sInferenceEndpoint) (found found' : Option K1sInferenceEndpoint)
    → Spares before after
    → Patched before after found found'
    → guards found ≡ true
    → guards found' ≡ true
Patched-guards before after found found' spares (refused _) g = g
Patched-guards before after found found' spares (merged o o' e) g =
    rw e (patched-guarded before after o spares g)
Patched-guards before after found found' spares (removed o dead e) g =
    empty-lacks _ e (patched-guarded before after o spares g)

StatusPatched-guards :
    (found found' : Option K1sInferenceEndpoint)
    → StatusPatched found found'
    → guards found ≡ true
    → guards found' ≡ true
StatusPatched-guards found found' (status_refused _) g = g
StatusPatched-guards found found' (status_merged o o' e) g = rw e g

module _ {W : Type 0} (P : Platform W) (api : Api W) (server : Server P api) where
  pub Guarded-same :
      {w w' : W}
      → server.object w' ≡ server.object w
      → Guarded P api server w
      → Guarded P api server w'
  Guarded-same same g = rw same g

  pub patch_object-Keeps :
      (o : K1sInferenceEndpoint) (mutate : K1sInferenceEndpoint → K1sInferenceEndpoint)
      → ((c : K1sInferenceEndpoint) → Spares c (mutate c))
      → Keeps (Guarded P api server) (patch_object P P.inference_endpoints o mutate)
  unfolding patch_object
  patch_object-Keeps o mutate spares = server.retries _ (Guarded P api server) λ w g.
      bind-Keeps (Guarded P api server) (P.inference_endpoints.get _)
        (λ c. P.inference_endpoints.patch c (mutate c)) (λ v h. Guarded-same (server.reads _ v) h)
        (λ c v h. Patched-guards c (mutate c) _ _ (spares c) (server.patches c (mutate c) v) h) w g

  pub patch_status-Keeps :
      (o : K1sInferenceEndpoint) (mutate : K1sInferenceEndpoint → K1sInferenceEndpoint)
      → Keeps (Guarded P api server) (patch_status P P.inference_endpoints o mutate)
  unfolding patch_status
  patch_status-Keeps o mutate = server.retries _ (Guarded P api server) λ w g.
      bind-Keeps (Guarded P api server) (P.inference_endpoints.get _)
        (λ c. P.inference_endpoints.patch_status c (mutate c))
        (λ v h. Guarded-same (server.reads _ v) h)
        (λ c v h. StatusPatched-guards _ _ (server.patches_status c (mutate c) v) h) w g

  -- a patch that adds the finalizer
  pub add_finalizer-Keeps :
      (o : K1sInferenceEndpoint) (xs : List String)
      → Keeps
          (Guarded P api server)
          (patch_finalizers P P.inference_endpoints o (xs ++ capability_finalizer ∷ []))
  unfolding patch_finalizers
  add_finalizer-Keeps o xs =
      patch_object-Keeps o _
        λ c. inr (rw server.writes_meta (contains-last xs capability_finalizer))
