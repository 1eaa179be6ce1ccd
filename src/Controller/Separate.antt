-- ===== src/Controller/Separate.antt =====
-- Reads and writes of Kubernetes objects do not change what k1s holds.
use k1s_k8s_operator.Prelude.{◌≡◌, refl, ◌∙◌, Bool, String, List}
use k1s_k8s_operator.Go.Errors.{Result, ok, err, Exec, continue, ◌>>=◌}
use k1s_k8s_operator.Api.Meta.{NamespacedName}
use k1s_k8s_operator.Controller.Platform.{KubeClient, Platform}
use k1s_k8s_operator.Controller.Patch.{patch_status, patch_object, patch_finalizers}
use k1s_k8s_operator.Controller.Managed.Backend.{Address}

-- An action that leaves alone what k1s holds.
abbrev pub Leaves : {W A : Type 0} → (W → Address → Bool) → Exec W A → Type 0
Leaves {W} holds m = (w : W) (a : Address) → holds (m w).1 a ≡ holds w a

-- The clients of Kubernetes leave k1s alone, and so does a retry of what does.
pub record Separate {W Object : Type 0} (P : Platform W) (kube : KubeClient W Object)
    (holds : W → Address → Bool) : Type 0 where
  pub get_leaves : (key : NamespacedName) → Leaves holds (kube.get key)
  pub patch_leaves : (before after : Object) → Leaves holds (kube.patch before after)
  pub patch_status_leaves : (before after : Object) → Leaves holds (kube.patch_status before after)
  pub retry_leaves : (m : Exec W (Unit {0})) → Leaves holds m → Leaves holds (P.retry_on_conflict m)

module _ {W Object : Type 0} (P : Platform W) (kube : KubeClient W Object)
    (holds : W → Address → Bool) (S : Separate P kube holds) where
  continue-Leaves :
      {A B : Type 0} (f : A → Exec W B)
      → ((a : A) → Leaves holds (f a))
      → (p : Result A × W) (a : Address) → holds (continue f p).1 a ≡ holds p.1 a
  continue-Leaves f h (ok b, w) a = h b w a
  continue-Leaves f h (err e, w) a = refl

  pub bind-Leaves :
      {A B : Type 0} (m : Exec W A) (f : A → Exec W B)
      → Leaves holds m
      → ((a : A) → Leaves holds (f a))
      → Leaves holds (m >>= f)
  bind-Leaves m f hm hf w a = continue-Leaves f hf (m w) a ∙ hm w a

  pub patch_object-Leaves :
      (object : Object) (mutate : Object → Object)
      → Leaves holds (patch_object P kube object mutate)
  unfolding patch_object
  patch_object-Leaves object mutate =
      S.retry_leaves _
        (bind-Leaves _ _ (S.get_leaves _) (λ current. S.patch_leaves current (mutate current)))

  pub patch_status-Leaves :
      (object : Object) (mutate : Object → Object)
      → Leaves holds (patch_status P kube object mutate)
  unfolding patch_status
  patch_status-Leaves object mutate =
      S.retry_leaves _ (
        bind-Leaves _ _ (S.get_leaves _)
          (λ current. S.patch_status_leaves current (mutate current)))

  pub patch_finalizers-Leaves :
      (object : Object) (finalizers : List String)
      → Leaves holds (patch_finalizers P kube object finalizers)
  unfolding patch_finalizers
  patch_finalizers-Leaves object finalizers = patch_object-Leaves object _
