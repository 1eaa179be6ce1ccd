-- ===== src/Controller/Owned.antt =====
-- What the exposure reconciler takes of controller-runtime for the objects that an exposure owns, as a
-- parameter, and what that library promises of it.
use k1s_k8s_operator.Prelude.{◌≡◌, Option, none, some, if◌then◌else◌}
use k1s_k8s_operator.Go.Errors.{is_kube_not_found, Result, ok, err, Exec}
use k1s_k8s_operator.Api.Meta.{NamespacedName}
use k1s_k8s_operator.Api.Exposure.{K1sExposure}

-- `controllerutil.CreateOrUpdate` of the object of a key, which reads it, or starts from one with
-- nothing but the key, and writes what the function makes of it; `controllerutil.SetControllerReference`
-- with an exposure as the owner; and the client's `Delete`.
pub record Owned (W Object : Type 0) : Type 0 where
  pub create_or_update : NamespacedName → (Object → Result Object) → Exec W (Unit {0})
  pub set_controller_reference : K1sExposure → Object → Result Object
  pub remove : NamespacedName → Exec W (Unit {0})

-- what the reconciler makes of the error of a delete
abbrev pub removed : Result (Unit {0}) → Result (Unit {0})
removed (ok _) = ok tt
removed (err e) = if is_kube_not_found e then ok tt else err e

-- The documented behaviour of `CreateOrUpdate` and `Delete`: after a success the object of the key is what
-- the function made of some object, or absent.
pub record Stores {W Object : Type 0} (owned : Owned W Object) : Type 0 where
  pub stored : W → NamespacedName → Option Object
  pub updates :
      (key : NamespacedName) (mutate : Object → Result Object) (w : W)
      → (owned.create_or_update key mutate w).0 ≡ ok tt
      → (before after : Object) × (mutate before ≡ ok after)
        × (stored (owned.create_or_update key mutate w).1 key ≡ some after)
  pub removes :
      (key : NamespacedName) (w : W)
      → removed (owned.remove key w).0 ≡ ok tt
      → stored (owned.remove key w).1 key ≡ none
