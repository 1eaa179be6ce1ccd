-- ===== src/Api/Scheme.antt =====
-- api/v1alpha1/groupversion_info.go: the registration of the types. A Go type is its name, the package's in
-- front; what apimachinery does with a `runtime.Scheme` is a parameter.
use k1s_k8s_operator.Prelude.{String, Bool, List, [], ◌∷◌, ◌++◌}
use k1s_k8s_operator.Go.Errors.{Exec}

pub record GroupVersion : Type 0 where
  pub group : String
  pub version : String

-- `runtime.NewScheme`, `AddKnownTypes`, and whether a type can be looked up
pub record Schemes (S : Type 0) : Type 0 where
  pub blank : S
  pub add_known_types : GroupVersion → List String → Exec S (Unit {0})
  pub knows : S → String → Bool

abbrev pub group_name : String
group_name = "operator.k1s.io"

abbrev pub group_version : GroupVersion
group_version = record { group = group_name; version = "v1alpha1" }

-- a `scheme.Builder`: the types that `Register` was given
pub record SchemeBuilder : Type 0 where
  pub group_version : GroupVersion
  pub objects : List String

abbrev register : List String → SchemeBuilder → SchemeBuilder
register objects builder = record builder { objects = builder.objects ++ objects }

-- `SchemeBuilder` once the package is initialised
unfoldable pub scheme_builder : SchemeBuilder
scheme_builder =
    register
      ("v1alpha1.K1sCluster" ∷ "v1alpha1.K1sClusterList" ∷ "v1alpha1.K1sExposure"
        ∷ "v1alpha1.K1sExposureList" ∷ "v1alpha1.K1sAppMirror" ∷ "v1alpha1.K1sAppMirrorList"
        ∷ "v1alpha1.K1sApp" ∷ "v1alpha1.K1sAppList" ∷ "v1alpha1.K1sInferenceEndpoint"
        ∷ "v1alpha1.K1sInferenceEndpointList" ∷ "v1alpha1.K1sResourceSet"
        ∷ "v1alpha1.K1sResourceSetList" ∷ [])
      (record { group_version = group_version; objects = [] })

module _ {S : Type 0} (L : Schemes S) where
  -- `AddToScheme` of the builder
  unfoldable pub add_to_scheme : Exec S (Unit {0})
  unfolding scheme_builder
  add_to_scheme = L.add_known_types scheme_builder.group_version scheme_builder.objects

  -- An error is dropped.
  unfoldable pub new_scheme : S
  unfolding add_to_scheme
  new_scheme = (add_to_scheme L.blank).1
