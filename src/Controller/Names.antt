-- ===== src/Controller/Names.antt =====
-- internal/controller/names.go: the names of what an exposure owns. The names of Kubernetes objects are
-- ASCII, so that `value[:63]` ends at a character.
pub mod Bounds
use k1s_k8s_operator.Prelude.{
  ℕ, String, ◌<>◌, len, slice, Bool, ◌||◌, [], ◌∷◌, ◌==◌, nat_eq, string_eq, ltb, if◌then◌else◌, ℤ,
  pos, ltb_ℤ,
}
use k1s_k8s_operator.Go.Text.{trim, trim_right, trim_space, to_lower, replace_all}
use k1s_k8s_operator.Api.Meta.{StringMap}
use k1s_k8s_operator.Api.Common.{namespace_or_default}
use k1s_k8s_operator.Api.Exposure.{K1sExposure}

abbrev pub label_name : String
label_name = "app.kubernetes.io/name"

abbrev pub label_managed_by : String
label_managed_by = "app.kubernetes.io/managed-by"

abbrev pub label_cluster : String
label_cluster = "operator.k1s.io/cluster"

abbrev pub label_exposure : String
label_exposure = "operator.k1s.io/exposure"

abbrev pub label_app_namespace : String
label_app_namespace = "operator.k1s.io/app-namespace"

abbrev pub label_app_name : String
label_app_name = "operator.k1s.io/app-name"

abbrev hyphen : ℕ → Bool
hyphen c = c == b'-'

abbrev hyphen_or_dot : ℕ → Bool
hyphen_or_dot c = c == b'-' || c == b'.'

-- "k1s" in place of an empty label
unfoldable pub or_k1s : String → String
or_k1s value = if value == "" then "k1s" else value

-- the cut to 63 bytes
unfoldable pub shortened : String → String
shortened value = if ltb 63 (len value) then trim_right hyphen (slice value 0 63) else value

unfoldable pub dns_label : String → String
unfolding or_k1s shortened
dns_label value =
    or_k1s (shortened (trim hyphen_or_dot (replace_all (to_lower (trim_space value)) b'_' "-")))

module _ (exposure : K1sExposure) where
  unfoldable pub exposure_service_name : String
  unfolding dns_label
  exposure_service_name =
      if exposure.spec.service.name == ""
      then dns_label (exposure.meta.name <> "-k1s")
      else exposure.spec.service.name

  unfoldable pub exposure_endpoint_slice_name : String
  unfolding dns_label
  exposure_endpoint_slice_name = dns_label (exposure_service_name <> "-proxy")

  unfoldable pub exposure_ingress_name : String
  unfolding dns_label
  exposure_ingress_name =
      if exposure.spec.ingress.name == ""
      then dns_label (exposure.meta.name <> "-k1s")
      else exposure.spec.ingress.name

  unfoldable pub exposure_path : String
  exposure_path = if exposure.spec.path == "" then "/" else exposure.spec.path

  unfoldable pub exposure_service_port : ℤ
  exposure_service_port =
      if ltb_ℤ (pos 0) exposure.spec.service.port then exposure.spec.service.port else pos 80

  unfoldable pub managed_labels : String → StringMap
  unfolding namespace_or_default
  managed_labels cluster_name =
      (label_name, "k1s-operator")
      ∷ (label_managed_by, "k1s-operator")
      ∷ (label_cluster, cluster_name)
      ∷ (label_exposure, exposure.meta.name)
      ∷ (label_app_namespace, namespace_or_default exposure.spec.app_ref)
      ∷ (label_app_name, exposure.spec.app_ref.name)
      ∷ []
