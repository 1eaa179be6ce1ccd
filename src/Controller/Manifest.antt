-- ===== src/Controller/Manifest.antt =====
-- What the controllers read in a manifest: `kindFromManifest`, `appRefFromManifest`,
-- `appNameFromManifest` and `managedResourceFromManifest` of capability_controller.go.
use k1s_k8s_operator.Prelude.{String, ◌<>◌, not, ◌&&◌, none, some, ◌==◌, string_eq, if◌then◌else◌}
use k1s_k8s_operator.Go.Errors.{message, Result, ok, err}
use k1s_k8s_operator.Api.Capability.{K1sManagedResourceStatus}
use k1s_k8s_operator.Controller.Platform.{ManifestHeader, Platform}
use k1s_k8s_operator.Controller.Patch.{hash_bytes}

abbrev pub or_default_namespace : String → String
or_default_namespace namespace = if namespace == "" then "default" else namespace

-- `resourceDeleteName`, and the name of `appNameFromManifest`
unfoldable pub resource_delete_name : (namespace name : String) → String
resource_delete_name namespace name =
    if not (namespace == "") && not (namespace == "default")
    then namespace <> ("--" <> name)
    else name

module _ {W : Type 0} (P : Platform W) where
  unfoldable pub kind_from_manifest : String → String
  kind_from_manifest raw = (P.manifest_header raw).kind

  unfoldable pub app_ref_from_manifest : String → String × String
  app_ref_from_manifest raw =
      let header = P.manifest_header raw in (or_default_namespace header.namespace, header.name)

  unfoldable pub app_name_from_manifest : String → String
  unfolding app_ref_from_manifest resource_delete_name
  app_name_from_manifest raw =
      let (namespace, name) = app_ref_from_manifest raw in resource_delete_name namespace name

  unfoldable pub managed_resource : String → ManifestHeader → Result K1sManagedResourceStatus
  unfolding hash_bytes
  managed_resource raw header = elim header.failure [
    | some e ↦ err e
    | none ↦
        if header.kind == ""
        then err (message "manifest kind is required")
        else if header.name == ""
        then err (message "manifest metadata.name is required")
        else ok (record {
          kind = header.kind;
          namespace = or_default_namespace header.namespace;
          name = header.name;
          hash = hash_bytes P raw;
        })
  ]

  unfoldable pub managed_resource_from_manifest : String → Result K1sManagedResourceStatus
  unfolding managed_resource
  managed_resource_from_manifest raw = managed_resource raw (P.manifest_header raw)
