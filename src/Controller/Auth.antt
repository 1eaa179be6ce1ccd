-- ===== src/Controller/Auth.antt =====
-- internal/controller/auth.go, and `writeClient` of capability_controller.go.
use k1s_k8s_operator.Prelude.{
  String, ◌<>◌, not, ◌&&◌, Option, none, some, ◌==◌, string_eq, if◌then◌else◌, [], ◌∷◌,
}
use k1s_k8s_operator.Go.Errors.{message, Exec, pure, fail, lift, Result, ok, err, ◌>>=◌}
use k1s_k8s_operator.K1s.Client.Transport.{Client, new_client, with_bearer_token, with_ca_bundle}
use k1s_k8s_operator.Api.Meta.{Secret, find_or_empty}
use k1s_k8s_operator.Api.Common.{K1sAuthSecretRef, NamespacedNameRef, namespace_or}
use k1s_k8s_operator.Api.Cluster.{K1sCluster}
use k1s_k8s_operator.Controller.Platform.{Platform}

abbrev pub default_controller_read_token_key : String
default_controller_read_token_key = "controllerReadToken"

abbrev pub default_controller_write_token_key : String
default_controller_write_token_key = "controllerWriteToken"

abbrev pub default_ca_bundle_key : String
default_ca_bundle_key = "ca.crt"

pub record ApiCredentials : Type 0 where
  pub read_token : String
  pub write_token : String
  pub ca_bundle : String

abbrev pub or_default : String → String → String
or_default key default = if key == "" then default else key

unfoldable pub credentials_of : K1sAuthSecretRef → Secret → ApiCredentials
credentials_of ref secret = record {
  read_token =
      find_or_empty (or_default ref.controller_read_token_key default_controller_read_token_key)
        secret.entries;
  write_token =
      find_or_empty (or_default ref.controller_write_token_key default_controller_write_token_key)
        secret.entries;
  ca_bundle = find_or_empty (or_default ref.ca_bundle_key default_ca_bundle_key) secret.entries;
}

-- `%q` of a text that has nothing to escape
abbrev pub quoted : String → String
quoted text = "\"" <> (text <> "\"")

module _ {W : Type 0} (P : Platform W) where
  -- the read token is demanded only where its key is written out
  unfoldable pub checked_credentials : String → K1sAuthSecretRef → Secret → Result ApiCredentials
  unfolding credentials_of
  checked_credentials namespace ref secret =
      let creds = credentials_of ref secret in
      if not (ref.controller_read_token_key == "") && creds.read_token == ""
      then err (
          message (
            "secret "
            <> (namespace
                <> ("/"
                    <> (ref.name <> (" missing key " <> quoted ref.controller_read_token_key))))))
      else ok creds

  unfoldable pub load_credentials : String → Option K1sAuthSecretRef → Exec W ApiCredentials
  unfolding checked_credentials
  load_credentials owner_namespace none =
      pure (record { read_token = ""; write_token = ""; ca_bundle = "" })
  load_credentials owner_namespace (some ref) = do
    let namespace = namespace_or ref.namespace owner_namespace
    secret ← P.secret (record { namespace = namespace; name = ref.name })
    lift (checked_credentials namespace ref secret)

  abbrev pub connect : K1sCluster → ApiCredentials → Exec W (Client × K1sCluster)
  connect cluster creds = do
    api ← lift (
        new_client P.transport cluster.spec.controller.url
          (with_bearer_token creds.write_token ∷ with_ca_bundle creds.ca_bundle ∷ []))
    pure (api, cluster)

  unfoldable pub write_client : String → NamespacedNameRef → Exec W (Client × K1sCluster)
  unfolding load_credentials
  write_client namespace ref = do
    cluster ←
        P.clusters.get
          (record { namespace = namespace_or ref.namespace namespace; name = ref.name })
    creds ← load_credentials cluster.meta.namespace cluster.spec.auth_secret_ref
    if creds.write_token == ""
        then fail (message "write token is required for k1s capability CRUD")
        else connect cluster creds
