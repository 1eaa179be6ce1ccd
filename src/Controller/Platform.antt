-- ===== src/Controller/Platform.antt =====
-- What the controllers take of Kubernetes' libraries and of the standard library, as parameters: the
-- clients of client-go and controller-runtime, the conditions of apimachinery, the clock, SHA-256
-- and the decoding of a manifest. `W` is the world that the calls read and change.
use k1s_k8s_operator.Prelude.{String, Bool, Option, List}
use k1s_k8s_operator.Go.Errors.{Error, Exec}
use k1s_k8s_operator.K1s.Client.Transport.{Transport}
use k1s_k8s_operator.Api.Meta.{Time, NamespacedName, Condition, Secret, ConfigMap, ObjectMeta}
use k1s_k8s_operator.Api.Cluster.{K1sCluster}
use k1s_k8s_operator.Api.Capability.{K1sApp, K1sInferenceEndpoint, K1sResourceSet}

-- The Kubernetes client at one kind of object. `patch before after` sends the difference of the two
-- as a merge patch (`client.MergeFrom`), `patch_status` that of the status subresource.
pub record KubeClient (W Object : Type 0) : Type 0 where
  pub meta : Object → ObjectMeta
  pub set_meta : Object → ObjectMeta → Object
  pub get : NamespacedName → Exec W Object
  pub patch : (before after : Object) → Exec W (Unit {0})
  pub patch_status : (before after : Object) → Exec W (Unit {0})

-- What json.Unmarshal finds in a manifest for the fields `kind`, `metadata.name` and
-- `metadata.namespace`; a field that it does not find, or cannot read, is empty.
pub record ManifestHeader : Type 0 where
  pub kind : String
  pub name : String
  pub namespace : String
  pub failure : Option Error

-- The endpoints of a `discoveryv1.EndpointSlice`: what `discoverProxyEndpoints` reads of each.
pub record SliceEndpoint : Type 0 where
  pub addresses : List String
  pub node_name : Option String
  pub ready : Option Bool

pub record Platform (W : Type 0) : Type 0 where
  pub clusters : KubeClient W K1sCluster
  pub apps : KubeClient W K1sApp
  pub inference_endpoints : KubeClient W K1sInferenceEndpoint
  pub resource_sets : KubeClient W K1sResourceSet
  pub secret : NamespacedName → Exec W Secret
  pub config_map : NamespacedName → Exec W ConfigMap
  -- the list of the endpoint slices of a service in a namespace, each by its endpoints
  pub endpoint_slices : (namespace service : String) → Exec W (List (List SliceEndpoint))
  -- whether `net.ParseIP` reads a text, and `net.DefaultResolver.LookupHost`
  pub is_ip : String → Bool
  pub lookup_host : String → Exec W (List String)
  -- `retry.RetryOnConflict(retry.DefaultRetry, …)`
  pub retry_on_conflict : Exec W (Unit {0}) → Exec W (Unit {0})
  -- `apimeta.SetStatusCondition`
  pub set_status_condition : List Condition → Condition → List Condition
  -- `metav1.Now`: the time of the reconciliation, which does not tell its instants apart
  pub now : W → Time
  -- `hex.EncodeToString` of the `sha256.Sum256` of a text
  pub sha256_hex : String → String
  pub manifest_header : String → ManifestHeader
  pub transport : Transport W
