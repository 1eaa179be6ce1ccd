-- ===== src/Lib.antt =====
-- The k1s operator: Kubernetes controllers that manage the resources of a k1s stack.
--
-- The controllers (internal/controller) watch custom resources (api/v1alpha1) and call the HTTP API of
-- a k1s controller through a client (internal/k1s). A resource set names a cluster; the cluster names
-- the URL and the secret of its k1s controller; the client finds the leader among the replicas.
--
-- Prelude: numbers, texts, Boolean tests, signed integers.
-- Go: what the code uses of Go's strings, strconv, fmt and errors. `Exec W A` is an action on a world
--   `W` that may fail; a world is what k1s and Kubernetes hold.
-- Api: the types of api/v1alpha1 (Common, Cluster, Capability, Exposure, Mirror), on the parts of
--   Kubernetes objects that are used (Meta).
-- K1s.Status: internal/k1s/status.go (ParseAppStatus, ParseInferenceStatus, ParseNodeSummary).
-- K1s.Client: internal/k1s/client.go. Transport holds the parameters and NewClient, Request buildURL and
--   doJSONRequest, Leader doJSONWithLeaderRetry, Routes the methods; `client_api` makes of a client the
--   record `Api` that the controllers use.
-- Controller.Platform: the parameters that stand for client-go, controller-runtime, apimachinery, the
--   clock, SHA-256 and the decoding of a manifest.
-- Controller.Patch, Auth, Helpers: patch.go and conditions.go, auth.go, and small functions.
-- Controller.Separate: that calls of Kubernetes leave k1s alone.
-- Controller.Kinds, Manifest, Managed: the kind policy, the reading of manifests, and the deletion and
--   pruning of managed resources in capability_controller.go.
-- Controller.ResourceSet: K1sResourceSetReconciler of capability_controller.go. Manifests has the two
--   loops, Pass what lies between the policy and the status, Reconcile the handler.
-- Controller.Upkeep: what the reconcilers of apps and inference endpoints have in common: the look at what
--   k1s knows, the apply and the observation.
-- Controller.App, Inference: K1sAppReconciler and K1sInferenceEndpointReconciler of
--   capability_controller.go. Pass is Upkeep at their manifest, Status what is written, Reconcile the
--   handler; Inference.Manifest is buildInferenceManifest. Inference.Life puts the rounds of the
--   reconciler into a step relation, with edits of the object and losses in k1s between them. Rounds over a
--   version that is being deleted are of those whose cell, or cell set, is at the address in question.
-- Controller.Frame: what the rounds of these three leave alone in k1s, and a step relation for rounds of
--   several objects in any order.
-- Controller.Exposure: K1sExposureReconciler of exposure_controller.go. Objects has the service, slice,
--   ingress and mirror, Status what is written, Reconcile the handler; Owned has the parameters.
-- Controller.Cluster, Proxy: K1sClusterReconciler of cluster_controller.go, and proxy.go.
-- Controller.Names, Builders, Probe: names.go, builders.go and traffic_probe.go.
-- Controller.Setup, Api.Scheme: the registration of controllers (SetupWithManager) and of types
--   (groupversion_info.go).
-- Manager: csvValues and watchNamespaces of cmd/manager/main.go; Manager.Main is init and main, and
--   Manager/Cap joins the flag for the kinds with the reconciler of resource sets that it configures.
-- Tests: the theorems at concrete inputs.
--
-- Numbers: int32 wraps at 2^32 (`wrap32`); a generation, a time and a status code are natural numbers.
-- A float64 is its integral part, and its conversions out of range are a parameter. The loops are
-- structural, but for the fallback to the service, whose fuel is the twelve attempts of the source.
-- The k1s API and Kubernetes are parameters; theorems on what k1s holds take `Backend`, that deletes and
-- applies do what they say, and `Separate`, that calls of Kubernetes leave k1s alone.
-- What a call of the k1s API leaves alone, be its reply an error or not, is `Local`.
--
-- What an API server makes of one object at a merge patch is `Server`: reads may be answered by a cache that
-- is behind, and an object that is being deleted goes with its last finalizer. Each round is one step:
-- nothing else happens between its calls. What it makes of the annotation of a set is `Recorder`. What
-- CreateOrUpdate and Delete do is `Stores`. The JSON text of a manifest is a parameter, and where its header
-- matters a hypothesis says that it is read as what was marshalled.
--
-- What main takes of package flag and of controller-runtime is `Runtime`, and what runtime.Scheme does is
-- `Schemes`; the world of the reconcilers is apart from that of the process that registers them.
--
-- Not modelled: logging and its flags; generated code and configuration. The status of a resource set or of an
-- app is built at one time, though the source reads the clock for each of its parts.
pub mod Prelude
pub mod Go
pub mod Api
pub mod K1s
pub mod Controller
pub mod Manager
pub mod Tests
