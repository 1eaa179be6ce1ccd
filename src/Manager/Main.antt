-- ===== src/Manager/Main.antt =====
-- `init` and `main` of cmd/manager/main.go. `Runtime` is what they take of package flag, of the environment
-- and of controller-runtime. Log lines are left out.
pub mod Start
pub mod Namespaces
pub mod Known
use k1s_k8s_operator.Prelude.{
  String, Bool, false, List, [], ◌∷◌, ◌++◌, ◌==◌, contains, string_eq, none, if◌then◌else◌,
}
use k1s_k8s_operator.Go.Text.{join}
use k1s_k8s_operator.Go.Errors.{Result, ok, err, Exec}
use k1s_k8s_operator.Api.Scheme.{Schemes, add_to_scheme}
use k1s_k8s_operator.Controller.Platform.{Platform}
use k1s_k8s_operator.Controller.Kinds.{default_resource_set_allowed_kinds}
use k1s_k8s_operator.Controller.Exposure.Reconcile.{ExposureReconciler}
use k1s_k8s_operator.Controller.Setup.{
  Registration, setup_cluster, setup_exposure, setup_app, setup_inference, setup_resource_set,
}
use k1s_k8s_operator.Manager.{csv_values, watch_namespaces}

abbrev pub default_metrics_bind_address : String
default_metrics_bind_address = "127.0.0.1:8080"

abbrev pub default_probe_bind_address : String
default_probe_bind_address = ":8081"

pub record Flags : Type 0 where
  pub metrics_addr : String
  pub probe_addr : String
  pub resource_set_allowed_kinds : String
  pub enable_leader_election : Bool

-- the values that the flags are declared with
unfoldable pub default_flags : Flags
default_flags = record {
  metrics_addr = default_metrics_bind_address;
  probe_addr = default_probe_bind_address;
  resource_set_allowed_kinds = join default_resource_set_allowed_kinds ",";
  enable_leader_election = false;
}

-- `ctrl.Options`; of `Cache.DefaultNamespaces` the keys, as a nil map is no different from an empty one
pub record Options : Type 0 where
  pub metrics_bind_address : String
  pub health_probe_bind_address : String
  pub leader_election : Bool
  pub leader_election_id : String
  pub default_namespaces : List String

-- the loop over the watched namespaces, which writes keys of a map
unfoldable pub note_namespaces : List String → List String → List String
note_namespaces [] keys = keys
note_namespaces (namespace ∷ namespaces) keys =
    note_namespaces namespaces (if contains keys namespace then keys else keys ++ namespace ∷ [])

unfoldable pub options : Flags → String → Options
unfolding note_namespaces
options flags watch_namespace = record {
  metrics_bind_address = flags.metrics_addr;
  health_probe_bind_address = flags.probe_addr;
  leader_election = flags.enable_leader_election;
  leader_election_id = "k1s-operator.operator.k1s.io";
  default_namespaces = note_namespaces (watch_namespaces watch_namespace) [];
}

-- How the process ends: by the return of `main`, by `os.Exit`, or by a panic.
pub data Exit : Type 0 where
  returned panicked failed : Exit

-- `S` is the scheme's type, `V` the world of the reconcilers and `W` that of the process.
pub record Runtime (S V W : Type 0) : Type 0 where
  -- `flag.Parse`, from the values that the flags are declared with
  pub parse : Flags → Flags
  pub getenv : String → String
  -- `ctrl.GetConfigOrDie`, which exits with 1 as well, and `ctrl.NewManager`
  pub new_manager : S → Options → Exec W (Unit {0})
  pub complete : Registration V → Exec W (Unit {0})
  pub add_healthz_check : String → Exec W (Unit {0})
  pub add_readyz_check : String → Exec W (Unit {0})
  pub start : Exec W (Unit {0})

-- `utilruntime.Must` panics on an error.
abbrev pub must : {S : Type 0} → Result (Unit {0}) × S → Result S
must (ok _, scheme) = ok scheme
must (err e, scheme) = err e

module _ {S : Type 0} (L : Schemes S) where
  abbrev pub then_add : Result S → Result S
  then_add (ok scheme) = must (add_to_scheme L scheme)
  then_add (err e) = err e

  -- `init`: the scheme, or the error of the panic
  unfoldable pub init : Exec S (Unit {0}) → Result S
  init add_client_go = then_add (must (add_client_go L.blank))

module _ {W : Type 0} where
  abbrev pub exits : (W → Exit × W) → Result (Unit {0}) × W → Exit × W
  exits next (ok _, w) = next w
  exits next (err e, w) = (failed, w)

  -- `if err := m; err != nil { os.Exit(1) }`
  abbrev pub or_exit : Exec W (Unit {0}) → (W → Exit × W) → W → Exit × W
  or_exit m next w = exits next (m w)

module _ {S V W : Type 0} (T : Runtime S V W) (P : Platform V) (R : ExposureReconciler V) where
  abbrev pub flags : Flags
  flags = T.parse default_flags

  unfoldable pub main : S → W → Exit × W
  main scheme = or_exit (T.new_manager scheme (options flags (T.getenv "WATCH_NAMESPACE"))) (
      or_exit (setup_cluster T.complete P) (
        or_exit (setup_exposure T.complete P (record R { traffic_probe = none })) (
          or_exit (setup_app T.complete P) (
            or_exit (setup_inference T.complete P) (
              or_exit
                (setup_resource_set T.complete P (csv_values flags.resource_set_allowed_kinds))
                (or_exit (T.add_healthz_check "healthz")
                  (or_exit (T.add_readyz_check "readyz") (or_exit T.start λ w. (returned, w)))))))))

  abbrev pub launch : Result S → W → Exit × W
  launch (ok scheme) w = main scheme w
  launch (err e) w = (panicked, w)

  -- the process: the package is initialised, then `main` runs
  unfoldable pub run : Schemes S → Exec S (Unit {0}) → W → Exit × W
  unfolding init main
  run L add_client_go = launch (init L add_client_go)
