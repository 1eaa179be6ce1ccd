-- ===== src/Manager/Main/Start.antt =====
-- The order in which the manager is set up and started, as a record of the calls shows it.
use mathlib.Core.Path.{subst}
use k1s_k8s_operator.Prelude.{
  String, ◌≡◌, refl, ap, ◌∙◌, ◌⊎◌, inl, inr, List, [], ◌∷◌, ◌++◌, append_assoc, append-nil, map,
  sym, none,
}
use k1s_k8s_operator.Go.Errors.{Error, Result, ok, err, Exec}
use k1s_k8s_operator.Api.Scheme.{Schemes, add_to_scheme}
use k1s_k8s_operator.Controller.Platform.{Platform}
use k1s_k8s_operator.Controller.Exposure.Reconcile.{ExposureReconciler, reconcile_exposure}
use k1s_k8s_operator.Controller.ResourceSet.Reconcile.{reconcile}
use k1s_k8s_operator.Controller.App.Reconcile.{reconcile_app}
use k1s_k8s_operator.Controller.Inference.Reconcile.{reconcile_inference}
use k1s_k8s_operator.Controller.Cluster.{reconcile_cluster}
use k1s_k8s_operator.Controller.Setup.{
  Registration, setup_cluster, setup_exposure, setup_app, setup_inference, setup_resource_set,
}
use k1s_k8s_operator.Manager.{csv_values}
use k1s_k8s_operator.Manager.Main.{
  default_flags, Options, options, Exit, returned, panicked, failed, Runtime, exits, main, launch,
  must, then_add, init, run,
}

-- The calls by which the process acts.
pub data Event (V : Type 0) : Type 0 where
  created : Options → Event V
  registered : Registration V → Event V
  healthz : String → Event V
  readyz : String → Event V
  started : Event V

-- A call that succeeded, or that gave an error.
pub data Entry (V : Type 0) : Type 0 where
  passed : Event V → Entry V
  refused : Event V → Entry V

abbrev pub Noted : Type 0 → Type 0 → Type 0
Noted V W = W × List (Entry V)

-- A process that is to make some calls makes them in their order, up to the first that gives an error;
-- it returns if none does, and else exits with 1.
abbrev pub Follows : {V : Type 0} → List (Event V) → Exit → List (Entry V) → Type 0
Follows [] exit log = (exit ≡ returned) × (log ≡ [])
Follows {V} (e ∷ plan) exit log =
    ((exit ≡ failed) × (log ≡ refused e ∷ []))
    ⊎ ((rest : List (Entry V)) × (log ≡ passed e ∷ rest) × Follows plan exit rest)

module _ {V W : Type 0} where
  abbrev note : Event V → Result (Unit {0}) × W → List (Entry V) → Result (Unit {0}) × Noted V W
  note e (ok u, w) log = (ok u, (w, log ++ passed e ∷ []))
  note e (err x, w) log = (err x, (w, log ++ refused e ∷ []))

  abbrev noted : Event V → Exec W (Unit {0}) → Exec (Noted V W) (Unit {0})
  noted e m s = note e (m s.0) s.1

  -- A runtime that keeps a record of the calls.
  unfoldable pub noting : {S : Type 0} → Runtime S V W → Runtime S V (Noted V W)
  noting T = record {
    parse = T.parse;
    getenv = T.getenv;
    new_manager = λ scheme o. noted (created o) (T.new_manager scheme o);
    complete = λ r. noted (registered r) (T.complete r);
    add_healthz_check = λ name. noted (healthz name) (T.add_healthz_check name);
    add_readyz_check = λ name. noted (readyz name) (T.add_readyz_check name);
    start = noted started T.start;
  }

  abbrev Ends : List (Event V) → List (Entry V) → Exit × Noted V W → Type 0
  Ends plan before p = (log : List (Entry V)) × (p.1.1 ≡ before ++ log) × Follows plan p.0 log

  note-Ends :
      (e : Event V) (plan : List (Event V)) (next : Noted V W → Exit × Noted V W)
      → ((s : Noted V W) → Ends plan s.1 (next s))
      → (r : Result (Unit {0}) × W) (log : List (Entry V))
      → Ends (e ∷ plan) log (exits next (note e r log))
  note-Ends e plan next h (ok u, w) log =
      let (rest, grown, follows) = h (w, log ++ passed e ∷ []) in
      (passed e ∷ rest, grown ∙ append_assoc log (passed e ∷ []) rest, inr (rest, refl, follows))
  note-Ends e plan next h (err x, w) log = (refused e ∷ [], refl, inl (refl, refl))

  -- the process that makes some calls
  abbrev make : List (Event V × Exec W (Unit {0})) → Noted V W → Exit × Noted V W
  make [] s = (returned, s)
  make ((e, m) ∷ calls) s = exits (make calls) (note e (m s.0) s.1)

  make-Ends :
      (calls : List (Event V × Exec W (Unit {0}))) (s : Noted V W)
      → Ends (map (λ c. c.0) calls) s.1 (make calls s)
  make-Ends [] s = ([], sym (append-nil s.1), (refl, refl))
  make-Ends ((e, m) ∷ calls) s =
      note-Ends e (map (λ c. c.0) calls) (make calls) (make-Ends calls) (m s.0) s.1

-- The registrations of the five reconcilers.
module _ {V : Type 0} (P : Platform V) where
  abbrev pub cluster_registration : Registration V
  cluster_registration = record {
    object = "v1alpha1.K1sCluster";
    owned = [];
    reconciler = reconcile_cluster P;
  }

  abbrev pub exposure_registration : ExposureReconciler V → Registration V
  exposure_registration R = record {
    object = "v1alpha1.K1sExposure";
    owned =
        "corev1.Service" ∷ "discoveryv1.EndpointSlice" ∷ "networkingv1.Ingress"
        ∷ "v1alpha1.K1sAppMirror" ∷ [];
    reconciler = reconcile_exposure P R;
  }

  abbrev pub app_registration : Registration V
  app_registration = record { object = "v1alpha1.K1sApp"; owned = []; reconciler = reconcile_app P }

  abbrev pub inference_registration : Registration V
  inference_registration = record {
    object = "v1alpha1.K1sInferenceEndpoint";
    owned = [];
    reconciler = reconcile_inference P;
  }

  abbrev pub resource_set_registration : List String → Registration V
  resource_set_registration allowed_kinds = record {
    object = "v1alpha1.K1sResourceSet";
    owned = [];
    reconciler = reconcile P allowed_kinds;
  }

  -- the five, in their order, as main registers them
  abbrev pub registrations : ExposureReconciler V → List String → List (Registration V)
  registrations R allowed_kinds =
      cluster_registration
      ∷ exposure_registration (record R { traffic_probe = none })
      ∷ app_registration
      ∷ inference_registration
      ∷ resource_set_registration allowed_kinds
      ∷ []

module _ {S V W : Type 0} (T : Runtime S V W) (P : Platform V) (R : ExposureReconciler V) where
  -- The calls of a start, in their order.
  abbrev pub start_plan : List (Event V)
  start_plan =
      let flags = T.parse default_flags in
      created (options flags (T.getenv "WATCH_NAMESPACE"))
        ∷ map registered (registrations P R (csv_values flags.resource_set_allowed_kinds))
      ++ (healthz "healthz" ∷ readyz "readyz" ∷ started ∷ [])

  abbrev of_registration : Registration V → Event V × Exec W (Unit {0})
  of_registration r = (registered r, T.complete r)

  -- each event with its call
  abbrev calls : S → List (Event V × Exec W (Unit {0}))
  calls scheme =
      let flags = T.parse default_flags in
      let o = options flags (T.getenv "WATCH_NAMESPACE") in
      (created o, T.new_manager scheme o)
        ∷ map of_registration (registrations P R (csv_values flags.resource_set_allowed_kinds))
      ++ ((healthz "healthz", T.add_healthz_check "healthz")
          ∷ (readyz "readyz", T.add_readyz_check "readyz")
          ∷ (started, T.start)
          ∷ [])

  main-Ends : (scheme : S) (s : Noted V W) → Ends start_plan s.1 (main (noting T) P R scheme s)
  unfolding main noting setup_cluster setup_exposure setup_app setup_inference setup_resource_set
  main-Ends scheme s = make-Ends (calls scheme) s

  -- One of the registrations of types in `init` gives an error.
  abbrev pub Unregistered : Schemes S → Exec S (Unit {0}) → Type 0
  Unregistered L add_client_go =
      let p = add_client_go L.blank in
      ((e : Error) × (p.0 ≡ err e)) ⊎ ((e : Error) × ((add_to_scheme L p.1).0 ≡ err e))

  -- Neither does.
  abbrev pub Registered : Schemes S → Exec S (Unit {0}) → Type 0
  Registered L add_client_go =
      let p = add_client_go L.blank in (p.0 ≡ ok tt) × ((add_to_scheme L p.1).0 ≡ ok tt)

  module _ (L : Schemes S) where
    must-cases :
        (p : Result (Unit {0}) × S)
        → ((e : Error) × (p.0 ≡ err e) × (must p ≡ err e)) ⊎ ((p.0 ≡ ok tt) × (must p ≡ ok p.1))
    must-cases (ok u, scheme) = inr (refl, refl)
    must-cases (err e, scheme) = inl (e, refl, refl)

    launch_ok-Follows :
        (r : Result S) (scheme : S) (w : W)
        → r ≡ ok scheme
        → let p = launch (noting T) P R r (w, []) in Follows start_plan p.0 p.1.1
    launch_ok-Follows (ok s) scheme w h =
        let (log, made, follows) = main-Ends s (w, []) in
        subst (Follows start_plan _) (sym made) follows
    launch_ok-Follows (err e) scheme w h = cc

    launch_err :
        (r : Result S) (e : Error) (w : W)
        → r ≡ err e
        → launch (noting T) P R r (w, []) ≡ (panicked, (w, []))
    launch_err (ok s) e w h = cc
    launch_err (err x) e w h = refl

    -- The process panics before any call, where the registration of the types of client-go, or of the
    -- operator's own, gives an error. Where neither does, it makes the calls of a start in their order: the
    -- manager is created, with the options that the flags and the environment give; the five reconcilers are
    -- registered, with the types that they own and, for resource sets, the kinds of the flag; the two checks are
    -- added; and the manager is started. It stops at the first call that gives an error, and exits with 1; it
    -- returns if none does.
    pub run-Follows :
        (add_client_go : Exec S (Unit {0})) (w : W)
        → let p = run (noting T) P R L add_client_go (w, []) in
          (Unregistered L add_client_go × (p.0 ≡ panicked) × (p.1.1 ≡ []))
          ⊎ (Registered L add_client_go × Follows start_plan p.0 p.1.1)
    unfolding run init
    run-Follows add_client_go w =
        let p = add_client_go L.blank in
        elim (must-cases p) [
          | inl (e, bad, stops) ↦
              let same = launch_err (then_add L (must p)) e w (ap (then_add L) stops) in
              inl (inl (e, bad), ap (λ x. x.0) same, ap (λ x. x.1.1) same)
          | inr (clean, on) ↦ elim (must-cases (add_to_scheme L p.1)) [
            | inl (e, bad, stops) ↦
                let same = launch_err (then_add L (must p)) e w (ap (then_add L) on ∙ stops) in
                inl (inr (e, bad), ap (λ x. x.0) same, ap (λ x. x.1.1) same)
            | inr (added, ends) ↦ inr (
              (clean, added),
              launch_ok-Follows (then_add L (must p)) _ w (ap (then_add L) on ∙ ends),
            )
          ]
        ]
