-- ===== src/Manager/Main/Known.antt =====
-- The scheme of the manager, and the types that its controllers watch.
use mathlib.Core.Path.{subst}
use k1s_k8s_operator.Prelude.{
  String, ◌≡◌, refl, sym, ◌∙◌, inl, inr, Bool, true, ◌||◌, List, [], ◌∷◌, ◌++◌, map, All, contains,
  string_eq, arith,
}
use k1s_k8s_operator.Go.Errors.{ok, Exec}
use k1s_k8s_operator.Api.Scheme.{GroupVersion, Schemes, scheme_builder, add_to_scheme}
use k1s_k8s_operator.Controller.Platform.{Platform}
use k1s_k8s_operator.Controller.Exposure.Reconcile.{ExposureReconciler}
use k1s_k8s_operator.Controller.Setup.{Registration}
use k1s_k8s_operator.Manager.{csv_values}
use k1s_k8s_operator.Manager.Main.{default_flags, Exit, Runtime, run}
use k1s_k8s_operator.Manager.Main.Start.{
  Event, registered, healthz, readyz, started, Entry, passed, refused, Follows, noting,
  registrations, start_plan, run-Follows,
}

-- Types that were added are known, beside those known before.
pub record Additive {S : Type 0} (L : Schemes S) : Type 0 where
  pub adds :
      (v : GroupVersion) (types : List String) (s : S) (t : String)
      → (L.add_known_types v types s).0 ≡ ok tt
      → L.knows (L.add_known_types v types s).1 t ≡ (contains types t || L.knows s t)

-- the types of Kubernetes itself that an exposure owns
abbrev pub kube_types : List String
kube_types = "corev1.Service" ∷ "discoveryv1.EndpointSlice" ∷ "networkingv1.Ingress" ∷ []

known_of : (b c k : Bool) → k ≡ (b || c) → (b || c) ≡ true → k ≡ true
known_of b c k e h = cc

known_still : (b c : Bool) → c ≡ true → (b || c) ≡ true
known_still b c h = ground arith

module _ {S : Type 0} (L : Schemes S) (laws : Additive L) where
  abbrev pub Known : S → String → Type 0
  Known s t = L.knows s t ≡ true

  module _ (s : S) (added : (add_to_scheme L s).0 ≡ ok tt) where
    own : (t : String) → contains scheme_builder.objects t ≡ true → Known (add_to_scheme L s).1 t
    unfolding add_to_scheme
    own t listed = laws.adds _ _ s t added ∙ rw listed refl

    kept : (t : String) → Known s t → Known (add_to_scheme L s).1 t
    unfolding add_to_scheme
    kept t known =
        laws.adds _ _ s t added
        ∙ known_still (contains scheme_builder.objects t) (L.knows s t) known

  abbrev pub Watched : {V : Type 0} → S → Registration V → Type 0
  Watched s r = Known s r.object × All (Known s) r.owned

  module _ {V : Type 0} (P : Platform V) (R : ExposureReconciler V) (kinds : List String) where
    watched :
        (s : S)
        → (add_to_scheme L s).0 ≡ ok tt
        → All (Known s) kube_types
        → All (Watched (add_to_scheme L s).1) (registrations P R kinds)
    unfolding scheme_builder string_eq
    watched s added (service, (slice, (ingress, _))) =
        let mine = own s added in
        let theirs = kept s added in
        let exposed = mine "v1alpha1.K1sExposure" refl in
        let slices = theirs "discoveryv1.EndpointSlice" slice in
        let ingresses = theirs "networkingv1.Ingress" ingress in
        let mirrors = mine "v1alpha1.K1sAppMirror" refl in
        (
          (mine "v1alpha1.K1sCluster" refl, tt),
          (
            (exposed, (theirs "corev1.Service" service, (slices, (ingresses, (mirrors, tt))))),
            (
              (mine "v1alpha1.K1sApp" refl, tt),
              (
                (mine "v1alpha1.K1sInferenceEndpoint" refl, tt),
                ((mine "v1alpha1.K1sResourceSet" refl, tt), tt),
              ),
            ),
          ),
        )

  -- Of an event, if it is a registration: the scheme knows the types.
  abbrev Knows : {V : Type 0} → S → Event V → Type 0
  Knows s (registered r) = Watched s r
  Knows s _ = Unit {0}

  abbrev pub KnowsEntry : {V : Type 0} → S → Entry V → Type 0
  KnowsEntry s (passed e) = Knows s e
  KnowsEntry s (refused e) = Knows s e

  -- What is known of all that was to be done is so of what was done.
  Follows-Knows :
      {V : Type 0} (s : S) (plan : List (Event V)) (exit : Exit) (log : List (Entry V))
      → All (Knows s) plan
      → Follows plan exit log
      → All (KnowsEntry s) log
  Follows-Knows s [] exit log known (ends, e) = rw e tt
  Follows-Knows s (e ∷ plan) exit log (k, known) (inl (ends, h)) = rw h (k, tt)
  Follows-Knows s (e ∷ plan) exit log (k, known) (inr (rest, h, follows)) =
      rw h (k, Follows-Knows s plan exit rest known follows)

  registered-Knows :
      {V : Type 0} (s : S) (rs : List (Registration V)) (plan : List (Event V))
      → All (Watched s) rs
      → All (Knows s) plan
      → All (Knows s) (map registered rs ++ plan)
  registered-Knows s [] plan known rest = rest
  registered-Knows s (r ∷ rs) plan (k, known) rest = (k, registered-Knows s rs plan known rest)

  module _ {V W : Type 0} (T : Runtime S V W) (P : Platform V) (R : ExposureReconciler V) where
    -- In every run of the process, up to its end or the first error, every controller that is registered is
    -- one of objects of a type that the scheme knows which `init` leaves, and owns objects of such types
    -- alone. Types that are added are known, beside those known before; the scheme of client-go, where its
    -- registration gives no error, has services, endpoint slices and ingresses.
    pub run-Watched :
        (add_client_go : Exec S (Unit {0})) (w : W)
        → ((add_client_go L.blank).0 ≡ ok tt → All (Known (add_client_go L.blank).1) kube_types)
        → let scheme = (add_to_scheme L (add_client_go L.blank).1).1 in
          All (KnowsEntry scheme) (run (noting T) P R L add_client_go (w, [])).1.1
    run-Watched add_client_go w client_go =
        let scheme = (add_to_scheme L (add_client_go L.blank).1).1 in
        let p = run (noting T) P R L add_client_go (w, []) in
        let kinds = csv_values (T.parse default_flags).resource_set_allowed_kinds in
        elim (run-Follows T P R L add_client_go w) [
          | inl (bad, stops, none_made) ↦ subst (All (KnowsEntry scheme)) (sym none_made) tt
          | inr ((clean, added), follows) ↦
              Follows-Knows scheme (start_plan T P R) p.0 p.1.1
                (
                  tt,
                  registered-Knows scheme (registrations P R kinds)
                      (healthz "healthz" ∷ readyz "readyz" ∷ started ∷ [])
                      (watched P R kinds (add_client_go L.blank).1 added (client_go clean))
                      (tt, (tt, (tt, tt))),
                )
                follows
        ]
