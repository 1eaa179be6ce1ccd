-- ===== src/Tests/Managers.antt =====
-- The theorems on the manager's process, at a runtime that answers every call, and on its flags.
use k1s_k8s_operator.Prelude.{
  ℕ, suc, String, ◌≡◌, refl, true, not, ◌&&◌, ◌||◌, ◌⊎◌, List, [], ◌∷◌, ◌++◌, map, ◌==◌, contains,
  string_eq, nat_eq, All, arith,
}
use k1s_k8s_operator.Go.Text.{trim_space, split, join, contains_char}
use k1s_k8s_operator.Go.Errors.{ok, Exec, fail, message}
use k1s_k8s_operator.Api.Scheme.{Schemes, add_to_scheme}
use k1s_k8s_operator.Controller.Kinds.{default_resource_set_allowed_kinds}
use k1s_k8s_operator.Controller.Kinds.Laws.{Distinct, IsKind}
use k1s_k8s_operator.Manager.{csv_values, watch_namespaces}
use k1s_k8s_operator.Manager.Trips.{IsPart, csv_values-join}
use k1s_k8s_operator.Manager.Main.{Runtime, panicked, default_flags, options, run}
use k1s_k8s_operator.Manager.Main.Start.{
  Follows, Unregistered, Registered, start_plan, noting, run-Follows,
}
use k1s_k8s_operator.Manager.Main.Namespaces.{options-namespaces}
use k1s_k8s_operator.Manager.Main.Known.{Additive, kube_types, KnowsEntry, run-Watched}
use k1s_k8s_operator.Tests.World.{World, platform}
use k1s_k8s_operator.Tests.Exposures.{reconciler}

-- A scheme is the list of its types.
abbrev schemes : Schemes (List String)
schemes = record {
  blank = [];
  add_known_types = λ v types s. (ok tt, types ++ s);
  knows = contains;
}

contains-added :
    (types s : List String) (t : String)
    → contains (types ++ s) t ≡ (contains types t || contains s t)
contains-added [] s t = refl
contains-added (u ∷ types) s t = ground (arith, contains-added types s t)

schemes-Additive : Additive schemes
schemes-Additive = record { adds = λ v types s t h. contains-added types s t }

abbrev add_client_go : Exec (List String) (Unit {0})
add_client_go s = (ok tt, kube_types)

-- A runtime that counts the calls, and refuses to listen for readiness.
abbrev counted : Exec ℕ (Unit {0})
counted n = (ok tt, suc n)

abbrev runtime : Runtime (List String) World ℕ
runtime = record {
  parse = λ flags. flags;
  getenv = λ name. "shop, blog,,shop";
  new_manager = λ scheme o. counted;
  complete = λ r. counted;
  add_healthz_check = λ name. counted;
  add_readyz_check = λ name. fail (message "in use");
  start = counted;
}

run-Follows_example :
    let p = run (noting runtime) platform reconciler schemes add_client_go (0, []) in
    (Unregistered runtime platform reconciler schemes add_client_go
      × (p.0 ≡ panicked)
      × (p.1.1 ≡ []))
    ⊎ (Registered runtime platform reconciler schemes add_client_go
        × Follows (start_plan runtime platform reconciler) p.0 p.1.1)
run-Follows_example = run-Follows runtime platform reconciler schemes add_client_go 0

client_go : All (λ t. contains kube_types t ≡ true) kube_types
unfolding string_eq
client_go = (refl, (refl, (refl, tt)))

run-Watched_example :
    All
      (KnowsEntry schemes schemes-Additive
        (add_to_scheme schemes (add_client_go schemes.blank).1).1)
      (run (noting runtime) platform reconciler schemes add_client_go (0, [])).1.1
run-Watched_example =
    run-Watched schemes schemes-Additive runtime platform reconciler add_client_go 0
      (λ clean. client_go)

options-namespaces_example :
    let kept = (options default_flags "shop, blog,,shop").default_namespaces in
    (kept ≡ watch_namespaces "shop, blog,,shop")
    × Distinct kept
    × ((k : String)
        → contains kept k
          ≡ (not (k == "") && contains (map trim_space (split "shop, blog,,shop" b',')) k))
options-namespaces_example = options-namespaces default_flags "shop, blog,,shop"

defaults-Distinct : Distinct default_resource_set_allowed_kinds
unfolding string_eq
defaults-Distinct = (refl, (refl, (refl, tt)))

defaults-IsKind : All IsKind default_resource_set_allowed_kinds
unfolding trim_space nat_eq
defaults-IsKind = (((λ h. cc), refl), (((λ h. cc), refl), (((λ h. cc), refl), tt)))

defaults-IsPart : All IsPart default_resource_set_allowed_kinds
unfolding contains_char nat_eq
defaults-IsPart = (refl, (refl, (refl, tt)))

csv_values-join_example :
    csv_values (join default_resource_set_allowed_kinds ",") ≡ default_resource_set_allowed_kinds
csv_values-join_example =
    csv_values-join default_resource_set_allowed_kinds defaults-Distinct defaults-IsKind
      defaults-IsPart
