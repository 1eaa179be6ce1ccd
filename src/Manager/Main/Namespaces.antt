-- ===== src/Manager/Main/Namespaces.antt =====
-- The namespaces to which the manager limits its cache.
use k1s_k8s_operator.Prelude.{
  String, ◌≡◌, refl, sym, ◌∙◌, true, false, not, ◌&&◌, List, [], ◌∷◌, ◌++◌, map, ◌==◌, contains,
  string_eq, append_assoc, append-nil, arith,
}
use k1s_k8s_operator.Go.Text.{trim_space, split}
use k1s_k8s_operator.Controller.Kinds.Laws.{Distinct}
use k1s_k8s_operator.Manager.{watch_namespaces}
use k1s_k8s_operator.Manager.Flags.{still_apart, watch_namespaces_lem}
use k1s_k8s_operator.Manager.Main.{Flags, note_namespaces, options}

note_namespaces-Distinct :
    (ks out : List String)
    → Distinct ks
    → ((k : String) → contains ks k ≡ true → contains out k ≡ false)
    → note_namespaces ks out ≡ out ++ ks
unfolding note_namespaces
note_namespaces-Distinct [] out d apart = sym (append-nil out)
note_namespaces-Distinct (k ∷ ks) out (dk, d) apart = rw (apart k (ground arith)) (
    note_namespaces-Distinct ks (out ++ k ∷ []) d (still_apart ks out k dk apart)
    ∙ append_assoc out (k ∷ []) ks)

-- The manager's cache is limited to the namespaces that the variable lists at its commas, trimmed and
-- without the blank ones, each as one key in the order of the list; it is not limited if there are none.
pub options-namespaces :
    (flags : Flags) (raw : String)
    → let kept = (options flags raw).default_namespaces in
      (kept ≡ watch_namespaces raw)
      × Distinct kept
      × ((k : String)
          → contains kept k ≡ (not (k == "") && contains (map trim_space (split raw b',')) k))
unfolding options
options-namespaces flags raw =
    let (d, _, lists) = watch_namespaces_lem raw in
    let same = note_namespaces-Distinct (watch_namespaces raw) [] d (λ k listed. refl) in
    rw same (refl, d, lists)
