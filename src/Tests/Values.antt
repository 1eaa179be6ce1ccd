-- ===== src/Tests/Values.antt =====
-- The theorems on lists of kinds, on the digest and on the node summary at small inputs.
use k1s_k8s_operator.Prelude.{
  String, ◌+◌, ◌≤◌, ◌≡◌, ◌≢◌, refl, true, not, ◌&&◌, List, [], ◌∷◌, map, All, ◌==◌, string_eq,
  nat_eq, contains, pos, arith,
}
use k1s_k8s_operator.Go.Text.{trim_space}
use k1s_k8s_operator.Go.Errors.{ok}
use k1s_k8s_operator.Go.Values.{
  bool, string, slice, object, Items, end, item, empty, field, lookup, elements,
}
use k1s_k8s_operator.K1s.Status.{parse_node_summary}
use k1s_k8s_operator.K1s.Status.Counting.{
  counted, ready_nodes, stale_nodes, parse_node_summary-counts,
}
use k1s_k8s_operator.Controller.Kinds.{
  normalize_kind_list, normalize_into, kind_set, kind_cap, check_requested, allowed_kinds_for,
}
use k1s_k8s_operator.Controller.Kinds.Laws.{
  Distinct, IsKind, normalize_kind_list_lem, allowed_kinds_for_lem,
}
use k1s_k8s_operator.Controller.Patch.Digest.{digest_input-injective}
use k1s_k8s_operator.Tests.Objects.{floats}

abbrev kinds : List String
kinds = " Pod" ∷ "" ∷ "Pod" ∷ []

normalize_kind_list_example :
    Distinct (normalize_kind_list kinds)
    × All IsKind (normalize_kind_list kinds)
    × ((k : String)
        → contains (normalize_kind_list kinds) k
          ≡ (not (k == "") && contains (map trim_space kinds) k))
normalize_kind_list_example = normalize_kind_list_lem kinds

granted : allowed_kinds_for kinds ("Pod " ∷ []) ≡ ok ("Pod" ∷ [])
unfolding allowed_kinds_for kind_cap kind_set check_requested normalize_kind_list normalize_into
    trim_space string_eq nat_eq
granted = refl

allowed_kinds_for_example :
    ((k : String) → contains ("Pod" ∷ []) k ≡ true → contains (kind_cap kinds) k ≡ true)
    × (normalize_kind_list ("Pod " ∷ []) ≢ []
        → (k : String)
        → contains ("Pod" ∷ []) k ≡ (not (k == "") && contains (map trim_space ("Pod " ∷ [])) k))
    × (normalize_kind_list ("Pod " ∷ []) ≡ [] → "Pod" ∷ [] ≡ kind_cap kinds)
allowed_kinds_for_example = allowed_kinds_for_lem kinds ("Pod " ∷ []) granted

abbrev blanks : List String
blanks = "" ∷ "" ∷ []

digest_input-injective_example : blanks ≡ blanks
digest_input-injective_example =
    digest_input-injective blanks blanks (tt, (tt, tt)) (tt, (tt, tt)) refl

abbrev two_nodes : Items
two_nodes =
    item (object (field "status" (string "Ready") empty))
      (item (object (field "status" (string "Ready") (field "stale" (bool true) empty))) end)

listed : lookup (field "nodes" (slice two_nodes) empty) "nodes" ≡ slice two_nodes
unfolding lookup string_eq
listed = refl

parse_node_summary_example :
    (parse_node_summary floats (field "nodes" (slice two_nodes) empty)
      ≡ counted floats
          (ready_nodes floats (elements two_nodes))
          (stale_nodes floats (elements two_nodes))
          (pos 2))
    × (ready_nodes floats (elements two_nodes) + stale_nodes floats (elements two_nodes) ≤ 2)
unfolding elements
parse_node_summary_example =
    parse_node_summary-counts floats (field "nodes" (slice two_nodes) empty) two_nodes listed
      (omega arith)
