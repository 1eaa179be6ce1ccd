-- ===== src/Manager.antt =====
-- cmd/manager/main.go: how the manager reads the lists among its flags.
pub mod Flags
pub mod Cap
pub mod Trips
pub mod Main
use k1s_k8s_operator.Prelude.{
  String, ◌||◌, List, [], ◌∷◌, ◌++◌, ◌==◌, contains, string_eq, if◌then◌else◌,
}
use k1s_k8s_operator.Go.Text.{trim_space, split}

-- The loop of `csvValues`, whose map `seen` holds what `values` lists.
unfoldable pub csv_into : List String → List String → List String
csv_into [] values = values
csv_into (raw ∷ raws) values =
    let value = trim_space raw in
    if value == ""
    then csv_into raws values
    else if contains values value
    then csv_into raws values
    else csv_into raws (values ++ value ∷ [])

unfoldable pub csv_values : String → List String
csv_values raw = csv_into (split raw b',') []

unfoldable pub watch_namespaces : String → List String
unfolding csv_values
watch_namespaces raw = csv_values raw
