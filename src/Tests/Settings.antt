-- ===== src/Tests/Settings.antt =====
-- The merges at concrete data.
use opensearch_operator.Common.{
  ◌≡◌, refl, String, ◌=?◌, false, Option, none, some, [], ◌∷◌, All, Bool-cases, inl, inr,
}
use opensearch_operator.Common.Outcome.{ok}
use opensearch_operator.Common.Maps.{Entries, GoMap, entries, lookup, find}
use opensearch_operator.Api.Types.{AntiAffinitySpec, NodeGroupSpec}
use opensearch_operator.Generate.ConfigMaps.{injected_config_map}
use opensearch_operator.Generate.ConfigMaps.Contents.{IsMergeable}
use opensearch_operator.Tests.Cluster.{cluster, global_group, masters, workers}
use opensearch_operator.Helper.Merge.{pointer, merge, merge-first_set}
use opensearch_operator.Helper.Settings.{merge_settings, merge_contents}
use opensearch_operator.Helper.Settings.Values.{merged_value, IsValue, merge_settings-value}
use opensearch_operator.Tests.Library.{funk, funk-IsLawful}
use opensearch_operator.Tests.Merging.{merge_affinity, merge_affinity-Fills}
use opensearch_operator.Tests.External.{yaml}

abbrev soft : AntiAffinitySpec
soft = record { affinity_type = "soft"; topology_key = "zone" }

abbrev hard : AntiAffinitySpec
hard = record { affinity_type = "hard"; topology_key = "" }

abbrev unset : AntiAffinitySpec
unset = record { affinity_type = ""; topology_key = "" }

-- Of two sources the first one wins.
merge-first_set_example :
    (b : AntiAffinitySpec) × (merge merge_affinity (pointer unset) (some hard ∷ some soft ∷ [])
      ≡ ok (pointer b))
    × (b.affinity_type ≡ "hard")
merge-first_set_example =
    merge-first_set merge_affinity (λ a. a.affinity_type) merge_affinity-Fills unset
      (some hard ∷ some soft ∷ [])

abbrev m1 : GoMap String
m1 = some (("a", "1") ∷ ("b", "") ∷ [])

abbrev m2 : GoMap String
m2 = some (("b", "2") ∷ ("c", "3") ∷ [])

abbrev merged : GoMap String
merged = some (("a", "1") ∷ ("c", "3") ∷ ("b", "2") ∷ [])

settings_merged : merge_settings yaml funk m1 m2 ≡ ok merged
unfolding merge_settings merge_contents
settings_merged = refl

merge_settings-value_example : IsValue yaml (some "") (some "2") (some "2")
merge_settings-value_example =
    merge_settings-value yaml funk funk-IsLawful m1 m2 "b" settings_merged

-- Contents that the sample reader of YAML can read.
abbrev IsReadable : String → Type 0
IsReadable s = (s =? "{") ≡ false

abbrev IsReadable? : Option String → Type 0
IsReadable? none = Unit
IsReadable? (some s) = IsReadable s

lookup-IsReadable :
    (m : Entries String) (k : String) → All (λ e. IsReadable e.1) m → IsReadable? (lookup k m)
lookup-IsReadable [] k readable = tt
lookup-IsReadable ((j, v) ∷ m) k (own, readable) = elim (Bool-cases (j =? k)) [
  | inl same ↦ rw same own
  | inr other ↦ rw other (lookup-IsReadable m k readable)
]

-- Readable contents can be merged, and the result is readable.
merged_value-IsReadable :
    (k : String) (v w : Option String)
    → IsReadable? v
    → IsReadable? w
    → (o : Option String) × (merged_value yaml k v w ≡ ok o) × IsReadable? o
unfolding merge_contents
merged_value-IsReadable k none none a b = (none, refl, tt)
merged_value-IsReadable k (some v) none a b = (some v, refl, a)
merged_value-IsReadable k none (some w) a b = (some w, refl, b)
merged_value-IsReadable k (some v) (some w) a b = elim (Bool-cases (v =? "")) [
  | inl empty ↦ (some w, rw (a, b, empty) refl, b)
  | inr given ↦ (some v, rw (a, b, given) refl, a)
]

group-IsMergeable :
    (g : NodeGroupSpec)
    → ((k : String) → IsReadable? (find k g.config))
    → IsMergeable yaml cluster g
group-IsMergeable g own k =
    let (user, run, readable) =
      merged_value-IsReadable k _ (find k global_group.config) (own k)
        (lookup-IsReadable (entries global_group.config) k (refl, (refl, tt))) in
    let (result, run', _) =
      merged_value-IsReadable k (find k injected_config_map) user
        (lookup-IsReadable (entries injected_config_map) k (refl, tt)) readable in
    (user, result, run, run')

-- The config maps of the sample cluster can be merged.
pub cluster-IsMergeable : All (IsMergeable yaml cluster) (masters ∷ workers ∷ [])
cluster-IsMergeable = (
  group-IsMergeable masters (λ k. lookup-IsReadable (entries masters.config) k (refl, tt)),
  (group-IsMergeable workers (λ k. tt), tt),
)
