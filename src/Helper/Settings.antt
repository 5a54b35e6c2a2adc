-- ===== src/Helper/Settings.antt =====
-- pkg/helper/config.go: `MergeSettings`, over the external readers and writers of YAML.
pub mod Loops
pub mod Values
pub mod Order
use opensearch_operator.Common.{String, ◌<>◌, Option, none, some, List, [], ◌∷◌}
use opensearch_operator.Common.Outcome.{Outcome, ok, ◌>>=◌, wrapping}
use opensearch_operator.Common.Maps.{Entries, GoMap, lookup, insert}
use opensearch_operator.Funk.{Funk}

-- What go-ucfg, mergo and yaml.v3 do: reading a text, unpacking it to a map, merging two maps (the
-- first has the priority) and writing one.
pub record Yaml : Type 1 where
  pub Config : Type 0
  pub Tree : Type 0
  pub new_config : String → Outcome Config
  pub unpack : Config → Outcome Tree
  pub merge : Tree → Tree → Outcome Tree
  pub marshal : Tree → Outcome String

-- `m[key]`, which is "" where the key is missing.
abbrev pub value : Option String → String
value none = ""
value (some v) = v

module _ (yaml : Yaml) where
  open yaml use {new_config, unpack, merge, marshal}

  -- The body of the loop over the common keys, up to the assignment.
  unfoldable pub merge_contents : String → String → String → Outcome String
  merge_contents key v w = do
    m1_config ← wrapping ("Error when init config for key " <> key) (new_config v)
    m2_config ← wrapping ("Error when init config for key " <> key) (new_config w)
    m1_unpack ← wrapping ("Error when unpack config for key " <> key) (unpack m1_config)
    m2_unpack ← wrapping ("Error when unpack config for key " <> key) (unpack m2_config)
    merged ← wrapping ("Error when merge config for key " <> key) (merge m1_unpack m2_unpack)
    wrapping ("Error when unmarshall contend for key " <> key) (marshal merged)

  -- `for _, key := range keys { res[key] = m[key] }`
  pub copy_keys : Entries String → List String → Entries String → Entries String
  copy_keys m [] res = res
  copy_keys m (key ∷ keys) res = copy_keys m keys (insert key (value (lookup key m)) res)

  -- The loop over the common keys.
  pub merge_keys :
      Entries String → Entries String → List String → Entries String → Outcome (Entries String)
  merge_keys m1 m2 [] res = ok res
  merge_keys m1 m2 (key ∷ keys) res =
      merge_contents key (value (lookup key m1)) (value (lookup key m2)) >>= λ content.
      merge_keys m1 m2 keys (insert key content res)

  unfoldable pub merge_settings : Funk → GoMap String → GoMap String → Outcome (GoMap String)
  unfolding copy_keys merge_keys
  merge_settings funk none m2 = ok m2
  merge_settings funk (some m1) none = ok (some m1)
  merge_settings funk (some m1) (some m2) =
      let m1_keys = funk.keys m1 in
      let m2_keys = funk.keys m2 in
      let (m1_diff, m2_diff) = funk.difference_string m1_keys m2_keys in
      let res = copy_keys m2 m2_diff (copy_keys m1 m1_diff []) in
      merge_keys m1 m2 (funk.intersect_string m1_keys m2_keys) res >>= λ r. ok (some r)
