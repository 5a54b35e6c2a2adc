-- ===== src/Funk.antt =====
-- The functions of github.com/thoas/go-funk that the repository calls, as an interface: they are
-- not part of it. `IsLawful` states what their documentation says and the callers rely on.
use opensearch_operator.Common.{String, Bool, true, Option, List, map, ◌≡◌, ◌↔◌, In}
use opensearch_operator.Common.Maps.{Entries, GoMap, find, last_found}
use opensearch_operator.Api.Kubernetes.{PodDisruptionBudgetSpec}
use opensearch_operator.Api.Types.{AntiAffinitySpec, GlobalNodeGroupSpec}

pub record Funk : Type 0 where
  -- `Contains` at a list of strings, and `ContainsString`.
  pub contains : List String → String → Bool
  pub contains_string : List String → String → Bool
  pub keys : Entries String → List String
  pub difference_string : List String → List String → List String × List String
  pub intersect_string : List String → List String → List String
  pub union_string_map : List (GoMap String) → GoMap String
  -- `Get(globalNodeGroup, "AntiAffinity")` and `Get(globalNodeGroup, "PodDisruptionBudgetSpec")`.
  pub get_anti_affinity : GlobalNodeGroupSpec → Option AntiAffinitySpec
  pub get_pod_disruption_budget_spec : GlobalNodeGroupSpec → Option PodDisruptionBudgetSpec

pub record IsLawful (f : Funk) : Type 0 where
  pub contains_iff : (xs : List String) (x : String) → (f.contains xs x ≡ true) ↔ In x xs
  pub contains_string_iff :
      (xs : List String) (x : String) → (f.contains_string xs x ≡ true) ↔ In x xs
  pub in-keys : (m : Entries String) (k : String) → In k (f.keys m) ↔ In k (map (λ e. e.0) m)
  -- The elements of one list that the other lacks, for each of the two.
  pub in-difference_left :
      (xs ys : List String) (k : String)
      → In k (f.difference_string xs ys).0 ↔ (In k xs × ¬ In k ys)
  pub in-difference_right :
      (xs ys : List String) (k : String)
      → In k (f.difference_string xs ys).1 ↔ (In k ys × ¬ In k xs)
  pub in-intersect :
      (xs ys : List String) (k : String) → In k (f.intersect_string xs ys) ↔ (In k xs × In k ys)
  -- On a key that several maps have, the last one's value stands.
  pub find-union :
      (ms : List (GoMap String)) (k : String) → find k (f.union_string_map ms) ≡ last_found k ms
  pub get_anti_affinity_lem : (g : GlobalNodeGroupSpec) → f.get_anti_affinity g ≡ g.anti_affinity
  pub get_pod_disruption_budget_spec_lem :
      (g : GlobalNodeGroupSpec) → f.get_pod_disruption_budget_spec g ≡ g.pod_disruption_budget_spec
