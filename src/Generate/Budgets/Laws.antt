-- ===== src/Generate/Budgets/Laws.antt =====
-- Every budget limits the disruption of its own node group.
use opensearch_operator.Common.{
  ◌≡◌, ◌⊎◌, zero, suc, String, true, Option, none, some, is_some, ◌||◌, if◌then◌else◌,
}
use opensearch_operator.Common.Outcome.{ok}
use opensearch_operator.Funk.{Funk}
use opensearch_operator.Helper.Merge.{Mergo, pointer}
use opensearch_operator.Api.Kubernetes.{
  PodDisruptionBudget, PodDisruptionBudgetSpec, IntOrString, int, text, LabelSelector,
}
use opensearch_operator.Api.Types.{Opensearch, NodeGroupSpec}
use opensearch_operator.Api.Names.{get_node_group_pdb_name}
use opensearch_operator.Common.Maps.{find}

-- A label that the selector asks for.
abbrev pub selected : String → Option LabelSelector → Option String
selected k none = none
selected k (some s) = find k s.match_labels

-- What two settings of one bound leave of it: the one that is given, or else the default. Where
-- both give it, it is set, and a positive number stays over another number; of a number and a text
-- mergo mixes the fields.
abbrev pub Both : (first second : IntOrString) → Option IntOrString → Type 0
Both (int (suc n)) (int m) r = r ≡ some (int (suc n))
Both (int (suc n)) (text t) r = is_some r ≡ true
Both (int zero) y r = is_some r ≡ true
Both (text t) y r = is_some r ≡ true

abbrev pub IsBound : (first second default result : Option IntOrString) → Type 0
IsBound none none d r = r ≡ d
IsBound (some x) none d r = r ≡ some x
IsBound none (some y) d r = r ≡ some y
IsBound (some x) (some y) d r = Both x y r

-- What mergo documents at these specs: it succeeds, a bound is filled from the source where it is a
-- nil pointer, and a label that the destination's selector has is kept; others come from the
-- source.
pub record Fills (a src b : PodDisruptionBudgetSpec) : Type 0 where
  pub min_bound : IsBound a.min_available src.min_available none b.min_available
  pub max_bound : IsBound a.max_unavailable src.max_unavailable none b.max_unavailable
  pub kept : (k v : String) → selected k a.selector ≡ some v → selected k b.selector ≡ some v
  pub asked :
      (k v : String)
      → selected k b.selector ≡ some v
      → (selected k a.selector ≡ some v) ⊎ (selected k src.selector ≡ some v)

abbrev pub FillsBudget : Mergo PodDisruptionBudgetSpec → Type 0
FillsBudget mergo =
    (a src : PodDisruptionBudgetSpec)
    → (b : PodDisruptionBudgetSpec) × (mergo (pointer a) src ≡ ok (pointer b)) × Fills a src b

abbrev pub min_of : Option PodDisruptionBudgetSpec → Option IntOrString
min_of none = none
min_of (some s) = s.min_available

abbrev pub max_of : Option PodDisruptionBudgetSpec → Option IntOrString
max_of none = none
max_of (some s) = s.max_unavailable

abbrev pub selector_of : Option PodDisruptionBudgetSpec → Option LabelSelector
selector_of none = none
selector_of (some s) = s.selector

-- A label that the settings ask for, besides those of the cluster and the group.
abbrev pub AsksFor :
    Opensearch
    → NodeGroupSpec
    → (own global : Option PodDisruptionBudgetSpec) → String
    → String
    → Type 0
AsksFor h g own global k v =
    ((k ≡ "cluster") × (v ≡ h.meta.name))
    ⊎ (((k ≡ "nodeGroup") × (v ≡ g.name))
        ⊎ ((selected k (selector_of own) ≡ some v) ⊎ (selected k (selector_of global) ≡ some v)))

-- What the budget of a node group must be, by the settings of the group and the global ones.
pub record IsBudgetOf (h : Opensearch) (g : NodeGroupSpec)
    (own global : Option PodDisruptionBudgetSpec) (b : PodDisruptionBudget) : Type 0 where
  pub named : b.meta.name ≡ get_node_group_pdb_name h g.name
  pub of_cluster : selected "cluster" b.spec.selector ≡ some h.meta.name
  pub of_group : selected "nodeGroup" b.spec.selector ≡ some g.name
  pub only : (k v : String) → selected k b.spec.selector ≡ some v → AsksFor h g own global k v
  -- Both bounds stand there where one setting gives the one and another the other.
  pub min_bound : IsBound (min_of own) (min_of global) none b.spec.min_available
  pub max_bound :
      IsBound
        (max_of own)
        (max_of global)
        (if is_some (min_of own) || is_some (min_of global) then none else some (int 1))
        b.spec.max_unavailable
  pub limited : (is_some b.spec.min_available || is_some b.spec.max_unavailable) ≡ true

abbrev pub IsBudget : Opensearch → NodeGroupSpec → PodDisruptionBudget → Type 0
IsBudget h g =
    IsBudgetOf h g g.pod_disruption_budget_spec h.spec.global_node_group.pod_disruption_budget_spec

-- What the two merges leave.
record IsMerged (h : Opensearch) (g : NodeGroupSpec) (own global : Option PodDisruptionBudgetSpec)
    (s : PodDisruptionBudgetSpec) : Type 0 where
  of_cluster : selected "cluster" s.selector ≡ some h.meta.name
  of_group : selected "nodeGroup" s.selector ≡ some g.name
  only : (k v : String) → selected k s.selector ≡ some v → AsksFor h g own global k v
  min_bound : IsBound (min_of own) (min_of global) none s.min_available
  max_bound : IsBound (max_of own) (max_of global) none s.max_unavailable
