-- ===== src/Generate/Budgets.antt =====
-- `GeneratePodDisruptionBudget`: one budget for each node group.
pub mod Laws
use opensearch_operator.Common.{
  String, Bool, Option, none, some, List, [], ◌∷◌, if◌then◌else◌, is_some, ◌||◌,
}
use opensearch_operator.Common.Outcome.{Outcome, ok, ◌>>=◌, wrapping}
use opensearch_operator.Funk.{Funk}
use opensearch_operator.Helper.Merge.{Mergo, Destination, pointer, pointee, merge}
use opensearch_operator.Api.Kubernetes.{
  PodDisruptionBudget, PodDisruptionBudgetSpec, IntOrString, int,
}
use opensearch_operator.Api.Types.{Opensearch, NodeGroupSpec}
use opensearch_operator.Api.Names.{get_node_group_pdb_name}
use opensearch_operator.Generate.Common.{object_meta, group_selector}

-- The spec before the merge.
abbrev pub initial_spec : Opensearch → NodeGroupSpec → PodDisruptionBudgetSpec
initial_spec h g = record {
  min_available = none;
  max_unavailable = none;
  selector = some (record { match_labels = group_selector h g });
}

-- `MaxUnavailable` becomes 1 if neither bound is set.
abbrev pub with_default : PodDisruptionBudgetSpec → PodDisruptionBudgetSpec
with_default s =
    if is_some s.min_available || is_some s.max_unavailable
    then s
    else record s { max_unavailable = some (int 1) }

-- The object, from what the address of its spec holds after the merge.
abbrev pub budget : Opensearch → NodeGroupSpec → PodDisruptionBudgetSpec → PodDisruptionBudget
budget h g s = record {
  meta = object_meta h (get_node_group_pdb_name h g.name);
  spec = with_default s;
}

abbrev pub spec_of :
    PodDisruptionBudgetSpec → Option PodDisruptionBudgetSpec → PodDisruptionBudgetSpec
spec_of s none = s
spec_of s (some t) = t

module _ (funk : Funk) (mergo : Mergo PodDisruptionBudgetSpec) where
  -- One round of the loop.
  unfoldable pub group_budget : Opensearch → NodeGroupSpec → Outcome PodDisruptionBudget
  group_budget h g = do
    d ← wrapping "Error when merge pod disruption spec" (
        merge mergo (pointer (initial_spec h g)) (
          g.pod_disruption_budget_spec
          ∷ funk.get_pod_disruption_budget_spec h.spec.global_node_group
          ∷ []))
    ok (budget h g (spec_of (initial_spec h g) (pointee d)))

  unfoldable pub group_budgets :
      Opensearch → List NodeGroupSpec → Outcome (List PodDisruptionBudget)
  group_budgets h [] = ok []
  group_budgets h (g ∷ gs) = do b ← group_budget h g; bs ← group_budgets h gs; ok (b ∷ bs)

  unfoldable pub generate_pod_disruption_budget : Opensearch → Outcome (List PodDisruptionBudget)
  unfolding group_budgets group_budget
  generate_pod_disruption_budget h = group_budgets h h.spec.node_groups
