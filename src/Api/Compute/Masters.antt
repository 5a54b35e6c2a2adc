-- ===== src/Api/Compute/Masters.antt =====
-- `computeInitialMasterNodes` and `computeDiscoverySeedHosts`: the nodes that form the cluster.
use opensearch_operator.Common.{◌≡◌, refl, List, [], ◌∷◌, inl, inr, Bool-cases, if◌then◌else◌}
use opensearch_operator.Common.Outcome.{ok, ◌>>=◌}
use opensearch_operator.Common.Text.{join}
use opensearch_operator.Funk.{Funk}
use opensearch_operator.Api.Types.{Opensearch, NodeGroupSpec}
use opensearch_operator.Api.Names.{
  get_node_group_name, get_node_group_node_names, get_node_names, node_names_of,
}
use opensearch_operator.Api.Compute.{is_master_role, master_nodes_of, compute_initial_master_nodes}

module _ (f : Funk) where
  -- The groups with the role `cluster_manager`, in their order.
  unfoldable pub masters_of : List NodeGroupSpec → List NodeGroupSpec
  masters_of [] = []
  masters_of (g ∷ gs) = let rest = masters_of gs in if is_master_role f g then g ∷ rest else rest

  -- The same cluster without its other groups.
  unfoldable pub only_masters : Opensearch → Opensearch
  only_masters h = record h {
    spec = record (h.spec) { node_groups = masters_of h.spec.node_groups };
  }

  master_nodes_of-masters_of :
      (h : Opensearch) (gs : List NodeGroupSpec)
      → master_nodes_of f h gs ≡ node_names_of (only_masters h) (masters_of gs)
  unfolding master_nodes_of node_names_of masters_of only_masters get_node_group_node_names
      get_node_group_name
  master_nodes_of-masters_of h [] = refl
  master_nodes_of-masters_of h (g ∷ gs) = elim (Bool-cases (is_master_role f g)) [
    | inl yes' ↦ rw (yes', master_nodes_of-masters_of h gs) refl
    | inr no' ↦ rw (no', master_nodes_of-masters_of h gs) refl
  ]

  -- computeInitialMasterNodes is the joined list of GetNodeNames on the cluster without the groups
  -- that lack the role cluster_manager, panics included.
  pub compute_initial_master_nodes-only_masters :
      (h : Opensearch)
      → compute_initial_master_nodes f h
        ≡ (get_node_names (only_masters h) >>= λ names. ok (join names " "))
  unfolding compute_initial_master_nodes get_node_names only_masters
  compute_initial_master_nodes-only_masters h =
      rw (master_nodes_of-masters_of h h.spec.node_groups) refl
