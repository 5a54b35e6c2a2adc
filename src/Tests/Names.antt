-- ===== src/Tests/Names.antt =====
-- Names and computed values of the sample cluster.
use opensearch_operator.Common.{◌≡◌, ◌⊎◌, refl, true, false, String, List, [], ◌∷◌, Distinct, Pairs}
use opensearch_operator.Common.Outcome.{ok, panic, ◌>>=◌}
use opensearch_operator.Common.Text.{join, decimal}
use opensearch_operator.Api.Types.{Opensearch, negsuc}
use opensearch_operator.Api.Names.{
  get_node_names, get_node_group_node_names, get_node_group_name, get_container_image,
  get_node_group_service_name_headless, is_self_managed_secret_for_tls_api,
  get_secret_name_for_tls_api,
}
use opensearch_operator.Api.Names.Secrets.{IsCustomSecret, get_secret_name_for_tls_api_cases}
use opensearch_operator.Api.Names.Counting.{get_node_names_panics}
use opensearch_operator.Api.Names.Distinct.{
  DistinctGroups, get_node_names-Distinct, get_node_group_name_collision,
}
use opensearch_operator.Api.Compute.{
  role_list, compute_roles, compute_initial_master_nodes, is_master_role, compute_anti_affinity,
  compute_discovery_seed_hosts,
}
use opensearch_operator.Api.Compute.Roles.{IsFlag, compute_roles-IsFlag}
use opensearch_operator.Api.Compute.Masters.{
  only_masters, compute_initial_master_nodes-only_masters,
}
use opensearch_operator.Api.Compute.Affinity.{affinity_shape, compute_anti_affinity-shape}
use opensearch_operator.Tests.Library.{funk, funk-IsLawful}
use opensearch_operator.Tests.Merging.{merge_affinity, merge_affinity-FillsAntiAffinity}
use opensearch_operator.Tests.Cluster.{cluster, cluster_of, group, masters, workers}

abbrev nodes : List String
nodes =
    "prod-master-os-0" ∷ "prod-master-os-1" ∷ "prod-master-os-2" ∷ "prod-data-os-0"
    ∷ "prod-data-os-1" ∷ []

cluster-nodes : get_node_names cluster ≡ ok nodes
unfolding get_node_names get_node_group_name decimal
cluster-nodes = refl

distinct_groups : DistinctGroups cluster
distinct_groups = (((λ e. cc), tt), (tt, tt))

cluster-image : get_container_image cluster ≡ "public.ecr.aws/opensearchproject/opensearch:2.4.1"
unfolding get_container_image
cluster-image = refl

cluster-masters :
    compute_initial_master_nodes funk cluster
    ≡ ok "prod-master-os-0 prod-master-os-1 prod-master-os-2"
unfolding compute_initial_master_nodes is_master_role get_node_group_node_names get_node_group_name
    decimal join
cluster-masters = refl

cluster-seeds : compute_discovery_seed_hosts funk cluster ≡ "prod-master-os-headless"
unfolding compute_discovery_seed_hosts is_master_role get_node_group_service_name_headless
    get_node_group_name join
cluster-seeds = refl

get_node_names-Distinct_example : Distinct nodes
get_node_names-Distinct_example = get_node_names-Distinct cluster distinct_groups cluster-nodes

abbrev broken : Opensearch
broken = cluster_of "prod" (masters ∷ group "data" (negsuc 0) [] ∷ [])

get_node_names_panics_example :
    get_node_names broken ≡ panic "runtime error: makeslice: cap out of range"
get_node_names_panics_example = get_node_names_panics broken refl

get_node_group_name_collision_example :
    get_node_group_name (cluster_of "a" []) "b-c" ≡ get_node_group_name (cluster_of "a-b" []) "c"
get_node_group_name_collision_example =
    get_node_group_name_collision (cluster_of "a" []) (cluster_of "a-b" []) "b" "c" refl

compute_roles-IsFlag_example :
    Pairs (IsFlag ("data" ∷ [])) role_list (compute_roles funk ("data" ∷ []))
compute_roles-IsFlag_example = compute_roles-IsFlag funk funk-IsLawful ("data" ∷ [])

compute_initial_master_nodes-only_masters_example :
    compute_initial_master_nodes funk cluster
    ≡ (get_node_names (only_masters funk cluster) >>= λ names. ok (join names " "))
compute_initial_master_nodes-only_masters_example =
    compute_initial_master_nodes-only_masters funk cluster

compute_anti_affinity-shape_example :
    compute_anti_affinity funk merge_affinity cluster workers
    ≡ ok (affinity_shape cluster workers "hard" "rack")
compute_anti_affinity-shape_example =
    compute_anti_affinity-shape funk merge_affinity cluster workers funk-IsLawful
      merge_affinity-FillsAntiAffinity

get_secret_name_for_tls_api_cases_example :
    ((ref : String) × IsCustomSecret cluster ref
      × (is_self_managed_secret_for_tls_api cluster ≡ false)
      × (get_secret_name_for_tls_api cluster ≡ ref))
    ⊎ (((ref : String) → ¬ IsCustomSecret cluster ref)
        × (is_self_managed_secret_for_tls_api cluster ≡ true)
        × (get_secret_name_for_tls_api cluster ≡ "prod-os-tls-api"))
get_secret_name_for_tls_api_cases_example = get_secret_name_for_tls_api_cases cluster
