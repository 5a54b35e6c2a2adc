-- ===== src/Api/Compute.antt =====
-- api/v1alpha1/opensearch_internal.go, with `IsMasterRole` of opensearch_func.go: the values that
-- the generators put into the objects.
pub mod Roles
pub mod Masters
pub mod Affinity
use opensearch_operator.Common.{
  String, ◌<>◌, ◌=?◌, Bool, true, false, not, Option, none, some, List, [], ◌∷◌, ◌++◌,
  if◌then◌else◌, is_some, ◌||◌,
}
use opensearch_operator.Common.Outcome.{Outcome, ok, err, panic, ◌>>=◌, wrapping}
use opensearch_operator.Common.Text.{join}
use opensearch_operator.Funk.{Funk}
use opensearch_operator.Helper.Merge.{Mergo, Destination, pointer, pointee, merge}
use opensearch_operator.Api.Kubernetes.{
  EnvVar, LabelSelector, PodAffinityTerm, WeightedPodAffinityTerm, PodAntiAffinity, Container,
  PodTemplateSpec, Manifest,
}
use opensearch_operator.Api.Types.{Opensearch, NodeGroupSpec, AntiAffinitySpec}
use opensearch_operator.Api.Names.{get_node_group_node_names, get_node_group_service_name_headless}

abbrev pub role_list : List String
role_list =
    "cluster_manager" ∷ "data" ∷ "ingest" ∷ "ml" ∷ "remote_cluster_client" ∷ "transform" ∷ []

abbrev pub append_set : String → List String → List String
append_set s rest = if not (s =? "") then s ∷ rest else rest

unfoldable pub compute_java_opts : Opensearch → NodeGroupSpec → String
compute_java_opts h g = join (append_set h.spec.global_node_group.jvm (append_set g.jvm [])) " "

module _ (funk : Funk) where
  unfoldable pub is_master_role : NodeGroupSpec → Bool
  is_master_role g = funk.contains g.roles "cluster_manager"

  -- The loop of `computeInitialMasterNodes`.
  unfoldable pub master_nodes_of : Opensearch → List NodeGroupSpec → Outcome (List String)
  master_nodes_of h [] = ok []
  master_nodes_of h (g ∷ gs) =
      let rest = master_nodes_of h gs in
      if is_master_role g
      then (get_node_group_node_names h g >>= λ names. rest >>= λ more. ok (names ++ more))
      else rest

  unfoldable pub compute_initial_master_nodes : Opensearch → Outcome String
  unfolding master_nodes_of
  compute_initial_master_nodes h = do
    names ← master_nodes_of h h.spec.node_groups
    ok (join names " ")

  -- The loop of `computeDiscoverySeedHosts`.
  unfoldable pub seed_hosts_of : Opensearch → List NodeGroupSpec → List String
  seed_hosts_of h [] = []
  seed_hosts_of h (g ∷ gs) =
      let rest = seed_hosts_of h gs in
      if is_master_role g then get_node_group_service_name_headless h g.name ∷ rest else rest

  unfoldable pub compute_discovery_seed_hosts : Opensearch → String
  unfolding seed_hosts_of
  compute_discovery_seed_hosts h = join (seed_hosts_of h h.spec.node_groups) " "

  -- The loop of `computeRoles` over the known roles.
  unfoldable pub roles_env : List String → List String → List EnvVar
  roles_env roles [] = []
  roles_env roles (role ∷ known) =
      let flag = if funk.contains_string roles role then "true" else "false" in
      record { name = "node." <> role; value = flag; value_from = none } ∷ roles_env roles known

  unfoldable pub compute_roles : List String → List EnvVar
  unfolding roles_env
  compute_roles roles = roles_env roles role_list

abbrev pub pod_affinity_term : Opensearch → NodeGroupSpec → String → PodAffinityTerm
pod_affinity_term h g key = record {
  topology_key = key;
  label_selector = record {
    match_labels = some (("cluster", h.meta.name) ∷ ("nodeGroup", g.name) ∷ []);
  };
}

-- The end of `computeAntiAffinity`, from the merged settings on.
pub anti_affinity_of : Opensearch → NodeGroupSpec → Option AntiAffinitySpec → PodAntiAffinity
anti_affinity_of h g none = record {
  required = [];
  preferred = record { weight = 10; term = pod_affinity_term h g "kubernetes.io/hostname" } ∷ [];
}
anti_affinity_of h g (some a) =
    let key = if not (a.topology_key =? "") then a.topology_key else "kubernetes.io/hostname" in
    if a.affinity_type =? "hard"
    then record { required = pod_affinity_term h g key ∷ []; preferred = [] }
    else record {
      required = [];
      preferred = record { weight = 10; term = pod_affinity_term h g key } ∷ [];
    }

-- The settings that the first part of `computeAntiAffinity` merges: those of the node group, the
-- global ones, and the global ones once more as `funk.Get` reads them. None is needed if both
-- pointers are nil.
pub merged_anti_affinity :
    Mergo AntiAffinitySpec
    → (own global read : Option AntiAffinitySpec) → Outcome (Option AntiAffinitySpec)
merged_anti_affinity mergo own global read =
    if is_some own || is_some global
    then (do
      d ← merge mergo (pointer (record { affinity_type = ""; topology_key = "" })) (own ∷ read ∷ [])
      ok (pointee d))
    else ok none

unfoldable pub compute_anti_affinity :
    Funk → Mergo AntiAffinitySpec → Opensearch → NodeGroupSpec → Outcome PodAntiAffinity
unfolding anti_affinity_of merged_anti_affinity
compute_anti_affinity funk mergo h g = do
  let global = h.spec.global_node_group
  merged ← wrapping ("Error when merge global anti affinity  with node group " <> g.name) (
      merged_anti_affinity mergo g.anti_affinity global.anti_affinity
        (funk.get_anti_affinity global))
  ok (anti_affinity_of h g merged)

-- `append(a, b...)` of two slices that may be nil, as `computeEnvFroms` does it: never nil.
unfoldable pub compute_env_froms : Opensearch → NodeGroupSpec → List Manifest
compute_env_froms h g = elim g.env_from [
  | none ↦ elim h.spec.global_node_group.env_from [ none ↦ [] | some es ↦ es ]
  | some own ↦ elim h.spec.global_node_group.env_from [ none ↦ own | some es ↦ own ++ es ]
]

-- The loop of `getOpensearchContainer`.
pub find_container : List Container → Option Container
find_container [] = none
find_container (p ∷ ps) = if p.name =? "opensearch" then some p else find_container ps

unfoldable pub get_opensearch_container : Option PodTemplateSpec → Option Container
unfolding find_container
get_opensearch_container none = none
get_opensearch_container (some t) = find_container t.containers
