-- ===== src/Tests/Cluster.antt =====
-- A sample cluster.
use opensearch_operator.Common.{String, true, none, some, List, [], ◌∷◌}
use opensearch_operator.Api.Kubernetes.{int}
use opensearch_operator.Api.Types.{
  Int32, pos, NodeGroupSpec, GlobalNodeGroupSpec, IngressSpec, LoadBalancerSpec, Opensearch,
}

abbrev pub group : String → Int32 → List String → NodeGroupSpec
group name replicas roles = record {
  name = name;
  replicas = replicas;
  roles = roles;
  persistence = none;
  anti_affinity = none;
  resources = none;
  jvm = "";
  config = none;
  security_ref = "";
  tolerations = [];
  node_selector = none;
  labels = none;
  annotations = none;
  env = [];
  env_from = none;
  pod_template = none;
  pod_disruption_budget_spec = none;
}

abbrev pub masters : NodeGroupSpec
masters = record (group "master" (pos 3) ("cluster_manager" ∷ [])) {
  config = some (("opensearch.yml", "node.attr.zone: a") ∷ []);
}

abbrev pub workers : NodeGroupSpec
workers = record (group "data" (pos 2) ("data" ∷ "ingest" ∷ [])) {
  anti_affinity = some (record { affinity_type = ""; topology_key = "rack" });
  pod_disruption_budget_spec =
      some (record { min_available = some (int 1); max_unavailable = none; selector = none });
}

abbrev pub global_group : GlobalNodeGroupSpec
global_group = record {
  additional_volumes = [];
  anti_affinity = some (record { affinity_type = "hard"; topology_key = "zone" });
  pod_disruption_budget_spec = none;
  init_container_resources = none;
  pod_template = none;
  jvm = "";
  config = some (("opensearch.yml", "plugins: b") ∷ ("log4j2.properties", "info") ∷ []);
  security_ref = "";
  labels = none;
  annotations = none;
  env = [];
  env_from = none;
}

abbrev pub ingress : IngressSpec
ingress = record {
  enabled = true;
  target_node_group_name = "data";
  host = "search.example.org";
  secret_ref = "search-tls";
  labels = some (("team", "search") ∷ []);
  annotations = none;
  ingress_spec = none;
}

abbrev pub balancer : LoadBalancerSpec
balancer = record { enabled = true; target_node_group_name = "data"; tls = none }

abbrev pub cluster_of : String → List NodeGroupSpec → Opensearch
cluster_of name groups = record {
  meta = record {
    namespace = "default";
    name = name;
    labels = some (("team", "platform") ∷ []);
    annotations = none;
  };
  spec = record {
    image_spec = record { image = ""; image_pull_policy = ""; image_pull_secrets = [] };
    version = "2.4.1";
    set_vm_max_map_count = none;
    plugins_list = [];
    global_node_group = global_group;
    node_groups = groups;
    endpoint = some (record { ingress = some ingress; load_balancer = some balancer });
  };
  status = record { phase = ""; url = ""; credentials_ref = ""; conditions = [] };
}

abbrev pub cluster : Opensearch
cluster = cluster_of "prod" (masters ∷ workers ∷ [])
