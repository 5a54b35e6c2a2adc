-- ===== src/Generate/Services.antt =====
-- `GenerateServices`: one service for the cluster, and two for each node group.
pub mod Distinct
pub mod Selectors
use opensearch_operator.Common.{String, true, false, some, List, [], ◌∷◌}
use opensearch_operator.Common.Outcome.{Outcome, ok}
use opensearch_operator.Common.Maps.{GoMap}
use opensearch_operator.Funk.{Funk}
use opensearch_operator.Api.Kubernetes.{Service}
use opensearch_operator.Api.Types.{Opensearch, NodeGroupSpec}
use opensearch_operator.Api.Names.{
  get_global_service_name, get_node_group_service_name, get_node_group_service_name_headless,
}
use opensearch_operator.Generate.Common.{
  object_meta, cluster_selector, group_selector, http_port, transport_port,
}

abbrev pub default_headless_annotations : GoMap String
default_headless_annotations =
    some (("service.alpha.kubernetes.io/tolerate-unready-endpoints", "true") ∷ [])

abbrev pub cluster_service : Opensearch → Service
cluster_service h = record {
  meta = object_meta h (get_global_service_name h);
  spec = record {
    service_type = "ClusterIP";
    cluster_ip = "";
    publish_not_ready_addresses = false;
    session_affinity = "None";
    selector = cluster_selector h;
    ports = http_port ∷ transport_port ∷ [];
  };
}

abbrev pub group_service : Opensearch → NodeGroupSpec → Service
group_service h g = record {
  meta = object_meta h (get_node_group_service_name h g.name);
  spec = record {
    service_type = "ClusterIP";
    cluster_ip = "";
    publish_not_ready_addresses = false;
    session_affinity = "None";
    selector = group_selector h g;
    ports = http_port ∷ transport_port ∷ [];
  };
}

abbrev pub headless_service : Funk → Opensearch → NodeGroupSpec → Service
headless_service funk h g = record {
  meta = record {
    namespace = h.meta.namespace;
    name = get_node_group_service_name_headless h g.name;
    labels = h.meta.labels;
    annotations = funk.union_string_map (h.meta.annotations ∷ default_headless_annotations ∷ []);
  };
  spec = record {
    service_type = "ClusterIP";
    cluster_ip = "None";
    publish_not_ready_addresses = true;
    session_affinity = "None";
    selector = group_selector h g;
    ports = http_port ∷ transport_port ∷ [];
  };
}

-- The loop over the node groups.
unfoldable pub group_services : Funk → Opensearch → List NodeGroupSpec → List Service
group_services funk h [] = []
group_services funk h (g ∷ gs) =
    group_service h g ∷ headless_service funk h g ∷ group_services funk h gs

unfoldable pub generate_services : Funk → Opensearch → Outcome (List Service)
unfolding group_services
generate_services funk h = ok (cluster_service h ∷ group_services funk h h.spec.node_groups)
