-- ===== src/Generate/StatefulSets/Containers/Parts.antt =====
-- What the container builder is given: variables, ports, mounts, probes.
use opensearch_operator.Common.{
  ℕ, String, ◌<>◌, ◌==◌, Bool, true, false, ◌||◌, is_some, Option, none, some, List, [], ◌∷◌, map,
}
use opensearch_operator.Common.Outcome.{Outcome, ok, panic}
use opensearch_operator.Common.Maps.{GoMap, entries}
use opensearch_operator.Api.Kubernetes.{
  Container, EnvVar, ContainerPort, SecurityContext, Probe, VolumeMount, PodTemplateSpec, Int32,
  pos, negsuc,
}
use opensearch_operator.Api.Types.{Opensearch, NodeGroupSpec, VolumeSpec, PersistenceSpec}
use opensearch_operator.Api.Compute.{get_opensearch_container, compute_java_opts}

-- `&corev1.Container{}`.
abbrev pub empty_container : Container
empty_container = record {
  name = "";
  image = "";
  image_pull_policy = "";
  command = [];
  env = [];
  env_from = none;
  ports = [];
  resources = none;
  volume_mounts = [];
  security_context = none;
  liveness_probe = none;
  readiness_probe = none;
  startup_probe = none;
  others = "";
}

-- The container `opensearch` of a pod template, or an empty one.
abbrev pub container_or_empty : Option PodTemplateSpec → Container
container_or_empty t = elim (get_opensearch_container t) [ none ↦ empty_container | some c ↦ c ]

abbrev pub literal : (name value : String) → EnvVar
literal name value = record { name = name; value = value; value_from = none }

abbrev pub from_field : (name field_path : String) → EnvVar
from_field name field_path = record {
  name = name;
  value = "";
  value_from = some (record { api_version = "v1"; field_path = field_path });
}

-- The variables that the operator computes, with the hosts that it found.
abbrev pub computed_env : Opensearch → NodeGroupSpec → (masters seeds : String) → List EnvVar
computed_env h g masters seeds =
    from_field "node.name" "metadata.name"
    ∷ from_field "host" "spec.nodeName"
    ∷ literal "OPENSEARCH_JAVA_OPTS" (compute_java_opts h g)
    ∷ literal "cluster.initial_master_nodes" masters
    ∷ literal "discovery.seed_hosts" seeds
    ∷ literal "cluster.name" h.meta.name
    ∷ literal "network.host" "0.0.0.0"
    ∷ literal "bootstrap.memory_lock" "true"
    ∷ literal "DISABLE_INSTALL_DEMO_CONFIG" "true"
    ∷ []

abbrev pub is_one : Int32 → Bool
is_one (pos n) = n == 1
is_one (negsuc n) = false

-- `len(h.Spec.NodeGroups) == 1 && h.Spec.NodeGroups[0].Replicas == 1`.
abbrev pub is_single_node : List NodeGroupSpec → Bool
is_single_node [] = false
is_single_node (g ∷ []) = is_one g.replicas
is_single_node (g ∷ k ∷ gs) = false

abbrev pub single_node_env : List EnvVar
single_node_env = literal "discovery.type" "single-node" ∷ []

abbrev pub container_ports : List ContainerPort
container_ports =
    record { name = "http"; container_port = 9200; protocol = "TCP" }
    ∷ record { name = "transport"; container_port = 9300; protocol = "TCP" }
    ∷ []

abbrev pub security_context : SecurityContext
security_context = record {
  drop_capabilities = "ALL" ∷ [];
  privileged = none;
  run_as_user = some 1000;
  run_as_non_root = some true;
}

abbrev pub mount : (name mount_path sub_path : String) → VolumeMount
mount name mount_path sub_path = record {
  name = name;
  mount_path = mount_path;
  sub_path = sub_path;
  read_only = false;
}

-- The loop over the additional volumes: a nil element is a run-time panic at `vol.Name`.
unfoldable pub check_volumes : List (Option VolumeSpec) → Outcome (Unit {0})
check_volumes [] = ok tt
check_volumes (none ∷ vs) = panic "runtime error: invalid memory address or nil pointer dereference"
check_volumes (some v ∷ vs) = check_volumes vs

-- The mounts that the loop appends, where it does not panic.
abbrev pub additional_mounts : List (Option VolumeSpec) → List VolumeMount
additional_mounts [] = []
additional_mounts (none ∷ vs) = additional_mounts vs
additional_mounts (some v ∷ vs) =
    record {
      name = v.name;
      mount_path = v.mount_path;
      sub_path = v.sub_path;
      read_only = v.read_only;
    }
    ∷ additional_mounts vs

abbrev pub tls_mounts : List VolumeMount
tls_mounts =
    mount "node-tls" "/usr/share/opensearch/config/certs/node" ""
    ∷ mount "api-tls" "/usr/share/opensearch/config/certs/api" ""
    ∷ []

abbrev pub is_persistent : Option PersistenceSpec → Bool
is_persistent none = false
is_persistent (some p) = is_some p.volume || is_some p.volume_claim_spec

abbrev pub data_mounts : List VolumeMount
data_mounts = mount "opensearch-data" "/usr/share/opensearch/data" "" ∷ []

-- The loop over the keys of a config map.
abbrev pub config_mounts : GoMap String → List VolumeMount
config_mounts m =
    map (λ e. mount "opensearch-config" ("/usr/share/opensearch/config/" <> e.0) e.0) (entries m)

abbrev pub probe : (initial_delay period failures port : ℕ) → Probe
probe initial_delay period failures port = record {
  initial_delay_seconds = initial_delay;
  timeout_seconds = 5;
  period_seconds = period;
  failure_threshold = failures;
  success_threshold = 1;
  tcp_port = port;
}
