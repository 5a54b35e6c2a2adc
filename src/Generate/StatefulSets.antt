-- ===== src/Generate/StatefulSets.antt =====
-- `GenerateStatefullsets`: one stateful set for each node group. The children have its parts: the
-- container (Containers) and the pod template (Template).
pub mod Containers
pub mod Template
pub mod Frames
pub mod Env
pub mod Mounts
pub mod Sets
use opensearch_operator.Common.{String, ◌<>◌, Option, none, some, List, [], ◌∷◌}
use opensearch_operator.Common.Outcome.{Outcome, ok, ◌>>=◌, wrapping}
use opensearch_operator.Funk.{Funk}
use opensearch_operator.Helper.Merge.{Mergo}
use opensearch_operator.Helper.Settings.{Yaml}
use opensearch_operator.Api.Kubernetes.{
  Container, PodTemplateSpec, StatefulSet, PersistentVolumeClaim, Manifest,
}
use opensearch_operator.Api.Types.{Opensearch, NodeGroupSpec, AntiAffinitySpec, PersistenceSpec}
use opensearch_operator.Api.Names.{get_node_group_name, get_node_group_service_name_headless}
use opensearch_operator.Api.Compute.{compute_anti_affinity}
use opensearch_operator.Generate.Common.{object_meta, group_selector}
use opensearch_operator.Generate.Builder.{Builder}
use opensearch_operator.Generate.StatefulSets.Containers.{opensearch_container}
use opensearch_operator.Generate.StatefulSets.Template.{pod_template}

unfoldable pub claim_of : Option PersistenceSpec → Option Manifest
claim_of none = none
claim_of (some p) = p.volume_claim_spec

abbrev pub claims_of : Option Manifest → List PersistentVolumeClaim
claims_of none = []
claims_of (some spec) = record { name = "opensearch-data"; spec = spec } ∷ []

-- The claim template of the node group, if it has one.
unfoldable pub claims : NodeGroupSpec → List PersistentVolumeClaim
unfolding claim_of
claims g = claims_of (claim_of g.persistence)

abbrev pub stateful_set : Opensearch → NodeGroupSpec → PodTemplateSpec → StatefulSet
stateful_set h g template = record {
  meta = object_meta h (get_node_group_name h g.name);
  replicas = g.replicas;
  pod_management_policy = "Parallel";
  service_name = get_node_group_service_name_headless h g.name;
  selector = record { match_labels = group_selector h g };
  template = template;
  volume_claim_templates = claims g;
}

module _ (b : Builder) (yaml : Yaml) (funk : Funk) (mergo : Mergo AntiAffinitySpec) where
  -- One round of the loop.
  unfoldable pub group_stateful_set : Opensearch → NodeGroupSpec → Outcome StatefulSet
  unfolding claims
  group_stateful_set h g = do
    container ← opensearch_container b h g yaml funk
    anti_affinity ←
        wrapping ("Error when compute anti affinity for " <> g.name)
          (compute_anti_affinity funk mergo h g)
    ok (stateful_set h g (pod_template b h g container anti_affinity))

  unfoldable pub group_stateful_sets : Opensearch → List NodeGroupSpec → Outcome (List StatefulSet)
  group_stateful_sets h [] = ok []
  group_stateful_sets h (g ∷ gs) = do
    s ← group_stateful_set h g
    ss ← group_stateful_sets h gs
    ok (s ∷ ss)

  unfoldable pub generate_statefullsets : Opensearch → Outcome (List StatefulSet)
  unfolding group_stateful_sets group_stateful_set
  generate_statefullsets h = group_stateful_sets h h.spec.node_groups
