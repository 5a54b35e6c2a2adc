-- ===== src/Generate/StatefulSets/Template.antt =====
-- The pod template of a node group, from the first call of the pod template builder on.
use opensearch_operator.Common.{
  String, ◌=?◌, Bool, true, not, Option, none, some, List, [], ◌∷◌, if◌then◌else◌,
}
use opensearch_operator.Api.Kubernetes.{
  Container, PodTemplateSpec, PodAntiAffinity, Volume, VolumeSource,
}
use opensearch_operator.Api.Types.{Opensearch, NodeGroupSpec, VolumeSpec, PersistenceSpec}
use opensearch_operator.Api.Names.{
  get_node_group_name, get_node_group_config_map_name, get_secret_name_for_tls_transport,
  get_secret_name_for_tls_api, get_secret_name_for_security_config, get_container_image,
}
use opensearch_operator.Generate.Common.{group_selector}
use opensearch_operator.Generate.Builder.{Builder, merge, overwrite, overwrite_if_default}
use opensearch_operator.Generate.StatefulSets.Containers.{empty_container}

abbrev pub base_volumes : Opensearch → NodeGroupSpec → List Volume
base_volumes h g =
    record { name = "node-tls"; source = VolumeSource.secret (get_secret_name_for_tls_transport h) }
    ∷ record { name = "api-tls"; source = VolumeSource.secret (get_secret_name_for_tls_api h) }
    ∷ record {
      name = "opensearch-config";
      source = VolumeSource.config_map (get_node_group_config_map_name h g.name);
    }
    ∷ []

-- The second loop over the additional volumes: where one is nil, the first loop has panicked.
abbrev pub additional_volumes : List (Option VolumeSpec) → List Volume
additional_volumes [] = []
additional_volumes (none ∷ vs) = additional_volumes vs
additional_volumes (some v ∷ vs) =
    record { name = v.name; source = v.volume_source } ∷ additional_volumes vs

abbrev pub security_volumes : String → List Volume
security_volumes name =
    record { name = "opensearch-security"; source = VolumeSource.secret name } ∷ []

-- The volume with the data, where a volume is given and no claim.
unfoldable pub data_volume : Option PersistenceSpec → Option VolumeSource
data_volume none = none
data_volume (some p) = elim p.volume_claim_spec [ none ↦ p.volume | some c ↦ none ]

abbrev pub is_sysctl_needed : Option Bool → Bool
is_sysctl_needed none = true
is_sysctl_needed (some b) = b

module _ (b : Builder) (h : Opensearch) (g : NodeGroupSpec) where
  -- What the user gives, with labels and annotations.
  unfoldable pub labelled_template : PodTemplateSpec
  labelled_template =
      let global = h.spec.global_node_group in
      let t =
        b.with_pod_template_spec g.pod_template merge
          (b.with_pod_template_spec global.pod_template overwrite b.new_pod_template) in
      let labelled = b.with_labels (group_selector h g) merge (
        b.with_labels g.labels merge
          (b.with_labels global.labels merge (b.with_labels h.meta.labels merge t))) in
      b.with_annotations g.annotations merge (
        b.with_annotations global.annotations merge
          (b.with_annotations h.meta.annotations merge labelled))

  -- Where the pods run, and for how long they may stop.
  unfoldable pub add_placement : PodAntiAffinity → PodTemplateSpec → PodTemplateSpec
  add_placement anti_affinity t = b.with_affinity anti_affinity merge (
      b.with_tolerations g.tolerations merge (
        b.with_termination_grace_period_seconds 120 overwrite_if_default
          (b.with_node_selector g.node_selector merge t)))

  abbrev pub sysctl_container : Container
  sysctl_container = b.with_resource h.spec.global_node_group.init_container_resources overwrite (
      b.with_container
        (record empty_container {
          name = "configure-sysctl";
          image = get_container_image h;
          image_pull_policy = h.spec.image_spec.image_pull_policy;
          security_context = some (record {
            drop_capabilities = [];
            privileged = some true;
            run_as_user = some 0;
            run_as_non_root = none;
          });
          command = "sysctl" ∷ "-w" ∷ "vm.max_map_count=262144" ∷ [];
        })
        overwrite b.new_container)

  unfoldable pub add_containers : Container → PodTemplateSpec → PodTemplateSpec
  add_containers container t =
      let t' = b.with_containers (container ∷ []) merge t in
      if is_sysctl_needed h.spec.set_vm_max_map_count
      then b.with_init_containers (sysctl_container ∷ []) merge t'
      else t'

  abbrev pub add_common_volumes : PodTemplateSpec → PodTemplateSpec
  add_common_volumes t =
      b.with_volumes (additional_volumes h.spec.global_node_group.additional_volumes) merge
        (b.with_volumes (base_volumes h g) merge t)

  unfoldable pub add_security_volume : PodTemplateSpec → PodTemplateSpec
  add_security_volume t =
      let name = get_secret_name_for_security_config h g in
      if not (name =? "") then b.with_volumes (security_volumes name) merge t else t

  unfoldable pub add_data_volume : Option VolumeSource → PodTemplateSpec → PodTemplateSpec
  add_data_volume none t = t
  add_data_volume (some source) t =
      b.with_volumes (record { name = "opensearch-data"; source = source } ∷ []) merge t

  unfoldable pub add_volumes : PodTemplateSpec → PodTemplateSpec
  unfolding add_security_volume add_data_volume data_volume
  add_volumes t =
      add_data_volume (data_volume g.persistence) (add_security_volume (add_common_volumes t))

  unfoldable pub pod_template : Container → PodAntiAffinity → PodTemplateSpec
  unfolding labelled_template add_placement add_containers add_volumes
  pod_template container anti_affinity =
      record (b.with_fs_group 1000 merge
        (add_volumes (add_containers container (add_placement anti_affinity labelled_template)))) {
          name = get_node_group_name h g.name;
        }
