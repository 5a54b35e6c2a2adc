-- ===== src/Generate/StatefulSets/Frames.antt =====
-- Which parts of the container builder's calls leave the environment and the mounts alone.
use opensearch_operator.Common.{
  ◌≡◌, refl, ap, ◌∙◌, ◌=?◌, String, List, [], ◌∷◌, inl, inr, Bool-cases,
}
use opensearch_operator.Funk.{Funk}
use opensearch_operator.Helper.Settings.{Yaml}
use opensearch_operator.Api.Kubernetes.{Container, EnvVar, VolumeMount, ConfigMap}
use opensearch_operator.Api.Types.{Opensearch, NodeGroupSpec}
use opensearch_operator.Api.Names.{get_node_group_config_map_name}
use opensearch_operator.Common.Outcome.{ok, wrapping, >>=-eq-ok, wrapping-eq-ok}
use opensearch_operator.Api.Compute.{compute_initial_master_nodes}
use opensearch_operator.Generate.ConfigMaps.{generate_config_maps}
use opensearch_operator.Generate.Builder.{Builder, SetsOneField}
use opensearch_operator.Generate.StatefulSets.Containers.{
  check_volumes, add_env, add_settings, add_mounts, add_config_mount, add_config_mounts, add_probes,
  assemble, opensearch_container, is_single_node, is_persistent,
}

abbrev env_of : Container → List EnvVar
env_of c = c.env

abbrev mounts_of : Container → List VolumeMount
mounts_of c = c.volume_mounts

module _ (b : Builder) (sets : SetsOneField b) (h : Opensearch) (g : NodeGroupSpec) where
  pub add_settings-env : (c : Container) → (add_settings b h g c).env ≡ c.env
  unfolding add_settings
  add_settings-env c =
      ap env_of (sets.security_context_only _ _ _)
      ∙ ap env_of (sets.image_pull_policy_only _ _ _)
      ∙ ap env_of (sets.image_pull_policy_only _ _ _)
      ∙ ap env_of (sets.image_pull_policy_only _ _ _)
      ∙ ap env_of (sets.image_only _ _ _)
      ∙ ap env_of (sets.resource_only _ _ _)
      ∙ ap env_of (sets.port_only _ _ _)

  pub add_settings-mounts : (c : Container) → (add_settings b h g c).volume_mounts ≡ c.volume_mounts
  unfolding add_settings
  add_settings-mounts c =
      ap mounts_of (sets.security_context_only _ _ _)
      ∙ ap mounts_of (sets.image_pull_policy_only _ _ _)
      ∙ ap mounts_of (sets.image_pull_policy_only _ _ _)
      ∙ ap mounts_of (sets.image_pull_policy_only _ _ _)
      ∙ ap mounts_of (sets.image_only _ _ _)
      ∙ ap mounts_of (sets.resource_only _ _ _)
      ∙ ap mounts_of (sets.port_only _ _ _)

  pub add_probes-env : (c : Container) → (add_probes b h g c).env ≡ c.env
  unfolding add_probes
  add_probes-env c =
      ap env_of (sets.startup_only _ _ _)
      ∙ ap env_of (sets.readiness_only _ _ _)
      ∙ ap env_of (sets.liveness_only _ _ _)

  pub add_probes-mounts : (c : Container) → (add_probes b h g c).volume_mounts ≡ c.volume_mounts
  unfolding add_probes
  add_probes-mounts c =
      ap mounts_of (sets.startup_only _ _ _)
      ∙ ap mounts_of (sets.readiness_only _ _ _)
      ∙ ap mounts_of (sets.liveness_only _ _ _)

  pub add_mounts-env : (c : Container) → (add_mounts b h g c).env ≡ c.env
  unfolding add_mounts
  add_mounts-env c =
      let base =
        ap env_of (sets.volume_mount_only _ _ _) ∙ ap env_of (sets.volume_mount_only _ _ c) in
      elim (Bool-cases (is_persistent g.persistence)) [
        | inl kept ↦ rw kept (ap env_of (sets.volume_mount_only _ _ _) ∙ base)
        | inr lost ↦ rw lost base
      ]

  add_config_mount-env : (m : ConfigMap) (c : Container) → (add_config_mount b h g m c).env ≡ c.env
  unfolding add_config_mount
  add_config_mount-env m c =
      elim (Bool-cases (m.meta.name =? get_node_group_config_map_name h g.name)) [
        | inl own ↦ rw own (ap env_of (sets.volume_mount_only _ _ c))
        | inr other ↦ rw other refl
      ]

  pub add_config_mounts-env :
      (ms : List ConfigMap) (c : Container) → (add_config_mounts b h g ms c).env ≡ c.env
  unfolding add_config_mounts
  add_config_mounts-env [] c = refl
  add_config_mounts-env (m ∷ ms) c = add_config_mounts-env ms _ ∙ add_config_mount-env m c

  module _ (funk : Funk) where
    pub add_env-mounts :
        (masters seeds : String) (c : Container)
        → (add_env b h g funk masters seeds c).volume_mounts ≡ c.volume_mounts
    unfolding add_env
    add_env-mounts masters seeds c =
        let base =
          ap mounts_of (sets.env_only _ _ _)
          ∙ ap mounts_of (sets.env_only _ _ _)
          ∙ ap mounts_of (sets.env_only _ _ _)
          ∙ ap mounts_of (sets.env_only _ _ c) in
        elim (Bool-cases (is_single_node h.spec.node_groups)) [
          | inl one ↦ rw one (ap mounts_of (sets.env_only _ _ _) ∙ base)
          | inr more ↦ rw more base
        ]

-- What a container was put together from.
pub opensearch_container-assemble :
    (b : Builder) (h : Opensearch) (g : NodeGroupSpec) (yaml : Yaml) (funk : Funk) {c : Container}
    → opensearch_container b h g yaml funk ≡ ok c
    → (masters : String) × (maps : List ConfigMap) × (compute_initial_master_nodes funk h
        ≡ ok masters)
      × (generate_config_maps yaml funk h ≡ ok maps)
      × (assemble b h g funk masters maps ≡ c)
unfolding opensearch_container
opensearch_container-assemble b h g yaml funk {c} e =
    let (masters, found, rest) = >>=-eq-ok (compute_initial_master_nodes funk h) _ e in
    let (_, _, rest') =
      >>=-eq-ok (check_volumes h.spec.global_node_group.additional_volumes) _ rest in
    let (maps, run, last) =
      >>=-eq-ok (wrapping "Error when generate configMaps" (generate_config_maps yaml funk h)) _
        rest' in
    let same : ok (assemble b h g funk masters maps) ≡ ok c = last in
    (masters, maps, found, wrapping-eq-ok _ _ run, cc)
