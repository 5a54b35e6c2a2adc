-- ===== src/Generate/StatefulSets/Containers.antt =====
-- The container of a node group's pods, from the first call of the container builder to the
-- command.
mod Parts
unfoldable pub use Parts.*
use opensearch_operator.Common.{
  ℕ, String, ◌<>◌, ◌=?◌, ◌==◌, Bool, true, false, ◌||◌, is_some, Option, none, some, List, [], ◌∷◌,
  map, if◌then◌else◌,
}
use opensearch_operator.Common.Outcome.{Outcome, ok, ◌>>=◌, wrapping}
use opensearch_operator.Common.Maps.{GoMap, entries}
use opensearch_operator.Funk.{Funk}
use opensearch_operator.Helper.Settings.{Yaml}
use opensearch_operator.Api.Kubernetes.{
  Container, EnvVar, ContainerPort, SecurityContext, Probe, VolumeMount, ConfigMap, PodTemplateSpec,
  Int32, pos, negsuc,
}
use opensearch_operator.Api.Types.{Opensearch, NodeGroupSpec, VolumeSpec, PersistenceSpec}
use opensearch_operator.Api.Names.{get_node_group_config_map_name, get_container_image}
use opensearch_operator.Api.Compute.{
  get_opensearch_container, compute_roles, compute_java_opts, compute_initial_master_nodes,
  compute_discovery_seed_hosts,
}
use opensearch_operator.Generate.ConfigMaps.{generate_config_maps}
use opensearch_operator.Generate.Builder.{Builder, merge, overwrite, overwrite_if_default}

-- The loop over the plugins.
pub install_plugins : List String → String
install_plugins [] = ""
install_plugins (plugin ∷ plugins) =
    "./bin/opensearch-plugin install -b " <> (plugin <> ("\n" <> install_plugins plugins))

unfoldable pub startup_script : List String → String
unfolding install_plugins
startup_script plugins =
    "#!/usr/bin/env bash\nset -euo pipefail\n\n"
    <> (install_plugins plugins <> "bash opensearch-docker-entrypoint.sh\n")

module _ (b : Builder) (h : Opensearch) (g : NodeGroupSpec) where
  abbrev pub global_container : Container
  global_container = container_or_empty h.spec.global_node_group.pod_template

  abbrev pub local_container : Container
  local_container = container_or_empty g.pod_template

  -- What the user gives, and the `EnvFrom`.
  unfoldable pub initial_container : Container
  initial_container =
      let c =
        b.with_container local_container merge
          (b.with_container global_container overwrite b.new_container) in
      b.with_env_from g.env_from merge (
        b.with_env_from h.spec.global_node_group.env_from overwrite
          (record c { name = "opensearch" }))

  -- The environment, from that of the user to that of the operator.
  unfoldable pub add_env : Funk → (masters seeds : String) → Container → Container
  add_env funk masters seeds c =
      let c' = b.with_env (computed_env h g masters seeds) merge (
        b.with_env (compute_roles funk g.roles) merge
          (b.with_env g.env merge (b.with_env h.spec.global_node_group.env overwrite c))) in
      if is_single_node h.spec.node_groups then b.with_env single_node_env merge c' else c'

  -- Ports, resources, image and security context.
  unfoldable pub add_settings : Container → Container
  add_settings c = b.with_security_context security_context overwrite_if_default (
      b.with_image_pull_policy local_container.image_pull_policy merge (
        b.with_image_pull_policy global_container.image_pull_policy merge (
          b.with_image_pull_policy h.spec.image_spec.image_pull_policy overwrite (
            b.with_image (get_container_image h) overwrite_if_default
              (b.with_resource g.resources merge (b.with_port container_ports merge c))))))

  -- The mounts that do not depend on the config maps.
  unfoldable pub add_mounts : Container → Container
  add_mounts c =
      let c' = b.with_volume_mount tls_mounts merge (
        b.with_volume_mount (additional_mounts h.spec.global_node_group.additional_volumes)
          overwrite c) in
      if is_persistent g.persistence then b.with_volume_mount data_mounts merge c' else c'

  -- The loop over the config maps.
  unfoldable pub add_config_mount : ConfigMap → Container → Container
  add_config_mount m c =
      if m.meta.name =? get_node_group_config_map_name h g.name
      then b.with_volume_mount (config_mounts m.contents) merge c
      else c

  unfoldable pub add_config_mounts : List ConfigMap → Container → Container
  unfolding add_config_mount
  add_config_mounts [] c = c
  add_config_mounts (m ∷ ms) c = add_config_mounts ms (add_config_mount m c)

  -- The probes and the command.
  unfoldable pub add_probes : Container → Container
  add_probes c =
      record (b.with_startup_probe (probe 10 10 30 9200) overwrite_if_default (
        b.with_readiness_probe (probe 0 30 3 9200) overwrite_if_default
          (b.with_liveness_probe (probe 0 30 10 9300) overwrite_if_default c))) {
            command = "sh" ∷ "-c" ∷ startup_script h.spec.plugins_list ∷ [];
          }

  -- All calls in turn, with the hosts and the config maps.
  unfoldable pub assemble : Funk → (masters : String) → List ConfigMap → Container
  unfolding initial_container add_env add_settings add_mounts add_config_mounts add_probes
      startup_script
  assemble funk masters maps = add_probes (
      add_config_mounts maps (
        add_mounts (
          add_settings
            (add_env funk masters (compute_discovery_seed_hosts funk h) initial_container))))

  unfoldable pub opensearch_container : Yaml → Funk → Outcome Container
  unfolding assemble
  opensearch_container yaml funk = do
    masters ← compute_initial_master_nodes funk h
    _ ← check_volumes h.spec.global_node_group.additional_volumes
    maps ← wrapping "Error when generate configMaps" (generate_config_maps yaml funk h)
    ok (assemble funk masters maps)
