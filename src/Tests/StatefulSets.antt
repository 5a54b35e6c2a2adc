-- ===== src/Tests/StatefulSets.antt =====
-- The stateful sets of the sample cluster, and of one whose pods keep data and security settings.
use opensearch_operator.Common.{
  ◌≡◌, refl, false, none, some, List, [], ◌∷◌, map, In, inl, inr, ◌⊎◌, Pairs,
}
use opensearch_operator.Common.Outcome.{ok, panic}
use opensearch_operator.Helper.Settings.{merge_contents, merge_settings}
use opensearch_operator.Api.Kubernetes.{Container, PodAntiAffinity, StatefulSet, VolumeSource}
use opensearch_operator.Api.Types.{Opensearch, NodeGroupSpec, VolumeSpec}
use opensearch_operator.Api.Compute.{
  compute_initial_master_nodes, is_master_role, get_opensearch_container,
}
use opensearch_operator.Api.Names.{
  get_secret_name_for_security_config, get_node_group_node_names, get_node_group_config_map_name,
  get_node_group_name,
}
use opensearch_operator.Generate.ConfigMaps.{generate_config_maps}
use opensearch_operator.Generate.Builder.{mount_names, volume_names}
use opensearch_operator.Generate.Services.{cluster_service, group_services, generate_services}
use opensearch_operator.Generate.StatefulSets.{claims, generate_statefullsets}
use opensearch_operator.Generate.StatefulSets.Containers.{
  check_volumes, opensearch_container, global_container, local_container, startup_script,
}
use opensearch_operator.Generate.StatefulSets.Template.{pod_template}
use opensearch_operator.Generate.StatefulSets.Env.{IsConfigured, opensearch_container-IsConfigured}
use opensearch_operator.Generate.StatefulSets.Mounts.Volumes.{mounts-Provided}
use opensearch_operator.Generate.StatefulSets.Mounts.Security.{security_volume-Unmounted}
use opensearch_operator.Generate.StatefulSets.Sets.{
  IsStatefulSet, generate_statefullsets-IsStatefulSet,
}
use opensearch_operator.Generate.StatefulSets.Sets.Total.{
  generate_statefullsets_total, generate_statefullsets_panics,
}
use opensearch_operator.Tests.Library.{funk, funk-IsLawful}
use opensearch_operator.Tests.Merging.{merge_affinity, merge_affinity-FillsAntiAffinity}
use opensearch_operator.Tests.External.{yaml}
use opensearch_operator.Tests.Settings.{cluster-IsMergeable}
use opensearch_operator.Tests.Building.{
  building, building-SetsOneField, building-MergesEnv, building-AddsMounts,
  building-MergesTemplates,
}
use opensearch_operator.Tests.Cluster.{cluster, masters, workers}

-- A master group with a claim for its data and a secret with its security settings.
abbrev keepers : NodeGroupSpec
keepers = record masters {
  persistence = some (record { volume_claim_spec = some "10Gi"; volume = none });
  security_ref = "roles";
}

script_of_one :
    startup_script ("a" ∷ [])
    ≡ "#!/usr/bin/env bash\nset -euo pipefail\n\n./bin/opensearch-plugin install -b a\nbash opensearch-docker-entrypoint.sh\n"
unfolding startup_script
script_of_one = refl

container_of : (c : Container) × (opensearch_container building cluster keepers yaml funk ≡ ok c)
unfolding opensearch_container check_volumes compute_initial_master_nodes generate_config_maps
    merge_contents is_master_role get_node_group_node_names merge_settings
container_of = (_, refl)

affinity : PodAntiAffinity
affinity = record { required = []; preferred = [] }

opensearch_container-IsConfigured_example : IsConfigured funk cluster keepers container_of.0
opensearch_container-IsConfigured_example =
    opensearch_container-IsConfigured building building-SetsOneField building-MergesEnv funk cluster
      keepers yaml container_of.1

mounts-Provided_example :
    (In "opensearch-data" (mount_names (global_container building cluster keepers).volume_mounts)
      ⊎ In "opensearch-data" (mount_names (local_container building cluster keepers).volume_mounts))
    ⊎ (In "opensearch-data"
          (volume_names (pod_template building cluster keepers container_of.0 affinity).volumes)
        ⊎ In "opensearch-data" (map (λ c. c.name) (claims keepers)))
unfolding container_of get_node_group_config_map_name get_node_group_name
mounts-Provided_example =
    mounts-Provided building building-MergesTemplates cluster keepers "opensearch-data"
      container_of.0 affinity building-SetsOneField building-AddsMounts yaml funk container_of.1
      (inr (inr (inl refl)))

services_built :
    generate_services funk cluster
    ≡ ok (cluster_service cluster ∷ group_services funk cluster (masters ∷ workers ∷ []))
unfolding generate_services
services_built = refl

pub sets_built :
    (sets : List StatefulSet) × (generate_statefullsets building yaml funk merge_affinity cluster
      ≡ ok sets)
sets_built =
    generate_statefullsets_total building yaml funk merge_affinity cluster funk-IsLawful
      merge_affinity-FillsAntiAffinity refl cluster-IsMergeable tt

generate_statefullsets_total_example :
    (sets : List StatefulSet) × (generate_statefullsets building yaml funk merge_affinity cluster
      ≡ ok sets)
generate_statefullsets_total_example =
    generate_statefullsets_total building yaml funk merge_affinity cluster funk-IsLawful
      merge_affinity-FillsAntiAffinity refl cluster-IsMergeable tt

generate_statefullsets-IsStatefulSet_example :
    Pairs
      (IsStatefulSet cluster
        (cluster_service cluster ∷ group_services funk cluster (masters ∷ workers ∷ [])))
      (masters ∷ workers ∷ [])
      sets_built.0
generate_statefullsets-IsStatefulSet_example =
    generate_statefullsets-IsStatefulSet building yaml funk merge_affinity cluster
      building-MergesTemplates services_built sets_built.1

security_volume-Unmounted_example :
    In "opensearch-security"
      (volume_names (pod_template building cluster keepers container_of.0 affinity).volumes)
    × (¬ In "opensearch-security" (mount_names container_of.0.volume_mounts))
unfolding get_secret_name_for_security_config get_opensearch_container
security_volume-Unmounted_example =
    security_volume-Unmounted building yaml funk cluster keepers affinity building-SetsOneField
      building-AddsMounts building-MergesTemplates container_of.1 (λ e. cc) (λ i. i) (λ i. i) λ i. i

abbrev scratch : VolumeSpec
scratch = record {
  name = "scratch";
  mount_path = "/scratch";
  sub_path = "";
  read_only = false;
  volume_source = VolumeSource.config_map "scratch";
}

-- The second of three additional volumes is nil.
abbrev holed : Opensearch
holed = record cluster {
  spec = record cluster.spec {
    global_node_group = record cluster.spec.global_node_group {
      additional_volumes = some scratch ∷ none ∷ some scratch ∷ [];
    };
  };
}

generate_statefullsets_panics_example :
    generate_statefullsets building yaml funk merge_affinity holed
    ≡ panic "runtime error: invalid memory address or nil pointer dereference"
generate_statefullsets_panics_example =
    generate_statefullsets_panics building yaml funk merge_affinity holed (λ e. cc) refl
      (inr (inl refl))
