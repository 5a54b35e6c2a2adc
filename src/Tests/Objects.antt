-- ===== src/Tests/Objects.antt =====
-- The objects that are generated for the sample cluster.
use opensearch_operator.Common.{
  ◌≡◌, refl, some, Option, List, [], ◌∷◌, map, length, In, All, Distinct, Pairs,
}
use opensearch_operator.Common.Outcome.{ok}
use opensearch_operator.Api.Kubernetes.{Service, Ingress, ConfigMap}
use opensearch_operator.Api.Types.{NodeGroupSpec}
use opensearch_operator.Helper.Merge
use opensearch_operator.Api.Names.{get_node_group_service_name_headless}
use opensearch_operator.Api.Compute.{seed_hosts_of}
use opensearch_operator.Generate.Services.{generate_services, cluster_service, group_services}
use opensearch_operator.Generate.Services.Distinct.{generate_services-Distinct}
use opensearch_operator.Generate.Services.Selectors.{FindsMasters, seed_hosts-FindsMasters}
use opensearch_operator.Generate.LoadBalancer.{
  generate_load_balancer, BalancerResult, generate_load_balancer-result,
}
use opensearch_operator.Generate.Ingress.{generate_ingress}
use opensearch_operator.Generate.Ingress.Result.{IngressResult, generate_ingress-result}
use opensearch_operator.Generate.ConfigMaps.{generate_config_maps}
use opensearch_operator.Generate.ConfigMaps.Contents.{
  IsConfig, generate_config_maps-IsConfig, generate_config_maps_total,
}
use opensearch_operator.Generate.LoadBalancer.{balancer_service}
use opensearch_operator.Generate.ConfigMaps.Unordered.{SameConfig, generate_config_maps-unordered}
use opensearch_operator.Tests.Library.{funk, funk-IsLawful, turned, turned-IsLawful}
use opensearch_operator.Tests.Merging.{merge_ingress, merge_ingress-KeepsRules}
use opensearch_operator.Tests.External.{yaml}
use opensearch_operator.Tests.Settings.{cluster-IsMergeable}
use opensearch_operator.Tests.Cluster.{cluster, masters, workers}

generate_services-Distinct_example :
    (ss : List Service) × (generate_services funk cluster ≡ ok ss)
    × (length ss ≡ 5)
    × Distinct (map (λ s. s.meta.name) ss)
generate_services-Distinct_example =
    generate_services-Distinct funk cluster (((λ e. cc), tt), (tt, tt))

abbrev services : List Service
services = cluster_service cluster ∷ group_services funk cluster (masters ∷ workers ∷ [])

services_made : generate_services funk cluster ≡ ok services
unfolding generate_services
services_made = refl

seed_hosts-FindsMasters_example :
    All
      (FindsMasters cluster (masters ∷ workers ∷ []) services)
      (seed_hosts_of funk cluster (masters ∷ workers ∷ []))
    × ((g : NodeGroupSpec)
        → In g (masters ∷ workers ∷ [])
        → In "cluster_manager" g.roles
        → In
            (get_node_group_service_name_headless cluster g.name)
            (seed_hosts_of funk cluster (masters ∷ workers ∷ [])))
seed_hosts-FindsMasters_example =
    seed_hosts-FindsMasters funk funk-IsLawful cluster services services_made

generate_load_balancer-result_example : BalancerResult cluster (generate_load_balancer cluster)
generate_load_balancer-result_example = generate_load_balancer-result cluster

generate_ingress-result_example :
    IngressResult cluster (generate_ingress funk merge_ingress cluster)
generate_ingress-result_example =
    generate_ingress-result funk funk-IsLawful merge_ingress merge_ingress-KeepsRules cluster

config_maps : (ms : List ConfigMap) × (generate_config_maps yaml funk cluster ≡ ok ms)
config_maps = generate_config_maps_total yaml funk funk-IsLawful cluster cluster-IsMergeable

generate_config_maps-unordered_example :
    (ms' : List ConfigMap) × (generate_config_maps yaml turned cluster ≡ ok ms')
    × Pairs SameConfig config_maps.0 ms'
generate_config_maps-unordered_example =
    generate_config_maps-unordered yaml funk turned funk-IsLawful turned-IsLawful cluster
      config_maps.1

generate_config_maps-IsConfig_example :
    Pairs (IsConfig yaml cluster) (masters ∷ workers ∷ []) config_maps.0
generate_config_maps-IsConfig_example =
    generate_config_maps-IsConfig yaml funk funk-IsLawful cluster config_maps.1

abbrev balancer_made : Option Service
balancer_made = some (balancer_service cluster "data")
