-- ===== src/Tests/Pods.antt =====
-- The pods of the sample cluster against its node names.
use opensearch_operator.Common.{◌↔◌, In}
use opensearch_operator.Controllers.TransportTls.Pods.{IsPod, get_node_names-IsPod}
use opensearch_operator.Tests.Library.{funk}
use opensearch_operator.Tests.Merging.{merge_affinity}
use opensearch_operator.Tests.External.{yaml}
use opensearch_operator.Tests.Building.{building, building-MergesTemplates}
use opensearch_operator.Tests.StatefulSets.{sets_built}
use opensearch_operator.Tests.Cluster.{cluster}
use opensearch_operator.Tests.Convergence.{names, listed}

get_node_names-IsPod_example : In "prod-data-os-1" names ↔ IsPod sets_built.0 "prod-data-os-1"
get_node_names-IsPod_example =
    get_node_names-IsPod building yaml funk merge_affinity cluster building-MergesTemplates
      "prod-data-os-1" listed sets_built.1
