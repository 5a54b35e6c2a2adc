-- ===== src/Generate/ConfigMaps.antt =====
-- `GenerateConfigMaps`: one config map for each node group.
pub mod Contents
pub mod Unordered
use opensearch_operator.Common.{String, ◌<>◌, Option, none, some, List, [], ◌∷◌}
use opensearch_operator.Common.Outcome.{Outcome, ok, ◌>>=◌, wrapping}
use opensearch_operator.Common.Maps.{GoMap}
use opensearch_operator.Funk.{Funk}
use opensearch_operator.Helper.Settings.{Yaml, merge_settings}
use opensearch_operator.Api.Kubernetes.{ConfigMap}
use opensearch_operator.Api.Types.{Opensearch, NodeGroupSpec}
use opensearch_operator.Api.Names.{get_node_group_config_map_name}
use opensearch_operator.Generate.Common.{object_meta}

abbrev pub injected_config_map : GoMap String
injected_config_map = some (
    (
      "opensearch.yml",
      "\nplugins.security.ssl.transport.keystore_type: 'PKCS12/PFX'\nplugins.security.ssl.transport.keystore_filepath: 'certs/transport/${hostname}.pfx'\nplugins.security.ssl.transport.truststore_type: 'PKCS12/PFX'\nplugins.security.ssl.transport.truststore_filepath: 'certs/transport/${hostanme}.pfx'\nplugins.security.ssl.transport.enforce_hostname_verification: true\nplugins.security.ssl.http.enabled: true\nplugins.security.ssl.http.keystore_type: 'PKCS12/PFX'\nplugins.security.ssl.http.keystore_filepath: 'certs/http/api.pfx'\nplugins.security.ssl.http.truststore_type: 'PKCS12/PFX'\nplugins.security.ssl.http.truststore_filepath: 'certs/http/api.pfx'",
    )
    ∷ [])

module _ (yaml : Yaml) (funk : Funk) where
  -- The settings of the user: those of the node group over the global ones.
  abbrev pub user_config : Opensearch → NodeGroupSpec → Outcome (GoMap String)
  user_config h g = elim h.spec.global_node_group.config [
    | none ↦ ok g.config
    | some config ↦
        wrapping ("Error when merge config from global config and node group config " <> g.name)
          (merge_settings yaml funk g.config (some config))
  ]

  -- One round of the loop.
  unfoldable pub group_config_map : Opensearch → NodeGroupSpec → Outcome ConfigMap
  group_config_map h g = do
    user ← user_config h g
    merged ←
        wrapping ("Error when merge expected config with computed config on node group " <> g.name)
          (merge_settings yaml funk injected_config_map user)
    ok (record {
      meta = object_meta h (get_node_group_config_map_name h g.name);
      contents = merged;
    })

  unfoldable pub group_config_maps : Opensearch → List NodeGroupSpec → Outcome (List ConfigMap)
  group_config_maps h [] = ok []
  group_config_maps h (g ∷ gs) = do
    m ← group_config_map h g
    ms ← group_config_maps h gs
    ok (m ∷ ms)

  unfoldable pub generate_config_maps : Opensearch → Outcome (List ConfigMap)
  unfolding group_config_maps group_config_map
  generate_config_maps h = group_config_maps h h.spec.node_groups
