-- ===== src/Generate/ConfigMaps/Unordered.antt =====
-- Two runs of `GenerateConfigMaps`, each with its own order of the keys.
use opensearch_operator.Common.{
  ◌≡◌, refl, sym, String, some, List, [], ◌∷◌, Pairs, Option-cases, inl, inr,
}
use opensearch_operator.Common.Outcome.{ok, >>=-eq-ok, wrapping, wrapping-eq-ok}
use opensearch_operator.Common.Maps.{GoMap}
use opensearch_operator.Funk.{Funk, IsLawful}
use opensearch_operator.Helper.Settings.{Yaml, merge_settings}
use opensearch_operator.Helper.Settings.Order.{unordered, merge_settings-unordered}
use opensearch_operator.Api.Kubernetes.{ConfigMap}
use opensearch_operator.Api.Types.{Opensearch, NodeGroupSpec}
use opensearch_operator.Generate.ConfigMaps.{
  injected_config_map, user_config, group_config_map, group_config_maps, generate_config_maps,
}
use opensearch_operator.Generate.ConfigMaps.Contents.{object_of}

-- Two config maps with the same metadata, which hold the same.
abbrev pub SameConfig : ConfigMap → ConfigMap → Type 0
SameConfig m m' = (m'.meta ≡ m.meta) × (unordered m'.contents ≡ unordered m.contents)

module _ (yaml : Yaml) (f g : Funk) (f_lawful : IsLawful f) (g_lawful : IsLawful g)
    (h : Opensearch) where
  user_config-unordered :
      (group : NodeGroupSpec) {u : GoMap String}
      → user_config yaml f h group ≡ ok u
      → (u' : GoMap String) × (user_config yaml g h group ≡ ok u') × (unordered u' ≡ unordered u)
  user_config-unordered group {u} e = elim (Option-cases h.spec.global_node_group.config) [
    | inl absent ↦ let plain : ok group.config ≡ ok u = rw absent at e in (u, rw absent plain, refl)
    | inr (config, given) ↦
        let merged = wrapping-eq-ok _ _ (rw given at e) in
        let (u', run, same) =
          merge_settings-unordered yaml f g f_lawful g_lawful group.config group.config
            (some config) (some config) refl refl merged in
        (u', rw (given, run) refl, same)
  ]

  group_config_map-unordered :
      (group : NodeGroupSpec) {m : ConfigMap}
      → group_config_map yaml f h group ≡ ok m
      → (m' : ConfigMap) × (group_config_map yaml g h group ≡ ok m') × SameConfig m m'
  unfolding group_config_map
  group_config_map-unordered group {m} e =
      let (u, user, e₁) = >>=-eq-ok (user_config yaml f h group) _ e in
      let (r, run, e₂) =
        >>=-eq-ok (wrapping _ (merge_settings yaml f injected_config_map u)) _ e₁ in
      let merged : merge_settings yaml f injected_config_map u ≡ ok r = wrapping-eq-ok _ _ run in
      let is : object_of h group r ≡ m = cc in
      let (u', user', same_user) = user_config-unordered group user in
      let (r', run', same) =
        merge_settings-unordered yaml f g f_lawful g_lawful injected_config_map injected_config_map
          u u' refl (sym same_user) merged in
      (object_of h group r', rw (user', run') refl, rw (← is) (refl, same))

  group_config_maps-unordered :
      (groups : List NodeGroupSpec) {ms : List ConfigMap}
      → group_config_maps yaml f h groups ≡ ok ms
      → (ms' : List ConfigMap) × (group_config_maps yaml g h groups ≡ ok ms')
        × Pairs SameConfig ms ms'
  unfolding group_config_maps
  group_config_maps-unordered [] {ms} e =
      let none_left : [] ≡ ms = cc in rw (← none_left) ([], refl, tt)
  group_config_maps-unordered (group ∷ groups) {ms} e =
      let (m, first, e₁) = >>=-eq-ok (group_config_map yaml f h group) _ e in
      let (rest, later, e₂) = >>=-eq-ok (group_config_maps yaml f h groups) _ e₁ in
      let is : m ∷ rest ≡ ms = cc in
      let (m', first', same) = group_config_map-unordered group first in
      let (rest', later', same_rest) = group_config_maps-unordered groups later in
      rw (← is) (m' ∷ rest', rw (first', later') refl, (same, same_rest))

  -- Where GenerateConfigMaps returns, it also returns with another order of the keys in go-funk,
  -- with config maps of the same metadata which hold the same up to the order. It assumes the laws
  -- of go-funk for both orders.
  pub generate_config_maps-unordered :
      {ms : List ConfigMap}
      → generate_config_maps yaml f h ≡ ok ms
      → (ms' : List ConfigMap) × (generate_config_maps yaml g h ≡ ok ms') × Pairs SameConfig ms ms'
  unfolding generate_config_maps
  generate_config_maps-unordered e = group_config_maps-unordered h.spec.node_groups e
