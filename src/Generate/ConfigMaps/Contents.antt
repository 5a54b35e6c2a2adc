-- ===== src/Generate/ConfigMaps/Contents.antt =====
-- What stands in a generated config map, key by key.
use opensearch_operator.Common.{
  ◌≡◌, refl, sym, ap, ◌∙◌, String, Option, some, List, [], ◌∷◌, Pairs, All, Option-cases, inl, inr,
}
use opensearch_operator.Common.Outcome.{ok, >>=-eq-ok, wrapping, wrapping-eq-ok, ok-injective}
use opensearch_operator.Common.Maps.{GoMap, find}
use opensearch_operator.Funk.{Funk, IsLawful}
use opensearch_operator.Helper.Settings.{Yaml, merge_contents, merge_settings}
use opensearch_operator.Helper.Settings.Values.{
  merged_value, merged_value-IsValue, IsValue, merged_both, at_keys, alone_left,
  merge_settings-merged_value, merge_settings-value, merge_settings_total,
}
use opensearch_operator.Api.Kubernetes.{ConfigMap}
use opensearch_operator.Api.Types.{Opensearch, NodeGroupSpec}
use opensearch_operator.Api.Names.{get_node_group_config_map_name}
use opensearch_operator.Generate.Common.{object_meta}
use opensearch_operator.Generate.ConfigMaps.{
  injected_config_map, user_config, group_config_map, group_config_maps, generate_config_maps,
}

abbrev pub object_of : Opensearch → NodeGroupSpec → GoMap String → ConfigMap
object_of h g contents = record {
  meta = object_meta h (get_node_group_config_map_name h g.name);
  contents = contents;
}

module _ (yaml : Yaml) where
  -- The config map of a node group: under each key the injected contents, over those of the
  -- group, over the global ones.
  pub record IsConfig (h : Opensearch) (g : NodeGroupSpec) (m : ConfigMap) : Type 0 where
    pub named : m.meta.name ≡ get_node_group_config_map_name h g.name
    pub contents :
        (k : String)
        → (user : Option String) × IsValue yaml
            (find k g.config)
            (find k h.spec.global_node_group.config)
            user
          × IsValue yaml (find k injected_config_map) user (find k m.contents)

  -- The contents under each key can be merged: those of the group with the global ones, and the
  -- injected ones with what these give.
  abbrev pub IsMergeable : Opensearch → NodeGroupSpec → Type 0
  IsMergeable h g =
      (k : String)
      → (user : Option String) × (result : Option String) × (merged_value yaml k (find k g.config)
            (find k h.spec.global_node_group.config)
          ≡ ok user)
        × (merged_value yaml k (find k injected_config_map) user ≡ ok result)

module _ (yaml : Yaml) (f : Funk) (lawful : IsLawful f) where
  user_config-value :
      (h : Opensearch) (g : NodeGroupSpec) {u : GoMap String} (k : String)
      → user_config yaml f h g ≡ ok u
      → merged_value yaml k (find k g.config) (find k h.spec.global_node_group.config)
        ≡ ok (find k u)
  user_config-value h g {u} k e = elim (Option-cases h.spec.global_node_group.config) [
    | inl absent ↦
        let plain : ok g.config ≡ ok u = rw absent at e in
        let same : g.config ≡ u = cc in
        rw absent (alone_left yaml f lawful k (find k g.config) ∙ rw same)
    | inr (config, given) ↦
        let merged = wrapping-eq-ok _ _ (rw given at e) in
        rw given (merge_settings-merged_value yaml f lawful g.config (some config) k merged)
  ]

  group_config_map-IsConfig :
      (h : Opensearch) (g : NodeGroupSpec) {m : ConfigMap}
      → group_config_map yaml f h g ≡ ok m
      → IsConfig yaml h g m
  unfolding group_config_map
  group_config_map-IsConfig h g {m} e =
      let (u, user, e₁) = >>=-eq-ok (user_config yaml f h g) _ e in
      let (r, run, e₂) =
        >>=-eq-ok (wrapping _ (merge_settings yaml f injected_config_map u)) _ e₁ in
      let merged : merge_settings yaml f injected_config_map u ≡ ok r = wrapping-eq-ok _ _ run in
      let same : object_of h g r ≡ m = cc in
      rw (← same) (record {
        named = refl;
        contents = λ k. (
          find k u,
          merged_value-IsValue yaml k _ _ _ (user_config-value h g k user),
          merge_settings-value yaml f lawful injected_config_map u k merged,
        );
      })

  group_config_maps-IsConfig :
      (h : Opensearch) (gs : List NodeGroupSpec) {ms : List ConfigMap}
      → group_config_maps yaml f h gs ≡ ok ms
      → Pairs (IsConfig yaml h) gs ms
  unfolding group_config_maps
  group_config_maps-IsConfig h [] {ms} e = let same : [] ≡ ms = cc in rw (← same) tt
  group_config_maps-IsConfig h (g ∷ gs) {ms} e =
      let (m, first, e₁) = >>=-eq-ok (group_config_map yaml f h g) _ e in
      let (rest, later, e₂) = >>=-eq-ok (group_config_maps yaml f h gs) _ e₁ in
      let same : m ∷ rest ≡ ms = cc in
      rw (← same) (group_config_map-IsConfig h g first, group_config_maps-IsConfig h gs later)

  -- Where GenerateConfigMaps returns, each node group has one config map, in order, and under
  -- every key it holds the operator's contents, filled by mergo from what the node group's
  -- contents give, filled from the global ones; a key that one of them has alone keeps its
  -- contents. It assumes the laws of go-funk.
  pub generate_config_maps-IsConfig :
      (h : Opensearch) {ms : List ConfigMap}
      → generate_config_maps yaml f h ≡ ok ms
      → Pairs (IsConfig yaml h) h.spec.node_groups ms
  unfolding generate_config_maps
  generate_config_maps-IsConfig h e = group_config_maps-IsConfig h h.spec.node_groups e

  user_config_total :
      (h : Opensearch) (g : NodeGroupSpec)
      → IsMergeable yaml h g
      → (u : GoMap String) × (user_config yaml f h g ≡ ok u)
  user_config_total h g good = elim (Option-cases h.spec.global_node_group.config) [
    | inl absent ↦ (g.config, rw absent)
    | inr (config, given) ↦
        let (u, run) =
          merge_settings_total yaml f lawful g.config (some config) λ k v w has_v has_w.
            merged_both yaml k v w (good k).0
              (at_keys yaml k has_v (ap (find k) given ∙ has_w) (good k).2) in
        (u, rw (given, run))
  ]

  -- The injected contents under a key can be merged with those that the user's settings give.
  injected-mergeable :
      (h : Opensearch) (g : NodeGroupSpec) (u : GoMap String)
      → IsMergeable yaml h g
      → user_config yaml f h g ≡ ok u
      → (k v w : String) → find k injected_config_map ≡ some v
      → find k u ≡ some w
      → (c : String) × (merge_contents yaml k v w ≡ ok c)
  injected-mergeable h g u good run k v w has_v has_w =
      let same = ok-injective (sym (good k).2 ∙ user_config-value h g k run) in
      merged_both yaml k v w (good k).1 (at_keys yaml k has_v (same ∙ has_w) (good k).3)

  -- GenerateConfigMaps returns where the contents of the keys that meet can be merged. It assumes
  -- the laws of go-funk.
  pub generate_config_maps_total :
      (h : Opensearch)
      → All (IsMergeable yaml h) h.spec.node_groups
      → (ms : List ConfigMap) × (generate_config_maps yaml f h ≡ ok ms)
  unfolding generate_config_maps
  generate_config_maps_total h good = go h.spec.node_groups good
    where
      go :
          (gs : List NodeGroupSpec)
          → All (IsMergeable yaml h) gs
          → (ms : List ConfigMap) × (group_config_maps yaml f h gs ≡ ok ms)
      go [] good = ([], refl)
      go (g ∷ gs) (own_good, good) =
          let (u, own) = user_config_total h g own_good in
          let (r, run) =
            merge_settings_total yaml f lawful injected_config_map u
              (injected-mergeable h g u own_good own) in
          let (ms, later) = go gs good in (object_of h g r ∷ ms, rw (own, run, later) refl)
