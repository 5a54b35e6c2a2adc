-- ===== src/Generate/StatefulSets/Mounts.antt =====
-- The volume mounts of the container, against the volumes of the pod.
pub mod Volumes
pub mod Security
use mathlib.Core.Path.{subst}
use opensearch_operator.Common.{
  ◌≡◌, refl, sym, ap, ◌∙◌, true, ◌=?◌, String, List, [], ◌∷◌, inl, inr, ◌⊎◌, In, map, Bool-cases,
  if◌then◌else◌, Option, none, some,
}
use opensearch_operator.Common.Maps.{entries, Entries}
use opensearch_operator.Common.Outcome.{ok}
use opensearch_operator.Funk.{Funk}
use opensearch_operator.Helper.Settings.{Yaml}
use opensearch_operator.Api.Kubernetes.{Container, ConfigMap, VolumeMount}
use opensearch_operator.Api.Types.{Opensearch, NodeGroupSpec}
use opensearch_operator.Api.Names.{get_node_group_config_map_name}
use opensearch_operator.Api.Compute.{compute_discovery_seed_hosts}
use opensearch_operator.Generate.Builder.{
  Builder, merge, overwrite, SetsOneField, AddsMounts, mount_names,
}
use opensearch_operator.Generate.StatefulSets.Containers.{
  opensearch_container, assemble, initial_container, add_env, add_mounts, add_config_mount,
  add_settings, add_config_mounts, global_container, local_container, additional_mounts, tls_mounts,
  data_mounts, config_mounts, is_persistent, mount,
}
use opensearch_operator.Generate.StatefulSets.Frames.{
  add_settings-mounts, add_probes-mounts, add_env-mounts, opensearch_container-assemble,
}

-- Where a mount of the name may come from.
pub data MountOrigin (h : Opensearch) (g : NodeGroupSpec) (b : Builder) (k : String) : Type 0 where
  of_global : In k (mount_names (global_container b h g).volume_mounts) → MountOrigin h g b k
  of_local : In k (mount_names (local_container b h g).volume_mounts) → MountOrigin h g b k
  of_additional :
      In k (mount_names (additional_mounts h.spec.global_node_group.additional_volumes))
      → MountOrigin h g b k
  of_tls : In k (mount_names tls_mounts) → MountOrigin h g b k
  of_config : k ≡ "opensearch-config" → MountOrigin h g b k
  of_persistence : is_persistent g.persistence ≡ true → k ≡ "opensearch-data" → MountOrigin h g b k

config_mounts-names :
    (k : String) (es : Entries String)
    → In k (mount_names (config_mounts (some es)))
    → k ≡ "opensearch-config"
config_mounts-names k [] i = absurd i
config_mounts-names k (e ∷ es) (inl same) = same
config_mounts-names k (e ∷ es) (inr later) = config_mounts-names k es later

module _ (b : Builder) (sets : SetsOneField b) (adds : AddsMounts b) (h : Opensearch)
    (g : NodeGroupSpec) (k : String) where
  abbrev Mounted : Container → Type 0
  Mounted c = In k (mount_names c.volume_mounts)

  along : {xs ys : List VolumeMount} → xs ≡ ys → In k (mount_names xs) → In k (mount_names ys)
  along e i = subst (λ xs. In k (mount_names xs)) e i

  initial_container-Origin : Mounted (initial_container b h g) → MountOrigin h g b k
  unfolding initial_container
  initial_container-Origin i =
      let mounts = λ (c : Container). c.volume_mounts in
      let same = ap mounts (sets.env_from_only _ _ _) ∙ ap mounts (sets.env_from_only _ _ _) in
      elim (adds.of_container k _ _ _ (along same i)) [
        | inl local ↦ of_local local
        | inr i' ↦ elim (adds.of_container k _ _ _ i') [
          | inl global ↦ of_global global
          | inr new ↦ absurd (along adds.of_new new)
        ]
      ]

  unconditional-Origin :
      (c : Container)
      → (Mounted c → MountOrigin h g b k)
      → Mounted (
          b.with_volume_mount tls_mounts merge (
            b.with_volume_mount
              (additional_mounts h.spec.global_node_group.additional_volumes)
              overwrite
              c))
      → MountOrigin h g b k
  unconditional-Origin c old i = elim (adds.of_mounts k tls_mounts _ _ i) [
    | inl tls ↦ of_tls tls
    | inr j ↦ elim (adds.of_mounts k _ _ c j) [
      | inl more ↦ of_additional more
      | inr before ↦ old before
    ]
  ]

  add_mounts-Origin :
      (c : Container)
      → (Mounted c → MountOrigin h g b k)
      → Mounted (add_mounts b h g c)
      → MountOrigin h g b k
  unfolding add_mounts
  add_mounts-Origin c old i = elim (Bool-cases (is_persistent g.persistence)) [
    | inr lost ↦ unconditional-Origin c old (rw lost at i)
    | inl kept ↦ elim (adds.of_mounts k data_mounts _ _ (rw kept at i)) [
      | inr j ↦ unconditional-Origin c old j
      | inl own ↦ elim own [ inl e ↦ of_persistence kept e | inr none_left ↦ absurd none_left ]
    ]
  ]

  add_config_mount-Origin :
      (m : ConfigMap) (c : Container)
      → (Mounted c → MountOrigin h g b k)
      → Mounted (add_config_mount b h g m c)
      → MountOrigin h g b k
  unfolding add_config_mount
  add_config_mount-Origin m c old i =
      elim (Bool-cases (m.meta.name =? get_node_group_config_map_name h g.name)) [
        | inr other ↦ old (rw other at i)
        | inl own ↦ elim (adds.of_mounts k (config_mounts m.contents) _ c (rw own at i)) [
          | inl j ↦ of_config (config_mounts-names k (entries m.contents) j)
          | inr before ↦ old before
        ]
      ]

  add_config_mounts-Origin :
      (ms : List ConfigMap) (c : Container)
      → (Mounted c → MountOrigin h g b k)
      → Mounted (add_config_mounts b h g ms c)
      → MountOrigin h g b k
  unfolding add_config_mounts
  add_config_mounts-Origin [] c old i = old i
  add_config_mounts-Origin (m ∷ ms) c old i =
      add_config_mounts-Origin ms (add_config_mount b h g m c) (add_config_mount-Origin m c old) i

  pub opensearch_container-Origin :
      (yaml : Yaml) (funk : Funk) {c : Container}
      → opensearch_container b h g yaml funk ≡ ok c
      → Mounted c
      → MountOrigin h g b k
  unfolding assemble
  opensearch_container-Origin yaml funk {c} e i =
      let (masters, maps, found, run, same) = opensearch_container-assemble b h g yaml funk e in
      let seeds = compute_discovery_seed_hosts funk h in
      let mounts = λ (d : Container). d.volume_mounts in
      add_config_mounts-Origin maps _
        (add_mounts-Origin _ (λ j. initial_container-Origin (
          along
            (add_settings-mounts b sets h g _
              ∙ add_env-mounts b sets h g funk masters seeds (initial_container b h g))
            j)))
        (along (ap mounts (sym same) ∙ add_probes-mounts b sets h g _) i)
