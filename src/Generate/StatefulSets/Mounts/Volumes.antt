-- ===== src/Generate/StatefulSets/Mounts/Volumes.antt =====
-- Every mount of the operator finds its volume.
use opensearch_operator.Common.{
  ◌≡◌, refl, sym, ap, true, false, ◌=?◌, String, List, [], ◌∷◌, inl, inr, ◌⊎◌, In, map, Bool-cases,
  Option-cases, Option, none, some,
}
use mathlib.Core.Path.{subst}
use opensearch_operator.Common.Outcome.{ok}
use opensearch_operator.Funk.{Funk}
use opensearch_operator.Helper.Settings.{Yaml}
use opensearch_operator.Api.Kubernetes.{
  Container, PodTemplateSpec, PodAntiAffinity, VolumeSource, Manifest,
}
use opensearch_operator.Api.Types.{Opensearch, NodeGroupSpec, VolumeSpec, PersistenceSpec}
use opensearch_operator.Api.Names.{get_secret_name_for_security_config}
use opensearch_operator.Generate.Builder.{
  Builder, merge, SetsOneField, AddsMounts, MergesTemplates, mount_names, volume_names,
}
use opensearch_operator.Generate.StatefulSets.{claims, claim_of}
use opensearch_operator.Generate.StatefulSets.Containers.{
  opensearch_container, global_container, local_container, additional_mounts, is_persistent,
}
use opensearch_operator.Generate.StatefulSets.Template.{
  pod_template, add_volumes, add_common_volumes, add_security_volume, add_data_volume, base_volumes,
  additional_volumes, data_volume,
}
use opensearch_operator.Generate.StatefulSets.Mounts.{
  of_global, of_local, of_additional, of_tls, of_config, of_persistence,
  opensearch_container-Origin,
}

additional-names :
    (k : String) (vs : List (Option VolumeSpec))
    → In k (mount_names (additional_mounts vs))
    → In k (volume_names (additional_volumes vs))
additional-names k [] i = i
additional-names k (none ∷ vs) i = additional-names k vs i
additional-names k (some v ∷ vs) (inl e) = inl e
additional-names k (some v ∷ vs) (inr i) = inr (additional-names k vs i)

-- A persistent group has a claim, or else a volume of its own.
persistence_cases :
    (p : Option PersistenceSpec)
    → is_persistent p ≡ true
    → ((spec : Manifest) × (claim_of p ≡ some spec))
      ⊎ ((v : VolumeSource) × (data_volume p ≡ some v))
unfolding claim_of data_volume
persistence_cases none e = absurd cc
persistence_cases (some p) e = elim (Option-cases p.volume_claim_spec) [
  | inr (spec, given) ↦ inl (spec, given)
  | inl no_claim ↦ elim (Option-cases p.volume) [
    | inr (v, given) ↦ inr (v, rw (no_claim, given) refl)
    | inl no_volume ↦ let no : false ≡ true = rw (no_claim, no_volume) at e in absurd cc
  ]
]

module _ (b : Builder) (merges : MergesTemplates b) (h : Opensearch) (g : NodeGroupSpec)
    (k : String) where
  abbrev Provided : PodTemplateSpec → Type 0
  Provided t = In k (volume_names t.volumes)

  security-kept : (t : PodTemplateSpec) → Provided t → Provided (add_security_volume b h g t)
  unfolding add_security_volume
  security-kept t i = elim (Bool-cases (get_secret_name_for_security_config h g =? "")) [
    | inl unset ↦ rw unset i
    | inr set ↦ rw set (merges.volumes_kept k _ t i)
  ]

  pub data-kept :
      (v : Option VolumeSource) (t : PodTemplateSpec)
      → Provided t
      → Provided (add_data_volume b h g v t)
  unfolding add_data_volume
  data-kept none t i = i
  data-kept (some v) t i = merges.volumes_kept k _ t i

  common-given :
      (t : PodTemplateSpec)
      → (In k (volume_names (base_volumes h g))
          ⊎ In k (volume_names (additional_volumes h.spec.global_node_group.additional_volumes)))
      → Provided (add_common_volumes b h g t)
  common-given t (inl base) = merges.volumes_kept k _ _ (merges.volumes_given k _ t base)
  common-given t (inr more) = merges.volumes_given k _ _ more

  module _ (container : Container) (anti_affinity : PodAntiAffinity) where
    abbrev template : PodTemplateSpec
    template = pod_template b h g container anti_affinity

    -- What the last calls leave of the volumes.
    pub finished : (t : PodTemplateSpec) → Provided t → Provided (b.with_fs_group 1000 merge t)
    finished t i =
        subst (λ vs. In k (volume_names vs))
          (sym (ap (λ (u : PodTemplateSpec). u.volumes) (merges.fs_group_only 1000 merge t))) i

    common-Provided :
        (In k (volume_names (base_volumes h g))
          ⊎ In k (volume_names (additional_volumes h.spec.global_node_group.additional_volumes)))
        → Provided template
    unfolding pod_template add_volumes
    common-Provided i = finished _ (data-kept _ _ (security-kept _ (common-given _ i)))

    data-Provided :
        (v : VolumeSource)
        → data_volume g.persistence ≡ some v
        → k ≡ "opensearch-data"
        → Provided template
    unfolding pod_template add_volumes add_data_volume
    data-Provided v given e = finished _ (rw given (merges.volumes_given k _ _ (inl e)))

    -- Every name that a mount of the container has is the name of a mount in one of the two
    -- containers of the user, or of a volume of the pod, or of a claim template of the stateful
    -- set. It assumes how the builder adds mounts and volumes.
    pub mounts-Provided :
        SetsOneField b
        → AddsMounts b
        → (yaml : Yaml) (funk : Funk) → opensearch_container b h g yaml funk ≡ ok container
        → In k (mount_names container.volume_mounts)
        → (In k (mount_names (global_container b h g).volume_mounts)
            ⊎ In k (mount_names (local_container b h g).volume_mounts))
          ⊎ (In k (volume_names template.volumes) ⊎ In k (map (λ c. c.name) (claims g)))
    unfolding claims
    mounts-Provided sets adds yaml funk e i =
        elim (opensearch_container-Origin b sets adds h g k yaml funk e i) [
          | of_global j ↦ inl (inl j)
          | of_local j ↦ inl (inr j)
          | of_additional j ↦ inr (
              inl (
                common-Provided
                  (inr (additional-names k h.spec.global_node_group.additional_volumes j))))
          | of_tls (inl same) ↦ inr (inl (common-Provided (inl (inl same))))
          | of_tls (inr (inl same)) ↦ inr (inl (common-Provided (inl (inr (inl same)))))
          | of_tls (inr (inr none_left)) ↦ absurd none_left
          | of_config same ↦ inr (inl (common-Provided (inl (inr (inr (inl same))))))
          | of_persistence kept same ↦ elim (persistence_cases g.persistence kept) [
            | inl (spec, given) ↦ inr (inr (rw given (inl same)))
            | inr (v, given) ↦ inr (inl (data-Provided v given same))
          ]
        ]
