-- ===== src/Generate/StatefulSets/Sets/Total.antt =====
-- When `GenerateStatefullsets` returns.
use opensearch_operator.Common.{
  ◌≡◌, ◌≢◌, In, refl, String, true, false, is_some, Option, none, some, List, [], ◌∷◌, All, inl,
  inr, Bool-cases, arith,
}
use opensearch_operator.Common.Outcome.{ok, panic}
use opensearch_operator.Common.Text.{join}
use opensearch_operator.Funk.{Funk, IsLawful}
use opensearch_operator.Helper.Merge.{Mergo}
use opensearch_operator.Helper.Settings.{Yaml}
use opensearch_operator.Api.Kubernetes.{StatefulSet, PodAntiAffinity}
use opensearch_operator.Api.Types.{Opensearch, NodeGroupSpec, AntiAffinitySpec, VolumeSpec}
use opensearch_operator.Api.Names.Counting.{any_negative, get_node_names_total}
use opensearch_operator.Api.Compute.{
  compute_anti_affinity, is_master_role, compute_initial_master_nodes,
}
use opensearch_operator.Api.Compute.Affinity.{FillsAntiAffinity, compute_anti_affinity-shape}
use opensearch_operator.Api.Compute.Masters.{
  masters_of, only_masters, compute_initial_master_nodes-only_masters,
}
use opensearch_operator.Generate.ConfigMaps.Contents.{IsMergeable, generate_config_maps_total}
use opensearch_operator.Generate.Builder.{Builder}
use opensearch_operator.Generate.StatefulSets.{
  stateful_set, group_stateful_set, group_stateful_sets, generate_statefullsets,
}
use opensearch_operator.Generate.StatefulSets.Containers.{
  check_volumes, opensearch_container, assemble,
}
use opensearch_operator.Generate.StatefulSets.Template.{pod_template}

module _ (funk : Funk) where
  masters_of-any_negative :
      (gs : List NodeGroupSpec)
      → any_negative gs ≡ false
      → any_negative (masters_of funk gs) ≡ false
  unfolding masters_of
  masters_of-any_negative [] e = e
  masters_of-any_negative (g ∷ gs) e =
      let later = masters_of-any_negative gs (ground arith) in
      elim (Bool-cases (is_master_role funk g)) [
        | inl master ↦ rw master (ground arith)
        | inr other ↦ rw other later
      ]

  compute_initial_master_nodes_total :
      (h : Opensearch)
      → any_negative h.spec.node_groups ≡ false
      → (masters : String) × (compute_initial_master_nodes funk h ≡ ok masters)
  unfolding only_masters
  compute_initial_master_nodes_total h e =
      let (names, run, _) =
        get_node_names_total (only_masters funk h) (masters_of-any_negative h.spec.node_groups e) in
      (join names " ", rw (compute_initial_master_nodes-only_masters funk h, run) refl)

check_volumes_total :
    (vs : List (Option VolumeSpec)) → All (λ v. is_some v ≡ true) vs → check_volumes vs ≡ ok tt
unfolding check_volumes
check_volumes_total [] given = refl
check_volumes_total (none ∷ vs) given = absurd cc
check_volumes_total (some v ∷ vs) given = check_volumes_total vs given.1

-- GenerateStatefullsets returns where no group has a negative replica count, none of the additional
-- volumes is nil, and under each key the contents of the group, the global ones and the operator's
-- own can be merged, as far as they are there. It assumes the laws of go-funk and what mergo
-- documents.
pub generate_statefullsets_total :
    (b : Builder) (yaml : Yaml) (funk : Funk) (mergo : Mergo AntiAffinitySpec) (h : Opensearch)
    → IsLawful funk
    → FillsAntiAffinity mergo
    → any_negative h.spec.node_groups ≡ false
    → All (IsMergeable yaml h) h.spec.node_groups
    → All (λ v. is_some v ≡ true) h.spec.global_node_group.additional_volumes
    → (sets : List StatefulSet) × (generate_statefullsets b yaml funk mergo h ≡ ok sets)
unfolding generate_statefullsets opensearch_container
generate_statefullsets_total b yaml funk mergo h lawful fills replicated good given =
    go h.spec.node_groups
  where
    one :
        (g : NodeGroupSpec) → (s : StatefulSet) × (group_stateful_set b yaml funk mergo h g ≡ ok s)
    one g =
        let (masters, found) = compute_initial_master_nodes_total funk h replicated in
        let (maps, run) = generate_config_maps_total yaml funk lawful h good in
        let affinity : (a : PodAntiAffinity) × (compute_anti_affinity funk mergo h g ≡ ok a) =
          (_, compute_anti_affinity-shape funk mergo h g lawful fills) in
        let container = assemble b h g funk masters maps in
        (
          stateful_set h g (pod_template b h g container affinity.0),
          rw (found, check_volumes_total _ given, run, affinity.1) refl,
        )

    go :
        (gs : List NodeGroupSpec)
        → (sets : List StatefulSet) × (group_stateful_sets b yaml funk mergo h gs ≡ ok sets)
    go [] = ([], refl)
    go (g ∷ gs) =
        let (s, first) = one g in let (sets, later) = go gs in (s ∷ sets, rw (first, later) refl)

check_volumes_nil :
    (vs : List (Option VolumeSpec))
    → In none vs
    → check_volumes vs ≡ panic "runtime error: invalid memory address or nil pointer dereference"
unfolding check_volumes
check_volumes_nil [] i = absurd i
check_volumes_nil (none ∷ vs) i = refl
check_volumes_nil (some v ∷ vs) (inl e) = absurd cc
check_volumes_nil (some v ∷ vs) (inr i) = check_volumes_nil vs i

-- Where there is a node group, none has a negative replica count, and a nil element stands anywhere
-- among the additional volumes, GenerateStatefullsets panics, whatever the other settings are.
pub generate_statefullsets_panics :
    (b : Builder) (yaml : Yaml) (funk : Funk) (mergo : Mergo AntiAffinitySpec) (h : Opensearch)
    → h.spec.node_groups ≢ []
    → any_negative h.spec.node_groups ≡ false
    → In none h.spec.global_node_group.additional_volumes
    → generate_statefullsets b yaml funk mergo h
      ≡ panic "runtime error: invalid memory address or nil pointer dereference"
unfolding generate_statefullsets opensearch_container
generate_statefullsets_panics b yaml funk mergo h given replicated nil_volume =
    go h.spec.node_groups given
  where
    go :
        (gs : List NodeGroupSpec)
        → gs ≢ []
        → group_stateful_sets b yaml funk mergo h gs
          ≡ panic "runtime error: invalid memory address or nil pointer dereference"
    go [] none_given = absurd (none_given refl)
    go (g ∷ gs) _ =
        let (masters, found) = compute_initial_master_nodes_total funk h replicated in
        rw (found, check_volumes_nil _ nil_volume)
