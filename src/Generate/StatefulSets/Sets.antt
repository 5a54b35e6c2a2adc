-- ===== src/Generate/StatefulSets/Sets.antt =====
-- The stateful sets against the services and the pods: who selects whom.
pub mod Total
use opensearch_operator.Common.{
  ◌≡◌, refl, sym, ap, ◌∙◌, String, ◌<>◌, true, false, ◌=?◌, if◌then◌else◌, Option, some, none, List,
  [], ◌∷◌, inl, inr, In, Pairs, Bool-cases,
}
use opensearch_operator.Common.Outcome.{Outcome, ok, ◌>>=◌, wrapping, >>=-eq-ok, wrapping-eq-ok}
use opensearch_operator.Common.Maps.{GoMap, find}
use opensearch_operator.Funk.{Funk}
use opensearch_operator.Helper.Merge.{Mergo}
use opensearch_operator.Helper.Settings.{Yaml}
use opensearch_operator.Api.Kubernetes.{
  Container, PodAntiAffinity, PodTemplateSpec, Service, VolumeSource, StatefulSet,
}
use opensearch_operator.Api.Types.{Opensearch, NodeGroupSpec, AntiAffinitySpec}
use opensearch_operator.Api.Names.{
  get_node_group_name, get_node_group_service_name_headless, get_secret_name_for_security_config,
}
use opensearch_operator.Api.Compute.{compute_anti_affinity}
use opensearch_operator.Generate.Common.{group_selector}
use opensearch_operator.Generate.Services.{
  generate_services, group_services, headless_service, cluster_service,
}
use opensearch_operator.Generate.Builder.{Builder, merge, MergesTemplates, or_else}
use opensearch_operator.Generate.StatefulSets.{
  stateful_set, group_stateful_set, group_stateful_sets, generate_statefullsets,
}
use opensearch_operator.Generate.StatefulSets.Containers.{opensearch_container}
use opensearch_operator.Generate.StatefulSets.Template.{
  labelled_template, add_placement, add_containers, add_volumes, add_common_volumes,
  add_security_volume, add_data_volume, data_volume, pod_template, is_sysctl_needed,
}

-- What the stateful set of a node group must be, with the services of the cluster.
pub record IsStatefulSet (h : Opensearch) (services : List Service) (g : NodeGroupSpec)
    (s : StatefulSet) : Type 0 where
  pub named : s.meta.name ≡ get_node_group_name h g.name
  pub replicated : s.replicas ≡ g.replicas
  pub parallel : s.pod_management_policy ≡ "Parallel"
  pub selects : s.selector.match_labels ≡ group_selector h g
  -- Kubernetes refuses a set whose selector does not match its own pods.
  pub matched :
      (k v : String) → find k s.selector.match_labels ≡ some v → find k s.template.labels ≡ some v
  pub governor : Service
  pub has_governor : In governor services
  pub governor_named : governor.meta.name ≡ s.service_name
  pub headless : governor.spec.cluster_ip ≡ "None"
  pub governs : governor.spec.selector ≡ s.selector.match_labels

abbrev labels_of : PodTemplateSpec → GoMap String
labels_of t = t.labels

module _ (b : Builder) (merges : MergesTemplates b) (h : Opensearch) (g : NodeGroupSpec) where
  add_placement-labels :
      (a : PodAntiAffinity) (t : PodTemplateSpec) → (add_placement b h g a t).labels ≡ t.labels
  unfolding add_placement
  add_placement-labels a t =
      ap labels_of (merges.affinity_only _ _ _)
      ∙ ap labels_of (merges.tolerations_only _ _ _)
      ∙ ap labels_of (merges.grace_only _ _ _)
      ∙ ap labels_of (merges.node_selector_only _ _ _)

  add_containers-labels :
      (c : Container) (t : PodTemplateSpec) → (add_containers b h g c t).labels ≡ t.labels
  unfolding add_containers
  add_containers-labels c t =
      let own = ap labels_of (merges.containers_only (c ∷ []) merge t) in
      elim (Bool-cases (is_sysctl_needed h.spec.set_vm_max_map_count)) [
        | inl needed ↦ rw needed (ap labels_of (merges.init_containers_only _ _ _) ∙ own)
        | inr needless ↦ rw needless own
      ]

  add_security_volume-labels :
      (t : PodTemplateSpec) → (add_security_volume b h g t).labels ≡ t.labels
  unfolding add_security_volume
  add_security_volume-labels t = elim (Bool-cases (get_secret_name_for_security_config h g =? "")) [
    | inl unset ↦ rw unset refl
    | inr set ↦ rw set (ap labels_of (merges.volumes_only _ _ _))
  ]

  add_volumes-labels : (t : PodTemplateSpec) → (add_volumes b h g t).labels ≡ t.labels
  unfolding add_volumes add_data_volume
  add_volumes-labels t =
      own _ _
      ∙ add_security_volume-labels _
      ∙ ap labels_of (merges.volumes_only _ _ _)
      ∙ ap labels_of (merges.volumes_only _ _ _)
    where
      own :
          (v : Option VolumeSource) (u : PodTemplateSpec)
          → (add_data_volume b h g v u).labels ≡ u.labels
      own none u = refl
      own (some v) u = ap labels_of (merges.volumes_only _ _ _)

  last_labels :
      (k v : String) (ls : GoMap String) (t : PodTemplateSpec)
      → find k ls ≡ some v
      → find k (b.with_labels ls merge t).labels ≡ some v
  last_labels k v ls t e = merges.find-with_labels k ls t ∙ rw e refl

  -- The operator's labels come last, so they are found whatever the user's labels are.
  labelled_template-find :
      (k v : String)
      → find k (group_selector h g) ≡ some v
      → find k (labelled_template b h g).labels ≡ some v
  unfolding labelled_template
  labelled_template-find k v e =
      ap (find k) (
        ap labels_of (merges.annotations_only _ _ _)
        ∙ ap labels_of (merges.annotations_only _ _ _)
        ∙ ap labels_of (merges.annotations_only _ _ _))
      ∙ last_labels k v (group_selector h g) _ e

  pod_template-find :
      (c : Container) (a : PodAntiAffinity) (k v : String)
      → find k (group_selector h g) ≡ some v
      → find k (pod_template b h g c a).labels ≡ some v
  unfolding pod_template
  pod_template-find c a k v e =
      ap (find k) (
        ap labels_of (merges.fs_group_only _ _ _)
        ∙ add_volumes-labels _
        ∙ add_containers-labels _ _
        ∙ add_placement-labels _ _)
      ∙ labelled_template-find k v e

module _ (b : Builder) (merges : MergesTemplates b) (yaml : Yaml) (funk : Funk)
    (mergo : Mergo AntiAffinitySpec) (h : Opensearch) (services : List Service) where
  group_stateful_set-IsStatefulSet :
      (g : NodeGroupSpec) {s : StatefulSet}
      → In (headless_service funk h g) services
      → group_stateful_set b yaml funk mergo h g ≡ ok s
      → IsStatefulSet h services g s
  unfolding group_stateful_set
  group_stateful_set-IsStatefulSet g {s} governed e =
      let (c, _, e₁) = >>=-eq-ok (opensearch_container b h g yaml funk) _ e in
      let (a, _, e₂) =
        >>=-eq-ok
          (wrapping ("Error when compute anti affinity for " <> g.name)
            (compute_anti_affinity funk mergo h g))
          _ e₁ in
      let last : ok (stateful_set h g (pod_template b h g c a)) ≡ ok s = e₂ in
      let same : stateful_set h g (pod_template b h g c a) ≡ s = cc in
      rw (← same) (record {
        named = refl;
        replicated = refl;
        parallel = refl;
        selects = refl;
        matched = pod_template-find b merges h g c a;
        governor = headless_service funk h g;
        has_governor = governed;
        governor_named = refl;
        headless = refl;
        governs = refl;
      })

  group_stateful_sets-IsStatefulSet :
      (gs : List NodeGroupSpec) {sets : List StatefulSet}
      → ((g : NodeGroupSpec) → In g gs → In (headless_service funk h g) services)
      → group_stateful_sets b yaml funk mergo h gs ≡ ok sets
      → Pairs (IsStatefulSet h services) gs sets
  unfolding group_stateful_sets
  group_stateful_sets-IsStatefulSet [] {sets} governed e =
      let same : [] ≡ sets = cc in rw (← same) tt
  group_stateful_sets-IsStatefulSet (g ∷ gs) {sets} governed e =
      let (s, first, e₁) = >>=-eq-ok (group_stateful_set b yaml funk mergo h g) _ e in
      let (rest, later, e₂) = >>=-eq-ok (group_stateful_sets b yaml funk mergo h gs) _ e₁ in
      let same : s ∷ rest ≡ sets = cc in
      rw (← same) (
        group_stateful_set-IsStatefulSet g (governed g (inl refl)) first,
        group_stateful_sets-IsStatefulSet gs (λ k i. governed k (inr i)) later,
      )

-- Each group has its headless service.
group_services-governed :
    (funk : Funk) (h : Opensearch) (gs : List NodeGroupSpec) (g : NodeGroupSpec)
    → In g gs
    → In (headless_service funk h g) (group_services funk h gs)
unfolding group_services
group_services-governed funk h [] g i = absurd i
group_services-governed funk h (k ∷ gs) g (inl e) = inr (inl (ap (headless_service funk h) e))
group_services-governed funk h (k ∷ gs) g (inr i) =
    inr (inr (group_services-governed funk h gs g i))

-- Where GenerateStatefullsets returns, it gives one stateful set for each node group, in order,
-- with the group's object name and replicas, started in parallel; its selector matches the labels
-- of its own pods, whatever labels the user gives, and its service is one that GenerateServices
-- makes, without an address, that selects the same pods. It assumes how the builder merges labels,
-- and that its other methods leave them alone.
pub generate_statefullsets-IsStatefulSet :
    (b : Builder) (yaml : Yaml) (funk : Funk) (mergo : Mergo AntiAffinitySpec) (h : Opensearch)
    {services : List Service} {sets : List StatefulSet}
    → MergesTemplates b
    → generate_services funk h ≡ ok services
    → generate_statefullsets b yaml funk mergo h ≡ ok sets
    → Pairs (IsStatefulSet h services) h.spec.node_groups sets
unfolding generate_services generate_statefullsets
generate_statefullsets-IsStatefulSet b yaml funk mergo h {services} merges made e =
    let gs = h.spec.node_groups in
    let same : cluster_service h ∷ group_services funk h gs ≡ services = cc in
    group_stateful_sets-IsStatefulSet b merges yaml funk mergo h services gs
      (λ g i. rw (← same) (inr (group_services-governed funk h gs g i))) e
