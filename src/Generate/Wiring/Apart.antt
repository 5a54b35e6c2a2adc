-- ===== src/Generate/Wiring/Apart.antt =====
-- The objects that keep apart: the anti-affinity of the node groups, and the name of the load
-- balancer.
use opensearch_operator.Common.{
  Bool-cases, All-mono, sym, String, ◌≢◌, [], ◌∷◌, ◌=?◌, ◌≡◌, ◌∙◌, inl, inr, Option, some, none,
  List, [], ◌∷◌, In, All, Pairs, Each,
}
use opensearch_operator.Common.Outcome.{ok}
use opensearch_operator.Funk.{Funk, IsLawful}
use opensearch_operator.Helper.Merge.{Mergo}
use opensearch_operator.Api.Kubernetes.{Service, StatefulSet}
use opensearch_operator.Api.Types.{Opensearch, NodeGroupSpec, AntiAffinitySpec}
use opensearch_operator.Generate.Services.{cluster_service, group_services}
use opensearch_operator.Generate.LoadBalancer.{
  generate_load_balancer, generate_load_balancer-result, disabled, refused, built,
}
use opensearch_operator.Api.Compute.Affinity.{
  FillsAntiAffinity, compute_anti_affinity-shape, affinity_shape, fill, type_of, key_of,
}
use opensearch_operator.Generate.Common.{group_selector}
use opensearch_operator.Generate.Services.Distinct.{balancer-fresh}
use opensearch_operator.Generate.StatefulSets.Sets.{IsStatefulSet}
use opensearch_operator.Generate.Wiring.{SpreadIsWired, SelectsGroup, terms}
use opensearch_operator.Generate.Wiring.Selection.{AsksGroup-SelectsGroup}
use opensearch_operator.Generate.Wiring.Targets.{group_selector-AsksGroup}

module _ (h : Opensearch) (services : List Service) (sets : List StatefulSet)
    (are_sets : Pairs (IsStatefulSet h services) h.spec.node_groups sets) where
  module _ (funk : Funk) (lawful : IsLawful funk) where
    affinity_shape-terms :
        (g : NodeGroupSpec) (kind key : String)
        → SelectsGroup h sets g.name (group_selector h g)
        → (terms (affinity_shape h g kind key) ≢ [])
          × All
              (λ t. SelectsGroup h sets g.name t.label_selector.match_labels)
              (terms (affinity_shape h g kind key))
    unfolding affinity_shape
    affinity_shape-terms g kind key own = elim (Bool-cases (kind =? "hard")) [
      | inl hard ↦ rw hard ((λ e. cc), (own, tt))
      | inr soft ↦ rw soft ((λ e. cc), (own, tt))
    ]

    pub spread-IsWired :
        (mergo : Mergo AntiAffinitySpec)
        → FillsAntiAffinity mergo
        → (g : NodeGroupSpec) → In g h.spec.node_groups
        → SpreadIsWired funk mergo h sets g
    spread-IsWired mergo fills g i =
        let global = h.spec.global_node_group.anti_affinity in
        let kind = fill (type_of g.anti_affinity) (type_of global) in
        let key = fill (key_of g.anti_affinity) (key_of global) in
        let own =
          AsksGroup-SelectsGroup h services sets are_sets g (group_selector h g) i
            (group_selector-AsksGroup h g) in
        let (given, each) = affinity_shape-terms g kind key own in
        (_, compute_anti_affinity-shape funk mergo h g lawful fills, given, each)

    pub fresh-balancer :
        (balancer : Option Service)
        → generate_load_balancer h ≡ ok balancer
        → Each
            (λ s.
              All
                (λ t. s.meta.name ≢ t.meta.name)
                (cluster_service h ∷ group_services funk h h.spec.node_groups))
            balancer
    fresh-balancer none e = tt
    fresh-balancer (some s) e = elim (generate_load_balancer-result h) [
      | disabled _ run ↦ absurd cc
      | refused b _ _ _ run ↦ absurd cc
      | built b t has on is_target run is_balancer ↦
          let same : t ≡ s = cc in
          let named = (rw same at is_balancer).named in
          All-mono _ _ (λ t ne e. ne (sym named ∙ e))
            (cluster_service h ∷ group_services funk h h.spec.node_groups)
            (balancer-fresh h funk h.spec.node_groups)
    ]
