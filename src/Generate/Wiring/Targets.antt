-- ===== src/Generate/Wiring/Targets.antt =====
-- What the selectors of the services, the ingress and the load balancer ask for.
use opensearch_operator.Common.{
  ◌≡◌, refl, ap, ◌∙◌, inl, inr, String, ◌=?◌, eq_iff, none, List, [], ◌∷◌, map, In, In-map, Pairs,
  Bool-cases, arith,
}
use opensearch_operator.Common.Maps.{GoMap, find, entries, In-of_lookup}
use opensearch_operator.Funk.{Funk}
use opensearch_operator.Api.Kubernetes.{Service, StatefulSet}
use opensearch_operator.Api.Types.{Opensearch, NodeGroupSpec}
use opensearch_operator.Generate.Common.{cluster_selector, group_selector, IsTarget}
use opensearch_operator.Generate.Services.{cluster_service, group_service, group_services}
use opensearch_operator.Generate.LoadBalancer.{IsBalancer}
use opensearch_operator.Generate.Ingress.{target_service}
use opensearch_operator.Generate.StatefulSets.Sets.{IsStatefulSet}
use opensearch_operator.Generate.Wiring.{SelectsTarget}
use opensearch_operator.Generate.Wiring.Selection.{
  AsksCluster, AsksGroup, AsksCluster-SelectsAll, AsksGroup-SelectsGroup,
}

pub cluster_selector-AsksCluster : (h : Opensearch) → AsksCluster h (cluster_selector h)
cluster_selector-AsksCluster h = record {
  cluster = refl;
  only_cluster = λ k v e. elim (In-of_lookup (entries (cluster_selector h)) k v e) [
    | inl key ↦ key
    | inr none_left ↦ absurd none_left
  ];
}

pub group_selector-AsksGroup :
    (h : Opensearch) (g : NodeGroupSpec) → AsksGroup h g.name (group_selector h g)
group_selector-AsksGroup h g = record {
  cluster = refl;
  group_asked = refl;
  only_both = λ k v e. elim (In-of_lookup (entries (group_selector h g)) k v e) [
    | inl key ↦ inl key
    | inr (inl key) ↦ inr key
    | inr (inr none_left) ↦ absurd none_left
  ];
}

group_service-In :
    (funk : Funk) (h : Opensearch) (gs : List NodeGroupSpec) (g : NodeGroupSpec)
    → In g gs
    → In (group_service h g) (group_services funk h gs)
unfolding group_services
group_service-In funk h [] g i = absurd i
group_service-In funk h (k ∷ gs) g (inl e) = inl (ap (group_service h) e)
group_service-In funk h (k ∷ gs) g (inr i) = inr (inr (group_service-In funk h gs g i))

module _ (h : Opensearch) (services : List Service) (sets : List StatefulSet)
    (are_sets : Pairs (IsStatefulSet h services) h.spec.node_groups sets) where
  -- The service of a target, as the ingress and the load balancer ask for it.
  group-SelectsTarget :
      (target : String) (selector : GoMap String)
      → In target (map (λ g. g.name) h.spec.node_groups)
      → AsksGroup h target selector
      → SelectsTarget h sets target selector
  group-SelectsTarget target selector i asks =
      let (g, j, e) = In-map (λ g. g.name) h.spec.node_groups target i in
      inr (i, rw e (AsksGroup-SelectsGroup h services sets are_sets g selector j (rw e at asks)))

  pub IsBalancer-SelectsTarget :
      (target : String) (s : Service)
      → IsTarget h target
      → IsBalancer h target s
      → SelectsTarget h sets target s.spec.selector
  IsBalancer-SelectsTarget target s is_target balancer = elim (Bool-cases (target =? "")) [
    | inl whole ↦ inl (
      (eq_iff target "").0 whole,
      AsksCluster-SelectsAll h services sets are_sets s.spec.selector (record {
        cluster = balancer.cluster;
        only_cluster = λ k v e. elim (balancer.only k v e) [
          | inl key ↦ key
          | inr key ↦
              let unasked : find "nodeGroup" s.spec.selector ≡ none =
                balancer.group ∙ rw whole refl in
              let asked = rw key at e in absurd (ground arith)
        ];
      }),
    )
    | inr given ↦ elim is_target [
      | inl empty ↦ absurd (ground (arith, eq_iff target ""))
      | inr i ↦ group-SelectsTarget target s.spec.selector i (record {
        cluster = balancer.cluster;
        group_asked = balancer.group ∙ rw given refl;
        only_both = balancer.only;
      })
    ]
  ]

  -- The cluster's service, or that of the group, is the one that the ingress names.
  pub target-service :
      (funk : Funk) (target : String)
      → IsTarget h target
      → (s : Service) × In s (cluster_service h ∷ group_services funk h h.spec.node_groups)
        × (s.meta.name ≡ target_service h target)
        × In 9200 (map (λ p. p.port) s.spec.ports)
        × SelectsTarget h sets target s.spec.selector
  target-service funk target is_target = elim (Bool-cases (target =? "")) [
    | inl whole ↦ (
      cluster_service h,
      inl refl,
      rw whole refl,
      inl refl,
      inl (
        (eq_iff target "").0 whole,
        AsksCluster-SelectsAll h services sets are_sets _ (cluster_selector-AsksCluster h),
      ),
    )
    | inr given ↦ elim is_target [
      | inl empty ↦ absurd (ground (arith, eq_iff target ""))
      | inr i ↦
          let (g, j, e) = In-map (λ g. g.name) h.spec.node_groups target i in
          (
            group_service h g,
            inr (group_service-In funk h h.spec.node_groups g j),
            rw (given, e) refl,
            inl refl,
            group-SelectsTarget target (group_selector h g) i (rw e (group_selector-AsksGroup h g)),
          )
    ]
  ]
