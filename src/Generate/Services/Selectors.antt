-- ===== src/Generate/Services/Selectors.antt =====
-- The hosts of `computeDiscoverySeedHosts` are services that `GenerateServices` makes.
use opensearch_operator.Common.{
  ◌≡◌, refl, true, String, List, [], ◌∷◌, In, inl, inr, All, All-mono, Bool-cases,
}
use opensearch_operator.Funk.{Funk, IsLawful}
use opensearch_operator.Api.Kubernetes.{Service}
use opensearch_operator.Api.Types.{Opensearch, NodeGroupSpec}
use opensearch_operator.Api.Names.{get_node_group_service_name_headless}
use opensearch_operator.Api.Compute.{is_master_role, seed_hosts_of}
use opensearch_operator.Generate.Common.{group_selector}
use opensearch_operator.Generate.Services.{
  group_services, headless_service, generate_services, cluster_service,
}
use opensearch_operator.Common.Outcome.{ok}

-- `host` is the name of a headless service among `ss`, which also publishes nodes that are not
-- ready and selects the pods of a group among `gs` with the role `cluster_manager`.
pub record FindsMasters (h : Opensearch) (gs : List NodeGroupSpec) (ss : List Service)
    (host : String) : Type 0 where
  pub group : NodeGroupSpec
  pub service : Service
  pub has_group : In group gs
  pub manages : In "cluster_manager" group.roles
  pub has_service : In service ss
  pub named : service.meta.name ≡ host
  pub headless : service.spec.cluster_ip ≡ "None"
  pub unready : service.spec.publish_not_ready_addresses ≡ true
  pub selects : service.spec.selector ≡ group_selector h group

module _ (f : Funk) (lawful : IsLawful f) (h : Opensearch) where
  FindsMasters-cons :
      (g : NodeGroupSpec) (gs : List NodeGroupSpec) (host : String)
      → FindsMasters h gs (group_services f h gs) host
      → FindsMasters h (g ∷ gs) (group_services f h (g ∷ gs)) host
  unfolding group_services
  FindsMasters-cons g gs host s = record {
    group = s.group;
    service = s.service;
    has_group = inr s.has_group;
    manages = s.manages;
    has_service = inr (inr s.has_service);
    named = s.named;
    headless = s.headless;
    unready = s.unready;
    selects = s.selects;
  }

  FindsMasters-own :
      (g : NodeGroupSpec) (gs : List NodeGroupSpec)
      → is_master_role f g ≡ true
      → FindsMasters h
          (g ∷ gs)
          (group_services f h (g ∷ gs))
          (get_node_group_service_name_headless h g.name)
  unfolding group_services is_master_role
  FindsMasters-own g gs e = record {
    group = g;
    service = headless_service f h g;
    has_group = inl refl;
    manages = (lawful.contains_iff g.roles "cluster_manager").0 e;
    has_service = inr (inl refl);
    named = refl;
    headless = refl;
    unready = refl;
    selects = refl;
  }

  seed_hosts_of-FindsMasters :
      (gs : List NodeGroupSpec)
      → All (FindsMasters h gs (group_services f h gs)) (seed_hosts_of f h gs)
  unfolding seed_hosts_of
  seed_hosts_of-FindsMasters [] = tt
  seed_hosts_of-FindsMasters (g ∷ gs) =
      let later =
        All-mono (FindsMasters h gs (group_services f h gs)) _ (FindsMasters-cons g gs) _
          (seed_hosts_of-FindsMasters gs) in
      elim (Bool-cases (is_master_role f g)) [
        | inl master ↦ rw master (FindsMasters-own g gs master, later)
        | inr other ↦ rw other later
      ]

  seed_hosts_of_complete :
      (gs : List NodeGroupSpec) (g : NodeGroupSpec)
      → In g gs
      → In "cluster_manager" g.roles
      → In (get_node_group_service_name_headless h g.name) (seed_hosts_of f h gs)
  unfolding seed_hosts_of is_master_role
  seed_hosts_of_complete (k ∷ gs) g (inl e) m =
      let master = (lawful.contains_iff k.roles "cluster_manager").1 (rw e at m) in
      rw master (inl (rw e))
  seed_hosts_of_complete (k ∷ gs) g (inr i) m =
      let later = seed_hosts_of_complete gs g i m in
      elim (Bool-cases (is_master_role f k)) [
        | inl master ↦ rw master (inr later)
        | inr other ↦ rw other later
      ]
  seed_hosts_of_complete [] g i m = absurd i

  -- Every host that the nodes discover the cluster by is the name of a headless service that
  -- GenerateServices makes, which publishes nodes that are not ready and selects the pods of a
  -- group with the role cluster_manager; and each such group's headless service is one of the
  -- hosts. It assumes what funk.Contains documents.
  pub seed_hosts-FindsMasters :
      (ss : List Service)
      → generate_services f h ≡ ok ss
      → All (FindsMasters h h.spec.node_groups ss) (seed_hosts_of f h h.spec.node_groups)
        × ((g : NodeGroupSpec)
            → In g h.spec.node_groups
            → In "cluster_manager" g.roles
            → In
                (get_node_group_service_name_headless h g.name)
                (seed_hosts_of f h h.spec.node_groups))
  unfolding generate_services
  seed_hosts-FindsMasters ss e =
      let gs = h.spec.node_groups in
      let same : cluster_service h ∷ group_services f h gs ≡ ss = cc in
      (
        rw (← same) (
            All-mono (FindsMasters h gs (group_services f h gs)) _
              (λ host s. record {
                group = s.group;
                service = s.service;
                has_group = s.has_group;
                manages = s.manages;
                has_service = inr s.has_service;
                named = s.named;
                headless = s.headless;
                unready = s.unready;
                selects = s.selects;
              })
              _ (seed_hosts_of-FindsMasters gs)),
        seed_hosts_of_complete gs,
      )
