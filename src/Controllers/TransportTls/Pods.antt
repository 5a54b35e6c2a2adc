-- ===== src/Controllers/TransportTls/Pods.antt =====
-- The node names, for which the transport secret has certificates, against the pods of the
-- generated stateful sets. Kubernetes names a pod by its set, a dash and an index below the
-- replicas.
use opensearch_operator.Common.{
  ◌≡◌, ◌↔◌, refl, sym, ap, ◌∙◌, ℕ, ◌<◌, String, ◌<>◌, List, In, Pairs-left, Pairs-right,
}
use opensearch_operator.Common.Outcome.{ok}
use opensearch_operator.Common.Text.{decimal}
use opensearch_operator.Funk.{Funk}
use opensearch_operator.Helper.Merge.{Mergo}
use opensearch_operator.Helper.Settings.{Yaml}
use opensearch_operator.Api.Kubernetes.{StatefulSet}
use opensearch_operator.Api.Types.{Opensearch, AntiAffinitySpec}
use opensearch_operator.Api.Names.{get_node_names}
use opensearch_operator.Api.Names.Counting.{magnitude}
use opensearch_operator.Api.Names.Members.{get_node_names_iff}
use opensearch_operator.Generate.Builder.{Builder, MergesTemplates}
use opensearch_operator.Generate.Services.{generate_services}
use opensearch_operator.Generate.StatefulSets.{generate_statefullsets}
use opensearch_operator.Generate.StatefulSets.Sets.{generate_statefullsets-IsStatefulSet}

-- The name of a set's pod.
abbrev pub pod_name : StatefulSet → ℕ → String
pod_name t j = t.meta.name <> ("-" <> decimal j)

abbrev pub IsPod : List StatefulSet → String → Type 0
IsPod sets s =
    (t : StatefulSet) × In t sets × (j : ℕ) × (j < magnitude t.replicas) × (s ≡ pod_name t j)

module _ (b : Builder) (yaml : Yaml) (funk : Funk) (mergo : Mergo AntiAffinitySpec) (h : Opensearch)
    (merges : MergesTemplates b) where
  -- Where GetNodeNames and GenerateStatefullsets return, a text is one of the node names exactly
  -- if it is the name of a pod of one of the stateful sets: the set's name, a dash and an index
  -- below its replicas. It assumes how the builder merges labels.
  pub get_node_names-IsPod :
      {names : List String} {sets : List StatefulSet} (s : String)
      → get_node_names h ≡ ok names
      → generate_statefullsets b yaml funk mergo h ≡ ok sets
      → In s names ↔ IsPod sets s
  unfolding generate_services
  get_node_names-IsPod {names} {sets} s found made =
      let are_sets = generate_statefullsets-IsStatefulSet b yaml funk mergo h merges refl made in
      let (to, from) = get_node_names_iff h s found in
      (
        λ i.
            let (g, in_groups, (j, below, e)) = to i in
            let (t, in_sets, is_set) = Pairs-left _ _ _ are_sets g in_groups in
            (
              t,
              in_sets,
              j,
              rw is_set.replicated below,
              e ∙ ap (λ (n : String). n <> ("-" <> decimal j)) (sym is_set.named),
            ),
        λ (t, in_sets, j, below, e).
            let (g, in_groups, is_set) = Pairs-right _ _ _ are_sets t in_sets in
            from (
              g,
              in_groups,
              (
                j,
                rw is_set.replicated at below,
                e ∙ ap (λ (n : String). n <> ("-" <> decimal j)) is_set.named,
              ),
            ),
      )
