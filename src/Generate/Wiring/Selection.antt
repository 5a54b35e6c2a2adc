-- ===== src/Generate/Wiring/Selection.antt =====
-- Which of the generated stateful sets a selector reaches.
use opensearch_operator.Common.{
  ◌≡◌, ◌⊎◌, refl, sym, ap, ◌∙◌, inl, inr, String, Option, some, List, In, All-of-In, Pairs,
  Pairs-left, Pairs-right,
}
use opensearch_operator.Common.Maps.{GoMap, find}
use opensearch_operator.Api.Kubernetes.{Service, StatefulSet}
use opensearch_operator.Api.Types.{Opensearch, NodeGroupSpec}
use opensearch_operator.Api.Names.{get_node_group_name}
use opensearch_operator.Api.Names.Distinct.{get_node_group_name_injective}
use opensearch_operator.Generate.StatefulSets.Sets.{IsStatefulSet}
use opensearch_operator.Generate.Wiring.{Selects, SelectsAll, SelectsGroup}

-- What a selector for a cluster, or for a group of it, asks for.
pub record AsksCluster (h : Opensearch) (selector : GoMap String) : Type 0 where
  pub cluster : find "cluster" selector ≡ some h.meta.name
  pub only_cluster : (k v : String) → find k selector ≡ some v → k ≡ "cluster"

pub record AsksGroup (h : Opensearch) (group : String) (selector : GoMap String) : Type 0 where
  pub cluster : find "cluster" selector ≡ some h.meta.name
  pub group_asked : find "nodeGroup" selector ≡ some group
  pub only_both : (k v : String) → find k selector ≡ some v → (k ≡ "cluster") ⊎ (k ≡ "nodeGroup")

module _ (h : Opensearch) (services : List Service) where
  module _ (g : NodeGroupSpec) (t : StatefulSet) (is_set : IsStatefulSet h services g t) where
    label-cluster : find "cluster" t.template.labels ≡ some h.meta.name
    label-cluster = is_set.matched "cluster" h.meta.name (rw is_set.selects refl)

    label-group : find "nodeGroup" t.template.labels ≡ some g.name
    label-group = is_set.matched "nodeGroup" g.name (rw is_set.selects refl)

    AsksCluster-Selects :
        (selector : GoMap String) → AsksCluster h selector → Selects (λ k. find k selector) t
    AsksCluster-Selects selector asks k v e =
        let key = asks.only_cluster k v e in
        let same : some h.meta.name ≡ some v = sym asks.cluster ∙ rw key at e in
        rw key (label-cluster ∙ same)

    -- Asking for a group's label excludes the sets of the other groups.
    pub Selects-named :
        (asked : String → Option String) (group : String)
        → asked "nodeGroup" ≡ some group
        → Selects asked t
        → t.meta.name ≡ get_node_group_name h group
    Selects-named asked group e selects =
        let label = selects "nodeGroup" group e in
        let same : g.name ≡ group = let both = label-group in cc in
        is_set.named ∙ ap (get_node_group_name h) same

    AsksGroup-Selects :
        (group : String) (selector : GoMap String)
        → AsksGroup h group selector
        → t.meta.name ≡ get_node_group_name h group
        → Selects (λ k. find k selector) t
    AsksGroup-Selects group selector asks named k v e =
        let same : g.name ≡ group = get_node_group_name_injective h (sym is_set.named ∙ named) in
        elim (asks.only_both k v e) [
          | inl key ↦
              let value : some h.meta.name ≡ some v = sym asks.cluster ∙ rw key at e in
              rw key (label-cluster ∙ value)
          | inr key ↦
              let value : some group ≡ some v = sym asks.group_asked ∙ rw key at e in
              rw key (label-group ∙ ap some same ∙ value)
        ]

  module _ (sets : List StatefulSet)
      (are_sets : Pairs (IsStatefulSet h services) h.spec.node_groups sets) where
    pub AsksCluster-SelectsAll :
        (selector : GoMap String) → AsksCluster h selector → SelectsAll sets selector
    AsksCluster-SelectsAll selector asks = All-of-In _ sets λ t i.
        let (g, _, is_set) = Pairs-right _ _ _ are_sets t i in
        AsksCluster-Selects g t is_set selector asks

    pub AsksGroup-SelectsGroup :
        (group : NodeGroupSpec) (selector : GoMap String)
        → In group h.spec.node_groups
        → AsksGroup h group.name selector
        → SelectsGroup h sets group.name selector
    AsksGroup-SelectsGroup group selector i asks =
        let (own, has_own, is_own) = Pairs-left _ _ _ are_sets group i in
        record {
          own = own;
          has_own = has_own;
          own_named = is_own.named;
          just = All-of-In _ sets λ t j.
              let (g, _, is_set) = Pairs-right _ _ _ are_sets t j in
              (
                Selects-named g t is_set (λ k. find k selector) group.name asks.group_asked,
                AsksGroup-Selects g t is_set group.name selector asks,
              );
        }
