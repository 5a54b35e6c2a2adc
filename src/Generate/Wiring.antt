-- ===== src/Generate/Wiring.antt =====
-- How the generated objects of one cluster hang together: which pods a service, a load balancer, an
-- ingress or a disruption budget reaches. Kubernetes joins them by labels and names alone.
pub mod Selection
pub mod Targets
pub mod Apart
pub mod Objects
use opensearch_operator.Common.{
  ◌≡◌, ◌≢◌, ◌++◌, ◌↔◌, ◌⊎◌, ℕ, String, Option, some, List, [], ◌∷◌, map, In, All, Pairs, Each,
}
use opensearch_operator.Common.Outcome.{ok}
use opensearch_operator.Funk.{Funk}
use opensearch_operator.Helper.Merge.{Mergo}
use opensearch_operator.Api.Compute.{compute_anti_affinity}
use opensearch_operator.Common.Maps.{GoMap, find}
use opensearch_operator.Api.Kubernetes.{
  Service, StatefulSet, Ingress, PodDisruptionBudget, PodAntiAffinity, PodAffinityTerm,
}
use opensearch_operator.Api.Types.{
  Opensearch, NodeGroupSpec, IngressSpec, LoadBalancerSpec, AntiAffinitySpec,
}
use opensearch_operator.Api.Names.{
  get_node_group_name, get_node_group_service_name, get_node_group_service_name_headless,
  get_global_service_name, load_balancer_of, ingress_of,
}
use opensearch_operator.Generate.Budgets.Laws.{selected}

-- A selector, by what it asks for under a key, selects the pods of a stateful set.
abbrev pub Selects : (String → Option String) → StatefulSet → Type 0
Selects asked t = (k v : String) → asked k ≡ some v → find k t.template.labels ≡ some v

abbrev pub SelectsAll : List StatefulSet → GoMap String → Type 0
SelectsAll sets selector = All (Selects (λ k. find k selector)) sets

-- It selects the pods of one node group: there is a stateful set of the group's object name among
-- those of the cluster, and the sets of that name are just the ones whose pods are selected.
pub record SelectsGroup (h : Opensearch) (sets : List StatefulSet) (group : String)
    (selector : GoMap String) : Type 0 where
  pub own : StatefulSet
  pub has_own : In own sets
  pub own_named : own.meta.name ≡ get_node_group_name h group
  pub just :
      All (λ t. Selects (λ k. find k selector) t ↔ (t.meta.name ≡ get_node_group_name h group)) sets

-- The pods of a target: of the named group, or of the whole cluster without a name.
abbrev pub SelectsTarget : Opensearch → List StatefulSet → (target : String) → GoMap String → Type 0
SelectsTarget h sets target selector =
    ((target ≡ "") × SelectsAll sets selector)
    ⊎ (In target (map (λ (g : NodeGroupSpec). g.name) h.spec.node_groups)
        × SelectsGroup h sets target selector)

-- A generated service: the cluster's own, or one of the two of a node group.
abbrev pub ServiceIsWired : Opensearch → List StatefulSet → Service → Type 0
ServiceIsWired h sets s =
    ((s.meta.name ≡ get_global_service_name h) × SelectsAll sets s.spec.selector)
    ⊎ ((g : NodeGroupSpec) × In g h.spec.node_groups
        × ((s.meta.name ≡ get_node_group_service_name h g.name)
            ⊎ (s.meta.name ≡ get_node_group_service_name_headless h g.name))
        × SelectsGroup h sets g.name s.spec.selector)

abbrev pub BalancerIsWired : Opensearch → List StatefulSet → Service → Type 0
BalancerIsWired h sets s =
    (b : LoadBalancerSpec) × (load_balancer_of h.spec.endpoint ≡ some b)
    × SelectsTarget h sets b.target_node_group_name s.spec.selector

-- The requests for the host go to a service that is generated, on one of its ports.
pub record IngressIsWired (h : Opensearch) (services : List Service) (sets : List StatefulSet)
    (o : Ingress) : Type 0 where
  pub settings : IngressSpec
  pub has_settings : ingress_of h.spec.endpoint ≡ some settings
  pub service : Service
  pub has_service : In service services
  pub port : ℕ
  pub has_port : In port (map (λ p. p.port) service.spec.ports)
  pub routed :
      o.spec.rules
      ≡ record {
        host = settings.host;
        paths =
            record {
              path = "/";
              path_type = "Prefix";
              service_name = service.meta.name;
              service_port = port;
            }
            ∷ [];
      }
        ∷ []
  pub reaches : SelectsTarget h sets settings.target_node_group_name service.spec.selector

-- A budget counts no pods of another group, whatever the user adds to its selector.
abbrev pub BudgetIsWired :
    Opensearch → List StatefulSet → NodeGroupSpec → PodDisruptionBudget → Type 0
BudgetIsWired h sets g b =
    All
      (λ t.
        Selects (λ k. selected k b.spec.selector) t → t.meta.name ≡ get_node_group_name h g.name)
      sets

-- The terms of an anti-affinity, required or preferred.
abbrev pub terms : PodAntiAffinity → List PodAffinityTerm
terms a = a.required ++ map (λ p. p.term) a.preferred

-- The anti-affinity that is computed for a node group keeps apart the pods of this group alone.
abbrev pub SpreadIsWired :
    Funk → Mergo AntiAffinitySpec → Opensearch → List StatefulSet → NodeGroupSpec → Type 0
SpreadIsWired funk mergo h sets g =
    (a : PodAntiAffinity) × (compute_anti_affinity funk mergo h g ≡ ok a)
    × (terms a ≢ [])
    × All (λ t. SelectsGroup h sets g.name t.label_selector.match_labels) (terms a)

pub record IsWired (funk : Funk) (mergo : Mergo AntiAffinitySpec) (h : Opensearch)
    (services : List Service) (sets : List StatefulSet) (balancer : Option Service)
    (ingress : Option Ingress) (budgets : List PodDisruptionBudget) : Type 0 where
  pub each_service : All (ServiceIsWired h sets) services
  pub each_balancer : Each (BalancerIsWired h sets) balancer
  -- No other service has the balancer's name.
  pub fresh_balancer : Each (λ s. All (λ t. s.meta.name ≢ t.meta.name) services) balancer
  pub each_ingress : Each (IngressIsWired h services sets) ingress
  pub each_budget : Pairs (BudgetIsWired h sets) h.spec.node_groups budgets
  pub each_spread : All (SpreadIsWired funk mergo h sets) h.spec.node_groups
