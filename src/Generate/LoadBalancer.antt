-- ===== src/Generate/LoadBalancer.antt =====
-- `GenerateLoadbalancer`.
use opensearch_operator.Common.{
  ◌≡◌, ◌⊎◌, In, map, inl, inr, refl, String, ◌<>◌, ◌=?◌, true, false, Option, none, some, [], ◌∷◌,
  if◌then◌else◌, arith, Bool-cases, Option-cases,
}
use text.Mathlib.TextLemmas.{append_assoc}
use opensearch_operator.Common.Outcome.{Outcome, ok, err, new, ◌>>=◌}
use opensearch_operator.Common.Maps.{GoMap, insert, find, entries, In-of_lookup}
use opensearch_operator.Api.Kubernetes.{Service}
use opensearch_operator.Api.Types.{Opensearch, LoadBalancerSpec}
use opensearch_operator.Api.Names.{
  is_load_balancer_enabled, load_balancer_of, get_global_service_name,
}
use opensearch_operator.Generate.Common.{
  object_meta, http_port, check_target, check_target_cases, IsTarget,
}

-- The selector with the node group, if one is targeted.
abbrev pub target_selector : Opensearch → String → GoMap String
target_selector h target =
    if target =? ""
    then some (("cluster", h.meta.name) ∷ [])
    else some (insert "nodeGroup" target (("cluster", h.meta.name) ∷ []))

abbrev pub balancer_service : Opensearch → String → Service
balancer_service h target = record {
  meta = object_meta h (get_global_service_name h <> "-lb");
  spec = record {
    service_type = "LoadBalancer";
    cluster_ip = "";
    publish_not_ready_addresses = false;
    session_affinity = "None";
    selector = target_selector h target;
    ports = http_port ∷ [];
  };
}

-- The rest of the function, with the load balancer that `IsLoadBalancerEnabled` has seen.
abbrev pub enabled_balancer : Opensearch → Option LoadBalancerSpec → Outcome (Option Service)
enabled_balancer h none = ok none
enabled_balancer h (some b) = check_target h b.target_node_group_name >>= λ _.
    ok (some (balancer_service h b.target_node_group_name))

unfoldable pub generate_load_balancer : Opensearch → Outcome (Option Service)
generate_load_balancer h =
    if is_load_balancer_enabled h
    then enabled_balancer h (load_balancer_of h.spec.endpoint)
    else ok none

-- What a load balancer service must be: it exposes the HTTP port of the pods of this cluster, of
-- the target group only if one is given.
pub record IsBalancer (h : Opensearch) (target : String) (s : Service) : Type 0 where
  pub named : s.meta.name ≡ h.meta.name <> "-os-lb"
  pub exposed : s.spec.service_type ≡ "LoadBalancer"
  pub ports : s.spec.ports ≡ http_port ∷ []
  pub cluster : find "cluster" s.spec.selector ≡ some h.meta.name
  pub group : find "nodeGroup" s.spec.selector ≡ (if target =? "" then none else some target)
  pub only : (k v : String) → find k s.spec.selector ≡ some v → (k ≡ "cluster") ⊎ (k ≡ "nodeGroup")

-- What the call returns, on each of its branches.
pub data BalancerResult (h : Opensearch) (r : Outcome (Option Service)) : Type 0 where
  disabled : is_load_balancer_enabled h ≡ false → r ≡ ok none → BalancerResult h r
  refused :
      (b : LoadBalancerSpec)
      → load_balancer_of h.spec.endpoint ≡ some b
      → b.enabled ≡ true
      → ¬ IsTarget h b.target_node_group_name
      → r ≡ err (new ("The target group name '" <> (b.target_node_group_name <> "' not found")))
      → BalancerResult h r
  built :
      (b : LoadBalancerSpec) (s : Service)
      → load_balancer_of h.spec.endpoint ≡ some b
      → b.enabled ≡ true
      → IsTarget h b.target_node_group_name
      → r ≡ ok (some s)
      → IsBalancer h b.target_node_group_name s
      → BalancerResult h r

balancer_keys :
    (h : Opensearch) (target k : String)
    → In k (map (λ e. e.0) (entries (target_selector h target)))
    → (k ≡ "cluster") ⊎ (k ≡ "nodeGroup")
balancer_keys h target k i = elim (Bool-cases (target =? "")) [
  | inl whole ↦ elim (rw whole at i) [ inl e ↦ inl e | inr none_left ↦ absurd none_left ]
  | inr given ↦ elim (rw given at i) [
    | inl e ↦ inl e
    | inr (inl e) ↦ inr e
    | inr (inr none_left) ↦ absurd none_left
  ]
]

balancer_service-IsBalancer :
    (h : Opensearch) (target : String) → IsBalancer h target (balancer_service h target)
unfolding get_global_service_name
balancer_service-IsBalancer h target = record {
  named = append_assoc h.meta.name "-os" "-lb";
  exposed = refl;
  ports = refl;
  cluster = ground arith;
  group = ground arith;
  only = λ k v e. balancer_keys h target k (In-of_lookup _ k v e);
}

-- On each of its branches GenerateLoadbalancer returns what it should: nothing where it is
-- disabled, an error for a target that is no node group, and else the load balancer service of the
-- target group or of the whole cluster, whose selector asks for no other labels.
pub generate_load_balancer-result : (h : Opensearch) → BalancerResult h (generate_load_balancer h)
unfolding generate_load_balancer is_load_balancer_enabled
generate_load_balancer-result h = elim (Option-cases (load_balancer_of h.spec.endpoint)) [
  | inl off ↦ disabled (rw off) (rw off)
  | inr (b, has) ↦ elim (Bool-cases b.enabled) [
    | inr off ↦ disabled (rw (has, off)) (rw (has, off))
    | inl on ↦ elim (check_target_cases h b.target_node_group_name) [
      | inl (target, pass) ↦
          built b (balancer_service h b.target_node_group_name) has on target (rw (has, on, pass))
            (balancer_service-IsBalancer h b.target_node_group_name)
      | inr (missing, fail) ↦ refused b has on missing (rw (has, on, fail))
    ]
  ]
]
