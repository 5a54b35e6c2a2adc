-- ===== src/Generate/Common.antt =====
-- What several generators do: the metadata of an object, and the search for a node group.
use opensearch_operator.Common.{
  ◌≡◌, ◌↔◌, ◌⊎◌, inl, inr, String, ◌=?◌, eq_iff, sym, Bool, true, false, some, List, [], ◌∷◌,
  if◌then◌else◌, In, map, arith, Bool-cases,
}
use opensearch_operator.Common.Outcome.{Outcome, ok, err, new}
use opensearch_operator.Common.Maps.{GoMap}
use opensearch_operator.Common.{◌<>◌}
use opensearch_operator.Api.Kubernetes.{ObjectMeta, ServicePort}
use opensearch_operator.Api.Types.{Opensearch, NodeGroupSpec}

-- The metadata that most objects get: the labels and annotations are the resource's.
abbrev pub object_meta : Opensearch → String → ObjectMeta
object_meta h name = record {
  namespace = h.meta.namespace;
  name = name;
  labels = h.meta.labels;
  annotations = h.meta.annotations;
}

abbrev pub cluster_selector : Opensearch → GoMap String
cluster_selector h = some (("cluster", h.meta.name) ∷ [])

abbrev pub group_selector : Opensearch → NodeGroupSpec → GoMap String
group_selector h g = some (("cluster", h.meta.name) ∷ ("nodeGroup", g.name) ∷ [])

abbrev pub http_port : ServicePort
http_port = record { name = "http"; protocol = "TCP"; port = 9200; target_port = 9200 }

abbrev pub transport_port : ServicePort
transport_port = record { name = "transport"; protocol = "TCP"; port = 9300; target_port = 9300 }

-- The loop that sets `isFound`.
unfoldable pub is_found : String → List NodeGroupSpec → Bool
is_found target [] = false
is_found target (g ∷ gs) = if g.name =? target then true else is_found target gs

pub is_found_iff :
    (target : String) (gs : List NodeGroupSpec)
    → (is_found target gs ≡ true) ↔ In target (map (λ g. g.name) gs)
unfolding is_found
is_found_iff target [] = (λ e. cc, λ i. absurd i)
is_found_iff target (g ∷ gs) =
    let (to, from) = is_found_iff target gs in
    elim (Bool-cases (g.name =? target)) [
      | inl same ↦ (λ e. inl (sym ((eq_iff g.name target).0 same)), λ i. rw same)
      | inr other ↦ (
        λ e. inr (to (ground arith)),
        λ i. elim i [
          | inl e ↦ absurd (ground (arith, eq_iff g.name target))
          | inr later ↦ rw other (from later)
        ],
      )
    ]

-- The check of the optional target of an ingress or a load balancer.
unfoldable pub check_target : Opensearch → String → Outcome (Unit {0})
unfolding is_found
check_target h target =
    if target =? ""
    then ok tt
    else if is_found target h.spec.node_groups
    then ok tt
    else err (new ("The target group name '" <> (target <> "' not found")))

-- No target is given, or it is the name of a node group.
abbrev pub IsTarget : Opensearch → String → Type 0
IsTarget h target = (target ≡ "") ⊎ In target (map (λ g. g.name) h.spec.node_groups)

-- The check of a target passes exactly for an empty target and for the name of a node group, and
-- otherwise gives the error that names the target.
pub check_target_cases :
    (h : Opensearch) (target : String)
    → (IsTarget h target × (check_target h target ≡ ok tt))
      ⊎ ((¬ IsTarget h target)
          × (check_target h target
              ≡ err (new ("The target group name '" <> (target <> "' not found")))))
unfolding check_target
check_target_cases h target = elim (Bool-cases (target =? "")) [
  | inl empty ↦ inl (inl ((eq_iff target "").0 empty), rw empty)
  | inr given ↦ elim (Bool-cases (is_found target h.spec.node_groups)) [
    | inl found ↦ inl (inr ((is_found_iff target _).0 found), rw (given, found))
    | inr missing ↦ inr (
      λ t. elim t [
        | inl e ↦ absurd (ground (arith, eq_iff target ""))
        | inr i ↦ absurd (ground (arith, (is_found_iff target h.spec.node_groups).1 i))
      ],
      rw (given, missing),
    )
  ]
]
