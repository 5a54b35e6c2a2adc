-- ===== src/Generate/Services/Distinct.antt =====
-- The services of a cluster have different names.
use text.Mathlib.TextLemmas.{
  append_assoc, append-nil, append_cancel_left, append_cancel_right, cons-append, nil≢cons,
}
use opensearch_operator.Common.{
  ◌≡◌, ◌≢◌, refl, sym, ◌∙◌, ◌+◌, ◌*◌, length, String, ◌<>◌, ◌=?◌, false, eq_iff, List, [], ◌∷◌, map,
  All, All-of, All-mono, Distinct, arith,
}
use opensearch_operator.Common.Outcome.{ok}
use opensearch_operator.Common.Text.{dash_split, NoDash}
use opensearch_operator.Funk.{Funk}
use opensearch_operator.Api.Kubernetes.{Service}
use opensearch_operator.Api.Types.{Opensearch, NodeGroupSpec}
use opensearch_operator.Api.Names.{
  get_global_service_name, get_node_group_name, get_node_group_service_name,
  get_node_group_service_name_headless,
}
use opensearch_operator.Api.Names.Distinct.{DistinctGroups, get_node_group_name_injective}
use opensearch_operator.Generate.Services.{cluster_service, group_services, generate_services}

os-NoDash : NoDash "os"
os-NoDash = omega arith

headless-NoDash : NoDash "headless"
headless-NoDash = omega arith

lb-NoDash : NoDash "lb"
lb-NoDash = omega arith

module _ (h : Opensearch) where
  -- The object name of a group, split before its last dash.
  split_group :
      (a : String) → get_node_group_name h a ≡ (h.meta.name <> ("-" <> a)) <> ("-" <> "os")
  unfolding get_node_group_name
  split_group a = simp append_assoc

  service-ne-headless :
      (a b : String) → get_node_group_service_name h a ≢ get_node_group_service_name_headless h b
  unfolding get_node_group_service_name get_node_group_service_name_headless
  service-ne-headless a b e =
      let (_, last) =
        dash_split _ _ "os" "headless" os-NoDash headless-NoDash (sym (split_group a) ∙ e) in
      absurd (ground (arith, eq_iff "os" "headless"))

  headless_injective :
      {a b : String}
      → get_node_group_service_name_headless h a ≡ get_node_group_service_name_headless h b
      → a ≡ b
  unfolding get_node_group_service_name_headless
  headless_injective e = get_node_group_name_injective h (append_cancel_right _ _ "-headless" e)

  global-ne-service : (a : String) → get_global_service_name h ≢ get_node_group_service_name h a
  unfolding get_global_service_name get_node_group_service_name
  global-ne-service a e =
      let (name, _) = dash_split _ _ "os" "os" os-NoDash os-NoDash (e ∙ split_group a) in
      let rest = append_cancel_left h.meta.name "" ("-" <> a) (append-nil h.meta.name ∙ name) in
      nil≢cons (rest ∙ cons-append "-" "" a)

  global-ne-headless :
      (a : String) → get_global_service_name h ≢ get_node_group_service_name_headless h a
  unfolding get_global_service_name get_node_group_service_name_headless
  global-ne-headless a e =
      let (_, last) = dash_split _ _ "os" "headless" os-NoDash headless-NoDash e in
      absurd (ground (arith, eq_iff "os" "headless"))

  balancer-ne :
      (start last : String)
      → NoDash last
      → ("lb" =? last) ≡ false
      → h.meta.name <> "-os-lb" ≢ start <> ("-" <> last)
  balancer-ne start last plain other e =
      let (_, same) =
        dash_split (h.meta.name <> "-os") start "lb" last lb-NoDash plain
          (append_assoc h.meta.name "-os" "-lb" ∙ e) in
      let equal = (eq_iff "lb" last).1 same in absurd cc

  -- The name of the load balancer's service differs from all of them.
  pub balancer-fresh :
      (f : Funk) (gs : List NodeGroupSpec)
      → All
          (λ (t : Service). h.meta.name <> "-os-lb" ≢ t.meta.name)
          (cluster_service h ∷ group_services f h gs)
  unfolding group_services get_global_service_name get_node_group_service_name
      get_node_group_service_name_headless
  balancer-fresh f [] = (balancer-ne h.meta.name "os" os-NoDash refl, tt)
  balancer-fresh f (g ∷ gs) =
      let (global, rest) = balancer-fresh f gs in
      (
        global,
        (
          λ e. balancer-ne _ "os" os-NoDash refl (e ∙ split_group g.name),
          (balancer-ne (get_node_group_name h g.name) "headless" headless-NoDash refl, rest),
        ),
      )

  -- A name differs from those of all services of the groups.
  group_services-fresh :
      (f : Funk) (s : String) (gs : List NodeGroupSpec)
      → All (λ g. s ≢ get_node_group_service_name h g.name) gs
      → All (λ g. s ≢ get_node_group_service_name_headless h g.name) gs
      → All (λ t. s ≢ t) (map (λ t. t.meta.name) (group_services f h gs))
  unfolding group_services
  group_services-fresh f s [] a b = tt
  group_services-fresh f s (g ∷ gs) (p, a) (q, b) = (p, (q, group_services-fresh f s gs a b))

  of_names :
      (P : String → Type 0) (gs : List NodeGroupSpec)
      → All P (map (λ g. g.name) gs)
      → All (λ g. P g.name) gs
  of_names P [] p = tt
  of_names P (g ∷ gs) (p, ps) = (p, of_names P gs ps)

  group_services-Distinct :
      (f : Funk) (gs : List NodeGroupSpec)
      → Distinct (map (λ g. g.name) gs)
      → Distinct (map (λ t. t.meta.name) (group_services f h gs))
  unfolding group_services get_node_group_service_name
  group_services-Distinct f [] d = tt
  group_services-Distinct f (g ∷ gs) (fresh, d) = (
    (
      service-ne-headless g.name g.name,
      group_services-fresh f _ gs
          (of_names (λ n. get_node_group_name h g.name ≢ get_node_group_name h n) gs
            (All-mono (λ n. g.name ≢ n) _ (λ n ne e. ne (get_node_group_name_injective h e)) _
              fresh))
          (All-of _ (λ k. service-ne-headless g.name k.name) gs),
    ),
    (
      group_services-fresh f _ gs (All-of _ (λ k e. service-ne-headless k.name g.name (sym e)) gs) (
          of_names
            (λ n.
              get_node_group_service_name_headless h g.name
              ≢ get_node_group_service_name_headless h n)
            gs (All-mono (λ n. g.name ≢ n) _ (λ n ne e. ne (headless_injective e)) _ fresh)),
      group_services-Distinct f gs d,
    ),
  )

-- If the node groups have pairwise different names, GenerateServices returns one service for the
-- cluster and two for each group, and all their names are pairwise different.
pub generate_services-Distinct :
    (f : Funk) (h : Opensearch)
    → DistinctGroups h
    → (ss : List Service) × (generate_services f h ≡ ok ss)
      × (length ss ≡ 1 + 2 * length h.spec.node_groups)
      × Distinct (map (λ s. s.meta.name) ss)
unfolding generate_services get_global_service_name
generate_services-Distinct f h d = (
  _,
  refl,
  omega (arith, length-group_services h.spec.node_groups),
  (
    group_services-fresh h f _ h.spec.node_groups
        (All-of _ (λ k. global-ne-service h k.name) h.spec.node_groups)
        (All-of _ (λ k. global-ne-headless h k.name) h.spec.node_groups),
    group_services-Distinct h f h.spec.node_groups d,
  ),
)
  where
    length-group_services :
        (gs : List NodeGroupSpec) → length (group_services f h gs) ≡ 2 * length gs
    length-group_services [] = refl
    length-group_services (g ∷ gs) = omega (arith, length-group_services gs)
