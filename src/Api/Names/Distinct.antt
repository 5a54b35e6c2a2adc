-- ===== src/Api/Names/Distinct.antt =====
-- The composed names do not clash: nodes, groups and the objects of one group.
use text.Mathlib.TextLemmas.{append_assoc, append_cancel_left, append_cancel_right}
use opensearch_operator.Common.{
  ℕ, zero, suc, ◌≤◌, ◌≡◌, ◌≢◌, ◌⊎◌, inl, inr, refl, sym, ◌∙◌, String, ◌<>◌, List, [], ◌∷◌, ◌++◌,
  All, All-append, All-mono, Distinct, Distinct-append, arith, map,
}
use mathlib.Core.Path.{subst}
use opensearch_operator.Common.Outcome.{ok, >>=-eq-ok}
use opensearch_operator.Common.Text.{
  decimal, decimal_injective, NoDash-decimal, dash_split, dash-not-in, NoDash,
}
use opensearch_operator.Api.Types.{Opensearch, NodeGroupSpec}
use opensearch_operator.Api.Names.{
  node_names_from, get_node_group_name, get_node_group_node_names, node_names_of, get_node_names,
  rounds,
}

-- Two groups of one cluster have one object name only if they have one name.
pub get_node_group_name_injective :
    (h : Opensearch) {a b : String} → get_node_group_name h a ≡ get_node_group_name h b → a ≡ b
unfolding get_node_group_name
get_node_group_name_injective h {a} {b} e =
    append_cancel_right a b "-os"
      (append_cancel_left "-" _ _ (append_cancel_left h.meta.name _ _ e))

-- A node's name determines its group's object name and its index.
pub node_name_injective :
    (s t : String) (i j : ℕ) → s <> ("-" <> decimal i) ≡ t <> ("-" <> decimal j) → (s ≡ t) × (i ≡ j)
node_name_injective s t i j e =
    let (group, index) = dash_split s t _ _ (NoDash-decimal i) (NoDash-decimal j) e in
    (group, decimal_injective index)

-- `s` is the name of a node of `group`.
abbrev IsNodeOf : String → ℕ → String → Type 0
IsNodeOf group from s = (i : ℕ) × (from ≤ i) × (s ≡ group <> ("-" <> decimal i))

node_names_from-IsNodeOf :
    (group : String) (i n : ℕ) → All (IsNodeOf group i) (node_names_from group i n)
unfolding node_names_from
node_names_from-IsNodeOf group i zero = tt
node_names_from-IsNodeOf group i (suc n) = (
  (i, omega arith, refl),
  All-mono (IsNodeOf group (suc i)) (IsNodeOf group i) (λ s (j, h, e). (j, omega arith, e)) _
      (node_names_from-IsNodeOf group (suc i) n),
)

node_names_from-Distinct : (group : String) (i n : ℕ) → Distinct (node_names_from group i n)
unfolding node_names_from
node_names_from-Distinct group i zero = tt
node_names_from-Distinct group i (suc n) = (
  All-mono (IsNodeOf group (suc i)) (λ s. group <> ("-" <> decimal i) ≢ s)
      (λ s (j, h, e) same.
        absurd (omega (arith, (node_name_injective group group i j (same ∙ e)).1)))
      _ (node_names_from-IsNodeOf group (suc i) n),
  node_names_from-Distinct group (suc i) n,
)

-- `s` is the name of a node of one of the groups.
abbrev pub IsNodeOfSome : Opensearch → List NodeGroupSpec → String → Type 0
IsNodeOfSome h [] s = ⊥
IsNodeOfSome h (g ∷ gs) s = IsNodeOf (get_node_group_name h g.name) 0 s ⊎ IsNodeOfSome h gs s

-- The names of the node groups differ pairwise.
abbrev pub DistinctGroups : Opensearch → Type 0
DistinctGroups h = Distinct (map (λ g. g.name) h.spec.node_groups)

module _ (h : Opensearch) where
  group_names :
      (g : NodeGroupSpec) {ns : List String}
      → get_node_group_node_names h g ≡ ok ns
      → All (IsNodeOf (get_node_group_name h g.name) 0) ns × Distinct ns
  unfolding get_node_group_node_names
  group_names g {ns} e =
      let (n, run, same) = >>=-eq-ok (rounds g.replicas) _ e in
      let group = get_node_group_name h g.name in
      let same' : node_names_from group 0 n ≡ ns = cc in
      rw (← same') (node_names_from-IsNodeOf group 0 n, node_names_from-Distinct group 0 n)

  other_group :
      (g : NodeGroupSpec) (gs : List NodeGroupSpec) (s t : String)
      → All (λ n. g.name ≢ n) (map (λ k. k.name) gs)
      → IsNodeOf (get_node_group_name h g.name) 0 s
      → IsNodeOfSome h gs t
      → s ≢ t
  other_group g [] s t fresh a b same = absurd b
  other_group g (k ∷ gs) s t (ne, fresh) (i, _, e) (inl (j, _, e')) same =
      absurd
        (ne (get_node_group_name_injective h (node_name_injective _ _ i j (sym e ∙ same ∙ e')).0))
  other_group g (k ∷ gs) s t (ne, fresh) a (inr b) same = other_group g gs s t fresh a b same

  node_names_of-Distinct :
      (gs : List NodeGroupSpec) {ns : List String}
      → Distinct (map (λ g. g.name) gs)
      → node_names_of h gs ≡ ok ns
      → All (IsNodeOfSome h gs) ns × Distinct ns
  unfolding node_names_of
  node_names_of-Distinct [] {ns} d e = let same : [] ≡ ns = cc in rw (← same) (tt, tt)
  node_names_of-Distinct (g ∷ gs) {ns} (fresh, d) e =
      let (own, run, e₁) = >>=-eq-ok (get_node_group_node_names h g) _ e in
      let (rest, later, e₂) = >>=-eq-ok (node_names_of h gs) _ e₁ in
      let (a, da) = group_names g run in
      let (b, db) = node_names_of-Distinct gs d later in
      let same : own ++ rest ≡ ns = cc in
      rw (← same) (
        All-append (IsNodeOfSome h (g ∷ gs)) own rest
            (All-mono (IsNodeOf _ 0) (IsNodeOfSome h (g ∷ gs)) (λ s p. inl p) own a)
            (All-mono (IsNodeOfSome h gs) (IsNodeOfSome h (g ∷ gs)) (λ s p. inr p) rest b),
        Distinct-append own rest da db (
            All-mono (IsNodeOf (get_node_group_name h g.name) 0) (λ s. All (λ t. s ≢ t) rest)
              (λ s p.
                All-mono (IsNodeOfSome h gs) (λ t. s ≢ t) (λ t q. other_group g gs s t fresh p q)
                  rest b)
              own a),
      )

-- If the node groups of a cluster have pairwise different names, the node names that GetNodeNames
-- returns are pairwise different.
pub get_node_names-Distinct :
    (h : Opensearch) {ns : List String} → DistinctGroups h → get_node_names h ≡ ok ns → Distinct ns
unfolding get_node_names
get_node_names-Distinct h d e = (node_names_of-Distinct h h.spec.node_groups d e).1

-- A text without a dash is no node's name.
module _ (h : Opensearch) (t : String) (plain : NoDash t) where
  dashed : (gs : List NodeGroupSpec) (n : String) → IsNodeOfSome h gs n → n ≢ t
  dashed [] n i same = absurd i
  dashed (g ∷ gs) n (inl (i, _, e)) same =
      dash-not-in _ (decimal i) (subst NoDash (sym same ∙ e) plain)
  dashed (g ∷ gs) n (inr i) same = dashed gs n i same

  pub get_node_names-dashed :
      {ns : List String} → DistinctGroups h → get_node_names h ≡ ok ns → All (λ n. n ≢ t) ns
  unfolding get_node_names
  get_node_names-dashed {ns} d e =
      All-mono (IsNodeOfSome h h.spec.node_groups) (λ n. n ≢ t) (dashed h.spec.node_groups) ns
        (node_names_of-Distinct h h.spec.node_groups d e).0

-- A cluster and another one whose name is the first one's with a dash and a text have one object
-- name for two node groups: the text before the dash and the group's name, and the group's name.
pub get_node_group_name_collision :
    (h k : Opensearch) (b c : String)
    → k.meta.name ≡ h.meta.name <> ("-" <> b)
    → get_node_group_name h (b <> ("-" <> c)) ≡ get_node_group_name k c
unfolding get_node_group_name
get_node_group_name_collision h k b c e = rw e (simp append_assoc)
