-- ===== src/Api/Names/Members.antt =====
-- `GetNodeNames`: which names it returns.
use opensearch_operator.Common.{
  ℕ, zero, suc, ◌+◌, ◌≤◌, ◌<◌, ◌≡◌, ◌↔◌, ◌⊎◌, inl, inr, refl, String, ◌<>◌, List, [], ◌∷◌, ◌++◌, In,
  arith, ◌==◌, Bool-cases,
}
use opensearch_operator.Common.Outcome.{ok, >>=-eq-ok}
use opensearch_operator.Common.Text.{decimal}
use opensearch_operator.Api.Types.{Int32, pos, negsuc, Opensearch, NodeGroupSpec}
use opensearch_operator.Api.Names.{
  node_names_from, get_node_group_name, get_node_group_node_names, node_names_of, get_node_names,
  rounds,
}
use opensearch_operator.Api.Names.Counting.{magnitude}

In-append_iff : {A : Type 0} (x : A) (xs ys : List A) → In x (xs ++ ys) ↔ (In x xs ⊎ In x ys)
In-append_iff x [] ys = (λ i. inr i, λ i. elim i [ inl none_left ↦ absurd none_left | inr j ↦ j ])
In-append_iff x (y ∷ xs) ys =
    let (to, from) = In-append_iff x xs ys in
    (
      λ i. elim i [
        | inl e ↦ inl (inl e)
        | inr later ↦ elim (to later) [ inl j ↦ inl (inr j) | inr j ↦ inr j ]
      ],
      λ i. elim i [
        | inl (inl e) ↦ inl e
        | inl (inr j) ↦ inr (from (inl j))
        | inr j ↦ inr (from (inr j))
      ],
    )

node_names_from_to :
    (group : String) (i n : ℕ) (s : String)
    → In s (node_names_from group i n)
    → (j : ℕ) × (i ≤ j) × (j < i + n) × (s ≡ group <> ("-" <> decimal j))
unfolding node_names_from
node_names_from_to group i zero s m = absurd m
node_names_from_to group i (suc n) s (inl e) = (i, omega arith, omega arith, e)
node_names_from_to group i (suc n) s (inr m) =
    let (j, least, most, e) = node_names_from_to group (suc i) n s m in
    (j, omega arith, omega arith, e)

node_names_from_of :
    (group : String) (i n j : ℕ)
    → i ≤ j
    → j < i + n
    → In (group <> ("-" <> decimal j)) (node_names_from group i n)
unfolding node_names_from
node_names_from_of group i zero j least most = absurd (omega arith)
node_names_from_of group i (suc n) j least most = elim (first i j least) [
  | inl e ↦ inl (rw e)
  | inr more ↦ inr (node_names_from_of group (suc i) n j more (omega arith))
]
  where
    first : (a b : ℕ) → a ≤ b → (b ≡ a) ⊎ (suc a ≤ b)
    first a b h = elim (Bool-cases (b == a)) [
      | inl same ↦ inl (ground arith)
      | inr other ↦ inr (ground arith)
    ]

-- The name belongs to a node of the group.
abbrev pub IsReplica : Opensearch → String → NodeGroupSpec → Type 0
IsReplica h s g =
    (j : ℕ) × (j < magnitude g.replicas) × (s ≡ get_node_group_name h g.name <> ("-" <> decimal j))

module _ (h : Opensearch) (s : String) where
  rounds-magnitude : (r : Int32) {n : ℕ} → rounds r ≡ ok n → magnitude r ≡ n
  rounds-magnitude (pos k) e = cc
  rounds-magnitude (negsuc k) e = absurd cc

  group_iff :
      (g : NodeGroupSpec) {ns : List String}
      → get_node_group_node_names h g ≡ ok ns
      → In s ns ↔ IsReplica h s g
  unfolding get_node_group_node_names
  group_iff g {ns} e =
      let (n, run, last) = >>=-eq-ok (rounds g.replicas) _ e in
      let group = get_node_group_name h g.name in
      let same : node_names_from group 0 n ≡ ns = cc in
      let size = rounds-magnitude g.replicas run in
      (
        λ i.
            let (j, _, most, name) = node_names_from_to group 0 n s (rw (← same) at i) in
            (j, omega (arith, size), name),
        λ (j, most, name).
            rw (← same, name) (node_names_from_of group 0 n j (omega arith) (omega (arith, size))),
      )

  node_names_of_iff :
      (gs : List NodeGroupSpec) {ns : List String}
      → node_names_of h gs ≡ ok ns
      → In s ns ↔ ((g : NodeGroupSpec) × In g gs × IsReplica h s g)
  unfolding node_names_of
  node_names_of_iff [] {ns} e =
      let same : [] ≡ ns = cc in rw (← same) (λ i. absurd i, λ (g, i, _). absurd i)
  node_names_of_iff (g ∷ gs) {ns} e =
      let (own, run, e₁) = >>=-eq-ok (get_node_group_node_names h g) _ e in
      let (rest, later, e₂) = >>=-eq-ok (node_names_of h gs) _ e₁ in
      let same : own ++ rest ≡ ns = cc in
      let (split, join) = In-append_iff s own rest in
      let (to, from) = group_iff g run in
      let (rest_to, rest_from) = node_names_of_iff gs later in
      rw (← same) (
        λ i. elim (split i) [
          | inl a ↦ (g, inl refl, to a)
          | inr b ↦ let (k, j, r) = rest_to b in (k, inr j, r)
        ],
        λ (k, i, r). elim i [
          | inl e' ↦ join (inl (from (rw e' at r)))
          | inr j ↦ join (inr (rest_from (k, j, r)))
        ],
      )

-- Where GetNodeNames returns, a text is one of its names exactly if it is the object name of a
-- node group followed by a dash and an index below the replicas of this group.
pub get_node_names_iff :
    (h : Opensearch) {ns : List String} (s : String)
    → get_node_names h ≡ ok ns
    → In s ns ↔ ((g : NodeGroupSpec) × In g h.spec.node_groups × IsReplica h s g)
unfolding get_node_names
get_node_names_iff h s e = node_names_of_iff h s h.spec.node_groups e
