-- ===== src/Api/Names/Counting.antt =====
-- `GetNodeNames`: how many names it returns, and when it panics.
use mathlib.Core.Logic.{◌⊎◌}
use opensearch_operator.Common.{
  ℕ, zero, suc, ◌+◌, ◌≡◌, refl, Bool, true, false, ◌||◌, String, List, [], ◌∷◌, ◌++◌, length,
  length-append, arith, inl, inr,
}
use opensearch_operator.Common.Outcome.{ok, panic}
use opensearch_operator.Api.Types.{Int32, pos, negsuc, Opensearch, NodeGroupSpec}
use opensearch_operator.Api.Names.{
  node_names_from, get_node_group_name, node_names_of, get_node_names, rounds,
}

abbrev pub is_negative : Int32 → Bool
is_negative (pos n) = false
is_negative (negsuc n) = true

abbrev pub any_negative : List NodeGroupSpec → Bool
any_negative [] = false
any_negative (g ∷ gs) = is_negative g.replicas || any_negative gs

abbrev pub magnitude : Int32 → ℕ
magnitude (pos n) = n
magnitude (negsuc n) = 0

-- The replicas of all groups together.
abbrev pub total_replicas : List NodeGroupSpec → ℕ
total_replicas [] = 0
total_replicas (g ∷ gs) = magnitude g.replicas + total_replicas gs

pub length-node_names_from : (s : String) (i n : ℕ) → length (node_names_from s i n) ≡ n
unfolding node_names_from
length-node_names_from s i zero = refl
length-node_names_from s i (suc n) = omega (arith, length-node_names_from s (suc i) n)

abbrev out_of_range : String
out_of_range = "runtime error: makeslice: cap out of range"

-- The sign of the replicas decides between the loop and the panic.
rounds_cases :
    (r : Int32)
    → ((is_negative r ≡ false) × (rounds r ≡ ok (magnitude r)))
      ⊎ ((is_negative r ≡ true) × (rounds r ≡ panic out_of_range))
rounds_cases (pos n) = inl (refl, refl)
rounds_cases (negsuc n) = inr (refl, refl)

node_names_of_total :
    (h : Opensearch) (gs : List NodeGroupSpec)
    → any_negative gs ≡ false
    → (ns : List String) × (node_names_of h gs ≡ ok ns) × (length ns ≡ total_replicas gs)
unfolding get_node_names
node_names_of_total h [] e = ([], refl, refl)
node_names_of_total h (g ∷ gs) e = elim (rounds_cases g.replicas) [
  | inl (s, run) ↦
      let (rest, later, count) = node_names_of_total h gs (ground arith) in
      let own = node_names_from (get_node_group_name h g.name) 0 (magnitude g.replicas) in
      (
        own ++ rest,
        rw (run, later),
        omega (
          arith,
          length-append own rest,
          length-node_names_from (get_node_group_name h g.name) 0 (magnitude g.replicas),
        ),
      )
  | inr (s, run) ↦ absurd (ground arith)
]

node_names_of_panics :
    (h : Opensearch) (gs : List NodeGroupSpec)
    → any_negative gs ≡ true
    → node_names_of h gs ≡ panic out_of_range
unfolding get_node_names
node_names_of_panics h [] e = cc
node_names_of_panics h (g ∷ gs) e = elim (rounds_cases g.replicas) [
  | inl (s, run) ↦ rw (run, node_names_of_panics h gs (ground arith))
  | inr (s, run) ↦ rw run
]

-- If no group has a negative replica count, GetNodeNames returns as many names as there are
-- replicas in total.
pub get_node_names_total :
    (h : Opensearch)
    → any_negative h.spec.node_groups ≡ false
    → (ns : List String) × (get_node_names h ≡ ok ns)
      × (length ns ≡ total_replicas h.spec.node_groups)
unfolding get_node_names
get_node_names_total h e = node_names_of_total h h.spec.node_groups e

-- One group with a negative replica count makes GetNodeNames panic, whatever the other groups are.
pub get_node_names_panics :
    (h : Opensearch)
    → any_negative h.spec.node_groups ≡ true
    → get_node_names h ≡ panic "runtime error: makeslice: cap out of range"
unfolding get_node_names
get_node_names_panics h e = node_names_of_panics h h.spec.node_groups e
