-- ===== src/Api/Compute/Affinity.antt =====
-- `computeAntiAffinity`: which setting wins, and the shape of the result.
use opensearch_operator.Common.{
  ◌≡◌, refl, sym, String, ◌=?◌, eq_iff, Option, none, some, [], ◌∷◌, if◌then◌else◌, arith,
}
use opensearch_operator.Common.Outcome.{ok}
use opensearch_operator.Funk.{Funk, IsLawful}
use opensearch_operator.Helper.Merge.{Mergo, pointer, merge}
use opensearch_operator.Api.Kubernetes.{PodAffinityTerm, PodAntiAffinity}
use opensearch_operator.Api.Types.{Opensearch, NodeGroupSpec, AntiAffinitySpec}
use opensearch_operator.Api.Compute.{anti_affinity_of, compute_anti_affinity, merged_anti_affinity}

-- The first of two texts that is not empty.
abbrev pub fill : String → String → String
fill s t = if s =? "" then t else s

-- What mergo documents at these settings: a text that is empty is filled from the source.
abbrev pub FillsAntiAffinity : Mergo AntiAffinitySpec → Type 0
FillsAntiAffinity mergo =
    (a src : AntiAffinitySpec)
    → mergo (pointer a) src
      ≡ ok (
          pointer (record {
            affinity_type = fill a.affinity_type src.affinity_type;
            topology_key = fill a.topology_key src.topology_key;
          }))

abbrev pub type_of : Option AntiAffinitySpec → String
type_of none = ""
type_of (some a) = a.affinity_type

abbrev pub key_of : Option AntiAffinitySpec → String
key_of none = ""
key_of (some a) = a.topology_key

-- The anti-affinity of a type and a topology key, written out: the term keeps the pods apart that
-- have the labels of the cluster and the group, on nodes that differ in the key.
unfoldable pub affinity_shape : Opensearch → NodeGroupSpec → String → String → PodAntiAffinity
affinity_shape h g kind key =
    let term : PodAffinityTerm = record {
      topology_key = if key =? "" then "kubernetes.io/hostname" else key;
      label_selector = record {
        match_labels = some (("cluster", h.meta.name) ∷ ("nodeGroup", g.name) ∷ []);
      };
    } in
    if kind =? "hard"
    then record { required = term ∷ []; preferred = [] }
    else record { required = []; preferred = record { weight = 10; term = term } ∷ [] }

fill-empty : (s : String) → fill s "" ≡ s
fill-empty s = ground (arith, eq_iff s "")

anti_affinity_of-shape :
    (h : Opensearch) (g : NodeGroupSpec) (r : Option AntiAffinitySpec)
    → anti_affinity_of h g r ≡ affinity_shape h g (type_of r) (key_of r)
unfolding anti_affinity_of affinity_shape
anti_affinity_of-shape h g none = refl
anti_affinity_of-shape h g (some a) = ground arith

merged_cases :
    (mergo : Mergo AntiAffinitySpec)
    → FillsAntiAffinity mergo
    → (own global : Option AntiAffinitySpec)
    → (r : Option AntiAffinitySpec) × (merged_anti_affinity mergo own global global ≡ ok r)
      × (type_of r ≡ fill (type_of own) (type_of global))
      × (key_of r ≡ fill (key_of own) (key_of global))
unfolding merged_anti_affinity merge
merged_cases mergo fills none none = (none, refl, refl, refl)
merged_cases mergo fills none (some b) = (some b, rw fills refl, refl, refl)
merged_cases mergo fills (some a) none =
    (some a, rw fills refl, sym (fill-empty _), sym (fill-empty _))
merged_cases mergo fills (some a) (some b) = (
  some (record {
    affinity_type = fill a.affinity_type b.affinity_type;
    topology_key = fill a.topology_key b.topology_key;
  }),
  rw (fills, fills) refl,
  refl,
  refl,
)

-- computeAntiAffinity succeeds, and its result is the required term for the type hard and the
-- preferred term of weight 10 for any other. The term has the topology key, and selects by the
-- labels cluster and nodeGroup with the cluster's and the group's name. Type and topology key are
-- the group's own or else the global ones, and the key is kubernetes.io/hostname by default. It
-- assumes what mergo and funk.Get document.
pub compute_anti_affinity-shape :
    (f : Funk) (mergo : Mergo AntiAffinitySpec) (h : Opensearch) (g : NodeGroupSpec)
    → IsLawful f
    → FillsAntiAffinity mergo
    → let global = h.spec.global_node_group.anti_affinity in
      compute_anti_affinity f mergo h g
      ≡ ok (
          affinity_shape h g
            (fill (type_of g.anti_affinity) (type_of global))
            (fill (key_of g.anti_affinity) (key_of global)))
unfolding compute_anti_affinity
compute_anti_affinity-shape f mergo h g lawful fills =
    let global = h.spec.global_node_group.anti_affinity in
    let (r, run, kind, key) = merged_cases mergo fills g.anti_affinity global in
    rw
      (
        lawful.get_anti_affinity_lem h.spec.global_node_group,
        run,
        anti_affinity_of-shape h g r,
        kind,
        key,
      )
      refl
