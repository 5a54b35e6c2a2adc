-- ===== src/Tests/Merging.antt =====
-- Instances of `mergo.Merge` at the types that the operator merges, with what mergo documents.
use opensearch_operator.Common.{
  ◌≡◌, ◌≢◌, ◌⊎◌, inl, inr, refl, zero, suc, String, Option, none, some, List, [], ◌∷◌,
}
use opensearch_operator.Common.Outcome.{ok, err, foreign}
use opensearch_operator.Helper.Merge.{pointer, Mergo, Fills}
use opensearch_operator.Api.Kubernetes.{
  LabelSelector, IntOrString, int, text, PodDisruptionBudgetSpec, NetworkIngressSpec,
}
use opensearch_operator.Api.Types.{AntiAffinitySpec}
use opensearch_operator.Api.Compute.Affinity.{fill, FillsAntiAffinity}
use opensearch_operator.Generate.Budgets.Laws.{FillsBudget, Both, IsBound, selected}
use opensearch_operator.Generate.Ingress.Result.{KeepsRules}

abbrev over : {A : Type 0} → (A → A → A) → Mergo A
over f (pointer a) src = ok (pointer (f a src))
over f dst src = err (foreign "dst must be a pointer")

abbrev pub merge_affinity : Mergo AntiAffinitySpec
merge_affinity = over λ a src. record {
  affinity_type = fill a.affinity_type src.affinity_type;
  topology_key = fill a.topology_key src.topology_key;
}

pub merge_affinity-FillsAntiAffinity : FillsAntiAffinity merge_affinity
merge_affinity-FillsAntiAffinity a src = refl

pub merge_affinity-Fills : Fills merge_affinity (λ a. a.affinity_type)
merge_affinity-Fills a src = (_, refl, refl)

abbrev first {ℓ} : {A : Type ℓ} → Option A → Option A → Option A
first none o = o
first (some a) o = some a

abbrev pub merge_budget : Mergo PodDisruptionBudgetSpec
merge_budget = over λ a src. record {
  min_available = first a.min_available src.min_available;
  max_unavailable = first a.max_unavailable src.max_unavailable;
  selector = first a.selector src.selector;
}

Both-first : (x y : IntOrString) → Both x y (some x)
Both-first (int (suc n)) (int m) = refl
Both-first (int (suc n)) (text t) = refl
Both-first (int zero) y = refl
Both-first (text t) y = refl

IsBound-first : (a b : Option IntOrString) → IsBound a b none (first a b)
IsBound-first none none = refl
IsBound-first none (some y) = refl
IsBound-first (some x) none = refl
IsBound-first (some x) (some y) = Both-first x y

pub merge_budget-FillsBudget : FillsBudget merge_budget
merge_budget-FillsBudget a src = (
  _,
  refl,
  record {
    min_bound = IsBound-first a.min_available src.min_available;
    max_bound = IsBound-first a.max_unavailable src.max_unavailable;
    kept = λ k v e. kept k v a.selector e;
    asked = λ k v e. asked k v a.selector e;
  },
)
  where
    kept :
        (k v : String) (o : Option LabelSelector)
        → selected k o ≡ some v
        → selected k (first o src.selector) ≡ some v
    kept k v none e = absurd cc
    kept k v (some s) e = e

    asked :
        (k v : String) (o : Option LabelSelector)
        → selected k (first o src.selector) ≡ some v
        → (selected k o ≡ some v) ⊎ (selected k src.selector ≡ some v)
    asked k v none e = inr e
    asked k v (some s) e = inl e

abbrev first_list {ℓ} : {A : Type ℓ} → List A → List A → List A
first_list [] ys = ys
first_list (x ∷ xs) ys = x ∷ xs

first_list_set {ℓ} : {A : Type ℓ} (xs ys : List A) → xs ≢ [] → first_list xs ys ≡ xs
first_list_set [] ys n = absurd (n refl)
first_list_set (x ∷ xs) ys n = refl

abbrev pub merge_ingress : Mergo NetworkIngressSpec
merge_ingress = over λ a src. record {
  rules = first_list a.rules src.rules;
  tls = first_list a.tls src.tls;
  others = fill a.others src.others;
}

pub merge_ingress-KeepsRules : KeepsRules merge_ingress
merge_ingress-KeepsRules a src rules tls =
    (_, refl, first_list_set a.rules src.rules rules, first_list_set a.tls src.tls tls)
