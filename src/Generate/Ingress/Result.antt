-- ===== src/Generate/Ingress/Result.antt =====
-- What `GenerateIngress` returns, on each of its branches.
use opensearch_operator.Common.{
  ◌≡◌, ◌≢◌, refl, ◌∙◌, inl, inr, String, ◌=?◌, ◌<>◌, eq_iff, true, false, Option, none, some, List,
  [], ◌∷◌, arith, Bool-cases, Option-cases,
}
use opensearch_operator.Common.Outcome.{Outcome, ok, err, new}
use opensearch_operator.Common.Maps.{GoMap, find, last_found}
use opensearch_operator.Funk.{Funk, IsLawful}
use opensearch_operator.Helper.Merge.{Mergo, pointer, merge}
use opensearch_operator.Api.Kubernetes.{Ingress, IngressRule, NetworkIngressSpec}
use opensearch_operator.Api.Types.{Opensearch, IngressSpec}
use opensearch_operator.Api.Names.{
  is_ingress_enabled, ingress_of, get_global_service_name, get_node_group_service_name,
  get_node_group_name,
}
use opensearch_operator.Generate.Common.{check_target_cases, IsTarget}
use opensearch_operator.Generate.Ingress.{
  target_service, nil_if_empty, default_ingress_spec, ingress_object, merged_ingress,
  generate_ingress,
}

-- What mergo documents: a merge into a spec succeeds, and keeps the rules and the TLS settings
-- that are set there.
abbrev pub KeepsRules : Mergo NetworkIngressSpec → Type 0
KeepsRules mergo =
    (a src : NetworkIngressSpec)
    → a.rules ≢ []
    → a.tls ≢ []
    → (b : NetworkIngressSpec) × (mergo (pointer a) src ≡ ok (pointer b))
      × (b.rules ≡ a.rules)
      × (b.tls ≡ a.tls)

-- The name of the service of a target: that of the cluster, or that of a node group.
pub data NamesService (h : Opensearch) (target name : String) : Type 0 where
  of_cluster : target ≡ "" → name ≡ h.meta.name <> "-os" → NamesService h target name
  of_group :
      target ≢ "" → name ≡ h.meta.name <> ("-" <> (target <> "-os")) → NamesService h target name

-- The rules that route the host as a whole to port 9200 of a service.
abbrev pub routes : (host service : String) → List IngressRule
routes host service =
    record {
      host = host;
      paths =
          record { path = "/"; path_type = "Prefix"; service_name = service; service_port = 9200 }
          ∷ [];
    }
    ∷ []

-- What the ingress object must be. On a label or annotation the resource's own value wins over
-- that of the ingress settings, and this one over the default.
pub record IsIngress (h : Opensearch) (i : IngressSpec) (o : Ingress) : Type 0 where
  pub named : o.meta.name ≡ h.meta.name
  pub labelled : (k : String) → find k o.meta.labels ≡ last_found k (i.labels ∷ h.meta.labels ∷ [])
  pub annotated :
      (k : String)
      → find k o.meta.annotations
        ≡ last_found k (
            some (
              ("nginx.ingress.kubernetes.io/force-ssl-redirect", "true")
              ∷ ("nginx.ingress.kubernetes.io/backend-protocol", "HTTPS")
              ∷ [])
            ∷ i.annotations
            ∷ h.meta.annotations
            ∷ [])
  pub service : String
  pub targeted : NamesService h i.target_node_group_name service
  pub ruled : o.spec.rules ≡ routes i.host service
  pub secured : o.spec.tls ≡ record { hosts = i.host ∷ []; secret_name = i.secret_ref } ∷ []

pub data IngressResult (h : Opensearch) (r : Outcome (Option Ingress)) : Type 0 where
  disabled : is_ingress_enabled h ≡ false → r ≡ ok none → IngressResult h r
  no_host :
      (i : IngressSpec)
      → ingress_of h.spec.endpoint ≡ some i
      → i.enabled ≡ true
      → i.host ≡ ""
      → r ≡ err (new "endpoint.ingress.host must be provided")
      → IngressResult h r
  refused :
      (i : IngressSpec)
      → ingress_of h.spec.endpoint ≡ some i
      → i.enabled ≡ true
      → i.host ≢ ""
      → ¬ IsTarget h i.target_node_group_name
      → r ≡ err (new ("The target group name '" <> (i.target_node_group_name <> "' not found")))
      → IngressResult h r
  built :
      (i : IngressSpec) (o : Ingress)
      → ingress_of h.spec.endpoint ≡ some i
      → i.enabled ≡ true
      → i.host ≢ ""
      → IsTarget h i.target_node_group_name
      → r ≡ ok (some o)
      → IsIngress h i o
      → IngressResult h r

find-nil_if_empty : (k : String) (m : GoMap String) → find k (nil_if_empty m) ≡ find k m
find-nil_if_empty k none = refl
find-nil_if_empty k (some []) = refl
find-nil_if_empty k (some (e ∷ m)) = refl

target_service-NamesService :
    (h : Opensearch) (target : String) → NamesService h target (target_service h target)
unfolding get_global_service_name get_node_group_service_name get_node_group_name
target_service-NamesService h target = elim (Bool-cases (target =? "")) [
  | inl empty ↦ of_cluster ((eq_iff target "").0 empty) (rw empty)
  | inr given ↦ of_group (λ e. absurd (ground (arith, eq_iff target ""))) (rw given)
]

pub service-of_target :
    (h : Opensearch) (target name : String)
    → NamesService h target name
    → name ≡ target_service h target
unfolding get_global_service_name get_node_group_service_name get_node_group_name
service-of_target h target name (of_cluster empty e) = rw empty e
service-of_target h target name (of_group given e) = elim (Bool-cases (target =? "")) [
  | inl empty ↦ absurd (given ((eq_iff target "").0 empty))
  | inr other ↦ rw other e
]

module _ (f : Funk) (lawful : IsLawful f) (mergo : Mergo NetworkIngressSpec)
    (keeps : KeepsRules mergo) where
  ingress_object-IsIngress :
      (h : Opensearch) (i : IngressSpec) (spec : NetworkIngressSpec)
      → spec.rules ≡ (default_ingress_spec h i).rules
      → spec.tls ≡ (default_ingress_spec h i).tls
      → IsIngress h i (ingress_object f mergo h i spec)
  ingress_object-IsIngress h i spec rules tls = record {
    named = refl;
    labelled = λ k. find-nil_if_empty k _ ∙ lawful.find-union _ k;
    annotated = λ k. find-nil_if_empty k _ ∙ lawful.find-union _ k;
    service = target_service h i.target_node_group_name;
    targeted = target_service-NamesService h i.target_node_group_name;
    ruled = rules;
    secured = tls;
  }

  merged :
      (h : Opensearch) (i : IngressSpec)
      → (o : Ingress) × (merged_ingress f mergo h i ≡ ok (some o)) × IsIngress h i o
  unfolding merge
  merged h i = elim (Option-cases i.ingress_spec) [
    | inl absent ↦
        let spec = default_ingress_spec h i in
        (
          ingress_object f mergo h i spec,
          rw absent refl,
          ingress_object-IsIngress h i spec refl refl,
        )
    | inr (custom, given) ↦
        let (spec, run, rules, tls) = keeps (default_ingress_spec h i) custom (λ e. cc) (λ e. cc) in
        (
          ingress_object f mergo h i spec,
          rw (given, run) refl,
          ingress_object-IsIngress h i spec rules tls,
        )
  ]

  -- On each of its branches GenerateIngress returns what it should: nothing for a disabled ingress,
  -- an error without a host, an error for a target that is no node group, and else an object that
  -- routes every path of the host, with TLS for the host from the secret that is named, to port
  -- 9200 of the service of the target (the cluster's name and -os, or with the group's name between
  -- them), with labels and annotations by priority. It assumes the laws of go-funk, and that mergo
  -- keeps rules and TLS settings that are set.
  pub generate_ingress-result : (h : Opensearch) → IngressResult h (generate_ingress f mergo h)
  unfolding generate_ingress is_ingress_enabled
  generate_ingress-result h = elim (Option-cases (ingress_of h.spec.endpoint)) [
    | inl off ↦ disabled (rw off) (rw off)
    | inr (i, has) ↦ elim (Bool-cases i.enabled) [
      | inr off ↦ disabled (rw (has, off)) (rw (has, off))
      | inl on ↦ elim (Bool-cases (i.host =? "")) [
        | inl empty ↦ no_host i has on ((eq_iff i.host "").0 empty) (rw (has, on, empty))
        | inr host ↦ elim (check_target_cases h i.target_node_group_name) [
          | inl (target, pass) ↦
              let (o, run, good) = merged h i in
              let step : generate_ingress f mergo h ≡ merged_ingress f mergo h i =
                rw (has, on, host, pass) in
              built i o has on (λ e. absurd (ground (arith, eq_iff i.host ""))) target (step ∙ run)
                good
          | inr (missing, fail) ↦
              refused i has on (λ e. absurd (ground (arith, eq_iff i.host ""))) missing
                (rw (has, on, host, fail))
        ]
      ]
    ]
  ]
