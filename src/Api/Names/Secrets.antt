-- ===== src/Api/Names/Secrets.antt =====
-- Which secret the API layer uses, and the names of the secrets of a cluster.
use text.Mathlib.TextLemmas.{append_cancel_left}
use opensearch_operator.Common.{
  ◌≡◌, ◌≢◌, ◌⊎◌, refl, sym, ◌∙◌, String, ◌<>◌, ◌=?◌, eq_iff, true, false, some, [], ◌∷◌, Distinct,
  arith, Bool-cases, inl, inr, Option-cases,
}
use opensearch_operator.Api.Types.{Opensearch, EndpointSpec, LoadBalancerSpec, TlsSpec}
use opensearch_operator.Api.Names.{
  is_self_managed_secret_for_tls_api, get_secret_name_for_tls_api,
  get_secret_name_for_tls_transport, get_secret_name_for_admin_credentials, custom_secret,
  load_balancer_of,
}

-- The resource has an enabled load balancer whose TLS settings name the secret `ref`.
pub record IsCustomSecret (h : Opensearch) (ref : String) : Type 0 where
  pub endpoint : EndpointSpec
  pub load_balancer : LoadBalancerSpec
  pub tls : TlsSpec
  pub has_endpoint : h.spec.endpoint ≡ some endpoint
  pub has_load_balancer : endpoint.load_balancer ≡ some load_balancer
  pub is_enabled : load_balancer.enabled ≡ true
  pub has_tls : load_balancer.tls ≡ some tls
  pub named : tls.certificate_secret_ref ≡ ref
  pub not_empty : ref ≢ ""

module _ (h : Opensearch) where
  custom_of :
      (ref : String)
      → custom_secret (load_balancer_of h.spec.endpoint) ≡ ref
      → ref ≢ ""
      → IsCustomSecret h ref
  custom_of ref e ne = elim (Option-cases h.spec.endpoint) [
    | inl off ↦ absurd (ground arith)
    | inr (ep, has_ep) ↦ elim (Option-cases ep.load_balancer) [
      | inl off ↦ absurd (ground arith)
      | inr (lb, has_lb) ↦ elim (Option-cases lb.tls) [
        | inl off ↦ absurd (ground arith)
        | inr (t, has_t) ↦ elim (Bool-cases lb.enabled) [
          | inl on ↦ record {
            endpoint = ep;
            load_balancer = lb;
            tls = t;
            has_endpoint = has_ep;
            has_load_balancer = has_lb;
            is_enabled = on;
            has_tls = has_t;
            named = ground arith;
            not_empty = ne;
          }
          | inr off ↦ absurd (ground arith)
        ]
      ]
    ]
  ]

  custom_is :
      (ref : String) → IsCustomSecret h ref → custom_secret (load_balancer_of h.spec.endpoint) ≡ ref
  custom_is ref c = rw (c.has_endpoint, c.has_load_balancer, c.is_enabled, c.has_tls) c.named

  -- Either an enabled load balancer names a TLS secret, and then this is the API secret and not
  -- self managed, or none does, and then it is self managed under the cluster's own name.
  pub get_secret_name_for_tls_api_cases :
      ((ref : String) × IsCustomSecret h ref
        × (is_self_managed_secret_for_tls_api h ≡ false)
        × (get_secret_name_for_tls_api h ≡ ref))
      ⊎ (((ref : String) → ¬ IsCustomSecret h ref)
          × (is_self_managed_secret_for_tls_api h ≡ true)
          × (get_secret_name_for_tls_api h ≡ h.meta.name <> "-os-tls-api"))
  unfolding get_secret_name_for_tls_api
  get_secret_name_for_tls_api_cases =
      let ref = custom_secret (load_balancer_of h.spec.endpoint) in
      elim (Bool-cases (ref =? "")) [
        | inl own ↦
            inr (λ r c. c.not_empty (sym (custom_is r c) ∙ (eq_iff ref "").0 own), own, rw own)
        | inr custom ↦ inl (
          ref,
          custom_of ref refl (λ e. absurd (ground (arith, eq_iff ref ""))),
          custom,
          rw custom,
        )
      ]

  -- Where the API secret is self managed, the secrets of the transport layer, of the API and of
  -- the administrator have pairwise different names.
  pub secret_names-Distinct :
      is_self_managed_secret_for_tls_api h ≡ true
      → Distinct (
          get_secret_name_for_tls_transport h
          ∷ get_secret_name_for_tls_api h
          ∷ get_secret_name_for_admin_credentials h
          ∷ [])
  unfolding get_secret_name_for_tls_transport get_secret_name_for_tls_api
      get_secret_name_for_admin_credentials
  secret_names-Distinct own = rw own (
    (
      (λ e. differ "-os-tls-transport" "-os-tls-api" refl e),
      ((λ e. differ "-os-tls-transport" "-os-credential" refl e), tt),
    ),
    (((λ e. differ "-os-tls-api" "-os-credential" refl e), tt), (tt, tt)),
  )
    where
      differ : (s t : String) → (s =? t) ≡ false → h.meta.name <> s ≢ h.meta.name <> t
      differ s t ne e =
          let same = append_cancel_left h.meta.name s t e in ground (arith, eq_iff s t)
