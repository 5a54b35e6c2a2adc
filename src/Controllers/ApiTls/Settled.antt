-- ===== src/Controllers/ApiTls/Settled.antt =====
-- A round of the API reconciler on a secret that holds what `generateSecret` writes.
use opensearch_operator.Common.{◌≡◌, refl, true, false, Option, none, some, String, inl, inr}
use opensearch_operator.Common.Outcome.{ok}
use opensearch_operator.Common.Action.{next, wrapped}
use opensearch_operator.Api.Types.{Opensearch}
use opensearch_operator.Api.Names.{get_secret_name_for_tls_api, is_self_managed_secret_for_tls_api}
use opensearch_operator.Pki.{Goca, Bytes, root_ca_cn, load_root_ca_api, need_renew_certificate}
use opensearch_operator.Controllers.State.{
  Secret, Kube, Store, ReadsData, set_data, authority, certificate, secret,
}
use opensearch_operator.Controllers.TransportTls.Creation.{KeepsContents}
use opensearch_operator.Controllers.TransportTls.Steps.{no_diff}
use opensearch_operator.Controllers.ApiTls.Steps.{read, read_found, load_managed}
use opensearch_operator.Controllers.ApiTls.Outcomes.{reconcile, diff-managed_cases}

module _ (goca : Goca) where
  -- What goca documents: the authority whose parts were written is loaded from them.
  abbrev pub LoadsAuthority : Type 0
  LoadsAuthority =
      (ca : goca.Ca)
      → goca.load_ca root_ca_cn (some (goca.ca_private_key ca)) (some (goca.ca_public_key ca))
          (some (goca.ca_certificate ca)) (some (goca.ca_crl ca))
        ≡ ok ca

  -- The secret has the four parts of the CA, and an issued certificate under `api.crt`.
  pub record Serves (ca : goca.Ca) (issued : goca.Issued) (t : Secret) : Type 0 where
    pub entries : String → Bytes
    pub has_entries : t.contents ≡ some entries
    pub ca_crt : entries "ca.crt" ≡ some (goca.ca_certificate ca)
    pub ca_key : entries "ca.key" ≡ some (goca.ca_private_key ca)
    pub ca_pub : entries "ca.pub" ≡ some (goca.ca_public_key ca)
    pub ca_crl : entries "ca.crl" ≡ some (goca.ca_crl ca)
    pub api_crt : entries "api.crt" ≡ some (goca.certificate issued)

  module _ (kube : Kube goca) (h : Opensearch) where
    -- What `Read` leaves in data.
    abbrev loaded_store : Secret → goca.Ca → goca.Cert → Store goca → Store goca
    loaded_store t ca crt u = record {
      world = u.world;
      entries = set_data goca "currentSecret" (secret (some t)) (
          set_data goca "apiCertificate" (certificate (some crt))
            (set_data goca "rootCA" (authority (some ca)) u.entries));
    }

    load_managed-Serves :
        LoadsAuthority
        → {ca : goca.Ca} {issued : goca.Issued} {t : Secret} {crt : goca.Cert} (u : Store goca)
        → Serves ca issued t
        → goca.load_cert_from_pem (some (goca.certificate issued)) ≡ ok (some crt)
        → load_managed goca kube h t u ≡ (ok none, loaded_store t ca crt u)
    unfolding load_managed next wrapped load_root_ca_api
    load_managed-Serves loads {ca} {issued} {t} {crt} u serves is_crt =
        rw
          (
            serves.has_entries,
            serves.ca_crt,
            serves.ca_key,
            serves.ca_pub,
            serves.ca_crl,
            serves.api_crt,
            loads ca,
            is_crt,
          )
          refl

    -- Where Kubernetes answers with a self-managed API secret that holds the four parts of a CA
    -- and an issued certificate under api.crt, and neither the CA's certificate nor the one that
    -- goca loads from the issued one is found due, Read followed by Diff finds no difference,
    -- leaves the secret, the CA and this certificate in data and all else there as it was, and the
    -- world is the one that the three readings left. It assumes what helper.Get and
    -- SetControllerReference document, and that goca loads the CA that it wrote.
    pub reconcile-IsServed :
        KeepsContents goca kube
        → ReadsData goca kube
        → LoadsAuthority
        → {ca : goca.Ca} {issued : goca.Issued} {t : Secret} {crt : goca.Cert}
          {root : Option goca.Cert} {w w₁ w₂ : goca.World} (s : Store goca)
        → Serves ca issued t
        → is_self_managed_secret_for_tls_api h ≡ true
        → kube.get_secret h.meta.namespace (get_secret_name_for_tls_api h) s.world ≡ (ok t, w)
        → goca.load_cert_from_pem (some (goca.certificate issued)) ≡ ok (some crt)
        → goca.go_certificate (some ca) ≡ ok root
        → need_renew_certificate goca root w ≡ (ok false, w₁)
        → need_renew_certificate goca (some crt) w₁ ≡ (ok false, w₂)
        → reconcile goca kube h s ≡ (
          ok no_diff,
          record {
            world = w₂;
            entries = set_data goca "currentSecret" (secret (some t)) (
                set_data goca "apiCertificate"
                  (certificate (some crt))
                  (set_data goca "rootCA" (authority (some ca)) s.entries));
          },
        )
    unfolding reconcile read read_found next
    reconcile-IsServed keeps reads loads {ca} {issued} {t} {crt} {root} {w} {w₁} {w₂} s serves own
          given is_crt certified first second =
        let stored : Store goca = record { world = w; entries = s.entries } in
        let run = load_managed-Serves loads stored serves is_crt in
        let u = loaded_store t ca crt stored in
        elim (diff-managed_cases goca kube h keeps reads u t (some ca) root (some crt) false false
          w₁ w₂ own refl refl refl certified first second) [
            | inl (_, settled) ↦ rw (given, own, run) settled
            | inr (due, _) ↦ absurd cc
          ]
