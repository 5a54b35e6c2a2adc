-- ===== src/Controllers/ApiTls/Outcomes.antt =====
-- What becomes of the API secret: where it is missing, where it is the user's, where it is due.
use opensearch_operator.Common.{
  ◌≡◌, refl, ap, true, false, Bool, ◌||◌, ◌⊎◌, inl, inr, Option, none, some, Bool-cases,
}
use opensearch_operator.Common.Outcome.{Outcome, ok, err, Error}
use opensearch_operator.Common.Action.{
  next, wrapped, wrapped-eq-ok, Fails, Fails-next, not_ok_of_Fails,
}
use opensearch_operator.Api.Types.{Opensearch}
use opensearch_operator.Api.Names.{get_secret_name_for_tls_api, is_self_managed_secret_for_tls_api}
use opensearch_operator.Pki.{Goca, need_renew_certificate}
use opensearch_operator.Controllers.State.{
  Secret, Diff, secret, authority, certificate, Kube, Store, ReadsData, set_data, read_entry,
  requeued_duration,
}
use opensearch_operator.Controllers.TransportTls.Secrets.{ca_entries}
use opensearch_operator.Controllers.TransportTls.Creation.{KeepsContents, not_written}
use opensearch_operator.Controllers.TransportTls.Steps.{no_diff}
use opensearch_operator.Controllers.ApiTls.Steps.{
  read, read_found, check_custom, diff, diff_managed, diff_existing, expect, generate_secret,
  is_empty,
}

module _ (goca : Goca) (kube : Kube goca) (h : Opensearch) where
  -- `Read`, and then `Diff` on what it leaves.
  unfoldable pub reconcile : Store goca → Outcome Diff × Store goca
  reconcile s = next (read goca kube h s) (λ _. diff goca kube h)

  -- Where Kubernetes answers that a self-managed API secret does not exist, and data holds no root
  -- CA from before, Read followed by Diff ends with an error and leaves only a nil current secret
  -- in data. It assumes what helper.Get documents.
  pub reconcile-missing :
      ReadsData goca kube
      → (s : Store goca) (e : Error) (w : goca.World)
      → kube.get_secret h.meta.namespace (get_secret_name_for_tls_api h) s.world ≡ (err e, w)
      → kube.is_not_found e ≡ true
      → is_self_managed_secret_for_tls_api h ≡ true
      → s.entries "rootCA" ≡ none
      → (e' : Error) × (reconcile s ≡ (
        err e',
        record { world = w; entries = set_data goca "currentSecret" (secret none) s.entries },
      ))
  unfolding reconcile read read_found diff diff_managed next
  reconcile-missing reads s e w absent not_found own no_ca =
      let d = set_data goca "currentSecret" (secret none) s.entries in
      let (e', lost) = reads.missing d "rootCA" no_ca in
      (e', rw (absent, not_found, own, reads.found d "currentSecret" (secret none) refl, lost) refl)

  -- For an API secret of the user that exists, either both entries that the code asks for are set,
  -- and Read and Diff find no difference and only hand the secret on, or one of them is empty, and
  -- Read asks to come back in a minute and leaves data as it was. It assumes what helper.Get
  -- documents.
  pub reconcile-custom :
      ReadsData goca kube
      → (s : Store goca) (c : Secret) (w : goca.World)
      → kube.get_secret h.meta.namespace (get_secret_name_for_tls_api h) s.world ≡ (ok c, w)
      → is_self_managed_secret_for_tls_api h ≡ false
      → (((is_empty (read_entry "key.tls" c) ≡ false) × (is_empty (read_entry "tls.crt" c) ≡ false))
          × (reconcile s ≡ (
            ok no_diff,
            record {
              world = w;
              entries = set_data goca "currentSecret" (secret (some c)) s.entries;
            },
          )))
        ⊎ (((is_empty (read_entry "key.tls" c) ≡ true) ⊎ (is_empty (read_entry "tls.crt" c) ≡ true))
            × (read goca kube h s
                ≡ (ok (some requeued_duration), record { world = w; entries = s.entries })))
  unfolding reconcile read read_found check_custom diff next
  reconcile-custom reads s c w given custom =
      let d = set_data goca "currentSecret" (secret (some c)) s.entries in
      let held = reads.found d "currentSecret" (secret (some c)) refl in
      elim (Bool-cases (is_empty (read_entry "key.tls" c))) [
        | inl no_key ↦ inr (inl no_key, rw (given, custom, no_key) refl)
        | inr key ↦ elim (Bool-cases (is_empty (read_entry "tls.crt" c))) [
          | inl no_crt ↦ inr (inr no_crt, rw (given, custom, key, no_crt) refl)
          | inr crt ↦ inl ((key, crt), rw (given, custom, key, crt, held) refl)
        ]
      ]

  module _ (keeps : KeepsContents goca kube) where
    generate_secret-Fails : (w : goca.World) → Fails (generate_secret goca kube h w).0
    unfolding generate_secret
    generate_secret-Fails w = Fails-next _ _ λ s w₁ run. Fails-next _ _ λ ca w₂ _.
        Fails-next _ _ λ t w₃ got. absurd (
          not_written (ca_entries goca ca) s t w₂ w₃
            (keeps h _ s (ap (λ r. r.0) (wrapped-eq-ok _ _ run))) got)

    expect-Fails : (d : Diff) (s : Store goca) → Fails (expect goca kube h d s).0
    unfolding expect
    expect-Fails d s = Fails-next _ _ λ t s' run.
        let made = ap (λ r. r.0) (wrapped-eq-ok _ _ run) in
        absurd (not_ok_of_Fails _ t (generate_secret-Fails s.world) made)

    -- Where data holds an existing self-managed API secret with its CA and certificate, and both
    -- renewal checks return, Diff finds no difference and changes nothing if neither certificate
    -- is due, and ends with an error or a panic if one is. It assumes what helper.Get and
    -- SetControllerReference document.
    pub diff-managed_cases :
        ReadsData goca kube
        → (s : Store goca) (c : Secret) (ca : Option goca.Ca) (root crt : Option goca.Cert)
          (due_ca due_api : Bool) (w w' : goca.World)
        → is_self_managed_secret_for_tls_api h ≡ true
        → s.entries "currentSecret" ≡ some (secret (some c))
        → s.entries "rootCA" ≡ some (authority ca)
        → s.entries "apiCertificate" ≡ some (certificate crt)
        → goca.go_certificate ca ≡ ok root
        → need_renew_certificate goca root s.world ≡ (ok due_ca, w)
        → need_renew_certificate goca crt w ≡ (ok due_api, w')
        → (((due_ca || due_api) ≡ false)
            × (diff goca kube h s ≡ (ok no_diff, record { world = w'; entries = s.entries })))
          ⊎ (((due_ca || due_api) ≡ true) × Fails (diff goca kube h s).0)
    unfolding diff diff_managed diff_existing next wrapped
    diff-managed_cases reads s c ca root crt due_ca due_api w w' own a b d certified first second =
        let found_secret = reads.found s.entries "currentSecret" _ a in
        let found_ca = reads.found s.entries "rootCA" _ b in
        let found_crt = reads.found s.entries "apiCertificate" _ d in
        let after : Store goca = record { world = w'; entries = s.entries } in
        elim (Bool-cases (due_ca || due_api)) [
          | inr fresh ↦ inl (
            fresh,
            rw (found_secret, own, found_ca, found_crt, certified, first, second, fresh) refl,
          )
          | inl due ↦ inr (
            due,
            rw (found_secret, own, found_ca, found_crt, certified, first, second, due)
                (expect-Fails
                  (record {
                    need_create = false;
                    need_update = true;
                    text = "CA root will expire. Renew all certificates";
                  })
                  after),
          )
        ]
