-- ===== src/Controllers/TransportTls/Creation.antt =====
-- The transport secret is never created: its `Data` is nil when the first entry is written.
use opensearch_operator.Common.{◌≡◌, ap, true, String, none, List, []}
use opensearch_operator.Common.Outcome.{Outcome, ok, err, panic, Error}
use opensearch_operator.Common.Action.{
  next, wrapped, wrapped-eq-ok, lift, Fails, Fails-next, not_ok_of_Fails,
}
use opensearch_operator.Api.Types.{Opensearch}
use opensearch_operator.Api.Names.{get_secret_name_for_tls_transport}
use opensearch_operator.Pki.{Goca, Bytes}
use opensearch_operator.Controllers.State.{Secret, Diff, write_entries, Kube, Store, ReadsData}
use opensearch_operator.Controllers.TransportTls.Secrets.{
  blank_secret, ca_entries, generate_secret, renew_secret,
}
use opensearch_operator.Controllers.TransportTls.Handover.{
  results_data, results_data-Holds, read-missing, diff-none,
}
use opensearch_operator.Controllers.TransportTls.Steps.{diff, diff_missing, read}

-- What controller-runtime documents: the owner is set, and nothing else.
abbrev pub KeepsContents : (goca : Goca) → Kube goca → Type 0
KeepsContents goca kube =
    (h : Opensearch) (s t : Secret)
    → kube.set_controller_reference h s ≡ ok t
    → t.contents ≡ s.contents

-- A write to a secret with nil data gives no secret.
pub not_written :
    {S : Type 0} (kvs : List (String × Bytes)) (s t : Secret) (w w' : S)
    → s.contents ≡ none
    → lift (write_entries kvs s) w ≡ (ok t, w')
    → ⊥
not_written kvs s t w w' e got =
    let crashed : write_entries kvs s ≡ panic "assignment to entry in nil map" = rw e in
    let same : write_entries kvs s ≡ ok t = ap (λ r. r.0) got in cc

module _ (goca : Goca) (kube : Kube goca) (h : Opensearch) where
  -- `Read`, and then `Diff` on what it leaves.
  unfoldable pub reconcile : Store goca → Outcome Diff × Store goca
  reconcile s = next (read goca kube h s) (λ _. diff goca kube h)

  module _ (keeps : KeepsContents goca kube) where
    -- The object that the owner was set on has nil data still.
    owned-nil :
        (s : Secret) (w w' : goca.World)
        → wrapped "Error when set as owner reference" (
            lift
              (kube.set_controller_reference h
                (blank_secret h (get_secret_name_for_tls_transport h)))
              w)
          ≡ (ok s, w')
        → s.contents ≡ none
    owned-nil s w w' run = keeps h _ s (ap (λ r. r.0) (wrapped-eq-ok _ _ run))

    -- However the other calls go, no new secret comes out of `generateSecret`.
    pub generate_secret-Fails : (w : goca.World) → Fails (generate_secret goca kube h w).0
    unfolding generate_secret
    generate_secret-Fails w = Fails-next _ _ λ s w₁ run. Fails-next _ _ λ ca w₂ _.
        Fails-next _ _
          λ t w₃ got. absurd (not_written (ca_entries goca ca) s t w₂ w₃ (owned-nil s w w₁ run) got)

    -- Nor does one out of `renewSecret`.
    pub renew_secret-Fails :
        (old_pfx : Bytes) (w : goca.World) → Fails (renew_secret goca kube h old_pfx w).0
    unfolding renew_secret
    renew_secret-Fails old_pfx w = Fails-next _ _ λ s w₁ run. Fails-next _ _ λ certs w₂ _.
        Fails-next _ _ λ old w₃ _. Fails-next _ _ λ ca w₄ _.
          Fails-next _ _ λ t w₅ got.
            absurd (not_written (ca_entries goca ca) s t w₄ w₅ (owned-nil s w w₁ run) got)

    -- `Diff` gives no difference for a secret that does not exist.
    pub diff_missing-Fails : (s : Store goca) → Fails (diff_missing goca kube h s).0
    unfolding diff_missing
    diff_missing-Fails s = Fails-next _ _ λ t s' run.
        let made = ap (λ r. r.0) (wrapped-eq-ok _ _ run) in
        absurd (not_ok_of_Fails _ t (generate_secret-Fails s.world) made)

    -- Where Kubernetes answers that the transport secret does not exist, Read followed by Diff
    -- ends with an error or a panic, whatever the external calls give. It assumes what helper.Get
    -- and SetControllerReference document.
    pub reconcile-Fails_missing :
        ReadsData goca kube
        → (s : Store goca) (e : Error) (w : goca.World)
        → kube.get_secret h.meta.namespace (get_secret_name_for_tls_transport h) s.world
          ≡ (err e, w)
        → kube.is_not_found e ≡ true
        → Fails (reconcile s).0
    unfolding reconcile next
    reconcile-Fails_missing reads s e w absent not_found =
        let d = results_data goca none none none [] s.entries in
        let after : Store goca = record { world = w; entries = d } in
        rw (read-missing goca kube h s e w absent not_found) (
          rw
            (diff-none goca kube h reads after
              (results_data-Holds goca none none none [] s.entries))
            (diff_missing-Fails after))
