-- ===== src/Controllers/TransportTls/Renewal.antt =====
-- The transport secret is never renewed either: what `Diff` does where a certificate is due.
use opensearch_operator.Common.{◌≡◌, ap, true, String, Option, some, List}
use opensearch_operator.Common.Outcome.{ok}
use opensearch_operator.Common.Action.{
  next, wrapped, wrapped-eq-ok, Fails, Fails-next, not_ok_of_Fails,
}
use opensearch_operator.Api.Types.{Opensearch}
use opensearch_operator.Pki.{Goca, need_renew_certificate}
use opensearch_operator.Controllers.State.{Secret, Kube, Store, ReadsData, read_entry}
use opensearch_operator.Controllers.TransportTls.Creation.{KeepsContents, renew_secret-Fails}
use opensearch_operator.Controllers.TransportTls.Handover.{Holds, diff-some}
use opensearch_operator.Controllers.TransportTls.Steps.{diff, diff_existing, renew_all}

module _ (goca : Goca) (kube : Kube goca) (h : Opensearch) (keeps : KeepsContents goca kube) where
  pub renew_all-Fails :
      (current : Secret) (text : String) (s : Store goca)
      → Fails (renew_all goca kube h current text s).0
  unfolding renew_all
  renew_all-Fails current text s = Fails-next _ _ λ t s' run.
      let made = ap (λ r. r.0) (wrapped-eq-ok _ _ run) in
      absurd (
        not_ok_of_Fails _ t
          (renew_secret-Fails goca kube h keeps (read_entry "admin.pfx" current) s.world) made)

  -- Where data holds an existing transport secret with the other entries that Read leaves, and its
  -- root CA counts as to renew, Diff ends with an error or a panic. It assumes what helper.Get and
  -- SetControllerReference document.
  pub diff-Fails_due :
      ReadsData goca kube
      → {current : Secret} {ca : Option goca.Ca} {admin : Option goca.Cert}
        {nodes : List (String × Option goca.Cert)} (s : Store goca) (root : Option goca.Cert)
        (w : goca.World)
      → Holds goca s.entries (some current) ca admin nodes
      → goca.go_certificate ca ≡ ok root
      → need_renew_certificate goca root s.world ≡ (ok true, w)
      → Fails (diff goca kube h s).0
  unfolding diff_existing next wrapped
  diff-Fails_due reads {current} s root w held certified due =
      let after : Store goca = record s { world = w } in
      rw (diff-some goca kube h reads s held, certified, due)
        (renew_all-Fails current "CA root will expire. Renew all certificates" after)
