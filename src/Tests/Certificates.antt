-- ===== src/Tests/Certificates.antt =====
-- Certificates, and the steps of the transport reconciler, over the sample of the external code.
use opensearch_operator.Common.{
  ◌≡◌, refl, ℕ, Option, ◌↔◌, ◌+◌, ◌<◌, ◌≤◌, String, Bool, true, false, none, some, List, [], ◌∷◌,
}
use opensearch_operator.Common.Outcome.{ok, err, new}
use opensearch_operator.Common.Action.{Fails, next}
use opensearch_operator.Pki.{need_renew_certificate, renew_duration}
use opensearch_operator.Pki.Renewal.{need_renew_certificate_iff}
use opensearch_operator.Controllers.State.{Secret, Store}
use opensearch_operator.Controllers.TransportTls.Steps.{diff}
use opensearch_operator.Controllers.TransportTls.Handover.{results_data, results_data-Holds}
use opensearch_operator.Controllers.TransportTls.Creation.{reconcile, reconcile-Fails_missing}
use opensearch_operator.Controllers.TransportTls.Renewal.{diff-Fails_due}
use opensearch_operator.Controllers.TransportTls.NewNodes.{NotDue, IsReady}
use opensearch_operator.Controllers.TransportTls.Additions.{NewNodesResult, diff-new_nodes}
use opensearch_operator.Tests.External.{
  goca, kube, kube-KeepsContents, kube-ReadsData, kube-RangesNodes, empty_store, not_found,
}
use opensearch_operator.Tests.Cluster.{cluster}

need_renew_certificate_iff_example :
    (need_renew_certificate goca none 604800000000011
      ≡ (err (new "Cert must be provided"), 604800000000011))
    × ((need : Bool) × (need_renew_certificate goca (some 10) 604800000000011
          ≡ (ok need, 604800000000011))
        × ((need ≡ true) ↔ (10 + 604800000000000 < 604800000000011))
        × (604800000000011 ≤ 10 → need ≡ false))
need_renew_certificate_iff_example =
    need_renew_certificate_iff goca 10 604800000000011 604800000000011 604800000000011 refl

reconcile-Fails_missing_example : Fails (reconcile goca kube cluster empty_store).0
reconcile-Fails_missing_example =
    reconcile-Fails_missing goca kube cluster kube-KeepsContents kube-ReadsData empty_store
      not_found 5 refl refl

-- The secret of a root CA that ended long ago.
abbrev old_secret : Secret
old_secret = record {
  meta = cluster.meta;
  secret_type = "Opaque";
  owner = none;
  contents = some (λ k. none);
}

abbrev old_store : Store goca
old_store = record {
  world = renew_duration + 100;
  entries = results_data goca (some old_secret) (some 3) none [] (λ k. none);
}

due : need_renew_certificate goca (some 3) (renew_duration + 100) ≡ (ok true, renew_duration + 100)
unfolding need_renew_certificate next
due = refl

diff-Fails_due_example : Fails (diff goca kube cluster old_store).0
diff-Fails_due_example =
    diff-Fails_due goca kube cluster kube-KeepsContents kube-ReadsData old_store (some 3)
      (renew_duration + 100)
      (results_data-Holds goca (some old_secret) (some 3) none [] (λ k. none)) refl due

abbrev some_nodes : List (String × Option ℕ)
some_nodes = ("prod-master-os-0", some 100) ∷ ("prod-data-os-0", none) ∷ []

abbrev valid_store : Store goca
valid_store = record {
  world = 5;
  entries = results_data goca (some old_secret) (some 3) (some 100) some_nodes (λ k. none);
}

root-NotDue : NotDue goca (λ w. w ≡ 5) 3
unfolding need_renew_certificate next
root-NotDue w e = (5, refl, rw e refl)

admin-NotDue : NotDue goca (λ w. w ≡ 5) 100
unfolding need_renew_certificate next
admin-NotDue w e = (5, refl, rw e refl)

node-IsReady : IsReady goca (λ w. w ≡ 5) 3 ("prod-data-os-0", none)
node-IsReady = ((λ e. cc), λ w e. ("prod-data-os-0", 5, refl, rw e refl))

diff-new_nodes_example :
    NewNodesResult goca
      (λ w. w ≡ 5)
      3
      old_secret
      some_nodes
      (λ k. none)
      (diff goca kube cluster valid_store)
diff-new_nodes_example =
    diff-new_nodes goca kube cluster 3 kube-ReadsData kube-RangesNodes (λ w. w ≡ 5) valid_store
      (λ k. none)
      (results_data-Holds goca (some old_secret) (some 3) (some 100) some_nodes (λ k. none)) refl
      refl refl root-NotDue admin-NotDue (admin-NotDue, (node-IsReady, tt))
