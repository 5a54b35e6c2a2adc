-- ===== src/Controllers/TransportTls/Additions.antt =====
-- `Diff` on an existing secret where no certificate is due.
use opensearch_operator.Common.{
  ◌≡◌, inl, inr, refl, ◌∙◌, true, false, String, Option, some, List, All, Bool-cases,
}
use opensearch_operator.Common.Outcome.{Outcome, ok}
use opensearch_operator.Common.Action.{next, wrapped}
use opensearch_operator.Api.Types.{Opensearch}
use opensearch_operator.Pki.{Goca, Bytes}
use opensearch_operator.Controllers.State.{
  Secret, Diff, secret, Kube, Store, ReadsData, RangesNodes, set_data,
}
use opensearch_operator.Controllers.TransportTls.Handover.{Holds, diff-some}
use opensearch_operator.Controllers.TransportTls.NewNodes.{
  any_missing, NotDue, IsReady, IsExtended, any_missing-same, IsReady-same, IsExtended-same,
  diff_nodes-LoopReaches,
}
use opensearch_operator.Controllers.TransportTls.Steps.{
  diff, diff_existing, diff_admin, diff_result, no_diff,
}

module _ (goca : Goca) where
  -- How `Diff` ends where nothing is due.
  pub data NewNodesResult (Within : goca.World → Type 0) (ca : goca.Ca) (current : Secret)
      (nodes : List (String × Option goca.Cert)) (m : String → Bytes)
      (r : Outcome Diff × Store goca) : Type 0 where
    complete :
        (s : Store goca)
        → Within s.world
        → any_missing goca nodes ≡ false
        → r ≡ (ok no_diff, s)
        → NewNodesResult Within ca current nodes m r
    extended :
        (text : String) (s : Store goca) (c : Secret) (m' : String → Bytes)
        → Within s.world
        → any_missing goca nodes ≡ true
        → r ≡ (ok (record { need_create = false; need_update = true; text = text }), s)
        → s.entries "expectedSecret" ≡ some (secret (some c))
        → c.meta ≡ current.meta
        → c.contents ≡ some m'
        → IsExtended goca Within ca nodes m m'
        → NewNodesResult Within ca current nodes m r

  module _ (kube : Kube goca) (h : Opensearch) (ca : goca.Ca) where
    -- Where data holds an existing transport secret with a root CA, an admin certificate and the
    -- node certificates, none of which is found due while a predicate on the world holds, and
    -- where meanwhile a certificate can be issued for each node without one, Diff returns, in
    -- whatever order it goes through the nodes: it finds no difference if every node has a
    -- certificate, and else it asks for an update to the same secret with, for each new node, a
    -- certificate that this CA issued for it, the key of this certificate and its request, and
    -- every other entry as it was. It assumes what helper.Get documents, and that a range goes
    -- through the entries of the map.
    pub diff-new_nodes :
        ReadsData goca kube
        → RangesNodes goca kube
        → (Within : goca.World → Type 0)
        → {current : Secret} {root admin : goca.Cert} {nodes : List (String × Option goca.Cert)}
          (s : Store goca) (m : String → Bytes)
        → Holds goca s.entries (some current) (some ca) (some admin) nodes
        → current.contents ≡ some m
        → goca.go_certificate (some ca) ≡ ok (some root)
        → Within s.world
        → NotDue goca Within root
        → NotDue goca Within admin
        → All (IsReady goca Within ca) nodes
        → NewNodesResult Within ca current nodes m (diff goca kube h s)
    unfolding diff_existing diff_admin diff_result next wrapped
    diff-new_nodes reads ranges Within {current} {root} {admin} {nodes} s m held e certified now
          root_valid admin_valid ready =
        let (w, later, valid) = root_valid s.world now in
        let s₁ : Store goca = record { world = w; entries = s.entries } in
        let order = kube.range_nodes nodes w in
        let same = λ (e : String × Option goca.Cert). ranges nodes w e in
        let loop =
          diff_nodes-LoopReaches goca kube h ca Within order current false "" s₁ m later
            (IsReady-same goca order nodes same Within ca ready) e held.has_current in
        let missing_same = any_missing-same goca order nodes same in
        let (w', still, valid') = admin_valid loop.store.world loop.within in
        let entries = loop.store.entries in
        let ended : Store goca = record { world = w'; entries = entries } in
        let asked : Store goca = record {
          world = w';
          entries = set_data goca "expectedSecret" (secret (some loop.current)) entries;
        } in
        elim (Bool-cases (any_missing goca nodes)) [
          | inr none_new ↦ complete ended still none_new (
              diff-some goca kube h reads s held
              ∙ rw (certified, valid, loop.run, valid', missing_same, none_new) refl)
          | inl new ↦
              extended loop.text asked loop.current loop.contents still new
                (diff-some goca kube h reads s held
                  ∙ rw (certified, valid, loop.run, valid', missing_same, new) refl)
                refl loop.same_meta loop.has_contents
                (IsExtended-same goca order nodes same Within ca m loop.contents loop.extended)
        ]
