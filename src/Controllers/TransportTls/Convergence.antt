-- ===== src/Controllers/TransportTls/Convergence.antt =====
-- Two rounds of the transport reconciler where nodes are new: the second finds nothing to do.
use opensearch_operator.Common.{
  ◌≡◌, refl, ap, ◌∙◌, true, false, String, Option, none, some, List, All,
}
use opensearch_operator.Common.Outcome.{ok}
use opensearch_operator.Common.Action.{next}
use opensearch_operator.Api.Types.{Opensearch}
use opensearch_operator.Api.Names.{get_secret_name_for_tls_transport}
use opensearch_operator.Api.Names.Distinct.{DistinctGroups}
use opensearch_operator.Pki.{Goca, Bytes}
use opensearch_operator.Controllers.State.{
  Secret, secret, Kube, Store, ReadsData, RangesNodes, save,
}
use opensearch_operator.Controllers.TransportTls.Handover.{results_data, results_data-Holds}
use opensearch_operator.Controllers.TransportTls.NewNodes.{any_missing, NotDue, IsReady}
use opensearch_operator.Controllers.TransportTls.Additions.{complete, extended, diff-new_nodes}
use opensearch_operator.Controllers.TransportTls.Loading.{LoadsIssued, IssuesValid}
use opensearch_operator.Controllers.TransportTls.Steps.{read, diff, update, no_diff}
use opensearch_operator.Controllers.TransportTls.Rounds.{
  round, Accepts, IsLoadable, read-IsLoadable, extended-IsLoadable,
}

module _ (goca : Goca) (kube : Kube goca) (h : Opensearch) where
  update-writes :
      ReadsData goca kube
      → (s : Store goca) (c : Secret) (w : goca.World)
      → s.entries "expectedSecret" ≡ some (secret (some c))
      → kube.update_secret (some c) s.world ≡ (ok tt, w)
      → update goca kube h s ≡ (ok none, record { world = w; entries = s.entries })
  unfolding update save next
  update-writes reads s c w stored accepted = rw (reads.found _ _ _ stored, accepted) refl

  -- A round whose difference asks for an update.
  round-updates :
      (s t u v : Store goca) (text : String)
      → read goca kube h s ≡ (ok none, t)
      → diff goca kube h t
        ≡ (ok (record { need_create = false; need_update = true; text = text }), u)
      → update goca kube h u ≡ (ok none, v)
      → round goca kube h s
        ≡ (ok (record { need_create = false; need_update = true; text = text }), v)
  unfolding round next
  round-updates s t u v text a b c = rw (a, b, c) refl

  -- A round without a difference.
  round-rests :
      (s t u : Store goca)
      → read goca kube h s ≡ (ok none, t)
      → diff goca kube h t ≡ (ok no_diff, u)
      → round goca kube h s ≡ (ok no_diff, u)
  unfolding round next
  round-rests s t u a b = rw (a, b) refl

  module _ (reads : ReadsData goca kube) (ranges : RangesNodes goca kube)
      (Within : goca.World → Type 0) where
    -- A round on a secret that has everything.
    complete_round :
        {c : Secret} {ca : goca.Ca} {root admin : goca.Cert} {names : List String}
        {nodes : List (String × Option goca.Cert)} (s : Store goca) (m : String → Bytes)
        (w : goca.World)
        → kube.get_secret h.meta.namespace (get_secret_name_for_tls_transport h) s.world ≡ (ok c, w)
        → Within w
        → c.contents ≡ some m
        → IsLoadable goca kube h c ca admin names nodes
        → goca.go_certificate (some ca) ≡ ok (some root)
        → NotDue goca Within root
        → NotDue goca Within admin
        → All (IsReady goca Within ca) nodes
        → any_missing goca nodes ≡ false
        → (t : Store goca) × (round goca kube h s ≡ (ok no_diff, t))
    complete_round {c} {ca} {root} {admin} {names} {nodes} s m w found now has loads certified
          root_valid admin_valid ready all =
        let t : Store goca = record {
          world = w;
          entries = results_data goca (some c) (some ca) (some admin) nodes s.entries;
        } in
        elim (diff-new_nodes goca kube h ca reads ranges Within t m
          (results_data-Holds goca (some c) (some ca) (some admin) nodes s.entries) has certified
          now root_valid admin_valid ready) [
            | complete u _ _ run ↦
                (u, round-rests s t u (read-IsLoadable goca kube h loads s w found) run)
            | extended text u c' m' _ missing run shown meta has' ext ↦ absurd cc
          ]

    -- Where the transport secret exists with a CA, the administrator's certificate and those of
    -- some nodes, none of which is found due while a predicate on the world holds, and nodes are
    -- new, one round of Read, Diff and Update asks for an update, and the round after it finds no
    -- difference. It assumes different names of the node groups, what helper.Get documents, that a
    -- range goes through the entries of the map, that what is written to Kubernetes is read back,
    -- that goca loads what it issues, and that meanwhile a certificate can be issued for each new
    -- node, which is not found due either.
    pub round-Converges :
        LoadsIssued goca
        → Accepts goca kube h Within
        → DistinctGroups h
        → {c : Secret} {ca : goca.Ca} {root admin : goca.Cert} {names : List String}
          {nodes : List (String × Option goca.Cert)} (s : Store goca) (m : String → Bytes)
          (w : goca.World)
        → kube.get_secret h.meta.namespace (get_secret_name_for_tls_transport h) s.world ≡ (ok c, w)
        → Within w
        → c.meta.namespace ≡ h.meta.namespace
        → c.meta.name ≡ get_secret_name_for_tls_transport h
        → c.contents ≡ some m
        → IsLoadable goca kube h c ca admin names nodes
        → goca.go_certificate (some ca) ≡ ok (some root)
        → NotDue goca Within root
        → NotDue goca Within admin
        → All (IsReady goca Within ca) nodes
        → IssuesValid goca Within ca nodes
        → any_missing goca nodes ≡ true
        → (text : String) × (t : Store goca) × (u : Store goca) × (round goca kube h s
            ≡ (ok (record { need_create = false; need_update = true; text = text }), t))
          × (round goca kube h t ≡ (ok no_diff, u))
    round-Converges issued kubernetes d {c} {ca} {root} {admin} {names} {nodes} s m w found now
          namespace name has loads certified root_valid admin_valid ready fresh missing =
        let entries = results_data goca (some c) (some ca) (some admin) nodes s.entries in
        let s₁ : Store goca = record { world = w; entries = entries } in
        elim (diff-new_nodes goca kube h ca reads ranges Within s₁ m
          (results_data-Holds goca (some c) (some ca) (some admin) nodes s.entries) has certified
          now root_valid admin_valid ready) [
            | complete u _ all run ↦ absurd cc
            | extended text s₂ c' m' still _ run shown meta has' ext ↦
                let (w₁, w₂, within, written, reread) =
                  kubernetes.accepted c' s₂.world (ap (λ x. x.namespace) meta ∙ namespace)
                    (ap (λ x. x.name) meta ∙ name) still in
                let (nodes', loads', ready', all) =
                  extended-IsLoadable goca kube h loads issued d Within ready fresh c' m m' has has'
                    ext in
                let s₃ : Store goca = record { world = w₁; entries = s₂.entries } in
                let (u, rests) =
                  complete_round s₃ m' w₂ reread within has' loads' certified root_valid admin_valid
                    ready' all in
                (
                  text,
                  s₃,
                  u,
                  round-updates s s₁ s₂ s₃ text (read-IsLoadable goca kube h loads s w found) run
                      (update-writes reads s₂ c' w₁ shown written),
                  rests,
                )
          ]
