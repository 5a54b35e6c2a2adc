-- ===== src/Controllers/TransportTls/Assertions.antt =====
-- What holds in every run of the transport reconciler.
use opensearch_operator.Common.{◌≡◌, some}
use opensearch_operator.Api.Types.{Opensearch}
use opensearch_operator.Pki.{Goca}
use opensearch_operator.Controllers.State.{
  Secret, secret, authority, Kube, Store, ReadsData, fetch, as_secret, as_authority, as_certificate,
  as_certificates,
}
use opensearch_operator.Controllers.Phases.{Reachable, Reachable-invariant, Keeps}
use opensearch_operator.Controllers.Phases.Typed.{
  Panics, kept-next, kept-fetch, kept-save, fetch-typed,
}
use opensearch_operator.Controllers.TransportTls.Runs.{
  transport_phases, IsConsistent, read-kept, diff-kept,
}
use opensearch_operator.Controllers.TransportTls.Steps.{create, update}

module _ (goca : Goca) (kube : Kube goca) (h : Opensearch) where
  create-kept : Keeps goca (IsConsistent goca kube h) (create goca kube h)
  unfolding create
  create-kept s i =
      kept-next goca (IsConsistent goca kube h) _ _
        (kept-fetch goca (IsConsistent goca kube h) kube _ _ s i)
        λ o t _ j.
          kept-save goca (IsConsistent goca kube h) kube "create" " for TLS transport" o t j

  update-kept : Keeps goca (IsConsistent goca kube h) (update goca kube h)
  unfolding update
  update-kept s i =
      kept-next goca (IsConsistent goca kube h) _ _
        (kept-fetch goca (IsConsistent goca kube h) kube _ _ s i)
        λ o t _ j.
          kept-save goca (IsConsistent goca kube h) kube "update" " for TLS transport" o t j

  module _ (reads : ReadsData goca kube) where
    reachable-IsConsistent :
        {s : Store goca}
        → Reachable goca (transport_phases goca kube h) s
        → IsConsistent goca kube h s.entries
    reachable-IsConsistent =
        Reachable-invariant goca (IsConsistent goca kube h) (transport_phases goca kube h)
          (
            record { current = tt; expected = tt; root = tt; admin = tt; nodes = tt; api = tt },
            λ c e. absurd cc,
          )
          (record {
            by_read = read-kept goca kube h;
            by_diff = diff-kept goca kube h reads;
            by_create = create-kept;
            by_update = update-kept;
          })

    -- In every run of Read, Diff, Create and Update of the transport reconciler, in any order,
    -- with any of their errors and any changes of the cluster between them, none of the type
    -- assertions on the values stored at its end panics. It assumes what helper.Get documents.
    pub assertions-hold :
        {s : Store goca}
        → Reachable goca (transport_phases goca kube h) s
        → (¬ Panics (fetch goca kube "currentSecret" (as_secret goca) s).0)
          × (¬ Panics (fetch goca kube "rootCA" (as_authority goca) s).0)
          × (¬ Panics (fetch goca kube "adminCertificate" (as_certificate goca) s).0)
          × (¬ Panics (fetch goca kube "nodeCertificates" (as_certificates goca) s).0)
          × (¬ Panics (fetch goca kube "expectedSecret" (as_secret goca) s).0)
    assertions-hold {s} run =
        let (t, _) = reachable-IsConsistent run in
        (
          fetch-typed goca kube _ _ s reads t.current,
          fetch-typed goca kube _ _ s reads t.root,
          fetch-typed goca kube _ _ s reads t.admin,
          fetch-typed goca kube _ _ s reads t.nodes,
          fetch-typed goca kube _ _ s reads t.expected,
        )

    -- In every run of Read, Diff, Create and Update of the transport reconciler, in any order,
    -- with any of their errors and any changes of the cluster between them, data holds a secret as
    -- the current one only together with a root CA. It assumes what helper.Get documents.
    pub current_secret-HasRoot :
        {s : Store goca}
        → Reachable goca (transport_phases goca kube h) s
        → (c : Secret) → s.entries "currentSecret" ≡ some (secret (some c))
        → (ca : goca.Ca) × (s.entries "rootCA" ≡ some (authority (some ca)))
    current_secret-HasRoot run c e = (reachable-IsConsistent run).1 c e
