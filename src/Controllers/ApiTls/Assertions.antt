-- ===== src/Controllers/ApiTls/Assertions.antt =====
-- What holds in every run of the API reconciler.
use opensearch_operator.Common.{◌≡◌, true, some}
use opensearch_operator.Api.Types.{Opensearch}
use opensearch_operator.Api.Names.{is_self_managed_secret_for_tls_api}
use opensearch_operator.Pki.{Goca}
use opensearch_operator.Controllers.State.{
  Secret, secret, authority, Kube, Store, ReadsData, fetch, as_secret, as_authority, as_certificate,
}
use opensearch_operator.Controllers.Phases.{Reachable, Reachable-invariant}
use opensearch_operator.Controllers.Phases.Typed.{Panics, fetch-typed}
use opensearch_operator.Controllers.ApiTls.Runs.{
  api_phases, IsManaged, IsConsistent, read-kept, diff-kept, create-kept, update-kept,
}

module _ (goca : Goca) (kube : Kube goca) (h : Opensearch) where
  reachable-IsConsistent :
      {s : Store goca}
      → Reachable goca (api_phases goca kube h) s
      → IsConsistent goca kube h s.entries
  reachable-IsConsistent =
      Reachable-invariant goca (IsConsistent goca kube h) (api_phases goca kube h)
        (
          record { current = tt; expected = tt; root = tt; admin = tt; nodes = tt; api = tt },
          λ m c e. absurd cc,
        )
        (record {
          by_read = read-kept goca kube h;
          by_diff = diff-kept goca kube h;
          by_create = create-kept goca kube h;
          by_update = update-kept goca kube h;
        })

  -- In every run of Read, Diff, Create and Update of the API reconciler, in any order, with any of
  -- their errors and any changes of the cluster between them, none of the type assertions on the
  -- values stored at its end panics. It assumes what helper.Get documents.
  pub api_assertions-hold :
      ReadsData goca kube
      → {s : Store goca} → Reachable goca (api_phases goca kube h) s
      → (¬ Panics (fetch goca kube "currentSecret" (as_secret goca) s).0)
        × (¬ Panics (fetch goca kube "rootCA" (as_authority goca) s).0)
        × (¬ Panics (fetch goca kube "apiCertificate" (as_certificate goca) s).0)
        × (¬ Panics (fetch goca kube "expectedSecret" (as_secret goca) s).0)
  api_assertions-hold reads {s} run =
      let (t, _) = reachable-IsConsistent run in
      (
        fetch-typed goca kube _ _ s reads t.current,
        fetch-typed goca kube _ _ s reads t.root,
        fetch-typed goca kube _ _ s reads t.api,
        fetch-typed goca kube _ _ s reads t.expected,
      )

  -- In every run of Read, Diff, Create and Update of the API reconciler, in any order, with any of
  -- their errors and any changes of the cluster between them, data holds a self-managed secret as
  -- the current one only together with a root CA.
  pub managed_secret-HasRoot :
      {s : Store goca}
      → Reachable goca (api_phases goca kube h) s
      → is_self_managed_secret_for_tls_api h ≡ true
      → (c : Secret) → s.entries "currentSecret" ≡ some (secret (some c))
      → (ca : goca.Ca) × (s.entries "rootCA" ≡ some (authority (some ca)))
  unfolding IsManaged
  managed_secret-HasRoot run managed c e = (reachable-IsConsistent run).1 managed c e
