-- ===== src/Tests/Runs.antt =====
-- Runs of both reconcilers on a cluster where their secrets exist.
use opensearch_operator.Common.{◌≡◌, refl, true, none, some}
use opensearch_operator.Common.Outcome.{ok}
use opensearch_operator.Common.Action.{next, wrapped}
use opensearch_operator.Pki.{load_root_ca_transport, load_root_ca_api}
use opensearch_operator.Api.Names.{
  is_self_managed_secret_for_tls_api, get_node_names, get_node_group_node_names,
}
use opensearch_operator.Controllers.State.{
  Secret, secret, authority, Kube, Store, ReadsData, fetch, as_secret, as_authority, as_certificate,
  as_certificates,
}
use opensearch_operator.Controllers.Phases.{
  Reachable, start, continue, read_step, diff_step, world_step, update_step,
}
use opensearch_operator.Controllers.Phases.Typed.{Panics}
use opensearch_operator.Controllers.TransportTls.Runs.{transport_phases}
use opensearch_operator.Controllers.TransportTls.Assertions.{
  assertions-hold, current_secret-HasRoot,
}
use opensearch_operator.Controllers.TransportTls.Steps as Transport
use opensearch_operator.Controllers.ApiTls.Steps as ApiSteps
use opensearch_operator.Controllers.ApiTls.Runs.{api_phases}
use opensearch_operator.Controllers.ApiTls.Assertions.{api_assertions-hold, managed_secret-HasRoot}
use opensearch_operator.Tests.External.{goca, kube, kube-ReadsData, empty_store}
use opensearch_operator.Tests.Cluster.{cluster}

-- A secret with something under every key.
abbrev full_secret : Secret
full_secret = record {
  meta = cluster.meta;
  secret_type = "Opaque";
  owner = none;
  contents = some (λ k. some "pem");
}

abbrev full_kube : Kube goca
full_kube = record kube { get_secret = λ namespace name w. (ok full_secret, w) }

full_kube-ReadsData : ReadsData goca full_kube
full_kube-ReadsData = record { found = kube-ReadsData.found; missing = kube-ReadsData.missing }

abbrev after_read : Store goca
after_read = (Transport.read goca full_kube cluster empty_store).1

run : Reachable goca (transport_phases goca full_kube cluster) after_read
run = continue (start 5) (read_step empty_store)

-- Read, Diff, and an Update after time has gone by.
longer_run :
    Reachable goca
      (transport_phases goca full_kube cluster)
      (Transport.update goca full_kube cluster (record {
        world = 9;
        entries = (Transport.diff goca full_kube cluster after_read).1.entries;
      })).1
longer_run = continue (continue (continue run (diff_step _)) (world_step _ 9)) (update_step _)

holds : after_read.entries "currentSecret" ≡ some (secret (some full_secret))
unfolding Transport.read load_root_ca_transport next wrapped get_node_names
    get_node_group_node_names
holds = refl

assertions-hold_example :
    (¬ Panics (fetch goca full_kube "currentSecret" (as_secret goca) after_read).0)
    × (¬ Panics (fetch goca full_kube "rootCA" (as_authority goca) after_read).0)
    × (¬ Panics (fetch goca full_kube "adminCertificate" (as_certificate goca) after_read).0)
    × (¬ Panics (fetch goca full_kube "nodeCertificates" (as_certificates goca) after_read).0)
    × (¬ Panics (fetch goca full_kube "expectedSecret" (as_secret goca) after_read).0)
assertions-hold_example = assertions-hold goca full_kube cluster full_kube-ReadsData run

current_secret-HasRoot_example :
    (ca : goca.Ca) × (after_read.entries "rootCA" ≡ some (authority (some ca)))
current_secret-HasRoot_example =
    current_secret-HasRoot goca full_kube cluster full_kube-ReadsData run full_secret holds

abbrev after_api_read : Store goca
after_api_read = (ApiSteps.read goca full_kube cluster empty_store).1

api_run : Reachable goca (api_phases goca full_kube cluster) after_api_read
api_run = continue (start 5) (read_step empty_store)

managed : is_self_managed_secret_for_tls_api cluster ≡ true
unfolding is_self_managed_secret_for_tls_api
managed = refl

api_holds : after_api_read.entries "currentSecret" ≡ some (secret (some full_secret))
unfolding ApiSteps.read load_root_ca_api next wrapped is_self_managed_secret_for_tls_api
api_holds = refl

api_assertions-hold_example :
    (¬ Panics (fetch goca full_kube "currentSecret" (as_secret goca) after_api_read).0)
    × (¬ Panics (fetch goca full_kube "rootCA" (as_authority goca) after_api_read).0)
    × (¬ Panics (fetch goca full_kube "apiCertificate" (as_certificate goca) after_api_read).0)
    × (¬ Panics (fetch goca full_kube "expectedSecret" (as_secret goca) after_api_read).0)
api_assertions-hold_example = api_assertions-hold goca full_kube cluster full_kube-ReadsData api_run

managed_secret-HasRoot_example :
    (ca : goca.Ca) × (after_api_read.entries "rootCA" ≡ some (authority (some ca)))
managed_secret-HasRoot_example =
    managed_secret-HasRoot goca full_kube cluster api_run managed full_secret api_holds
