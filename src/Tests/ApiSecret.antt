-- ===== src/Tests/ApiSecret.antt =====
-- The steps of the API reconciler, over the sample of the external code.
use opensearch_operator.Common.{
  ◌≡◌, refl, true, false, ◌=?◌, ◌+◌, ◌||◌, ◌⊎◌, none, some, if◌then◌else◌,
}
use opensearch_operator.Common.Outcome.{Error, ok, err}
use opensearch_operator.Common.Action.{Fails, next}
use opensearch_operator.Api.Types.{Opensearch}
use opensearch_operator.Api.Names.{is_self_managed_secret_for_tls_api}
use opensearch_operator.Pki.{need_renew_certificate, renew_duration}
use opensearch_operator.Controllers.State.{
  Secret, Store, Kube, ReadsData, secret, authority, certificate, set_data, read_entry,
  requeued_duration,
}
use opensearch_operator.Controllers.TransportTls.Steps.{no_diff}
use opensearch_operator.Controllers.ApiTls.Steps.{read, diff, is_empty}
use opensearch_operator.Controllers.ApiTls.Outcomes.{
  reconcile, reconcile-missing, reconcile-custom, diff-managed_cases,
}
use opensearch_operator.Tests.External.{
  goca, kube, kube-KeepsContents, kube-ReadsData, empty_store, not_found,
}
use opensearch_operator.Tests.Cluster.{cluster, balancer}

self_managed : is_self_managed_secret_for_tls_api cluster ≡ true
unfolding is_self_managed_secret_for_tls_api
self_managed = refl

reconcile-missing_example :
    (e : Error) × (reconcile goca kube cluster empty_store ≡ (
      err e,
      record { world = 5; entries = set_data goca "currentSecret" (secret none) (λ k. none) },
    ))
reconcile-missing_example =
    reconcile-missing goca kube cluster kube-ReadsData empty_store not_found 5 refl refl
      self_managed refl

-- A cluster whose load balancer has a secret of the user.
abbrev custom_cluster : Opensearch
custom_cluster = record cluster {
  spec = record cluster.spec {
    endpoint = some (record {
      ingress = none;
      load_balancer = some (record balancer {
        tls = some (record { self_signed_certificate = none; certificate_secret_ref = "mine" });
      });
    });
  };
}

custom : is_self_managed_secret_for_tls_api custom_cluster ≡ false
unfolding is_self_managed_secret_for_tls_api
custom = refl

abbrev my_secret : Secret
my_secret = record {
  meta = cluster.meta;
  secret_type = "kubernetes.io/tls";
  owner = none;
  contents = some (λ k. if k =? "tls.key" then some "key" else none);
}

abbrev my_kube : Kube goca
my_kube = record kube { get_secret = λ namespace name w. (ok my_secret, w) }

my_kube-ReadsData : ReadsData goca my_kube
my_kube-ReadsData = record { found = kube-ReadsData.found; missing = kube-ReadsData.missing }

-- The key stands under `tls.key`, where the reconciler does not look for it.
reconcile-custom_example :
    (((is_empty (read_entry "key.tls" my_secret) ≡ false)
        × (is_empty (read_entry "tls.crt" my_secret) ≡ false))
      × (reconcile goca my_kube custom_cluster empty_store ≡ (
        ok no_diff,
        record {
          world = 5;
          entries = set_data goca "currentSecret" (secret (some my_secret)) (λ k. none);
        },
      )))
    ⊎ (((is_empty (read_entry "key.tls" my_secret) ≡ true)
          ⊎ (is_empty (read_entry "tls.crt" my_secret) ≡ true))
        × (read goca my_kube custom_cluster empty_store
            ≡ (ok (some requeued_duration), record { world = 5; entries = λ k. none })))
reconcile-custom_example =
    reconcile-custom goca my_kube custom_cluster my_kube-ReadsData empty_store my_secret 5 refl
      custom

abbrev held_store : Store goca
held_store = record {
  world = renew_duration + 100;
  entries = set_data goca "currentSecret" (secret (some my_secret)) (
      set_data goca "rootCA" (authority (some 3))
        (set_data goca "apiCertificate" (certificate (some (renew_duration + 3))) (λ k. none)));
}

due : need_renew_certificate goca (some 3) (renew_duration + 100) ≡ (ok true, renew_duration + 100)
unfolding need_renew_certificate next
due = refl

fresh :
    need_renew_certificate goca (some (renew_duration + 3)) (renew_duration + 100)
    ≡ (ok false, renew_duration + 100)
unfolding need_renew_certificate next
fresh = refl

diff-managed_cases_example :
    (((true || false) ≡ false)
      × (diff goca kube cluster held_store
          ≡ (ok no_diff, record { world = renew_duration + 100; entries = held_store.entries })))
    ⊎ (((true || false) ≡ true) × Fails (diff goca kube cluster held_store).0)
diff-managed_cases_example =
    diff-managed_cases goca kube cluster kube-KeepsContents kube-ReadsData held_store my_secret
      (some 3) (some 3) (some (renew_duration + 3)) true false (renew_duration + 100)
      (renew_duration + 100) self_managed refl refl refl refl due fresh
