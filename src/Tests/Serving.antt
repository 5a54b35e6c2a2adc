-- ===== src/Tests/Serving.antt =====
-- The API secret of a cluster with alternative names and addresses.
use opensearch_operator.Common.{◌≡◌, refl, ◌+◌, String, Option, none, some, [], ◌∷◌}
use opensearch_operator.Common.Action.{next}
use opensearch_operator.Common.Outcome.{ok}
use opensearch_operator.Api.Types.{Opensearch}
use opensearch_operator.Api.Names.{is_self_managed_secret_for_tls_api}
use opensearch_operator.Pki.{need_renew_certificate, new_api_tls}
use opensearch_operator.Pki.Issuing.{ApiTlsResult, new_api_tls_cases}
use opensearch_operator.Controllers.TransportTls.Secrets.{ca_entries, issued_entries}
use opensearch_operator.Controllers.TransportTls.Steps.{no_diff}
use opensearch_operator.Controllers.ApiTls.Outcomes.{reconcile}
use opensearch_operator.Controllers.ApiTls.Settled.{Serves, reconcile-IsServed}
use opensearch_operator.Controllers.State.{
  Secret, write_map, set_data, secret, certificate, authority,
}
use opensearch_operator.Tests.Cluster.{cluster, balancer}
use opensearch_operator.Tests.Convergence.{
  keeping, keeper, keeper-ReadsData, beginning, valid_end, blank,
}
use opensearch_operator.Tests.External.{kube-KeepsContents}

abbrev open_cluster : Opensearch
open_cluster = record cluster {
  spec = record cluster.spec {
    endpoint = some (record {
      ingress = none;
      load_balancer = some (record balancer {
        tls = some (record {
          self_signed_certificate =
              some (record { alt_names = "search.example.org" ∷ []; alt_ips = "10.0.0.1" ∷ [] });
          certificate_secret_ref = "";
        });
      });
    });
  };
}

-- The secret that `generateSecret` is meant to write.
abbrev served_data : String → Option String
served_data = write_map (("api.pfx", some "prod") ∷ []) (
    write_map (issued_entries keeping "api" "prod") (write_map (ca_entries keeping tt) (λ k. none)))

abbrev served_secret : Secret
served_secret = record blank { contents = some served_data }

served : Serves keeping tt "prod" served_secret
served = record {
  entries = served_data;
  has_entries = refl;
  ca_crt = refl;
  ca_key = refl;
  ca_pub = refl;
  ca_crl = refl;
  api_crt = refl;
}

reconcile-IsServed_example :
    reconcile keeping keeper open_cluster (record {
      world = record { held = some served_secret; time = beginning };
      entries = λ k. none;
    })
    ≡ (
      ok no_diff,
      record {
        world = record { held = some served_secret; time = beginning + 2 };
        entries = set_data keeping "currentSecret" (secret (some served_secret)) (
            set_data keeping "apiCertificate"
              (certificate (some valid_end))
              (set_data keeping "rootCA" (authority (some tt)) λ k. none));
      },
    )
unfolding is_self_managed_secret_for_tls_api need_renew_certificate next
reconcile-IsServed_example =
    reconcile-IsServed keeping keeper open_cluster kube-KeepsContents keeper-ReadsData (λ ca. refl)
      (record {
        world = record { held = some served_secret; time = beginning };
        entries = λ k. none;
      })
      served refl refl refl refl refl refl

new_api_tls_cases_example :
    ApiTlsResult keeping "prod"
      ("search.example.org" ∷ [])
      ("10.0.0.1" ∷ "localhost" ∷ [])
      tt
      (record { held = none; time = beginning })
      (new_api_tls keeping "prod"
        ("search.example.org" ∷ [])
        ("10.0.0.1" ∷ "localhost" ∷ [])
        (some tt)
        (record { held = none; time = beginning }))
new_api_tls_cases_example =
    new_api_tls_cases keeping "prod" ("search.example.org" ∷ []) ("10.0.0.1" ∷ "localhost" ∷ []) tt
      (record { held = none; time = beginning }) (λ e. cc)
