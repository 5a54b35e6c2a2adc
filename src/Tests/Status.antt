-- ===== src/Tests/Status.antt =====
-- An instance of the functions on conditions, and a report that passes through the steps.
use opensearch_operator.Common.{
  ◌≡◌, refl, String, ◌=?◌, eq_iff, eq_refl, Option, none, some, List, [], ◌∷◌, true, false,
  if◌then◌else◌, Bool-cases, inl, inr,
}
use opensearch_operator.Api.Kubernetes.{Condition}
use opensearch_operator.Controllers.State.{Diff}
use opensearch_operator.Controllers.Conditions.{
  Meta, IsMeta, Report, Layer, transport, api, configure, on_error, on_success, delete,
}
use opensearch_operator.Controllers.Conditions.Calls.{
  Call, configured, failed, succeeded, deleted, calls, status_of, IsHistory,
}
use opensearch_operator.Controllers.Conditions.History.{calls-IsHistory}
use opensearch_operator.Controllers.ApiTls.Status.{
  api_configure, api_on_error, api_on_success, api_delete,
}
use opensearch_operator.Tests.Cluster.{cluster}

abbrev find : List Condition → String → Option Condition
find [] k = none
find (c ∷ cs) k = if c.condition_type =? k then some c else find cs k

abbrev meta : Meta
meta = record {
  find_status_condition = find;
  set_status_condition = λ cs c. c ∷ cs;
  is_present_and_equal =
      λ cs k status. elim (find cs k) [ none ↦ false | some c ↦ c.status =? status ];
}

meta-IsMeta : IsMeta meta
meta-IsMeta = record {
  find-set = λ cs c. rw (eq_refl c.condition_type) refl;
  find-set_other = λ cs c k n. elim (Bool-cases (c.condition_type =? k)) [
    | inl same ↦ absurd (n ((eq_iff c.condition_type k).0 same))
    | inr other ↦ rw other refl
  ];
  present = λ cs k status. refl;
}

abbrev empty_report : Report
empty_report = record { conditions = []; events = []; total_errors = 0; decrements = λ label. 0 }

abbrev names : Layer → String
names transport = "opensearchTransportTls"
names api = "opensearchApiTls"

abbrev created : Diff
created = record { need_create = true; need_update = false; text = "" }

-- The reconcilers take turns.
abbrev turns : List (Layer × Call)
turns =
    (transport, configured)
    ∷ (api, configured)
    ∷ (transport, failed "no route")
    ∷ (api, succeeded created)
    ∷ (transport, succeeded created)
    ∷ (api, failed "no secret")
    ∷ (transport, deleted)
    ∷ []

-- Each condition ends as its own reconciler left it.
turns_settled :
    (status_of meta transport (calls meta cluster names turns empty_report) ≡ some "True")
    × (status_of meta api (calls meta cluster names turns empty_report) ≡ some "False")
unfolding calls configure on_error on_success delete api_configure api_on_error api_on_success
    api_delete
turns_settled = (refl, refl)

calls-IsHistory_example :
    IsHistory meta cluster names turns empty_report (calls meta cluster names turns empty_report)
calls-IsHistory_example = calls-IsHistory meta meta-IsMeta cluster names turns empty_report
