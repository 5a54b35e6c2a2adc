-- ===== src/Controllers/Conditions.antt =====
-- controllers/opensearch_controller_transport_tls.go and opensearch_controller_api_tls.go:
-- `Configure`, `OnError`, `OnSuccess` and `Delete`, which differ in the type of the condition and
-- in the secret that they name.
pub mod Reports
pub mod Calls
pub mod History
use opensearch_operator.Common.{
  ◌≡◌, ◌≢◌, ℕ, ◌+◌, String, ◌<>◌, ◌=?◌, Bool, true, false, not, Option, none, some, List, [], ◌∷◌,
  ◌++◌, if◌then◌else◌,
}
use opensearch_operator.Api.Kubernetes.{Condition}
use opensearch_operator.Api.Types.{Opensearch}
use opensearch_operator.Api.Names.{get_secret_name_for_tls_transport, get_secret_name_for_tls_api}
use opensearch_operator.Controllers.State.{Diff}

-- The functions of k8s.io/apimachinery/pkg/api/meta on the conditions of a status.
pub record Meta : Type 0 where
  pub find_status_condition : List Condition → String → Option Condition
  pub set_status_condition : List Condition → Condition → List Condition
  pub is_present_and_equal : List Condition → String → String → Bool

-- What they document.
pub record IsMeta (m : Meta) : Type 0 where
  pub find-set :
      (cs : List Condition) (c : Condition)
      → m.find_status_condition (m.set_status_condition cs c) c.condition_type ≡ some c
  pub find-set_other :
      (cs : List Condition) (c : Condition) (k : String)
      → c.condition_type ≢ k
      → m.find_status_condition (m.set_status_condition cs c) k ≡ m.find_status_condition cs k
  pub present :
      (cs : List Condition) (k status : String)
      → m.is_present_and_equal cs k status
        ≡ elim (m.find_status_condition cs k) [ none ↦ false | some c ↦ c.status =? status ]

pub record Event : Type 0 where
  pub event_type : String
  pub reason : String
  pub message : String

-- What the four functions change: the conditions of the resource, the recorded events, the counter
-- of the errors, and how often the gauge of the resources went down under each label.
pub record Report : Type 0 where
  pub conditions : List Condition
  pub events : List Event
  pub total_errors : ℕ
  pub decrements : String → ℕ

-- Which reconciler it is.
pub data Layer : Type 0 where
  transport api : Layer

abbrev pub condition_of : Layer → String
condition_of transport = "OpensearchTransportTls"
condition_of api = "OpensearchApiTls"

abbrev pub secret_of : Layer → Opensearch → String
secret_of transport h = get_secret_name_for_tls_transport h
secret_of api h = get_secret_name_for_tls_api h

module _ (m : Meta) (layer : Layer) where
  abbrev pub set_condition : (status reason message : String) → Report → Report
  set_condition status reason message r = record r {
    conditions = m.set_status_condition r.conditions (record {
      condition_type = condition_of layer;
      status = status;
      reason = reason;
      message = message;
    });
  }

  unfoldable pub configure : Report → Report
  configure r = elim (m.find_status_condition r.conditions (condition_of layer)) [
    | none ↦ set_condition "False" "Initialize" "" r
    | some c ↦ r
  ]

  -- With the text of the error.
  unfoldable pub on_error : String → Report → Report
  on_error message r =
      let failed = set_condition "False" "Failed" message r in
      record failed {
        events =
            r.events
            ++ record { event_type = "Warning"; reason = "Failed"; message = message } ∷ [];
        total_errors = r.total_errors + 1;
      }

  -- `Secret %s successfully created`, or updated.
  abbrev pub completed : String → Bool → Opensearch → List Event
  completed verb done h =
      if done
      then record {
        event_type = "Normal";
        reason = "Completed";
        message = "Secret " <> (secret_of layer h <> (" successfully " <> verb));
      }
        ∷ []
      else []

  unfoldable pub on_success : Opensearch → Diff → Report → Report
  on_success h d r =
      let told : Report = record r {
        events =
            (r.events ++ completed "created" d.need_create h)
            ++ completed "updated" d.need_update h;
      } in
      if not (m.is_present_and_equal r.conditions (condition_of layer) "True")
      then set_condition "True" "Success" ("Secret " <> (secret_of layer h <> " up to date")) told
      else told

-- `controllerMetrics.WithLabelValues(r.name).Dec()`, with the name of the reconciler.
unfoldable pub delete : (name : String) → Report → Report
delete name r = record r {
  decrements = λ label. if name =? label then r.decrements label + 1 else r.decrements label;
}
