-- ===== src/Controllers/Conditions/Calls.antt =====
-- The calls of the two reconcilers on the report of one resource, in the order in which they
-- happen, and an independent description of what a report holds after them.
use opensearch_operator.Common.{
  ◌≡◌, ◌≢◌, ℕ, ◌+◌, String, ◌<>◌, ◌=?◌, if◌then◌else◌, Bool, true, false, Option, none, some, List,
  [], ◌∷◌, ◌++◌,
}
use opensearch_operator.Api.Kubernetes.{Condition}
use opensearch_operator.Api.Types.{Opensearch}
use opensearch_operator.Controllers.State.{Diff}
use opensearch_operator.Controllers.Conditions.{
  Meta, Report, Event, Layer, transport, api, condition_of, secret_of, configure, on_error,
  on_success, delete,
}
use opensearch_operator.Controllers.ApiTls.Status.{
  api_configure, api_on_error, api_on_success, api_delete,
}

-- A call of operator-sdk-extra, with the text of the error or the difference of the round.
pub data Call : Type 0 where
  configured : Call
  failed : String → Call
  succeeded : Diff → Call
  deleted : Call

-- Each reconciler has a name, which is the label of its metrics.
module _ (m : Meta) (h : Opensearch) (names : Layer → String) where
  abbrev pub transport_call : Call → Report → Report
  transport_call configured r = configure m transport r
  transport_call (failed message) r = on_error m transport message r
  transport_call (succeeded d) r = on_success m transport h d r
  transport_call deleted r = delete (names transport) r

  abbrev pub api_call : Call → Report → Report
  api_call configured r = api_configure m r
  api_call (failed message) r = api_on_error m message r
  api_call (succeeded d) r = api_on_success m h d r
  api_call deleted r = api_delete (names api) r

  abbrev pub call : Layer → Call → Report → Report
  call transport c r = transport_call c r
  call api c r = api_call c r

  -- The calls of both reconcilers, in the order in which they happen.
  unfoldable pub calls : List (Layer × Call) → Report → Report
  calls [] r = r
  calls ((layer, c) ∷ cs) r = calls cs (call layer c r)

-- The calls of one reconciler.
abbrev pub own : Layer → List (Layer × Call) → List Call
own l [] = []
own transport ((transport, c) ∷ cs) = c ∷ own transport cs
own transport ((api, c) ∷ cs) = own transport cs
own api ((transport, c) ∷ cs) = own api cs
own api ((api, c) ∷ cs) = c ∷ own api cs

-- The status of a condition after a call of its reconciler.
abbrev pub next_status : Call → Option String → Option String
next_status configured none = some "False"
next_status configured (some status) = some status
next_status (failed message) status = some "False"
next_status (succeeded d) status = some "True"
next_status deleted status = status

abbrev pub last_status : List Call → Option String → Option String
last_status [] status = status
last_status (c ∷ cs) status = last_status cs (next_status c status)

abbrev pub failures : List (Layer × Call) → ℕ
failures [] = 0
failures ((_, failed message) ∷ cs) = 1 + failures cs
failures ((_, configured) ∷ cs) = failures cs
failures ((_, succeeded d) ∷ cs) = failures cs
failures ((_, deleted) ∷ cs) = failures cs

-- The calls of Delete of the reconcilers whose name is the label.
abbrev pub deletions : (Layer → String) → String → List (Layer × Call) → ℕ
deletions names label [] = 0
deletions names label ((l, deleted) ∷ cs) =
    (if names l =? label then 1 else 0) + deletions names label cs
deletions names label ((_, configured) ∷ cs) = deletions names label cs
deletions names label ((_, succeeded d) ∷ cs) = deletions names label cs
deletions names label ((_, failed message) ∷ cs) = deletions names label cs

abbrev pub status_text : Option Condition → Option String
status_text none = none
status_text (some c) = some c.status

abbrev pub status_of : Meta → Layer → Report → Option String
status_of m l r = status_text (m.find_status_condition r.conditions (condition_of l))

abbrev pub secret_event : Opensearch → Layer → (verb : String) → Bool → List Event
secret_event h l verb true =
    record {
      event_type = "Normal";
      reason = "Completed";
      message = "Secret " <> (secret_of l h <> (" successfully " <> verb));
    }
    ∷ []
secret_event h l verb false = []

-- The events that a call records.
abbrev pub told : Opensearch → Layer → Call → List Event
told h l configured = []
told h l (failed message) =
    record { event_type = "Warning"; reason = "Failed"; message = message } ∷ []
told h l (succeeded d) =
    secret_event h l "created" d.need_create ++ secret_event h l "updated" d.need_update
told h l deleted = []

abbrev pub all_told : Opensearch → List (Layer × Call) → List Event
all_told h [] = []
all_told h ((l, c) ∷ cs) = told h l c ++ all_told h cs

-- What a report is after the calls, from the report before them.
pub record IsHistory (m : Meta) (h : Opensearch) (names : Layer → String) (cs : List (Layer × Call))
    (r r' : Report) : Type 0 where
  pub events : r'.events ≡ r.events ++ all_told h cs
  pub statuses : (l : Layer) → status_of m l r' ≡ last_status (own l cs) (status_of m l r)
  pub others :
      (k : String)
      → condition_of transport ≢ k
      → condition_of api ≢ k
      → m.find_status_condition r'.conditions k ≡ m.find_status_condition r.conditions k
  pub errors : r'.total_errors ≡ r.total_errors + failures cs
  pub downs : (label : String) → r'.decrements label ≡ r.decrements label + deletions names label cs
