-- ===== src/Controllers/Conditions/History.antt =====
-- The report of a resource under the two reconcilers, which act on it in turn: what each of them
-- leaves there, whatever the other one does between its calls.
use opensearch_operator.Common.{
  ◌≡◌, ◌≢◌, refl, sym, ◌∙◌, ap, ◌+◌, String, eq_iff, Bool, true, false, some, List, [], ◌∷◌, ◌++◌,
  arith, Bool-cases, Option-cases, inl, inr,
}
use mathlib.Core.List.{append_assoc, append-nil}
use opensearch_operator.Api.Types.{Opensearch}
use opensearch_operator.Controllers.State.{Diff}
use opensearch_operator.Controllers.Conditions.{
  Meta, IsMeta, Report, Layer, transport, api, condition_of, completed, configure, on_error,
  on_success, delete,
}
use opensearch_operator.Controllers.Conditions.Reports.{
  Settles, on_success-Settles, on_error-Settles,
}
use opensearch_operator.Controllers.ApiTls.Status.{
  api_configure, api_on_error, api_on_success, api_delete,
}
use opensearch_operator.Controllers.Conditions.Calls.{
  Call, configured, failed, succeeded, deleted, call, calls, own, next_status, last_status,
  failures, deletions, status_text, status_of, secret_event, told, all_told, IsHistory,
}

types-differ : condition_of transport ≢ condition_of api
types-differ e =
    let no : false ≡ true = (eq_iff "OpensearchTransportTls" "OpensearchApiTls").1 e in absurd cc

own-cons :
    (l : Layer) (c : Call) (l' : Layer) (cs : List (Layer × Call))
    → own l' ((l, c) ∷ []) ++ own l' cs ≡ own l' ((l, c) ∷ cs)
own-cons transport c transport cs = refl
own-cons transport c api cs = refl
own-cons api c transport cs = refl
own-cons api c api cs = refl

failures-cons :
    (l : Layer) (c : Call) (cs : List (Layer × Call))
    → failures ((l, c) ∷ cs) ≡ failures ((l, c) ∷ []) + failures cs
failures-cons l configured cs = omega arith
failures-cons l (failed message) cs = omega arith
failures-cons l (succeeded d) cs = omega arith
failures-cons l deleted cs = omega arith

deletions-cons :
    (names : Layer → String) (label : String) (l : Layer) (c : Call) (cs : List (Layer × Call))
    → deletions names label ((l, c) ∷ cs)
      ≡ deletions names label ((l, c) ∷ []) + deletions names label cs
deletions-cons names label l configured cs = omega arith
deletions-cons names label l (failed message) cs = omega arith
deletions-cons names label l (succeeded d) cs = omega arith
deletions-cons names label l deleted cs = omega arith

module _ (m : Meta) (is_meta : IsMeta m) (h : Opensearch) (names : Layer → String) where
  -- What one call does.
  record IsCall (l : Layer) (c : Call) (r r' : Report) : Type 0 where
    events : r'.events ≡ r.events ++ told h l c
    status : status_of m l r' ≡ next_status c (status_of m l r)
    others :
        (k : String)
        → condition_of l ≢ k
        → m.find_status_condition r'.conditions k ≡ m.find_status_condition r.conditions k
    errors : r'.total_errors ≡ r.total_errors + failures ((l, c) ∷ [])
    downs :
        (label : String)
        → r'.decrements label ≡ r.decrements label + deletions names label ((l, c) ∷ [])

  status-Settles :
      (l : Layer) (s : String) (r r' : Report) → Settles m l s r r' → status_of m l r' ≡ some s
  status-Settles l s r r' settled = ap status_text settled.found ∙ ap some settled.has_status

  configure-IsCall : (l : Layer) (r : Report) → IsCall l configured r (configure m l r)
  unfolding configure
  configure-IsCall l r =
      elim (Option-cases (m.find_status_condition r.conditions (condition_of l))) [
        | inr (c, found) ↦
            rw (found, configure)
              (record {
                status = rw found refl;
                others = λ k n. refl;
                events = sym (append-nil r.events);
                errors = omega arith;
                downs = λ label. omega arith;
              })
        | inl missing ↦
            rw (missing, configure)
              (record {
                status = rw (is_meta.find-set, missing) refl;
                others = λ k n. is_meta.find-set_other _ _ k n;
                events = sym (append-nil r.events);
                errors = omega arith;
                downs = λ label. omega arith;
              })
      ]

  on_error-IsCall :
      (l : Layer) (message : String) (r : Report)
      → IsCall l (failed message) r (on_error m l message r)
  unfolding on_error
  on_error-IsCall l message r =
      let settled = on_error-Settles m is_meta l h r message in
      record {
        status = status-Settles l "False" r _ settled;
        others = settled.others;
        events = refl;
        errors = omega arith;
        downs = λ label. omega arith;
      }

  completed-secret_event :
      (l : Layer) (verb : String) (done : Bool)
      → completed m l verb done h ≡ secret_event h l verb done
  completed-secret_event l verb true = refl
  completed-secret_event l verb false = refl

  on_success-events :
      (l : Layer) (d : Diff) (r : Report)
      → (on_success m l h d r).events ≡ r.events ++ told h l (succeeded d)
  unfolding on_success
  on_success-events l d r =
      let told_both =
        append_assoc r.events (completed m l "created" d.need_create h)
          (completed m l "updated" d.need_update h)
        ∙ rw
            (
              completed-secret_event l "created" d.need_create,
              completed-secret_event l "updated" d.need_update,
            )
            refl in
      elim (Bool-cases (m.is_present_and_equal r.conditions (condition_of l) "True")) [
        | inl there ↦ rw there told_both
        | inr absent ↦ rw absent told_both
      ]

  on_success-IsCall :
      (l : Layer) (d : Diff) (r : Report) → IsCall l (succeeded d) r (on_success m l h d r)
  unfolding on_success
  on_success-IsCall l d r =
      let settled = on_success-Settles m is_meta l h r d in
      record {
        status = status-Settles l "True" r _ settled;
        others = settled.others;
        events = on_success-events l d r;
        errors = ground arith;
        downs = λ label. ground arith;
      }

  delete-IsCall : (l : Layer) (r : Report) → IsCall l deleted r (delete (names l) r)
  unfolding delete
  delete-IsCall l r = record {
    status = refl;
    others = λ k n. refl;
    events = sym (append-nil r.events);
    errors = omega arith;
    downs = λ label. ground arith;
  }

  call-IsCall : (l : Layer) (c : Call) (r : Report) → IsCall l c r (call m h names l c r)
  unfolding api_configure api_on_error api_on_success api_delete
  call-IsCall transport configured r = configure-IsCall transport r
  call-IsCall transport (failed message) r = on_error-IsCall transport message r
  call-IsCall transport (succeeded d) r = on_success-IsCall transport d r
  call-IsCall transport deleted r = delete-IsCall transport r
  call-IsCall api configured r = configure-IsCall api r
  call-IsCall api (failed message) r = on_error-IsCall api message r
  call-IsCall api (succeeded d) r = on_success-IsCall api d r
  call-IsCall api deleted r = delete-IsCall api r

  -- The other reconciler's condition has another type.
  status-own :
      (l : Layer) (c : Call) (r r' : Report)
      → IsCall l c r r'
      → (l' : Layer) (cs : List Call)
      → last_status cs (status_of m l' r')
        ≡ last_status (own l' ((l, c) ∷ []) ++ cs) (status_of m l' r)
  status-own transport c r r' one transport cs = ap (last_status cs) one.status
  status-own api c r r' one api cs = ap (last_status cs) one.status
  status-own transport c r r' one api cs =
      ap (λ o. last_status cs (status_text o)) (one.others (condition_of api) types-differ)
  status-own api c r r' one transport cs =
      ap (λ o. last_status cs (status_text o))
        (one.others (condition_of transport) (λ e. types-differ (sym e)))

  IsHistory-cons :
      (l : Layer) (c : Call) (cs : List (Layer × Call)) (r r' r'' : Report)
      → IsCall l c r r'
      → IsHistory m h names cs r' r''
      → IsHistory m h names ((l, c) ∷ cs) r r''
  IsHistory-cons l c cs r r' r'' one more = record {
    events =
        more.events
        ∙ ap (◌++ all_told h cs) one.events
        ∙ append_assoc r.events (told h l c) (all_told h cs);
    statuses = λ l'.
        more.statuses l'
        ∙ status-own l c r r' one l' (own l' cs)
        ∙ ap (λ own_calls. last_status own_calls (status_of m l' r)) (own-cons l c l' cs);
    others = λ k n n'.
        more.others k n n'
        ∙ one.others k (elim l as (λ l. condition_of l ≢ k) [ transport ↦ n | api ↦ n' ]);
    errors = omega (arith, one.errors, more.errors, failures-cons l c cs);
    downs = λ label.
        omega (arith, one.downs label, more.downs label, deletions-cons names label l c cs);
  }

  -- After any sequence of calls of Configure, OnError, OnSuccess and Delete of the two reconcilers,
  -- in any order, the status of each reconciler's condition is what its own calls make it, whatever
  -- the other one does: False after Configure without a condition or after OnError, True after
  -- OnSuccess. The conditions of other types stay, the events are those of the calls in their
  -- order, the errors are counted once for each OnError, and the decrements of the gauge under a
  -- label once for each Delete of a reconciler of that name. It assumes what the functions on
  -- conditions of apimachinery document.
  pub calls-IsHistory :
      (cs : List (Layer × Call)) (r : Report) → IsHistory m h names cs r (calls m h names cs r)
  unfolding calls
  calls-IsHistory [] r = record {
    statuses = λ l. elim l [ transport ↦ refl | api ↦ refl ];
    others = λ k n n'. refl;
    events = sym (append-nil r.events);
    errors = omega arith;
    downs = λ label. omega arith;
  }
  calls-IsHistory ((l, c) ∷ cs) r =
      IsHistory-cons l c cs r _ _ (call-IsCall l c r) (calls-IsHistory cs (call m h names l c r))
