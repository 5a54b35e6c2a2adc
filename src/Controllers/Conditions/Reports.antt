-- ===== src/Controllers/Conditions/Reports.antt =====
-- What the resource's condition says after each outcome.
use opensearch_operator.Common.{
  ◌≡◌, ◌≢◌, refl, sym, ◌+◌, String, ◌=?◌, eq_iff, true, false, some, arith, Bool-cases,
  Option-cases, inl, inr,
}
use opensearch_operator.Api.Kubernetes.{Condition}
use opensearch_operator.Api.Types.{Opensearch}
use opensearch_operator.Controllers.State.{Diff}
use opensearch_operator.Controllers.Conditions.{
  Meta, IsMeta, Report, Layer, condition_of, on_error, on_success,
}

-- The condition of the layer has the status, and the conditions of other types are those of before.
pub record Settles (m : Meta) (layer : Layer) (status : String) (r r' : Report) : Type 0 where
  pub condition : Condition
  pub found : m.find_status_condition r'.conditions (condition_of layer) ≡ some condition
  pub has_status : condition.status ≡ status
  pub others :
      (k : String)
      → condition_of layer ≢ k
      → m.find_status_condition r'.conditions k ≡ m.find_status_condition r.conditions k

module _ (m : Meta) (is_meta : IsMeta m) (layer : Layer) (h : Opensearch) (r : Report) where
  pub on_success-Settles : (d : Diff) → Settles m layer "True" r (on_success m layer h d r)
  unfolding on_success
  on_success-Settles d =
      let present = is_meta.present r.conditions (condition_of layer) "True" in
      elim (Bool-cases (m.is_present_and_equal r.conditions (condition_of layer) "True")) [
        | inr absent ↦ rw absent (record {
          condition = _;
          found = is_meta.find-set _ _;
          has_status = refl;
          others = λ k n. is_meta.find-set_other _ _ k n;
        })
        | inl there ↦
            elim (Option-cases (m.find_status_condition r.conditions (condition_of layer))) [
              | inl none_found ↦
                  let no : true ≡ false = rw (there, none_found) at present in absurd cc
              | inr (c, found) ↦
                  let same : (c.status =? "True") ≡ true = sym (rw (there, found) at present) in
                  rw there (record {
                    condition = c;
                    found = found;
                    has_status = (eq_iff c.status "True").0 same;
                    others = λ k n. refl;
                  })
            ]
      ]

  pub on_error-Settles : (message : String) → Settles m layer "False" r (on_error m layer message r)
  unfolding on_error
  on_error-Settles message = record {
    condition = _;
    found = is_meta.find-set _ _;
    has_status = refl;
    others = λ k n. is_meta.find-set_other _ _ k n;
  }

  -- After OnSuccess the resource's condition of the reconciler is True, and after OnError it is
  -- False, whatever it was before; the conditions of other types stay as they were, and only
  -- OnError counts an error. It assumes what the functions on conditions of apimachinery document.
  pub report-Settles :
      (d : Diff) (message : String)
      → Settles m layer "True" r (on_success m layer h d r)
        × (Settles m layer "False" r (on_error m layer message r)
            × ((on_success m layer h d r).total_errors ≡ r.total_errors)
            × ((on_error m layer message r).total_errors ≡ r.total_errors + 1))
  unfolding on_success on_error
  report-Settles d message = (on_success-Settles d, (on_error-Settles message, ground arith, refl))
