-- ===== src/Tests/Convergence.antt =====
-- Two rounds on a cluster that keeps the secret, where the data nodes are new.
use opensearch_operator.Common.{
  ◌≡◌, ◌↔◌, refl, ℕ, ◌+◌, ◌≤◌, inl, inr, true, false, String, ◌=?◌, ◌||◌, ltb, Option, none, some,
  List, [], ◌∷◌, ◌++◌, if◌then◌else◌, All, In, arith,
}
use mathlib.Core.Path.{subst}
use opensearch_operator.Common.Text.{decimal}
use opensearch_operator.Common.Outcome.{Outcome, ok, err, foreign, ok-injective}
use opensearch_operator.Common.Action.{next}
use opensearch_operator.Api.Names.{
  get_secret_name_for_tls_transport, get_node_names, get_node_group_node_names, get_node_group_name,
}
use opensearch_operator.Pki.{Goca, renew_duration, need_renew_certificate, load_root_ca_transport}
use opensearch_operator.Controllers.State.{Secret, Kube, Store, ReadsData, RangesNodes}
use opensearch_operator.Controllers.TransportTls.NewNodes.{NotDue, IsReady}
use opensearch_operator.Controllers.TransportTls.Loading.{IssuesValid}
use opensearch_operator.Controllers.TransportTls.Steps.{load_nodes, no_diff}
use opensearch_operator.Controllers.TransportTls.Rounds.{round, Accepts, IsLoadable}
use opensearch_operator.Controllers.TransportTls.Convergence.{round-Converges}
use opensearch_operator.Tests.External.{goca, kube, not_found}
use opensearch_operator.Tests.Cluster.{cluster}

-- The secret that is stored, and the time, in nanoseconds.
pub record Place : Type 0 where
  pub held : Option Secret
  pub time : ℕ

abbrev pub beginning : ℕ
beginning = 1700000000000000000

-- The end of the time that the run is looked at.
abbrev pub horizon : ℕ
horizon = 1700000000000001000

-- The end of every certificate but one, which has ended.
abbrev pub valid_end : ℕ
valid_end = 1720000000000000000

-- The clock goes on with each reading, up to the horizon.
abbrev pub tick : ℕ → ℕ
tick t = if ltb t horizon then t + 1 else t

abbrev pub keeping : Goca
keeping = record {
  World = Place;
  Ca = Unit {0};
  Issued = String;
  Cert = ℕ;
  new_ca = λ name identity w. (ok tt, w);
  load_ca = λ name key pub_key crt crl. ok tt;
  issue_certificate = λ ca name identity w. (ok name, w);
  go_certificate = λ ca. ok (some valid_end);
  ca_certificate = λ ca. "ca.crt";
  ca_private_key = λ ca. "ca.key";
  ca_public_key = λ ca. "ca.pub";
  ca_crl = λ ca. "ca.crl";
  certificate = λ c. "pem";
  private_key = goca.private_key;
  csr = goca.csr;
  load_cert_from_pem =
      λ b. elim b [ none ↦ ok none | some s ↦ ok (some (if s =? "ended" then 0 else valid_end)) ];
  generate_pkcs12 = λ c password cas w. (ok (some c), w);
  decode_chain = goca.decode_chain;
  not_after = λ c. c;
  now = λ w. (ok w.time, record w { time = tick w.time });
  parse_ip = goca.parse_ip;
}

-- Another order: the first entry comes last.
abbrev turn {ℓ} : {A : Type ℓ} → List A → List A
turn [] = []
turn (x ∷ xs) = xs ++ x ∷ []

abbrev stored : Option Secret → Outcome Secret
stored none = err not_found
stored (some s) = ok s

abbrev pub keeper : Kube keeping
keeper = record {
  get_secret = λ namespace name w. (stored w.held, w);
  update_secret = λ s w. (ok tt, record w { held = s });
  is_not_found = λ e. true;
  set_controller_reference = kube.set_controller_reference;
  get_data = λ d k. elim (d k) [ none ↦ err (foreign "no such key") | some v ↦ ok v ];
  range_nodes = λ nodes w. turn nodes;
}

pub keeper-ReadsData : ReadsData keeping keeper
keeper-ReadsData = record {
  found = λ d k v e. rw e refl;
  missing = λ d k e. (foreign "no such key", rw e refl);
}

In-last : {A : Type 0} (e x : A) (xs : List A) → In e (xs ++ x ∷ []) ↔ In e (x ∷ xs)
In-last e x [] = (λ i. i, λ i. i)
In-last e x (y ∷ ys) =
    let (to, from) = In-last e x ys in
    (
      λ i. elim i [
        | inl is ↦ inr (inl is)
        | inr later ↦ elim (to later) [ inl is ↦ inl is | inr j ↦ inr (inr j) ]
      ],
      λ i. elim i [
        | inl is ↦ inr (from (inl is))
        | inr rest ↦ elim rest [ inl is ↦ inl is | inr j ↦ inr (from (inr j)) ]
      ],
    )

keeper-RangesNodes : RangesNodes keeping keeper
keeper-RangesNodes [] w e = (λ i. i, λ i. i)
keeper-RangesNodes (x ∷ xs) w e = In-last e x xs

-- The time that the run is looked at.
abbrev Meanwhile : Place → Type 0
Meanwhile w = w.time ≤ horizon

keeper-Accepts : Accepts keeping keeper cluster Meanwhile
keeper-Accepts = record {
  accepted = λ c w namespace name now.
      (record w { held = some c }, record w { held = some c }, now, refl, refl);
}

-- The secret has the CA, the administrator and the masters.
abbrev master_secret : Secret
master_secret = record {
  meta = record {
    namespace = "default";
    name = get_secret_name_for_tls_transport cluster;
    labels = none;
    annotations = none;
  };
  secret_type = "Opaque";
  owner = none;
  contents =
      some
        (λ k. if k =? "prod-data-os-0.crt" || k =? "prod-data-os-1.crt" then none else some "pem");
}

abbrev pub names : List String
names =
    "prod-master-os-0" ∷ "prod-master-os-1" ∷ "prod-master-os-2" ∷ "prod-data-os-0"
    ∷ "prod-data-os-1" ∷ []

abbrev nodes : List (String × Option ℕ)
nodes =
    ("prod-master-os-0", some valid_end)
    ∷ ("prod-master-os-1", some valid_end)
    ∷ ("prod-master-os-2", some valid_end)
    ∷ ("prod-data-os-0", none)
    ∷ ("prod-data-os-1", none)
    ∷ []

loadable : IsLoadable keeping keeper cluster master_secret tt valid_end names nodes
unfolding load_root_ca_transport get_node_names get_node_group_node_names get_node_group_name
    load_nodes decimal
loadable = record {
  authority_given = refl;
  admin_given = refl;
  node_names = refl;
  nodes_given = refl;
}

-- A certificate that does not end before the horizon is not found due.
valid : (crt : ℕ) → horizon ≤ crt → NotDue keeping Meanwhile crt
unfolding need_renew_certificate next
valid crt far w now =
    let not_due : ltb (crt + renew_duration) w.time ≡ false = ground arith in
    (record w { time = tick w.time }, ground arith, rw not_due refl)

-- The one that has ended is.
ended_due :
    need_renew_certificate keeping (some 0) (record { held = none; time = beginning })
    ≡ (ok true, record { held = none; time = beginning + 1 })
unfolding need_renew_certificate next
ended_due = refl

ready : All (IsReady keeping Meanwhile tt) nodes
ready =
    let good = valid valid_end (omega arith) in
    (
      good,
      (
        good,
        (
          good,
          (
            ((λ e. cc), λ w now. ("prod-data-os-0", w, now, refl)),
            (((λ e. cc), λ w now. ("prod-data-os-1", w, now, refl)), tt),
          ),
        ),
      ),
    )

fresh : IssuesValid keeping Meanwhile tt nodes
fresh n c w w' crt new now made is_crt =
    let same : some valid_end ≡ some crt = ok-injective is_crt in
    let is : valid_end ≡ crt = cc in
    subst (NotDue keeping Meanwhile) is (valid valid_end (omega arith))

abbrev pub blank : Secret
blank = record master_secret { contents = some (λ k. none) }

pub listed : get_node_names cluster ≡ ok names
unfolding get_node_names get_node_group_node_names get_node_group_name decimal
listed = refl

abbrev first_store : Store keeping
first_store = record {
  world = record { held = some master_secret; time = beginning };
  entries = λ k. none;
}

round-Converges_example :
    (text : String) × (t : Store keeping) × (u : Store keeping) × (round keeping keeper cluster
        first_store
      ≡ (ok (record { need_create = false; need_update = true; text = text }), t))
    × (round keeping keeper cluster t ≡ (ok no_diff, u))
round-Converges_example =
    let good = valid valid_end (omega arith) in
    round-Converges keeping keeper cluster keeper-ReadsData keeper-RangesNodes Meanwhile
      (λ c. (valid_end, refl)) keeper-Accepts (((λ e. cc), tt), (tt, tt)) first_store _
      (record { held = some master_secret; time = beginning }) refl (omega arith) refl refl refl
      loadable refl good good ready fresh refl
