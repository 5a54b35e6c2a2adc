-- ===== src/Tests/External.antt =====
-- Instances of the external code behind the PKI, the settings and the reconcilers.
use opensearch_operator.Common.{
  ◌≡◌, refl, ℕ, ◌+◌, String, ◌<>◌, ◌=?◌, true, none, some, [], if◌then◌else◌,
}
use opensearch_operator.Common.Outcome.{Error, ok, err, foreign}
use opensearch_operator.Helper.Settings.{Yaml}
use opensearch_operator.Pki.{Goca}
use opensearch_operator.Controllers.State.{Kube, ReadsData, RangesNodes, Store}
use opensearch_operator.Controllers.TransportTls.Creation.{KeepsContents}

-- A text is a tree of its own, but for an open brace, which cannot be read; the first of two trees
-- has the priority.
abbrev pub yaml : Yaml
yaml = record {
  Config = String;
  Tree = String;
  new_config = λ s. if s =? "{" then err (foreign "unexpected end of flow mapping") else ok s;
  unpack = ok;
  merge = λ a b. ok (if a =? "" then b else a);
  marshal = ok;
}

-- The world is the clock. A CA and a certificate are their end, an issued certificate is its name.
abbrev pub goca : Goca
goca = record {
  World = ℕ;
  Ca = ℕ;
  Issued = String;
  Cert = ℕ;
  new_ca = λ name identity w. (ok (w + 100), w + 1);
  load_ca = λ name key pub_key crt crl. ok 0;
  issue_certificate = λ ca name identity w. (ok name, w);
  go_certificate = λ ca. ok ca;
  ca_certificate = λ ca. "ca.crt";
  ca_private_key = λ ca. "ca.key";
  ca_public_key = λ ca. "ca.pub";
  ca_crl = λ ca. "ca.crl";
  certificate = λ c. c <> " certificate";
  private_key = λ c. c <> " key";
  csr = λ c. c <> " request";
  load_cert_from_pem = λ b. elim b [ none ↦ ok none | some s ↦ ok (some 0) ];
  generate_pkcs12 = λ c password cas w. (ok (some c), w);
  decode_chain = λ b password. ok [];
  not_after = λ c. c;
  now = λ w. (ok w, w);
  parse_ip = λ s. if s =? "localhost" then none else some s;
}

abbrev pub not_found : Error
not_found = foreign "not found"

-- A cluster without secrets.
abbrev pub kube : Kube goca
kube = record {
  get_secret = λ namespace name w. (err not_found, w);
  update_secret = λ s w. (ok tt, w);
  is_not_found = λ e. true;
  set_controller_reference = λ h s. ok (record s { owner = some h.meta.name });
  get_data = λ d k. elim (d k) [ none ↦ err (foreign "no such key") | some v ↦ ok v ];
  range_nodes = λ nodes w. nodes;
}

pub kube-RangesNodes : RangesNodes goca kube
kube-RangesNodes nodes w e = (λ i. i, λ i. i)

pub kube-KeepsContents : KeepsContents goca kube
kube-KeepsContents h s t e =
    let same : ok (record s { owner = some h.meta.name }) ≡ ok t = e in
    let is : record s { owner = some h.meta.name } ≡ t = cc in rw (← is) refl

pub kube-ReadsData : ReadsData goca kube
kube-ReadsData = record {
  found = λ d k v e. rw e refl;
  missing = λ d k e. (foreign "no such key", rw e refl);
}

abbrev pub empty_store : Store goca
empty_store = record { world = 5; entries = λ k. none }
