-- ===== src/Pki.antt =====
-- pkg/pki: the certificates of the transport and the API layer, over the external package goca.
pub mod Renewal
pub mod Issuing
use opensearch_operator.Common.{
  ℕ, ◌+◌, ◌*◌, String, ◌=?◌, Bool, true, false, ◌||◌, not, is_some, Option, none, some, List, [],
  ◌∷◌, ◌<>◌, if◌then◌else◌, ltb,
}
use opensearch_operator.Common.Outcome.{Error, Outcome, ok, err, new}
use opensearch_operator.Common.Action.{Action, pure, fail, lift, ◌>>=◌, ◌>>◌}

-- A slice of bytes: nil, or its contents.
abbrev pub Bytes : Type 0
Bytes = Option String

-- `goca.Identity`.
pub record Identity : Type 0 where
  pub organization : String
  pub organizational_unit : String
  pub country : String
  pub locality : String
  pub province : String
  pub intermediate : Bool
  pub dns_names : List String
  pub ip_addresses : List String
  pub valid : ℕ
  pub key_bit_size : ℕ

-- What goca, crypto/x509 and go-pkcs12 do. A call that makes keys, signs or reads the clock acts on
-- the world.
pub record Goca : Type 1 where
  pub World : Type 0
  -- `goca.CA`, `goca.Certificate` and `x509.Certificate`.
  pub Ca : Type 0
  pub Issued : Type 0
  pub Cert : Type 0
  pub new_ca : String → Identity → Action World Ca
  pub load_ca : String → (key pub_key crt crl : Bytes) → Outcome Ca
  pub issue_certificate : Ca → String → Identity → Action World Issued
  -- A method on a pointer that may be nil.
  pub go_certificate : Option Ca → Outcome (Option Cert)
  pub ca_certificate : Ca → String
  pub ca_private_key : Ca → String
  pub ca_public_key : Ca → String
  pub ca_crl : Ca → String
  pub certificate : Issued → String
  pub private_key : Issued → String
  pub csr : Issued → String
  pub load_cert_from_pem : Bytes → Outcome (Option Cert)
  pub generate_pkcs12 : Issued → String → List Cert → Action World Bytes
  -- The certificates of the chain alone, which is what the caller keeps.
  pub decode_chain : Bytes → String → Outcome (List Cert)
  -- Points in time, in nanoseconds.
  pub not_after : Cert → ℕ
  pub now : Action World ℕ
  -- `net.ParseIP`, with the address it finds.
  pub parse_ip : String → Option String

abbrev pub default_certificate_validity : ℕ
default_certificate_validity = 397

-- `DefaultRenewCertificate` is the negation of this duration: 24 hours times 7.
abbrev pub renew_duration : ℕ
renew_duration = 3600 * 1000000000 * 24 * 7

abbrev pub key_bit_size : ℕ
key_bit_size = 2048

abbrev pub root_ca_cn : String
root_ca_cn = "opensearch-operator.k8s.webcenter.fr"

abbrev pub identity : String → List String → List String → Identity
identity unit names ips = record {
  organization = "Opensearch Org";
  organizational_unit = unit;
  country = "US";
  locality = "TORONTO";
  province = "ONTARIO";
  intermediate = false;
  dns_names = names;
  ip_addresses = ips;
  valid = default_certificate_validity;
  key_bit_size = key_bit_size;
}

module _ (goca : Goca) where
  open goca use {World, Ca, Issued, Cert}

  -- `crt.NotAfter.Before(now.Add(DefaultRenewCertificate))`: the renewal duration is added to the
  -- other side, where nothing is negative.
  unfoldable pub need_renew_certificate : Option Cert → Action World Bool
  need_renew_certificate none = fail (new "Cert must be provided")
  need_renew_certificate (some crt) = do
    now ← goca.now
    pure (if ltb (goca.not_after crt + renew_duration) now then true else false)

  unfoldable pub new_root_ca_transport : Action World Ca
  new_root_ca_transport = goca.new_ca root_ca_cn (identity "Certificates Management" [] [])

  unfoldable pub new_root_ca_api : Action World Ca
  new_root_ca_api = goca.new_ca root_ca_cn (identity "Certificates Management" [] [])

  unfoldable pub load_root_ca_transport : (key pub_key crt crl : Bytes) → Outcome Ca
  load_root_ca_transport key pub_key crt crl =
      if not (is_some key) || not (is_some pub_key) || not (is_some crt) || not (is_some crl)
      then err (new "You need to provide valide privateKey, publicKey, cert, crl contend")
      else goca.load_ca root_ca_cn key pub_key crt crl

  unfoldable pub load_root_ca_api : (key pub_key crt crl : Bytes) → Outcome Ca
  load_root_ca_api key pub_key crt crl =
      if not (is_some key) || not (is_some pub_key) || not (is_some crt) || not (is_some crl)
      then err (new "You need to provide valide privateKey, publicKey, cert, crl contend")
      else goca.load_ca root_ca_cn key pub_key crt crl

  unfoldable pub new_node_tls : String → Option Ca → Action World Issued
  new_node_tls node_name ca =
      if node_name =? "" then fail (new "NodeName must be provided") else elim ca [
        | none ↦ fail (new "CA must be provided")
        | some c ↦
            goca.issue_certificate c node_name (identity "Opensearch node" (node_name ∷ []) [])
      ]

  unfoldable pub new_admin_certificate : Option Ca → Action World Issued
  new_admin_certificate none = fail (new "CA must be provided")
  new_admin_certificate (some c) =
      goca.issue_certificate c "admin" (identity "Opensearch node" [] [])

  -- The loop over the alternative addresses.
  pub parse_ips : List String → Outcome (List String)
  parse_ips [] = ok []
  parse_ips (ip ∷ rest) = elim (goca.parse_ip ip) [
    | none ↦ err (new ("IP " <> (ip <> " is not valid")))
    | some address ↦ elim (parse_ips rest) [
      | Outcome.ok addresses ↦ ok (address ∷ addresses)
      | Outcome.err e ↦ err e
      | Outcome.panic p ↦ Outcome.panic p
    ]
  ]

  unfoldable pub new_api_tls :
      String → (alt_names alt_ips : List String) → Option Ca → Action World Issued
  unfolding parse_ips
  new_api_tls cluster_name alt_names alt_ips ca =
      if cluster_name =? "" then fail (new "ClusterName must be provided") else elim ca [
        | none ↦ fail (new "CA must be provided")
        | some c ↦ lift (parse_ips alt_ips) >>= λ ips.
            goca.issue_certificate c cluster_name
              (identity "Opensearch node" (cluster_name ∷ alt_names) ips)
      ]
