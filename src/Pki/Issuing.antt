-- ===== src/Pki/Issuing.antt =====
-- `NewApiTls`: the names and addresses of the API certificate.
use opensearch_operator.Common.{
  ◌≡◌, ◌≢◌, ◌⊎◌, eq_iff, Bool-cases, refl, inl, inr, String, ◌<>◌, ◌=?◌, false, none, some, List,
  [], ◌∷◌, ◌++◌, Pairs, All, Option-cases,
}
use opensearch_operator.Common.Outcome.{Outcome, ok, err, new}
use opensearch_operator.Common.Action.{next}
use opensearch_operator.Pki.{Goca, Identity, parse_ips, new_api_tls}

module _ (goca : Goca) where
  parse_ips_cases :
      (alt_ips : List String)
      → ((ips : List String) × (parse_ips goca alt_ips ≡ ok ips)
          × Pairs (λ s a. goca.parse_ip s ≡ some a) alt_ips ips)
        ⊎ ((before : List String) × (bad : String) × (after : List String) × (alt_ips
              ≡ before ++ bad ∷ after)
            × All (λ s. (a : String) × (goca.parse_ip s ≡ some a)) before
            × (goca.parse_ip bad ≡ none)
            × (parse_ips goca alt_ips ≡ err (new ("IP " <> (bad <> " is not valid")))))
  unfolding parse_ips
  parse_ips_cases [] = inl ([], refl, tt)
  parse_ips_cases (s ∷ rest) = elim (Option-cases (goca.parse_ip s)) [
    | inl bad ↦ inr ([], s, rest, refl, tt, bad, rw (bad, parse_ips))
    | inr (a, good) ↦ elim (parse_ips_cases rest) [
      | inl (ips, run, all) ↦ inl (a ∷ ips, rw (good, parse_ips, run), (good, all))
      | inr (before, bad, after, split, all, wrong, run) ↦
          inr (s ∷ before, bad, after, rw split, ((a, good), all), wrong, rw (good, parse_ips, run))
    ]
  ]

  -- The identity of an API certificate: its names and addresses, and what the code fixes.
  abbrev api_identity : (names addresses : List String) → Identity
  api_identity names addresses = record {
    organization = "Opensearch Org";
    organizational_unit = "Opensearch node";
    country = "US";
    locality = "TORONTO";
    province = "ONTARIO";
    intermediate = false;
    dns_names = names;
    ip_addresses = addresses;
    valid = 397;
    key_bit_size = 2048;
  }

  -- How NewApiTls ends.
  pub data ApiTlsResult (cluster_name : String) (alt_names alt_ips : List String) (ca : goca.Ca)
      (w : goca.World) (r : Outcome goca.Issued × goca.World) : Type 0 where
    issued :
        (addresses : List String)
        → Pairs (λ s a. goca.parse_ip s ≡ some a) alt_ips addresses
        → r
          ≡ goca.issue_certificate ca cluster_name
              (api_identity (cluster_name ∷ alt_names) addresses)
              w
        → ApiTlsResult cluster_name alt_names alt_ips ca w r
    refused :
        (before : List String) (bad : String) (after : List String)
        → alt_ips ≡ before ++ bad ∷ after
        → All (λ s. (a : String) × (goca.parse_ip s ≡ some a)) before
        → goca.parse_ip bad ≡ none
        → r ≡ (err (new ("IP " <> (bad <> " is not valid"))), w)
        → ApiTlsResult cluster_name alt_names alt_ips ca w r

  -- For a cluster name that is not empty and a CA, NewApiTls has this CA issue a certificate of 397
  -- days with a key of 2048 bits for the cluster's name, the alternative names and every address as
  -- it is parsed, or else refuses the first address that does not parse, without a call of the CA.
  pub new_api_tls_cases :
      (cluster_name : String) (alt_names alt_ips : List String) (ca : goca.Ca) (w : goca.World)
      → cluster_name ≢ ""
      → ApiTlsResult cluster_name alt_names alt_ips ca w
          (new_api_tls goca cluster_name alt_names alt_ips (some ca) w)
  unfolding new_api_tls next
  new_api_tls_cases cluster_name alt_names alt_ips ca w given =
      let named : (cluster_name =? "") ≡ false = elim (Bool-cases (cluster_name =? "")) [
        | inl empty ↦ absurd (given ((eq_iff cluster_name "").0 empty))
        | inr named ↦ named
      ] in
      elim (parse_ips_cases alt_ips) [
        | inl (ips, run, all) ↦ issued ips all (rw (named, run) refl)
        | inr (before, bad, after, split, all, wrong, run) ↦
            refused before bad after split all wrong (rw (named, run) refl)
      ]
