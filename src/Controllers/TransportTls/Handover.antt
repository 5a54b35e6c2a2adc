-- ===== src/Controllers/TransportTls/Handover.antt =====
-- What `Read` leaves in `data`, and `Diff` finds there.
use opensearch_operator.Common.{◌≡◌, refl, true, String, Option, none, some, List, []}
use opensearch_operator.Common.Outcome.{ok, err, Error}
use opensearch_operator.Common.Action.{next}
use opensearch_operator.Api.Types.{Opensearch}
use opensearch_operator.Api.Names.{get_secret_name_for_tls_transport}
use opensearch_operator.Pki.{Goca}
use opensearch_operator.Controllers.State.{
  Secret, secret, authority, certificate, certificates, Kube, Store, ReadsData, Data, set_data,
}
use opensearch_operator.Controllers.TransportTls.Steps.{
  read, read_found, read_results, diff, diff_missing, diff_existing,
}

module _ (goca : Goca) where
  -- The four entries that `Diff` reads.
  pub record Holds (d : Data goca) (current : Option Secret) (ca : Option goca.Ca)
      (admin : Option goca.Cert) (nodes : List (String × Option goca.Cert)) : Type 0 where
    pub has_current : d "currentSecret" ≡ some (secret current)
    pub has_ca : d "rootCA" ≡ some (authority ca)
    pub has_admin : d "adminCertificate" ≡ some (certificate admin)
    pub has_nodes : d "nodeCertificates" ≡ some (certificates nodes)

  -- The entries after `Read`.
  unfoldable pub results_data :
      Option Secret
      → Option goca.Ca
      → Option goca.Cert
      → List (String × Option goca.Cert)
      → Data goca
      → Data goca
  results_data current ca admin nodes d = set_data goca "currentSecret" (secret current) (
      set_data goca "nodeCertificates" (certificates nodes) (
        set_data goca "adminCertificate" (certificate admin)
          (set_data goca "rootCA" (authority ca) d)))

  pub results_data-Holds :
      (current : Option Secret) (ca : Option goca.Ca) (admin : Option goca.Cert)
      (nodes : List (String × Option goca.Cert)) (d : Data goca)
      → Holds (results_data current ca admin nodes d) current ca admin nodes
  unfolding results_data
  results_data-Holds current ca admin nodes d = record {
    has_current = refl;
    has_ca = refl;
    has_admin = refl;
    has_nodes = refl;
  }

  module _ (kube : Kube goca) (h : Opensearch) where
    -- A secret that is not found is read as nil, with nothing beside it.
    pub read-missing :
        (s : Store goca) (e : Error) (w : goca.World)
        → kube.get_secret h.meta.namespace (get_secret_name_for_tls_transport h) s.world
          ≡ (err e, w)
        → kube.is_not_found e ≡ true
        → read goca kube h s
          ≡ (ok none, record { world = w; entries = results_data none none none [] s.entries })
    unfolding read read_found read_results results_data next
    read-missing s e w absent not_found = rw (absent, read_found, not_found) refl

    module _ (reads : ReadsData goca kube) {current : Option Secret} {ca : Option goca.Ca}
        {admin : Option goca.Cert} {nodes : List (String × Option goca.Cert)} where
      fetches :
          (s : Store goca)
          → Holds s.entries current ca admin nodes
          → (kube.get_data s.entries "currentSecret" ≡ ok (secret current))
            × (kube.get_data s.entries "rootCA" ≡ ok (authority ca))
            × (kube.get_data s.entries "adminCertificate" ≡ ok (certificate admin))
            × (kube.get_data s.entries "nodeCertificates" ≡ ok (certificates nodes))
      fetches s d = (
        reads.found _ _ _ d.has_current,
        reads.found _ _ _ d.has_ca,
        reads.found _ _ _ d.has_admin,
        reads.found _ _ _ d.has_nodes,
      )

    pub diff-none :
        ReadsData goca kube
        → {ca : Option goca.Ca} {admin : Option goca.Cert}
          {nodes : List (String × Option goca.Cert)} (s : Store goca)
        → Holds s.entries none ca admin nodes
        → diff goca kube h s ≡ diff_missing goca kube h s
    unfolding diff next
    diff-none reads s d = let (a, b, c, e) = fetches reads s d in rw (a, b, c, e) refl

    pub diff-some :
        ReadsData goca kube
        → {current : Secret} {ca : Option goca.Ca} {admin : Option goca.Cert}
          {nodes : List (String × Option goca.Cert)} (s : Store goca)
        → Holds s.entries (some current) ca admin nodes
        → diff goca kube h s ≡ diff_existing goca kube h current ca admin nodes s
    unfolding diff next
    diff-some reads s d = let (a, b, c, e) = fetches reads s d in rw (a, b, c, e) refl
