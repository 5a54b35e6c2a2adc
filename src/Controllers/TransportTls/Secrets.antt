-- ===== src/Controllers/TransportTls/Secrets.antt =====
-- `generateSecret` and `renewSecret` of the transport reconciler.
use opensearch_operator.Common.{String, ◌<>◌, none, some, List, [], ◌∷◌, if◌then◌else◌, ltb}
use opensearch_operator.Common.Action.{Action, pure, lift, wrapping, ◌>>=◌}
use opensearch_operator.Api.Types.{Opensearch}
use opensearch_operator.Api.Names.{get_secret_name_for_tls_transport, get_node_names}
use opensearch_operator.Pki.{
  Goca, Bytes, new_root_ca_transport, new_admin_certificate, new_node_tls,
}
use opensearch_operator.Controllers.State.{Secret, write_entries, Kube}

-- The object that both functions begin with: its `Data` is nil.
abbrev pub blank_secret : Opensearch → String → Secret
blank_secret h name = record {
  meta = record { namespace = h.meta.namespace; name = name; labels = none; annotations = none };
  secret_type = "Opaque";
  owner = none;
  contents = none;
}

module _ (goca : Goca) where
  abbrev pub ca_entries : goca.Ca → List (String × Bytes)
  ca_entries ca =
      ("ca.crt", some (goca.ca_certificate ca))
      ∷ ("ca.key", some (goca.ca_private_key ca))
      ∷ ("ca.pub", some (goca.ca_public_key ca))
      ∷ ("ca.crl", some (goca.ca_crl ca))
      ∷ []

  -- The certificate, the key and the request of `name`.
  abbrev pub issued_entries : String → goca.Issued → List (String × Bytes)
  issued_entries name c =
      (name <> ".crt", some (goca.certificate c))
      ∷ (name <> ".key", some (goca.private_key c))
      ∷ (name <> ".csr", some (goca.csr c))
      ∷ []

  -- The loop over the node names, which both functions have.
  unfoldable pub write_nodes : goca.Ca → List String → Secret → Action goca.World Secret
  write_nodes ca [] secret = pure secret
  write_nodes ca (name ∷ names) secret = do
    crt ←
        wrapping ("Error when generate node certificate for " <> name)
          (new_node_tls goca name (some ca))
    secret' ← lift (write_entries (issued_entries name crt) secret)
    pkcs12 ←
        wrapping ("Error when generate Pkcs12 for node " <> name) (goca.generate_pkcs12 crt "" [])
    secret'' ← lift (write_entries ((name <> ".pfx", pkcs12) ∷ []) secret')
    write_nodes ca names secret''

  -- `caCerts` without those that have expired. The clock is read for each.
  unfoldable pub keep_valid : List goca.Cert → Action goca.World (List goca.Cert)
  keep_valid [] = pure []
  keep_valid (crt ∷ crts) = do
    now ← goca.now
    rest ← keep_valid crts
    pure (if ltb now (goca.not_after crt) then crt ∷ rest else rest)

  module _ (kube : Kube goca) (h : Opensearch) where
    unfoldable pub generate_secret : Action goca.World Secret
    unfolding write_nodes
    generate_secret = do
      secret ← wrapping "Error when set as owner reference" (
          lift (
            kube.set_controller_reference h (blank_secret h (get_secret_name_for_tls_transport h))))
      ca ← wrapping "Error when create transport PKI" (new_root_ca_transport goca)
      secret ← lift (write_entries (ca_entries ca) secret)
      admin ←
          wrapping "Error when generate admin certificate" (new_admin_certificate goca (some ca))
      secret ← lift (write_entries (issued_entries "admin" admin) secret)
      pkcs12 ← wrapping "Error when generate Pkcs12 for admin" (goca.generate_pkcs12 admin "" [])
      secret ← lift (write_entries (("admin.pfx", pkcs12) ∷ []) secret)
      names ← lift (get_node_names h)
      write_nodes ca names secret

    -- The admin's PKCS12 gets the old certificates that are still valid.
    unfoldable pub renew_secret : Bytes → Action goca.World Secret
    unfolding write_nodes keep_valid
    renew_secret old_pfx = do
      secret ← wrapping "Error when set as owner reference" (
          lift (
            kube.set_controller_reference h (blank_secret h (get_secret_name_for_tls_transport h))))
      ca_certs ← wrapping "Error when decode old Pkcs12" (lift (goca.decode_chain old_pfx ""))
      old ← keep_valid ca_certs
      ca ← wrapping "Error when create transport PKI" (new_root_ca_transport goca)
      secret ← lift (write_entries (ca_entries ca) secret)
      admin ←
          wrapping "Error when generate admin certificate" (new_admin_certificate goca (some ca))
      secret ← lift (write_entries (issued_entries "admin" admin) secret)
      pkcs12 ← wrapping "Error when generate Pkcs12 for admin" (goca.generate_pkcs12 admin "" old)
      secret ← lift (write_entries (("admin.pfx", pkcs12) ∷ []) secret)
      names ← lift (get_node_names h)
      write_nodes ca names secret
