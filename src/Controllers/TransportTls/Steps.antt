-- ===== src/Controllers/TransportTls/Steps.antt =====
-- `Read`, `Diff`, `Create`, `Update` of the transport reconciler.
use opensearch_operator.Common.{
  String, ◌<>◌, Bool, true, false, Option, none, some, List, [], ◌∷◌, if◌then◌else◌, is_some,
}
use opensearch_operator.Common.Maps.{insert}
use opensearch_operator.Common.Outcome.{Outcome, ok, err, panic, wrap}
use opensearch_operator.Common.Action.{Action, pure, lift, wrapping, ◌>>=◌, ◌>>◌}
use opensearch_operator.Api.Types.{Opensearch}
use opensearch_operator.Api.Names.{get_secret_name_for_tls_transport, get_node_names}
use opensearch_operator.Pki.{
  Goca, need_renew_certificate, load_root_ca_transport, new_admin_certificate, new_node_tls,
}
use opensearch_operator.Controllers.State.{
  Secret, read_entry, write_entries, Diff, RequeueAfter, secret, authority, certificate,
  certificates, Kube, Store, on_world, put, as_secret, as_authority, as_certificate,
  as_certificates, fetch, save,
}
use opensearch_operator.Controllers.TransportTls.Secrets.{
  issued_entries, generate_secret, renew_secret,
}

abbrev pub no_diff : Diff
no_diff = record { need_create = false; need_update = false; text = "" }

-- What the loop over the node certificates ends with: a difference that `Diff` returns at once, or
-- the secret, the flag and the text at its end.
pub data LoopEnd : Type 0 where
  returned : Diff → LoopEnd
  reached : Secret → Bool → String → LoopEnd

module _ (goca : Goca) (kube : Kube goca) (h : Opensearch) where
  -- The loop of `Read` over the node names.
  unfoldable pub load_nodes :
      Secret
      → List String
      → List (String × Option goca.Cert)
      → Outcome (List (String × Option goca.Cert))
  load_nodes s [] found = ok found
  load_nodes s (name ∷ names) found =
      if is_some (read_entry (name <> ".crt") s)
      then (elim (goca.load_cert_from_pem (read_entry (name <> ".crt") s)) [
        | Outcome.ok crt ↦ load_nodes s names (insert name crt found)
        | Outcome.err e ↦ err (wrap ("Error when load node certificate " <> name) e)
        | Outcome.panic p ↦ panic p
      ])
      else load_nodes s names (insert name none found)

  -- The end of `Read`: what the step leaves in `data`.
  unfoldable pub read_results :
      Option goca.Ca
      → Option goca.Cert
      → List (String × Option goca.Cert)
      → Option Secret
      → Action (Store goca) RequeueAfter
  read_results ca admin nodes s = do
    put goca "rootCA" (authority ca)
    put goca "adminCertificate" (certificate admin)
    put goca "nodeCertificates" (certificates nodes)
    put goca "currentSecret" (secret s)
    pure none

  -- What `Read` does with a secret that it found.
  unfoldable pub load_secret : Secret → Action (Store goca) RequeueAfter
  unfolding read_results load_nodes
  load_secret s = do
    ca ← wrapping "Error when load PKI for transport layout" (
        lift (
          load_root_ca_transport goca (read_entry "ca.key" s) (read_entry "ca.pub" s)
            (read_entry "ca.crt" s) (read_entry "ca.crl" s)))
    admin ←
        wrapping "Error when load admin certificate"
          (lift (goca.load_cert_from_pem (read_entry "admin.crt" s)))
    names ← lift (get_node_names h)
    nodes ← lift (load_nodes s names [])
    read_results (some ca) admin nodes (some s)

  -- The split on what `Client.Get` gave.
  unfoldable pub read_found : Outcome Secret → Action (Store goca) RequeueAfter
  unfolding load_secret
  read_found (ok s) = load_secret s
  read_found (err e) =
      if kube.is_not_found e
      then read_results none none [] none
      else lift
          (err (wrap ("Error when read existing secret " <> get_secret_name_for_tls_transport h) e))
  read_found (panic p) = lift (panic p)

  unfoldable pub read : Action (Store goca) RequeueAfter
  unfolding read_found
  read s =
      let r = kube.get_secret h.meta.namespace (get_secret_name_for_tls_transport h) s.world in
      read_found r.0 (record s { world = r.1 })

  -- Renewing everything, as two branches of `Diff` do it.
  unfoldable pub renew_all : Secret → String → Action (Store goca) Diff
  renew_all current text = do
    expected ←
        wrapping
          ("Error when generate secret "
            <> (get_secret_name_for_tls_transport h <> " for TLS transport"))
          (on_world goca (renew_secret goca kube h (read_entry "admin.pfx" current)))
    put goca "expectedSecret" (secret (some expected))
    pure (record { need_create = false; need_update = true; text = text })

  -- `range nodeCertificates`: the entries in the order of this run.
  abbrev pub in_order :
      List (String × Option goca.Cert) → Action (Store goca) (List (String × Option goca.Cert))
  in_order nodes s = (ok (kube.range_nodes nodes s.world), s)

  -- The loop over the node certificates, in the order that is given. The secret is the one that
  -- `data["currentSecret"]` points to: what is written to it shows there.
  unfoldable pub diff_nodes :
      Option goca.Ca
      → List (String × Option goca.Cert)
      → Secret
      → Bool
      → String
      → Action (Store goca) LoopEnd
  diff_nodes ca [] current need text = pure (reached current need text)
  diff_nodes ca ((name, none) ∷ nodes) current need text = do
    nc ←
        wrapping ("Error when create node certificate " <> name)
          (on_world goca (new_node_tls goca name ca))
    current' ← lift (write_entries (issued_entries goca name nc) current)
    put goca "currentSecret" (secret (some current'))
    diff_nodes ca nodes current' true (text <> ("Create node certificate " <> (name <> "\n")))
  diff_nodes ca ((name, some crt) ∷ nodes) current need text =
      let rest = diff_nodes ca nodes current need text in
      do
        due ←
            wrapping ("Error when check if node certificate " <> (name <> " need to be renewed"))
              (on_world goca (need_renew_certificate goca (some crt)))
        if due
            then (do
              d ← renew_all current "One node certificate expired. Renew all certificates"
              pure (returned d))
            else rest

  -- The admin certificate, and the end of `Diff`.
  unfoldable pub renew_admin : Option goca.Ca → Secret → Action (Store goca) Secret
  renew_admin ca current = do
    ac ←
        wrapping "Error when renew admin certificate"
          (on_world goca (new_admin_certificate goca ca))
    current' ← lift (write_entries (issued_entries goca "admin" ac) current)
    put goca "currentSecret" (secret (some current'))
    pkcs12 ←
        wrapping "Error when generate Pkcs12 for admin"
          (on_world goca (goca.generate_pkcs12 ac "" []))
    current'' ← lift (write_entries (("admin.pfx", pkcs12) ∷ []) current')
    put goca "currentSecret" (secret (some current''))
    pure current''

  -- `if diff.NeedUpdate`, at the end of `Diff`.
  unfoldable pub diff_result : Secret → Bool → String → Action (Store goca) Diff
  diff_result current need text =
      if need
      then (do
        put goca "expectedSecret" (secret (some current))
        pure (record { need_create = false; need_update = true; text = text }))
      else pure no_diff

  unfoldable pub diff_admin : Option goca.Ca → Option goca.Cert → LoopEnd → Action (Store goca) Diff
  unfolding renew_admin diff_result
  diff_admin ca admin (returned d) = pure d
  diff_admin ca admin (reached current need text) = do
    due ←
        wrapping "Error when check if admin certificate need to be renewed"
          (on_world goca (need_renew_certificate goca admin))
    if due
        then (do
          current' ← renew_admin ca current
          diff_result current' true (text <> "Renew admin certificate\n"))
        else diff_result current need text

  -- The part of `Diff` for a secret that exists.
  unfoldable pub diff_existing :
      Secret
      → Option goca.Ca
      → Option goca.Cert
      → List (String × Option goca.Cert)
      → Action (Store goca) Diff
  unfolding diff_nodes diff_admin renew_all
  diff_existing current ca admin nodes = do
    ca_cert ← lift (goca.go_certificate ca)
    due ←
        wrapping "Error when check is CA need to be renewed"
          (on_world goca (need_renew_certificate goca ca_cert))
    if due
        then renew_all current "CA root will expire. Renew all certificates"
        else (in_order nodes >>= λ entries.
            diff_nodes ca entries current false "" >>= diff_admin ca admin)

  -- The part of `Diff` for a secret that does not exist.
  unfoldable pub diff_missing : Action (Store goca) Diff
  diff_missing = do
    expected ←
        wrapping
          ("Error when generate secret "
            <> (get_secret_name_for_tls_transport h <> " for TLS transport"))
          (on_world goca (generate_secret goca kube h))
    put goca "expectedSecret" (secret (some expected))
    pure (record { need_create = true; need_update = false; text = "Secret not exist" })

  unfoldable pub diff : Action (Store goca) Diff
  unfolding diff_existing diff_missing
  diff = do
    current ← fetch goca kube "currentSecret" (as_secret goca)
    ca ← fetch goca kube "rootCA" (as_authority goca)
    admin ← fetch goca kube "adminCertificate" (as_certificate goca)
    nodes ← fetch goca kube "nodeCertificates" (as_certificates goca)
    elim current [ none ↦ diff_missing | some s ↦ diff_existing s ca admin nodes ]

  unfoldable pub create : Action (Store goca) RequeueAfter
  unfolding save
  create = do
    expected ← fetch goca kube "expectedSecret" (as_secret goca)
    save goca kube "create" " for TLS transport" expected

  unfoldable pub update : Action (Store goca) RequeueAfter
  unfolding save
  update = do
    expected ← fetch goca kube "expectedSecret" (as_secret goca)
    save goca kube "update" " for TLS transport" expected
