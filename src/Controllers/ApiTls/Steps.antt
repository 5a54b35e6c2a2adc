-- ===== src/Controllers/ApiTls/Steps.antt =====
-- `generateSecret`, `Read`, `Diff`, `Create`, `Update` of the API reconciler.
use opensearch_operator.Common.{
  String, ◌<>◌, ◌=?◌, Bool, true, false, not, ◌||◌, Option, none, some, List, [], ◌∷◌,
  if◌then◌else◌,
}
use opensearch_operator.Common.Outcome.{Outcome, ok, err, panic, wrap}
use opensearch_operator.Common.Action.{Action, pure, lift, wrapping, ◌>>=◌, ◌>>◌}
use opensearch_operator.Api.Types.{Opensearch, LoadBalancerSpec, TlsSpec}
use opensearch_operator.Api.Names.{
  get_secret_name_for_tls_api, is_self_managed_secret_for_tls_api, is_load_balancer_enabled,
  load_balancer_of,
}
use opensearch_operator.Pki.{
  Goca, Bytes, need_renew_certificate, new_root_ca_api, load_root_ca_api, new_api_tls,
}
use opensearch_operator.Controllers.State.{
  Secret, read_entry, write_entries, Diff, RequeueAfter, requeued_duration, secret, authority,
  certificate, Kube, Store, on_world, put, as_secret, as_authority, as_certificate, fetch, save,
}
use opensearch_operator.Controllers.TransportTls.Secrets.{blank_secret, ca_entries, issued_entries}
use opensearch_operator.Controllers.TransportTls.Steps.{no_diff}

abbrev of_tls : Option TlsSpec → List String × List String
of_tls none = ([], [])
of_tls (some t) = elim t.self_signed_certificate [
  | none ↦ ([], [])
  | some c ↦ (c.alt_names, c.alt_ips)
]

abbrev of_balancer : Option LoadBalancerSpec → List String × List String
of_balancer none = ([], [])
of_balancer (some b) = of_tls b.tls

-- The alternative names and addresses of the API certificate.
unfoldable pub alternatives : Opensearch → List String × List String
alternatives h =
    if is_load_balancer_enabled h then of_balancer (load_balancer_of h.spec.endpoint) else ([], [])

-- `len(b) == 0`.
abbrev pub is_empty : Bytes → Bool
is_empty none = true
is_empty (some s) = s =? ""

module _ (goca : Goca) (kube : Kube goca) (h : Opensearch) where
  unfoldable pub generate_secret : Action goca.World Secret
  unfolding alternatives
  generate_secret = do
    owned ←
        wrapping "Error when set as owner reference"
          (lift (kube.set_controller_reference h (blank_secret h (get_secret_name_for_tls_api h))))
    ca ← wrapping "Error when create Api PKI" (new_root_ca_api goca)
    with_ca ← lift (write_entries (ca_entries goca ca) owned)
    crt ←
        wrapping "Error when generate Api certificate"
          (new_api_tls goca h.meta.name (alternatives h).0 (alternatives h).1 (some ca))
    with_crt ← lift (write_entries (issued_entries goca "api" crt) with_ca)
    pkcs12 ← wrapping "Error when generate Pkcs12 for Api" (goca.generate_pkcs12 crt "" [])
    lift (write_entries (("api.pfx", pkcs12) ∷ []) with_crt)

  -- A found secret that the operator manages: the PKI is loaded from it.
  unfoldable pub load_managed : Secret → Action (Store goca) RequeueAfter
  load_managed s = do
    ca ← wrapping "Error when load PKI for Api layout" (
        lift (
          load_root_ca_api goca (read_entry "ca.key" s) (read_entry "ca.pub" s)
            (read_entry "ca.crt" s) (read_entry "ca.crl" s)))
    crt ←
        wrapping "Error when load Api certificate"
          (lift (goca.load_cert_from_pem (read_entry "api.crt" s)))
    put goca "rootCA" (authority (some ca))
    put goca "apiCertificate" (certificate crt)
    put goca "currentSecret" (secret (some s))
    pure none

  -- A found secret of the user: it must have both entries.
  unfoldable pub check_custom : Secret → Action (Store goca) RequeueAfter
  check_custom s =
      if is_empty (read_entry "key.tls" s)
      then pure (some requeued_duration)
      else if is_empty (read_entry "tls.crt" s)
      then pure (some requeued_duration)
      else (put goca "currentSecret" (secret (some s)) >> pure none)

  -- The split on what `Client.Get` gave.
  unfoldable pub read_found : Outcome Secret → Action (Store goca) RequeueAfter
  unfolding load_managed check_custom
  read_found (ok s) =
      if is_self_managed_secret_for_tls_api h then load_managed s else check_custom s
  read_found (err e) =
      if not (kube.is_not_found e)
      then lift (err (wrap ("Error when read existing secret " <> get_secret_name_for_tls_api h) e))
      else if not (is_self_managed_secret_for_tls_api h)
      then pure (some requeued_duration)
      else (put goca "currentSecret" (secret none) >> pure none)
  read_found (panic p) = lift (panic p)

  unfoldable pub read : Action (Store goca) RequeueAfter
  unfolding read_found
  read s =
      let r = kube.get_secret h.meta.namespace (get_secret_name_for_tls_api h) s.world in
      read_found r.0 (record s { world = r.1 })

  -- The new secret, as two branches of `Diff` hand it on.
  unfoldable pub expect : Diff → Action (Store goca) Diff
  unfolding generate_secret
  expect d = do
    expected ←
        wrapping
          ("Error when generate secret " <> (get_secret_name_for_tls_api h <> " for TLS Api"))
          (on_world goca generate_secret)
    put goca "expectedSecret" (secret (some expected))
    pure d

  -- The part of `Diff` for a secret that exists.
  unfoldable pub diff_existing : Option goca.Ca → Option goca.Cert → Action (Store goca) Diff
  unfolding expect
  diff_existing ca crt = do
    ca_cert ← lift (goca.go_certificate ca)
    due_ca ←
        wrapping "Error when check is CA need to be renewed"
          (on_world goca (need_renew_certificate goca ca_cert))
    due_api ←
        wrapping "Error when check if Api certificate need to be renewed"
          (on_world goca (need_renew_certificate goca crt))
    if due_ca || due_api
        then expect (record {
          need_create = false;
          need_update = true;
          text = "CA root will expire. Renew all certificates";
        })
        else pure no_diff

  -- The part of `Diff` for a secret that the operator manages.
  unfoldable pub diff_managed : Option Secret → Action (Store goca) Diff
  unfolding diff_existing
  diff_managed current = do
    ca ← fetch goca kube "rootCA" (as_authority goca)
    crt ← fetch goca kube "apiCertificate" (as_certificate goca)
    elim current [
      | none ↦
          expect (record { need_create = true; need_update = false; text = "Secret not exist" })
      | some s ↦ diff_existing ca crt
    ]

  unfoldable pub diff : Action (Store goca) Diff
  unfolding diff_managed
  diff = do
    current ← fetch goca kube "currentSecret" (as_secret goca)
    if is_self_managed_secret_for_tls_api h then diff_managed current else pure no_diff

  unfoldable pub create : Action (Store goca) RequeueAfter
  create = do
    expected ← fetch goca kube "expectedSecret" (as_secret goca)
    save goca kube "create" " for Api" expected

  unfoldable pub update : Action (Store goca) RequeueAfter
  update = do
    expected ← fetch goca kube "expectedSecret" (as_secret goca)
    save goca kube "update" " for Api" expected
