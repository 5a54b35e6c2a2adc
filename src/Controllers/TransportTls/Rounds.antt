-- ===== src/Controllers/TransportTls/Rounds.antt =====
-- One round of the transport reconciler, and the secret that it reads and extends.
use opensearch_operator.Common.{
  ◌≡◌, ◌≢◌, refl, false, String, ◌<>◌, Option, none, some, List, [], ◌∷◌, All, arith, if◌then◌else◌,
}
use Prim.Native.String.{count}
use opensearch_operator.Common.Text.{NoDash}
use opensearch_operator.Common.Outcome.{ok}
use opensearch_operator.Common.Action.{Action, pure, next, wrapped, ◌>>=◌}
use opensearch_operator.Api.Types.{Opensearch}
use opensearch_operator.Api.Names.{get_secret_name_for_tls_transport, get_node_names}
use opensearch_operator.Api.Names.Distinct.{DistinctGroups, get_node_names-dashed}
use opensearch_operator.Pki.{Goca, Bytes, load_root_ca_transport}
use opensearch_operator.Controllers.State.{Secret, read_entry, Diff, RequeueAfter, Kube, Store}
use opensearch_operator.Controllers.TransportTls.Handover.{results_data}
use opensearch_operator.Controllers.TransportTls.NewNodes.{any_missing, IsReady, IsExtended}
use opensearch_operator.Controllers.TransportTls.Loading.{
  LoadsIssued, IssuesValid, IsNodeName, stem-NotNew, load_nodes-IsFrom, extended_complete,
}
use opensearch_operator.Controllers.TransportTls.Steps.{
  read, read_found, load_secret, read_results, load_nodes, diff, create, update,
}

pub ca-NoDash : NoDash "ca"
ca-NoDash = omega arith

admin-NoDash : NoDash "admin"
admin-NoDash = omega arith

both : (ns : List String) → All (λ n. n ≢ "ca") ns → All (λ n. n ≢ "admin") ns → All IsNodeName ns
both [] a b = tt
both (n ∷ ns) (p, a) (q, b) = ((p, q), both ns a b)

pub node_names-IsNodeName :
    (h : Opensearch) {ns : List String}
    → DistinctGroups h
    → get_node_names h ≡ ok ns
    → All IsNodeName ns
node_names-IsNodeName h {ns} d e =
    both ns (get_node_names-dashed h "ca" ca-NoDash d e)
      (get_node_names-dashed h "admin" admin-NoDash d e)

module _ (goca : Goca) (kube : Kube goca) (h : Opensearch) where
  -- One round: Read and Diff, and then what the difference asks for.
  unfoldable pub apply : Diff → Action (Store goca) RequeueAfter
  apply d =
      if d.need_create
      then create goca kube h
      else if d.need_update
      then update goca kube h
      else pure none

  unfoldable pub round : Action (Store goca) Diff
  unfolding apply
  round = read goca kube h >>= λ _. diff goca kube h >>= λ d. apply d >>= λ _. pure d

  -- What Kubernetes documents, where nobody else writes to the secret: it is read as it was
  -- written. `Within` goes on to hold of the world.
  pub record Accepts (Within : goca.World → Type 0) : Type 0 where
    pub accepted :
        (c : Secret) (w : goca.World)
        → c.meta.namespace ≡ h.meta.namespace
        → c.meta.name ≡ get_secret_name_for_tls_transport h
        → Within w
        → (w' : goca.World) × (w'' : goca.World) × Within w''
          × (kube.update_secret (some c) w ≡ (ok tt, w'))
          × (kube.get_secret h.meta.namespace (get_secret_name_for_tls_transport h) w'
              ≡ (ok c, w''))

  -- A secret that `Read` can load.
  pub record IsLoadable (c : Secret) (ca : goca.Ca) (admin : goca.Cert) (names : List String)
      (nodes : List (String × Option goca.Cert)) : Type 0 where
    pub authority_given :
        load_root_ca_transport goca
          (read_entry "ca.key" c)
          (read_entry "ca.pub" c)
          (read_entry "ca.crt" c)
          (read_entry "ca.crl" c)
        ≡ ok ca
    pub admin_given : goca.load_cert_from_pem (read_entry "admin.crt" c) ≡ ok (some admin)
    pub node_names : get_node_names h ≡ ok names
    pub nodes_given : load_nodes goca kube h c names [] ≡ ok nodes

  module _ {c : Secret} {ca : goca.Ca} {admin : goca.Cert} {names : List String}
      {nodes : List (String × Option goca.Cert)} (loads : IsLoadable c ca admin names nodes) where
    pub read-IsLoadable :
        (s : Store goca) (w : goca.World)
        → kube.get_secret h.meta.namespace (get_secret_name_for_tls_transport h) s.world ≡ (ok c, w)
        → read goca kube h s ≡ (
          ok none,
          record {
            world = w;
            entries = results_data goca (some c) (some ca) (some admin) nodes s.entries;
          },
        )
    unfolding read read_found load_secret read_results results_data next wrapped
    read-IsLoadable s w found =
        rw (found, loads.authority_given, loads.admin_given, loads.node_names, loads.nodes_given)
          refl

    -- The certificates of the CA and of the administrator stay, and every node has one that is not
    -- found due.
    pub extended-IsLoadable :
        LoadsIssued goca
        → DistinctGroups h
        → (Within : goca.World → Type 0) → All (IsReady goca Within ca) nodes
        → IssuesValid goca Within ca nodes
        → (c' : Secret) (m m' : String → Bytes) → c.contents ≡ some m
        → c'.contents ≡ some m'
        → IsExtended goca Within ca nodes m m'
        → (nodes' : List (String × Option goca.Cert)) × IsLoadable c' ca admin names nodes'
          × All (IsReady goca Within ca) nodes'
          × (any_missing goca nodes' ≡ false)
    extended-IsLoadable issued d Within ready fresh c' m m' has has' ext =
        let ps = node_names-IsNodeName h d loads.node_names in
        let from = load_nodes-IsFrom goca kube h c m names has loads.nodes_given ps in
        let same : (stem ending : String)
            → count ending ≡ 4
            → ((n : String) → IsNodeName n → n ≢ stem)
            → m' (stem <> ending) ≡ m (stem <> ending) =
          λ stem ending e other.
            ext.unchanged (stem <> ending) (stem-NotNew goca stem ending e other m nodes from) in
        let ca_same : (ending : String)
            → count ending ≡ 4
            → m' ("ca" <> ending) ≡ m ("ca" <> ending) =
          λ ending e. same "ca" ending e (λ n p. p.0) in
        let (nodes', run, ready', all) =
          extended_complete goca kube h issued Within ca c c' m m' names has has' loads.nodes_given
            ps ready fresh ext in
        (
          nodes',
          record {
            authority_given =
                rw
                  (
                    has',
                    ca_same ".key" refl,
                    ca_same ".pub" refl,
                    ca_same ".crt" refl,
                    ca_same ".crl" refl,
                  )
                  (rw has at loads.authority_given);
            admin_given =
                rw (has', same "admin" ".crt" refl (λ n p. p.1)) (rw has at loads.admin_given);
            node_names = loads.node_names;
            nodes_given = run;
          },
          ready',
          all,
        )
