-- ===== src/Api/Names.antt =====
-- api/v1alpha1/opensearch_func.go: the names of the objects of a cluster, its switches and its
-- image (`GetNodeNames` to `GetContainerImage`).
pub mod Counting
pub mod Distinct
pub mod Members
pub mod Secrets
use opensearch_operator.Common.{
  ℕ, zero, suc, String, ◌<>◌, ◌=?◌, Bool, true, false, not, ◌&&◌, Option, none, some, List, [], ◌∷◌,
  ◌++◌, if◌then◌else◌,
}
use opensearch_operator.Common.Outcome.{Outcome, ok, panic, ◌>>=◌}
use opensearch_operator.Common.Text.{decimal}
use opensearch_operator.Api.Types.{
  Int32, pos, negsuc, Opensearch, NodeGroupSpec, EndpointSpec, LoadBalancerSpec, IngressSpec,
  TlsSpec,
}

abbrev pub default_image : String
default_image = "public.ecr.aws/opensearchproject/opensearch"

unfoldable pub get_node_group_name : Opensearch → String → String
get_node_group_name h node_group_name = h.meta.name <> ("-" <> (node_group_name <> "-os"))

-- `make([]string, 0, n)`: a negative capacity is a run-time panic. The number of loop rounds is
-- `n` otherwise.
abbrev pub rounds : Int32 → Outcome ℕ
rounds (pos n) = ok n
rounds (negsuc n) = panic "runtime error: makeslice: cap out of range"

-- The loop of `GetNodeGroupNodeNames` from `i` on, with the rounds that are left.
unfoldable pub node_names_from : String → ℕ → ℕ → List String
node_names_from group i zero = []
node_names_from group i (suc left) =
    (group <> ("-" <> decimal i)) ∷ node_names_from group (suc i) left

unfoldable pub get_node_group_node_names : Opensearch → NodeGroupSpec → Outcome (List String)
unfolding node_names_from
get_node_group_node_names h g = do
  n ← rounds g.replicas
  ok (node_names_from (get_node_group_name h g.name) 0 n)

-- The loop of `GetNodeNames`.
unfoldable pub node_names_of : Opensearch → List NodeGroupSpec → Outcome (List String)
node_names_of h [] = ok []
node_names_of h (g ∷ gs) = do
  names ← get_node_group_node_names h g
  rest ← node_names_of h gs
  ok (names ++ rest)

unfoldable pub get_node_names : Opensearch → Outcome (List String)
unfolding node_names_of get_node_group_node_names
get_node_names h = node_names_of h h.spec.node_groups

unfoldable pub get_secret_name_for_tls_transport : Opensearch → String
get_secret_name_for_tls_transport h = h.meta.name <> "-os-tls-transport"

-- The load balancer, where the endpoint has one and it is enabled.
abbrev pub load_balancer_of : Option EndpointSpec → Option LoadBalancerSpec
load_balancer_of none = none
load_balancer_of (some e) = e.load_balancer

abbrev pub ingress_of : Option EndpointSpec → Option IngressSpec
ingress_of none = none
ingress_of (some e) = e.ingress

abbrev pub secret_ref_of : Option TlsSpec → String
secret_ref_of none = ""
secret_ref_of (some t) = t.certificate_secret_ref

-- `Spec.Endpoint.LoadBalancer.Tls.CertificateSecretRef`, or "" where a pointer on the way is nil
-- or the load balancer is disabled.
abbrev pub custom_secret : Option LoadBalancerSpec → String
custom_secret none = ""
custom_secret (some b) = if b.enabled then secret_ref_of b.tls else ""

unfoldable pub is_self_managed_secret_for_tls_api : Opensearch → Bool
is_self_managed_secret_for_tls_api h = custom_secret (load_balancer_of h.spec.endpoint) =? ""

unfoldable pub get_secret_name_for_tls_api : Opensearch → String
unfolding is_self_managed_secret_for_tls_api
get_secret_name_for_tls_api h =
    if is_self_managed_secret_for_tls_api h
    then h.meta.name <> "-os-tls-api"
    else custom_secret (load_balancer_of h.spec.endpoint)

unfoldable pub get_secret_name_for_admin_credentials : Opensearch → String
get_secret_name_for_admin_credentials h = h.meta.name <> "-os-credential"

unfoldable pub get_secret_name_for_security_config : Opensearch → NodeGroupSpec → String
get_secret_name_for_security_config h g =
    if not (g.security_ref =? "")
    then g.security_ref
    else if not (h.spec.global_node_group.security_ref =? "")
    then h.spec.global_node_group.security_ref
    else ""

unfoldable pub get_node_group_config_map_name : Opensearch → String → String
get_node_group_config_map_name h g = get_node_group_name h g <> "-config"

unfoldable pub get_global_service_name : Opensearch → String
get_global_service_name h = h.meta.name <> "-os"

unfoldable pub get_node_group_service_name : Opensearch → String → String
get_node_group_service_name h g = get_node_group_name h g

unfoldable pub get_node_group_service_name_headless : Opensearch → String → String
get_node_group_service_name_headless h g = get_node_group_name h g <> "-headless"

unfoldable pub get_node_group_pdb_name : Opensearch → String → String
get_node_group_pdb_name h g = get_node_group_name h g

abbrev pub is_enabled_ingress : Option IngressSpec → Bool
is_enabled_ingress none = false
is_enabled_ingress (some i) = i.enabled

unfoldable pub is_ingress_enabled : Opensearch → Bool
is_ingress_enabled h = is_enabled_ingress (ingress_of h.spec.endpoint)

abbrev pub is_enabled_load_balancer : Option LoadBalancerSpec → Bool
is_enabled_load_balancer none = false
is_enabled_load_balancer (some b) = b.enabled

unfoldable pub is_load_balancer_enabled : Opensearch → Bool
is_load_balancer_enabled h = is_enabled_load_balancer (load_balancer_of h.spec.endpoint)

unfoldable pub get_container_image : Opensearch → String
get_container_image h =
    let version = if not (h.spec.version =? "") then h.spec.version else "latest" in
    let image =
      if not (h.spec.image_spec.image =? "") then h.spec.image_spec.image else default_image in
    image <> (":" <> version)
