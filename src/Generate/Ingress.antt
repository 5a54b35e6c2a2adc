-- ===== src/Generate/Ingress.antt =====
-- `GenerateIngress`.
pub mod Result
use opensearch_operator.Common.{
  String, ◌=?◌, Bool, Option, none, some, List, [], ◌∷◌, if◌then◌else◌,
}
use opensearch_operator.Common.Outcome.{Outcome, ok, err, new, ◌>>=◌, wrapping}
use opensearch_operator.Common.Maps.{GoMap, is_empty}
use opensearch_operator.Funk.{Funk}
use opensearch_operator.Helper.Merge.{Mergo, Destination, nil, value, pointer, merge}
use opensearch_operator.Api.Kubernetes.{Ingress, NetworkIngressSpec}
use opensearch_operator.Api.Types.{Opensearch, IngressSpec}
use opensearch_operator.Api.Names.{
  is_ingress_enabled, ingress_of, get_global_service_name, get_node_group_service_name,
}
use opensearch_operator.Generate.Common.{check_target}

abbrev pub default_annotations : GoMap String
default_annotations = some (
    ("nginx.ingress.kubernetes.io/force-ssl-redirect", "true")
    ∷ ("nginx.ingress.kubernetes.io/backend-protocol", "HTTPS")
    ∷ [])

-- `if len(m) == 0 { m = nil }`
abbrev pub nil_if_empty : GoMap String → GoMap String
nil_if_empty m = if is_empty m then none else m

abbrev pub target_service : Opensearch → String → String
target_service h target =
    if target =? "" then get_global_service_name h else get_node_group_service_name h target

-- The spec before the custom one is merged into it.
abbrev pub default_ingress_spec : Opensearch → IngressSpec → NetworkIngressSpec
default_ingress_spec h i = record {
  rules =
      record {
        host = i.host;
        paths =
            record {
              path = "/";
              path_type = "Prefix";
              service_name = target_service h i.target_node_group_name;
              service_port = 9200;
            }
            ∷ [];
      }
      ∷ [];
  tls = record { hosts = i.host ∷ []; secret_name = i.secret_ref } ∷ [];
  others = "";
}

module _ (funk : Funk) (mergo : Mergo NetworkIngressSpec) where
  abbrev pub ingress_object : Opensearch → IngressSpec → NetworkIngressSpec → Ingress
  ingress_object h i spec = record {
    meta = record {
      namespace = h.meta.namespace;
      name = h.meta.name;
      labels = nil_if_empty (funk.union_string_map (i.labels ∷ h.meta.labels ∷ []));
      annotations =
          nil_if_empty
            (funk.union_string_map (default_annotations ∷ i.annotations ∷ h.meta.annotations ∷ []));
    };
    spec = spec;
  }

  -- The address of the object's spec is the destination of the merge.
  abbrev pub merged_ingress : Opensearch → IngressSpec → Outcome (Option Ingress)
  merged_ingress h i =
      wrapping "Error when merge ingress spec"
        (merge mergo (pointer (default_ingress_spec h i)) (i.ingress_spec ∷ []))
      >>= λ d. elim d [
        | nil ↦ ok none
        | value spec ↦ ok (some (ingress_object h i spec))
        | pointer spec ↦ ok (some (ingress_object h i spec))
      ]

  -- The rest of the function, with the ingress that `IsIngressEnabled` has seen.
  abbrev pub enabled_ingress : Opensearch → Option IngressSpec → Outcome (Option Ingress)
  enabled_ingress h none = ok none
  enabled_ingress h (some i) =
      if i.host =? ""
      then err (new "endpoint.ingress.host must be provided")
      else (check_target h i.target_node_group_name >>= λ _. merged_ingress h i)

  unfoldable pub generate_ingress : Opensearch → Outcome (Option Ingress)
  generate_ingress h =
      if is_ingress_enabled h then enabled_ingress h (ingress_of h.spec.endpoint) else ok none
