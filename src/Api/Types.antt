-- ===== src/Api/Types.antt =====
-- api/v1alpha1/opensearch_types.go and api/shared/image.go: the custom resource.
use opensearch_operator.Common.{String, Bool, Option, List}
use opensearch_operator.Common.Maps.{GoMap}
use opensearch_operator.Api.Kubernetes.{
  Manifest, ObjectMeta, EnvVar, PodTemplateSpec, NetworkIngressSpec, PodDisruptionBudgetSpec,
  VolumeSource, Condition,
}
pub use opensearch_operator.Api.Kubernetes.{Int32, pos, negsuc}

pub record ImageSpec : Type 0 where
  pub image : String
  pub image_pull_policy : String
  pub image_pull_secrets : List String

pub record SelfSignedCertificateSpec : Type 0 where
  pub alt_ips : List String
  pub alt_names : List String

pub record TlsSpec : Type 0 where
  pub self_signed_certificate : Option SelfSignedCertificateSpec
  pub certificate_secret_ref : String

pub record LoadBalancerSpec : Type 0 where
  pub enabled : Bool
  pub target_node_group_name : String
  pub tls : Option TlsSpec

pub record IngressSpec : Type 0 where
  pub enabled : Bool
  pub target_node_group_name : String
  pub host : String
  pub secret_ref : String
  pub labels : GoMap String
  pub annotations : GoMap String
  pub ingress_spec : Option NetworkIngressSpec

pub record EndpointSpec : Type 0 where
  pub ingress : Option IngressSpec
  pub load_balancer : Option LoadBalancerSpec

pub record VolumeSpec : Type 0 where
  pub name : String
  pub mount_path : String
  pub sub_path : String
  pub read_only : Bool
  pub volume_source : VolumeSource

pub record AntiAffinitySpec : Type 0 where
  pub affinity_type : String
  pub topology_key : String

pub record PersistenceSpec : Type 0 where
  pub volume_claim_spec : Option Manifest
  pub volume : Option VolumeSource

pub record GlobalNodeGroupSpec : Type 0 where
  -- `[]*VolumeSpec`, where an element may be nil.
  pub additional_volumes : List (Option VolumeSpec)
  pub anti_affinity : Option AntiAffinitySpec
  pub pod_disruption_budget_spec : Option PodDisruptionBudgetSpec
  pub init_container_resources : Option Manifest
  pub pod_template : Option PodTemplateSpec
  pub jvm : String
  pub config : GoMap String
  pub security_ref : String
  pub labels : GoMap String
  pub annotations : GoMap String
  pub env : List EnvVar
  pub env_from : Option (List Manifest)

pub record NodeGroupSpec : Type 0 where
  pub name : String
  pub replicas : Int32
  pub roles : List String
  pub persistence : Option PersistenceSpec
  pub anti_affinity : Option AntiAffinitySpec
  pub resources : Option Manifest
  pub jvm : String
  pub config : GoMap String
  pub security_ref : String
  pub tolerations : List Manifest
  pub node_selector : GoMap String
  pub labels : GoMap String
  pub annotations : GoMap String
  pub env : List EnvVar
  pub env_from : Option (List Manifest)
  pub pod_template : Option PodTemplateSpec
  pub pod_disruption_budget_spec : Option PodDisruptionBudgetSpec

pub record OpensearchSpec : Type 0 where
  pub image_spec : ImageSpec
  pub version : String
  pub set_vm_max_map_count : Option Bool
  pub plugins_list : List String
  pub global_node_group : GlobalNodeGroupSpec
  pub node_groups : List NodeGroupSpec
  pub endpoint : Option EndpointSpec

pub record OpensearchStatus : Type 0 where
  pub phase : String
  pub url : String
  pub credentials_ref : String
  pub conditions : List Condition

pub record Opensearch : Type 0 where
  pub meta : ObjectMeta
  pub spec : OpensearchSpec
  pub status : OpensearchStatus
