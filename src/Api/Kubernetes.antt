-- ===== src/Api/Kubernetes.antt =====
-- The Kubernetes objects that the operator builds, with the fields that its code sets or reads.
-- A value that the code only passes on stands as the text of its manifest.
use opensearch_operator.Common.{ℕ, String, Bool, Option, List}
use opensearch_operator.Common.Maps.{GoMap}

-- The range of an `int32`: a number, or the negation of a number's successor.
pub data Int32 : Type 0 where
  pos : ℕ → Int32
  negsuc : ℕ → Int32

abbrev pub Manifest : Type 0
Manifest = String

pub record ObjectMeta : Type 0 where
  pub namespace : String
  pub name : String
  pub labels : GoMap String
  pub annotations : GoMap String

pub record LabelSelector : Type 0 where
  pub match_labels : GoMap String

-- `FieldRef` of an `EnvVarSource`.
pub record FieldRef : Type 0 where
  pub api_version : String
  pub field_path : String

pub record EnvVar : Type 0 where
  pub name : String
  pub value : String
  pub value_from : Option FieldRef

pub record PodAffinityTerm : Type 0 where
  pub topology_key : String
  pub label_selector : LabelSelector

pub record WeightedPodAffinityTerm : Type 0 where
  pub weight : ℕ
  pub term : PodAffinityTerm

pub record PodAntiAffinity : Type 0 where
  pub required : List PodAffinityTerm
  pub preferred : List WeightedPodAffinityTerm

pub data VolumeSource : Type 0 where
  secret : String → VolumeSource
  config_map : String → VolumeSource
  other : Manifest → VolumeSource

pub record Volume : Type 0 where
  pub name : String
  pub source : VolumeSource

pub record VolumeMount : Type 0 where
  pub name : String
  pub mount_path : String
  pub sub_path : String
  pub read_only : Bool

pub record ContainerPort : Type 0 where
  pub name : String
  pub container_port : ℕ
  pub protocol : String

pub record SecurityContext : Type 0 where
  pub drop_capabilities : List String
  pub privileged : Option Bool
  pub run_as_user : Option ℕ
  pub run_as_non_root : Option Bool

-- A probe of a TCP socket.
pub record Probe : Type 0 where
  pub initial_delay_seconds : ℕ
  pub timeout_seconds : ℕ
  pub period_seconds : ℕ
  pub failure_threshold : ℕ
  pub success_threshold : ℕ
  pub tcp_port : ℕ

pub record Container : Type 0 where
  pub name : String
  pub image : String
  pub image_pull_policy : String
  pub command : List String
  pub env : List EnvVar
  pub env_from : Option (List Manifest)
  pub ports : List ContainerPort
  pub resources : Option Manifest
  pub volume_mounts : List VolumeMount
  pub security_context : Option SecurityContext
  pub liveness_probe : Option Probe
  pub readiness_probe : Option Probe
  pub startup_probe : Option Probe
  pub others : Manifest

-- Its metadata and its spec in one record.
pub record PodTemplateSpec : Type 0 where
  pub name : String
  pub labels : GoMap String
  pub annotations : GoMap String
  pub node_selector : GoMap String
  pub termination_grace_period_seconds : Option ℕ
  pub tolerations : List Manifest
  pub anti_affinity : Option PodAntiAffinity
  pub containers : List Container
  pub init_containers : List Container
  pub volumes : List Volume
  pub fs_group : Option ℕ
  pub others : Manifest

pub record ServicePort : Type 0 where
  pub name : String
  pub protocol : String
  pub port : ℕ
  pub target_port : ℕ

pub record ServiceSpec : Type 0 where
  pub service_type : String
  pub cluster_ip : String
  pub publish_not_ready_addresses : Bool
  pub session_affinity : String
  pub selector : GoMap String
  pub ports : List ServicePort

pub record Service : Type 0 where
  pub meta : ObjectMeta
  pub spec : ServiceSpec

-- One path of an HTTP rule, with its backend service.
pub record HttpIngressPath : Type 0 where
  pub path : String
  pub path_type : String
  pub service_name : String
  pub service_port : ℕ

pub record IngressRule : Type 0 where
  pub host : String
  pub paths : List HttpIngressPath

pub record IngressTls : Type 0 where
  pub hosts : List String
  pub secret_name : String

-- `networkingv1.IngressSpec`; the repository has an `IngressSpec` of its own.
pub record NetworkIngressSpec : Type 0 where
  pub rules : List IngressRule
  pub tls : List IngressTls
  pub others : Manifest

pub record Ingress : Type 0 where
  pub meta : ObjectMeta
  pub spec : NetworkIngressSpec

pub record ConfigMap : Type 0 where
  pub meta : ObjectMeta
  pub contents : GoMap String

-- An `intstr.IntOrString`.
pub data IntOrString : Type 0 where
  int : ℕ → IntOrString
  text : String → IntOrString

pub record PodDisruptionBudgetSpec : Type 0 where
  pub min_available : Option IntOrString
  pub max_unavailable : Option IntOrString
  pub selector : Option LabelSelector

pub record PodDisruptionBudget : Type 0 where
  pub meta : ObjectMeta
  pub spec : PodDisruptionBudgetSpec

pub record Condition : Type 0 where
  pub condition_type : String
  pub status : String
  pub reason : String
  pub message : String

pub record PersistentVolumeClaim : Type 0 where
  pub name : String
  pub spec : Manifest

-- Its metadata and its spec in one record.
pub record StatefulSet : Type 0 where
  pub meta : ObjectMeta
  pub replicas : Int32
  pub pod_management_policy : String
  pub service_name : String
  pub selector : LabelSelector
  pub template : PodTemplateSpec
  pub volume_claim_templates : List PersistentVolumeClaim
