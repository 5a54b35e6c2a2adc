-- ===== src/Generate/Builder.antt =====
-- The builders of github.com/disaster37/k8sbuilder, as an interface: they are not part of the
-- repository. A builder is the object that it holds, and it copies what it is given.
use opensearch_operator.Common.{
  ◌≡◌, ◌≢◌, ◌⊎◌, ℕ, String, map, ◌=?◌, Option, none, some, List, [], ◌∷◌, In, if◌then◌else◌,
}
use opensearch_operator.Common.Maps.{GoMap, find}
use opensearch_operator.Api.Kubernetes.{
  Manifest, EnvVar, Container, ContainerPort, SecurityContext, Probe, VolumeMount, Volume,
  PodTemplateSpec, PodAntiAffinity,
}

-- The option of a call: none, `Merge`, or `OverwriteIfDefaultValue`.
pub data Mode : Type 0 where
  overwrite merge overwrite_if_default : Mode

pub record Builder : Type 0 where
  -- `NewContainerBuilder().Container()`, and the methods of the container builder.
  pub new_container : Container
  pub with_container : Container → Mode → Container → Container
  pub with_env_from : Option (List Manifest) → Mode → Container → Container
  pub with_env : List EnvVar → Mode → Container → Container
  pub with_port : List ContainerPort → Mode → Container → Container
  pub with_resource : Option Manifest → Mode → Container → Container
  pub with_image : String → Mode → Container → Container
  pub with_image_pull_policy : String → Mode → Container → Container
  pub with_security_context : SecurityContext → Mode → Container → Container
  pub with_volume_mount : List VolumeMount → Mode → Container → Container
  pub with_liveness_probe : Probe → Mode → Container → Container
  pub with_readiness_probe : Probe → Mode → Container → Container
  pub with_startup_probe : Probe → Mode → Container → Container
  -- `NewPodTemplateBuilder().PodTemplate()`, and the methods of the pod template builder.
  pub new_pod_template : PodTemplateSpec
  pub with_pod_template_spec : Option PodTemplateSpec → Mode → PodTemplateSpec → PodTemplateSpec
  pub with_labels : GoMap String → Mode → PodTemplateSpec → PodTemplateSpec
  pub with_annotations : GoMap String → Mode → PodTemplateSpec → PodTemplateSpec
  pub with_node_selector : GoMap String → Mode → PodTemplateSpec → PodTemplateSpec
  pub with_termination_grace_period_seconds : ℕ → Mode → PodTemplateSpec → PodTemplateSpec
  pub with_tolerations : List Manifest → Mode → PodTemplateSpec → PodTemplateSpec
  pub with_affinity : PodAntiAffinity → Mode → PodTemplateSpec → PodTemplateSpec
  pub with_containers : List Container → Mode → PodTemplateSpec → PodTemplateSpec
  pub with_init_containers : List Container → Mode → PodTemplateSpec → PodTemplateSpec
  pub with_volumes : List Volume → Mode → PodTemplateSpec → PodTemplateSpec
  -- `WithSecurityContext`, with the one field that the code sets.
  pub with_fs_group : ℕ → Mode → PodTemplateSpec → PodTemplateSpec

-- The variable of a name, the last one if it stands more than once, and its value.
abbrev pub find_env : String → List EnvVar → Option EnvVar
find_env k [] = none
find_env k (e ∷ es) = elim (find_env k es) [
  | none ↦ if e.name =? k then some e else none
  | some later ↦ some later
]

abbrev pub value_or_empty : Option EnvVar → String
value_or_empty none = ""
value_or_empty (some e) = e.value

abbrev pub value_of : String → List EnvVar → String
value_of k es = value_or_empty (find_env k es)

abbrev pub or_else : {A : Type 0} → Option A → Option A → Option A
or_else none o = o
or_else (some a) o = some a

abbrev pub mount_names : List VolumeMount → List String
mount_names = map λ v. v.name

abbrev pub volume_names : List Volume → List String
volume_names = map λ v. v.name

module _ (b : Builder) where
  -- Each method of the container builder changes one field.
  pub record SetsOneField : Type 0 where
    pub env_from_only :
        (v : Option (List Manifest)) (m : Mode) (c : Container)
        → b.with_env_from v m c ≡ record c { env_from = (b.with_env_from v m c).env_from }
    pub env_only :
        (v : List EnvVar) (m : Mode) (c : Container)
        → b.with_env v m c ≡ record c { env = (b.with_env v m c).env }
    pub port_only :
        (v : List ContainerPort) (m : Mode) (c : Container)
        → b.with_port v m c ≡ record c { ports = (b.with_port v m c).ports }
    pub resource_only :
        (v : Option Manifest) (m : Mode) (c : Container)
        → b.with_resource v m c ≡ record c { resources = (b.with_resource v m c).resources }
    pub image_only :
        (v : String) (m : Mode) (c : Container)
        → b.with_image v m c ≡ record c { image = (b.with_image v m c).image }
    pub image_pull_policy_only :
        (v : String) (m : Mode) (c : Container)
        → b.with_image_pull_policy v m c
          ≡ record c { image_pull_policy = (b.with_image_pull_policy v m c).image_pull_policy }
    pub security_context_only :
        (v : SecurityContext) (m : Mode) (c : Container)
        → b.with_security_context v m c
          ≡ record c { security_context = (b.with_security_context v m c).security_context }
    pub volume_mount_only :
        (v : List VolumeMount) (m : Mode) (c : Container)
        → b.with_volume_mount v m c
          ≡ record c { volume_mounts = (b.with_volume_mount v m c).volume_mounts }
    pub liveness_only :
        (v : Probe) (m : Mode) (c : Container)
        → b.with_liveness_probe v m c
          ≡ record c { liveness_probe = (b.with_liveness_probe v m c).liveness_probe }
    pub readiness_only :
        (v : Probe) (m : Mode) (c : Container)
        → b.with_readiness_probe v m c
          ≡ record c { readiness_probe = (b.with_readiness_probe v m c).readiness_probe }
    pub startup_only :
        (v : Probe) (m : Mode) (c : Container)
        → b.with_startup_probe v m c
          ≡ record c { startup_probe = (b.with_startup_probe v m c).startup_probe }

  -- How a merge of environment variables goes: a value that is given wins over the one that is
  -- there, and a variable that is not named stays.
  pub record MergesEnv : Type 0 where
    pub given :
        (k : String) (es : List EnvVar) (c : Container)
        → value_of k es ≢ ""
        → value_of k (b.with_env es merge c).env ≡ value_of k es
    pub kept :
        (k : String) (es : List EnvVar) (c : Container)
        → find_env k es ≡ none
        → find_env k (b.with_env es merge c).env ≡ find_env k c.env

  -- A mount in the result has the name of one that was there or of one that is given.
  pub record AddsMounts : Type 0 where
    pub of_mounts :
        (k : String) (vs : List VolumeMount) (m : Mode) (c : Container)
        → In k (mount_names (b.with_volume_mount vs m c).volume_mounts)
        → In k (mount_names vs) ⊎ In k (mount_names c.volume_mounts)
    pub of_container :
        (k : String) (d : Container) (m : Mode) (c : Container)
        → In k (mount_names (b.with_container d m c).volume_mounts)
        → In k (mount_names d.volume_mounts) ⊎ In k (mount_names c.volume_mounts)
    pub of_new : b.new_container.volume_mounts ≡ []

  -- Each method of the pod template builder that the code calls after the labels changes one field,
  -- and a merge keeps the labels and volumes that are there; on one key the newer value wins.
  pub record MergesTemplates : Type 0 where
    pub annotations_only :
        (v : GoMap String) (m : Mode) (t : PodTemplateSpec)
        → b.with_annotations v m t
          ≡ record t { annotations = (b.with_annotations v m t).annotations }
    pub node_selector_only :
        (v : GoMap String) (m : Mode) (t : PodTemplateSpec)
        → b.with_node_selector v m t
          ≡ record t { node_selector = (b.with_node_selector v m t).node_selector }
    pub grace_only :
        (v : ℕ) (m : Mode) (t : PodTemplateSpec)
        → b.with_termination_grace_period_seconds v m t ≡ record t {
          termination_grace_period_seconds =
              (b.with_termination_grace_period_seconds v m t).termination_grace_period_seconds;
        }
    pub tolerations_only :
        (v : List Manifest) (m : Mode) (t : PodTemplateSpec)
        → b.with_tolerations v m t
          ≡ record t { tolerations = (b.with_tolerations v m t).tolerations }
    pub affinity_only :
        (v : PodAntiAffinity) (m : Mode) (t : PodTemplateSpec)
        → b.with_affinity v m t ≡ record t { anti_affinity = (b.with_affinity v m t).anti_affinity }
    pub containers_only :
        (v : List Container) (m : Mode) (t : PodTemplateSpec)
        → b.with_containers v m t ≡ record t { containers = (b.with_containers v m t).containers }
    pub init_containers_only :
        (v : List Container) (m : Mode) (t : PodTemplateSpec)
        → b.with_init_containers v m t
          ≡ record t { init_containers = (b.with_init_containers v m t).init_containers }
    pub volumes_only :
        (v : List Volume) (m : Mode) (t : PodTemplateSpec)
        → b.with_volumes v m t ≡ record t { volumes = (b.with_volumes v m t).volumes }
    pub fs_group_only :
        (v : ℕ) (m : Mode) (t : PodTemplateSpec)
        → b.with_fs_group v m t ≡ record t { fs_group = (b.with_fs_group v m t).fs_group }
    pub find-with_labels :
        (k : String) (ls : GoMap String) (t : PodTemplateSpec)
        → find k (b.with_labels ls merge t).labels ≡ or_else (find k ls) (find k t.labels)
    pub volumes_given :
        (k : String) (vs : List Volume) (t : PodTemplateSpec)
        → In k (volume_names vs)
        → In k (volume_names (b.with_volumes vs merge t).volumes)
    pub volumes_kept :
        (k : String) (vs : List Volume) (t : PodTemplateSpec)
        → In k (volume_names t.volumes)
        → In k (volume_names (b.with_volumes vs merge t).volumes)
