-- ===== src/Tests/Building.antt =====
-- A sample of the builders: a merge lays the new values behind the old ones.
use opensearch_operator.Common.{
  ◌≡◌, refl, String, ◌=?◌, Option, none, some, List, [], ◌∷◌, ◌++◌, map, In, inl, inr, ◌⊎◌,
  Bool-cases, if◌then◌else◌, Option-cases,
}
use opensearch_operator.Common.Maps.{GoMap, entries, Entries, lookup}
use opensearch_operator.Api.Kubernetes.{EnvVar, Container, PodTemplateSpec}
use opensearch_operator.Generate.Builder.{
  Builder, Mode, overwrite, merge, overwrite_if_default, SetsOneField, MergesEnv, AddsMounts,
  MergesTemplates, find_env, or_else,
}
use opensearch_operator.Generate.StatefulSets.Containers.{empty_container}

abbrev empty_template : PodTemplateSpec
empty_template = record {
  name = "";
  labels = none;
  annotations = none;
  node_selector = none;
  termination_grace_period_seconds = none;
  tolerations = [];
  anti_affinity = none;
  containers = [];
  init_containers = [];
  volumes = [];
  fs_group = none;
  others = "";
}

abbrev lay : {A : Type 0} → List A → Mode → List A → List A
lay new overwrite old = new
lay new merge old = old ++ new
lay new overwrite_if_default [] = new
lay new overwrite_if_default (x ∷ old) = x ∷ old

abbrev lay_option : {A : Type 0} → Option A → Mode → Option A → Option A
lay_option new overwrite old = new
lay_option new merge old = or_else new old
lay_option new overwrite_if_default old = or_else old new

abbrev lay_text : String → Mode → String → String
lay_text new overwrite old = new
lay_text new merge old = if new =? "" then old else new
lay_text new overwrite_if_default old = if old =? "" then new else old

abbrev lay_map : GoMap String → Mode → GoMap String → GoMap String
lay_map new overwrite old = new
lay_map new merge old = some (entries new ++ entries old)
lay_map new overwrite_if_default old = or_else old new

abbrev lay_container : Container → Mode → Container → Container
lay_container d m c = record d {
  env = lay d.env m c.env;
  volume_mounts = lay d.volume_mounts m c.volume_mounts;
}

abbrev lay_template : Option PodTemplateSpec → Mode → PodTemplateSpec → PodTemplateSpec
lay_template none m t = t
lay_template (some u) m t = record u {
  labels = lay_map u.labels m t.labels;
  containers = lay u.containers m t.containers;
  volumes = lay u.volumes m t.volumes;
}

abbrev pub building : Builder
building = record {
  new_container = empty_container;
  with_container = lay_container;
  with_env_from = λ v m c. record c { env_from = lay_option v m c.env_from };
  with_env = λ v m c. record c { env = lay v m c.env };
  with_port = λ v m c. record c { ports = lay v m c.ports };
  with_resource = λ v m c. record c { resources = lay_option v m c.resources };
  with_image = λ v m c. record c { image = lay_text v m c.image };
  with_image_pull_policy =
      λ v m c. record c { image_pull_policy = lay_text v m c.image_pull_policy };
  with_security_context =
      λ v m c. record c { security_context = lay_option (some v) m c.security_context };
  with_volume_mount = λ v m c. record c { volume_mounts = lay v m c.volume_mounts };
  with_liveness_probe =
      λ v m c. record c { liveness_probe = lay_option (some v) m c.liveness_probe };
  with_readiness_probe =
      λ v m c. record c { readiness_probe = lay_option (some v) m c.readiness_probe };
  with_startup_probe = λ v m c. record c { startup_probe = lay_option (some v) m c.startup_probe };
  new_pod_template = empty_template;
  with_pod_template_spec = lay_template;
  with_labels = λ v m t. record t { labels = lay_map v m t.labels };
  with_annotations = λ v m t. record t { annotations = lay_map v m t.annotations };
  with_node_selector = λ v m t. record t { node_selector = lay_map v m t.node_selector };
  with_termination_grace_period_seconds = λ v m t. record t {
    termination_grace_period_seconds = lay_option (some v) m t.termination_grace_period_seconds;
  };
  with_tolerations = λ v m t. record t { tolerations = lay v m t.tolerations };
  with_affinity = λ v m t. record t { anti_affinity = lay_option (some v) m t.anti_affinity };
  with_containers = λ v m t. record t { containers = lay v m t.containers };
  with_init_containers = λ v m t. record t { init_containers = lay v m t.init_containers };
  with_volumes = λ v m t. record t { volumes = lay v m t.volumes };
  with_fs_group = λ v m t. record t { fs_group = lay_option (some v) m t.fs_group };
}

pub building-SetsOneField : SetsOneField building
building-SetsOneField = record {
  env_from_only = λ v m c. refl;
  env_only = λ v m c. refl;
  port_only = λ v m c. refl;
  resource_only = λ v m c. refl;
  image_only = λ v m c. refl;
  image_pull_policy_only = λ v m c. refl;
  security_context_only = λ v m c. refl;
  volume_mount_only = λ v m c. refl;
  liveness_only = λ v m c. refl;
  readiness_only = λ v m c. refl;
  startup_only = λ v m c. refl;
}

find_env-append :
    (k : String) (xs ys : List EnvVar)
    → find_env k (xs ++ ys) ≡ or_else (find_env k ys) (find_env k xs)
find_env-append k [] ys = elim (Option-cases (find_env k ys)) [
  | inl missing ↦ rw missing refl
  | inr (e, found) ↦ rw found refl
]
find_env-append k (x ∷ xs) ys = elim (Option-cases (find_env k ys)) [
  | inl missing ↦ rw (find_env-append k xs ys, missing) refl
  | inr (e, found) ↦ rw (find_env-append k xs ys, found) refl
]

pub building-MergesEnv : MergesEnv building
building-MergesEnv = record {
  given = λ k es c n. elim (Option-cases (find_env k es)) [
    | inl missing ↦ absurd (n (rw missing refl))
    | inr (e, found) ↦ rw (find_env-append k c.env es, found) refl
  ];
  kept = λ k es c missing. rw (find_env-append k c.env es, missing) refl;
}

module _ {A : Type 0} (name : A → String) (k : String) where
  In-after : (xs ys : List A) → In k (map name ys) → In k (map name (xs ++ ys))
  In-after [] ys i = i
  In-after (x ∷ xs) ys i = inr (In-after xs ys i)

  In-before : (xs ys : List A) → In k (map name xs) → In k (map name (xs ++ ys))
  In-before [] ys i = absurd i
  In-before (x ∷ xs) ys (inl e) = inl e
  In-before (x ∷ xs) ys (inr i) = inr (In-before xs ys i)

  In-append :
      (xs ys : List A) → In k (map name (xs ++ ys)) → In k (map name ys) ⊎ In k (map name xs)
  In-append [] ys i = inl i
  In-append (x ∷ xs) ys (inl e) = inr (inl e)
  In-append (x ∷ xs) ys (inr i) = elim (In-append xs ys i) [
    | inl new ↦ inl new
    | inr old ↦ inr (inr old)
  ]

  In-lay :
      (new : List A) (m : Mode) (old : List A)
      → In k (map name (lay new m old))
      → In k (map name new) ⊎ In k (map name old)
  In-lay new overwrite old i = inl i
  In-lay new merge old i = In-append old new i
  In-lay new overwrite_if_default [] i = inl i
  In-lay new overwrite_if_default (x ∷ old) i = inr i

pub building-AddsMounts : AddsMounts building
building-AddsMounts = record {
  of_mounts = λ k vs m c i. In-lay (λ v. v.name) k vs m c.volume_mounts i;
  of_container = λ k d m c i. In-lay (λ v. v.name) k d.volume_mounts m c.volume_mounts i;
  of_new = refl;
}

lookup-append :
    (k : String) (xs ys : Entries String)
    → lookup k (xs ++ ys) ≡ or_else (lookup k xs) (lookup k ys)
lookup-append k [] ys = refl
lookup-append k ((j, v) ∷ xs) ys = elim (Bool-cases (j =? k)) [
  | inl same ↦ rw same refl
  | inr other ↦ rw (other, lookup-append k xs ys) refl
]

pub building-MergesTemplates : MergesTemplates building
building-MergesTemplates = record {
  annotations_only = λ v m t. refl;
  node_selector_only = λ v m t. refl;
  grace_only = λ v m t. refl;
  tolerations_only = λ v m t. refl;
  affinity_only = λ v m t. refl;
  containers_only = λ v m t. refl;
  init_containers_only = λ v m t. refl;
  volumes_only = λ v m t. refl;
  fs_group_only = λ v m t. refl;
  find-with_labels = λ k ls t. lookup-append k (entries ls) (entries t.labels);
  volumes_given = λ k vs t i. In-after (λ v. v.name) k t.volumes vs i;
  volumes_kept = λ k vs t i. In-before (λ v. v.name) k t.volumes vs i;
}
