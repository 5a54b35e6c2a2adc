-- ===== src/Generate/StatefulSets/Mounts/Security.antt =====
-- The volume with the security settings, which no mount of the operator names.
use opensearch_operator.Common.{
  ◌≡◌, ◌≢◌, refl, false, ◌=?◌, eq_iff, String, inl, inr, In, Bool-cases,
}
use opensearch_operator.Common.Outcome.{ok}
use opensearch_operator.Funk.{Funk}
use opensearch_operator.Helper.Settings.{Yaml}
use opensearch_operator.Api.Kubernetes.{Container, PodAntiAffinity, PodTemplateSpec}
use opensearch_operator.Api.Types.{Opensearch, NodeGroupSpec}
use opensearch_operator.Api.Names.{get_secret_name_for_security_config}
use opensearch_operator.Generate.Builder.{
  Builder, SetsOneField, AddsMounts, MergesTemplates, mount_names, volume_names,
}
use opensearch_operator.Generate.StatefulSets.Containers.{
  opensearch_container, global_container, local_container, additional_mounts,
}
use opensearch_operator.Generate.StatefulSets.Template.{
  pod_template, add_volumes, add_security_volume,
}
use opensearch_operator.Generate.StatefulSets.Mounts.{
  of_global, of_local, of_additional, of_tls, of_config, of_persistence,
  opensearch_container-Origin,
}
use opensearch_operator.Generate.StatefulSets.Mounts.Volumes.{data-kept, finished}

differ : (t : String) → ("opensearch-security" =? t) ≡ false → "opensearch-security" ≢ t
differ t other e = let same = (eq_iff "opensearch-security" t).1 e in cc

module _ (b : Builder) (h : Opensearch) (g : NodeGroupSpec) where
  pub security_given :
      MergesTemplates b
      → get_secret_name_for_security_config h g ≢ ""
      → (t : PodTemplateSpec)
      → In "opensearch-security" (volume_names (add_security_volume b h g t).volumes)
  unfolding add_security_volume
  security_given merges set t = elim (Bool-cases (get_secret_name_for_security_config h g =? "")) [
    | inl unset ↦ absurd (set ((eq_iff _ "").0 unset))
    | inr given ↦ rw given (merges.volumes_given "opensearch-security" _ t (inl refl))
  ]

-- Where a secret with the security settings is named, the pod has the volume opensearch-security,
-- and the container has no mount of that name, unless a container or an additional volume of the
-- user brings one. It assumes how the builder adds mounts and volumes.
pub security_volume-Unmounted :
    (b : Builder) (yaml : Yaml) (funk : Funk) (h : Opensearch) (g : NodeGroupSpec)
    (anti_affinity : PodAntiAffinity) {container : Container}
    → SetsOneField b
    → AddsMounts b
    → MergesTemplates b
    → opensearch_container b h g yaml funk ≡ ok container
    → get_secret_name_for_security_config h g ≢ ""
    → (¬ In "opensearch-security" (mount_names (global_container b h g).volume_mounts))
    → (¬ In "opensearch-security" (mount_names (local_container b h g).volume_mounts))
    → (¬ In "opensearch-security"
        (mount_names (additional_mounts h.spec.global_node_group.additional_volumes)))
    → In "opensearch-security" (volume_names (pod_template b h g container anti_affinity).volumes)
      × (¬ In "opensearch-security" (mount_names container.volume_mounts))
unfolding pod_template add_volumes
security_volume-Unmounted b yaml funk h g anti_affinity {container} sets adds merges e set global
      local more =
    let name : String = "opensearch-security" in
    (
      finished b merges h g name container anti_affinity _
          (data-kept b merges h g name _ _ (security_given b h g merges set _)),
      λ i. elim (opensearch_container-Origin b sets adds h g name yaml funk e i) [
        | of_global j ↦ global j
        | of_local j ↦ local j
        | of_additional j ↦ more j
        | of_tls (inl same) ↦ differ "node-tls" refl same
        | of_tls (inr (inl same)) ↦ differ "api-tls" refl same
        | of_tls (inr (inr none_left)) ↦ none_left
        | of_config same ↦ differ "opensearch-config" refl same
        | of_persistence kept same ↦ differ "opensearch-data" refl same
      ],
    )
