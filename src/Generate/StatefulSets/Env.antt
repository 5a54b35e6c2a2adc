-- ===== src/Generate/StatefulSets/Env.antt =====
-- The environment of the container: the operator's variables stand, whatever the user's are.
use opensearch_operator.Common.{
  ◌≡◌, ◌≢◌, refl, sym, ap, ◌∙◌, true, false, Bool, ◌=?◌, ◌<>◌, eq_iff, String, inl, inr, arith,
  Bool-cases, if◌then◌else◌, none, All,
}
use opensearch_operator.Common.Outcome.{ok}
use opensearch_operator.Funk.{Funk}
use opensearch_operator.Helper.Settings.{Yaml}
use opensearch_operator.Api.Kubernetes.{Container}
use opensearch_operator.Api.Types.{Opensearch, NodeGroupSpec}
use opensearch_operator.Api.Compute.{
  role_list, compute_roles, compute_initial_master_nodes, compute_discovery_seed_hosts,
}
use opensearch_operator.Generate.Builder.{
  Builder, merge, SetsOneField, MergesEnv, find_env, value_of, value_or_empty,
}
use opensearch_operator.Generate.StatefulSets.Containers.{
  opensearch_container, assemble, initial_container, add_env, computed_env, single_node_env,
  is_single_node,
}
use opensearch_operator.Generate.StatefulSets.Frames.{
  add_settings-env, add_mounts-env, add_config_mounts-env, add_probes-env,
  opensearch_container-assemble,
}

-- What the environment of a node group's container must say.
pub record IsConfigured (funk : Funk) (h : Opensearch) (g : NodeGroupSpec) (c : Container)
    : Type 0 where
  pub masters : String
  pub has_masters : compute_initial_master_nodes funk h ≡ ok masters
  -- A variable that the operator computes has the computed value.
  pub computed :
      (k : String)
      → value_of k (computed_env h g masters (compute_discovery_seed_hosts funk h)) ≢ ""
      → value_of k c.env
        ≡ value_of k (computed_env h g masters (compute_discovery_seed_hosts funk h))
  -- The flag of each known role says whether the group has it.
  pub roles :
      All
        (λ role.
          value_of ("node." <> role) c.env
          ≡ (if funk.contains_string g.roles role then "true" else "false"))
        role_list
  pub single :
      is_single_node h.spec.node_groups ≡ true → value_of "discovery.type" c.env ≡ "single-node"

module _ (b : Builder) (sets : SetsOneField b) (env : MergesEnv b) (funk : Funk) (h : Opensearch)
    (g : NodeGroupSpec) where
  -- The last layer touches `discovery.type` alone.
  single_other :
      (k : String) (c : Container)
      → k ≢ "discovery.type"
      → find_env k (b.with_env single_node_env merge c).env ≡ find_env k c.env
  single_other k c n = env.kept k single_node_env c (ground (arith, eq_iff "discovery.type" k))

  add_env-computed :
      (masters seeds : String) (c : Container) (k : String)
      → value_of k (computed_env h g masters seeds) ≢ ""
      → value_of k (add_env b h g funk masters seeds c).env
        ≡ value_of k (computed_env h g masters seeds)
  unfolding add_env
  add_env-computed masters seeds c k n =
      let found = env.given k (computed_env h g masters seeds) _ n in
      elim (Bool-cases (is_single_node h.spec.node_groups)) [
        | inr more ↦ rw more found
        | inl one ↦ rw one (ap value_or_empty (single_other k _ λ e. n (rw e refl)) ∙ found)
      ]

  role_flag :
      (masters seeds : String) (c : Container) (role flag : String)
      → find_env ("node." <> role) (computed_env h g masters seeds) ≡ none
      → ("node." <> role =? "discovery.type") ≡ false
      → value_of ("node." <> role) (compute_roles funk g.roles) ≡ flag
      → flag ≢ ""
      → value_of ("node." <> role) (add_env b h g funk masters seeds c).env ≡ flag
  unfolding add_env
  role_flag masters seeds c role flag out other e n =
      let name = "node." <> role in
      let apart : name ≢ "discovery.type" =
        λ z. let same = (eq_iff name "discovery.type").1 z in cc in
      let found = env.given name (compute_roles funk g.roles) _ (λ z. n (sym e ∙ z)) ∙ e in
      let kept = ap value_or_empty (env.kept name (computed_env h g masters seeds) _ out) ∙ found in
      elim (Bool-cases (is_single_node h.spec.node_groups)) [
        | inr more ↦ rw more kept
        | inl one ↦ rw one (ap value_or_empty (single_other name _ apart) ∙ kept)
      ]

  add_env-single :
      (masters seeds : String) (c : Container)
      → is_single_node h.spec.node_groups ≡ true
      → value_of "discovery.type" (add_env b h g funk masters seeds c).env ≡ "single-node"
  unfolding add_env
  add_env-single masters seeds c one = rw one (env.given "discovery.type" single_node_env _ λ e. cc)

  flag_set : (v : Bool) → ◌≢◌ {A = String} (if v then "true" else "false") ""
  flag_set true e = cc
  flag_set false e = cc

  add_env-roles :
      (masters seeds : String) (c : Container)
      → All
          (λ role.
            value_of ("node." <> role) (add_env b h g funk masters seeds c).env
            ≡ (if funk.contains_string g.roles role then "true" else "false"))
          role_list
  unfolding compute_roles
  add_env-roles masters seeds c = (
    role_flag masters seeds c "cluster_manager" _ refl refl refl (flag_set _),
    (
      role_flag masters seeds c "data" _ refl refl refl (flag_set _),
      (
        role_flag masters seeds c "ingest" _ refl refl refl (flag_set _),
        (
          role_flag masters seeds c "ml" _ refl refl refl (flag_set _),
          (
            role_flag masters seeds c "remote_cluster_client" _ refl refl refl (flag_set _),
            (role_flag masters seeds c "transform" _ refl refl refl (flag_set _), tt),
          ),
        ),
      ),
    ),
  )

  -- In the environment of the container, a variable for which the operator computes a text has
  -- that text, the flag of each known role says whether the group has it, and a cluster of a
  -- single node with one replica is told so, whatever the user's variables are. It assumes how the
  -- builder merges variables, and that its other methods leave them alone.
  pub opensearch_container-IsConfigured :
      (yaml : Yaml) {c : Container}
      → opensearch_container b h g yaml funk ≡ ok c
      → IsConfigured funk h g c
  unfolding assemble
  opensearch_container-IsConfigured yaml {c} e =
      let (masters, maps, found, run, same) = opensearch_container-assemble b h g yaml funk e in
      let seeds = compute_discovery_seed_hosts funk h in
      let start = initial_container b h g in
      let frame : c.env ≡ (add_env b h g funk masters seeds start).env =
        ap (λ (d : Container). d.env) (sym same)
        ∙ add_probes-env b sets h g _
        ∙ add_config_mounts-env b sets h g maps _
        ∙ add_mounts-env b sets h g _
        ∙ add_settings-env b sets h g _ in
      record {
        masters = masters;
        has_masters = found;
        computed = λ k n. ap (value_of k) frame ∙ add_env-computed masters seeds start k n;
        roles = rw frame (add_env-roles masters seeds start);
        single =
            λ one. ap (value_of "discovery.type") frame ∙ add_env-single masters seeds start one;
      }
