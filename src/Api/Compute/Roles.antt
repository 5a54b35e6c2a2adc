-- ===== src/Api/Compute/Roles.antt =====
-- `computeRoles`: the role flags of a node.
use opensearch_operator.Common.{
  ◌≡◌, ◌↔◌, ◌⊎◌, inl, inr, refl, String, ◌<>◌, List, [], ◌∷◌, In, Pairs, Bool-cases, arith, eq_iff,
}
use opensearch_operator.Funk.{Funk, IsLawful}
use opensearch_operator.Api.Kubernetes.{EnvVar}
use opensearch_operator.Api.Compute.{roles_env, compute_roles, role_list}

-- The variable `e` says whether `role` is among `roles`.
pub record IsFlag (roles : List String) (role : String) (e : EnvVar) : Type 0 where
  pub named : e.name ≡ "node." <> role
  pub set_iff : (e.value ≡ "true") ↔ In role roles
  pub two_values : (e.value ≡ "true") ⊎ (e.value ≡ "false")

module _ (f : Funk) (lawful : IsLawful f) where
  roles_env-IsFlag :
      (roles known : List String) → Pairs (IsFlag roles) known (roles_env f roles known)
  unfolding roles_env
  roles_env-IsFlag roles [] = tt
  roles_env-IsFlag roles (role ∷ known) = (
    elim (Bool-cases (f.contains_string roles role)) [
      | inl has ↦ record {
        named = refl;
        set_iff = (λ _. (lawful.contains_string_iff roles role).0 has, λ _. rw has);
        two_values = inl (rw has);
      }
      | inr lacks ↦ record {
        named = refl;
        set_iff = (
          λ e. absurd (ground (arith, eq_iff "false" "true")),
          λ i. absurd (ground (arith, (lawful.contains_string_iff roles role).1 i)),
        );
        two_values = inr (rw lacks);
      }
    ],
    roles_env-IsFlag roles known,
  )

  -- computeRoles gives one variable for each known role, in order, which is true exactly if the
  -- group has the role and false otherwise. It assumes what funk.ContainsString documents.
  pub compute_roles-IsFlag :
      (roles : List String) → Pairs (IsFlag roles) role_list (compute_roles f roles)
  unfolding compute_roles
  compute_roles-IsFlag roles = roles_env-IsFlag roles role_list
