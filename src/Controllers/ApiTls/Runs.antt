-- ===== src/Controllers/ApiTls/Runs.antt =====
-- The runs of the API reconciler: what is stored keeps its type, and a managed secret its root CA.
use opensearch_operator.Common.{
  ◌≡◌, refl, true, false, Bool-cases, Option, none, some, inl, inr, ◌||◌,
}
use opensearch_operator.Common.Outcome.{Outcome, ok, err, panic}
use opensearch_operator.Api.Types.{Opensearch}
use opensearch_operator.Api.Names.{is_self_managed_secret_for_tls_api}
use opensearch_operator.Pki.{Goca}
use opensearch_operator.Controllers.State.{
  Secret, Diff, secret, authority, certificate, set_data, Data, Kube, Store, read_entry,
}
use opensearch_operator.Controllers.Phases.{Phases, Keeps}
use opensearch_operator.Controllers.Phases.Typed.{
  IsTyped, IsLinked, put_current, put_expected, put_root, put_api, kept-next, kept-ok, kept-wrapped,
  kept-fetch, kept-save,
}
use opensearch_operator.Controllers.ApiTls.Steps.{
  read, read_found, load_managed, check_custom, diff, diff_managed, diff_existing, expect, create,
  update, is_empty,
}

-- The operator manages the API secret.
unfoldable pub IsManaged : Opensearch → Type 0
IsManaged h = is_self_managed_secret_for_tls_api h ≡ true

module _ (goca : Goca) (kube : Kube goca) (h : Opensearch) where
  abbrev pub api_phases : Phases goca
  api_phases = record {
    read = read goca kube h;
    diff = diff goca kube h;
    create = create goca kube h;
    update = update goca kube h;
  }

  -- The property of the map that all phases keep: the secret of a user comes without a CA.
  abbrev pub IsConsistent : Data goca → Type 0
  IsConsistent d = IsTyped goca d × (IsManaged h → IsLinked goca d)

  -- The end of a managed read.
  loaded :
      (c : Secret) (ca : goca.Ca) (crt : Option goca.Cert) (u : Store goca)
      → IsTyped goca u.entries
      → IsConsistent (
          set_data goca "currentSecret" (secret (some c)) (
            set_data goca "apiCertificate"
              (certificate crt)
              (set_data goca "rootCA" (authority (some ca)) u.entries)))
  loaded c ca crt u typed = (
    put_current goca (put_api goca (put_root goca typed (some ca)) crt) (some c),
    λ _ c' _. (ca, refl),
  )

  load_managed-kept : (c : Secret) → Keeps goca IsConsistent (load_managed goca kube h c)
  unfolding load_managed
  load_managed-kept c s i =
      kept-next goca IsConsistent _ _ (kept-wrapped goca IsConsistent _ _ i) λ ca t _ j.
        kept-next goca IsConsistent _ _ (kept-wrapped goca IsConsistent _ _ j) λ crt u _ (typed, _).
          kept-ok goca IsConsistent _ _ _ (
            kept-ok goca IsConsistent _ _ _
              (kept-ok goca IsConsistent _ _ _ (loaded c ca crt u typed)))

  check_custom-kept :
      (c : Secret)
      → is_self_managed_secret_for_tls_api h ≡ false
      → Keeps goca IsConsistent (check_custom goca kube h c)
  unfolding check_custom IsManaged
  check_custom-kept c custom s i = elim (Bool-cases (is_empty (read_entry "key.tls" c))) [
    | inl no_key ↦ rw no_key i
    | inr key ↦ elim (Bool-cases (is_empty (read_entry "tls.crt" c))) [
      | inl no_crt ↦ rw (key, no_crt) i
      | inr crt ↦
          rw (key, crt)
            (kept-ok goca IsConsistent _ _ _ (put_current goca i.0 (some c), λ managed. absurd cc))
    ]
  ]

  read_found-kept : (r : Outcome Secret) → Keeps goca IsConsistent (read_found goca kube h r)
  unfolding read_found
  read_found-kept (ok c) s i = elim (Bool-cases (is_self_managed_secret_for_tls_api h)) [
    | inl managed ↦ rw managed (load_managed-kept c s i)
    | inr custom ↦ rw custom (check_custom-kept c custom s i)
  ]
  read_found-kept (err e) s i = elim (Bool-cases (kube.is_not_found e)) [
    | inr other ↦ rw other i
    | inl absent ↦ elim (Bool-cases (is_self_managed_secret_for_tls_api h)) [
      | inr custom ↦ rw (absent, custom) i
      | inl managed ↦
          rw (absent, managed)
            (kept-ok goca IsConsistent _ _ _ (put_current goca i.0 none, λ m c e'. absurd cc))
    ]
  ]
  read_found-kept (panic p) s i = i

  pub read-kept : Keeps goca IsConsistent (read goca kube h)
  unfolding read
  read-kept s i = read_found-kept _ _ i

  expect-kept : (d : Diff) → Keeps goca IsConsistent (expect goca kube h d)
  unfolding expect
  expect-kept d s i =
      kept-next goca IsConsistent _ _ (kept-wrapped goca IsConsistent _ _ i)
        λ t u _ (typed, linked).
          kept-ok goca IsConsistent _ _ _ (put_expected goca typed (some t), linked)

  diff_existing-kept :
      (ca : Option goca.Ca) (crt : Option goca.Cert)
      → Keeps goca IsConsistent (diff_existing goca kube h ca crt)
  unfolding diff_existing
  diff_existing-kept ca crt s i = kept-next goca IsConsistent _ _ i λ root t _ j.
      kept-next goca IsConsistent _ _ (kept-wrapped goca IsConsistent _ _ j) λ due_ca u _ k.
        kept-next goca IsConsistent _ _ (kept-wrapped goca IsConsistent _ _ k) λ due_api v _ l.
          elim (Bool-cases (due_ca || due_api)) [
            | inl due ↦ rw due (expect-kept _ v l)
            | inr valid ↦ rw valid l
          ]

  diff_managed-kept :
      (current : Option Secret) → Keeps goca IsConsistent (diff_managed goca kube h current)
  unfolding diff_managed
  diff_managed-kept none s i =
      kept-next goca IsConsistent _ _ (kept-fetch goca IsConsistent kube _ _ s i) λ ca t _ j.
        kept-next goca IsConsistent _ _ (kept-fetch goca IsConsistent kube _ _ t j)
          λ crt u _ k. expect-kept _ u k
  diff_managed-kept (some c) s i =
      kept-next goca IsConsistent _ _ (kept-fetch goca IsConsistent kube _ _ s i) λ ca t _ j.
        kept-next goca IsConsistent _ _ (kept-fetch goca IsConsistent kube _ _ t j)
          λ crt u _ k. diff_existing-kept ca crt u k

  pub diff-kept : Keeps goca IsConsistent (diff goca kube h)
  unfolding diff
  diff-kept s i =
      kept-next goca IsConsistent _ _ (kept-fetch goca IsConsistent kube _ _ s i) λ current t _ j.
        elim (Bool-cases (is_self_managed_secret_for_tls_api h)) [
          | inl managed ↦ rw managed (diff_managed-kept current t j)
          | inr custom ↦ rw custom j
        ]

  pub create-kept : Keeps goca IsConsistent (create goca kube h)
  unfolding create
  create-kept s i =
      kept-next goca IsConsistent _ _ (kept-fetch goca IsConsistent kube _ _ s i)
        λ o t _ j. kept-save goca IsConsistent kube "create" " for Api" o t j

  pub update-kept : Keeps goca IsConsistent (update goca kube h)
  unfolding update
  update-kept s i =
      kept-next goca IsConsistent _ _ (kept-fetch goca IsConsistent kube _ _ s i)
        λ o t _ j. kept-save goca IsConsistent kube "update" " for Api" o t j
