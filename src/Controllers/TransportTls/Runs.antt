-- ===== src/Controllers/TransportTls/Runs.antt =====
-- The runs of the transport reconciler: what is stored keeps its type, and a secret its root CA.
use opensearch_operator.Common.{
  ◌≡◌, refl, ap, ◌∙◌, true, false, Bool, Bool-cases, String, Option, none, some, List, [], ◌∷◌, inl,
  inr, Option-cases,
}
use opensearch_operator.Common.Outcome.{Outcome, ok, err, panic}
use opensearch_operator.Common.Action.{next}
use opensearch_operator.Api.Types.{Opensearch}
use opensearch_operator.Pki.{Goca}
use opensearch_operator.Controllers.State.{
  Secret, Value, secret, authority, certificate, certificates, fetch, Data, set_data, Kube, Store,
  ReadsData, as_secret,
}
use opensearch_operator.Controllers.Phases.{Phases, Keeps}
use opensearch_operator.Controllers.Phases.Typed.{
  IsTyped, HasRoot, IsLinked, put_current, put_expected, put_root, put_admin, put_nodes, kept-next,
  kept-ok, kept-wrapped, kept-fetch, fetch-stored,
}
use opensearch_operator.Controllers.TransportTls.Steps.{
  read, read_found, read_results, load_secret, diff, diff_missing, diff_existing, diff_nodes,
  diff_admin, diff_result, renew_all, renew_admin, create, update, LoopEnd, returned, reached,
}

module _ (goca : Goca) (kube : Kube goca) (h : Opensearch) where
  abbrev pub transport_phases : Phases goca
  transport_phases = record {
    read = read goca kube h;
    diff = diff goca kube h;
    create = create goca kube h;
    update = update goca kube h;
  }

  -- A property that holds on when one of the two secrets is stored.
  record AllowsSecrets (J : Data goca → Type 0) : Type 0 where
    of_current :
        (d : Data goca) (s : Option Secret) → J d → J (set_data goca "currentSecret" (secret s) d)
    of_expected :
        (d : Data goca) (s : Option Secret) → J d → J (set_data goca "expectedSecret" (secret s) d)

  module _ (J : Data goca → Type 0) (allows : AllowsSecrets J) where
    renew_all-kept : (c : Secret) (text : String) → Keeps goca J (renew_all goca kube h c text)
    unfolding renew_all
    renew_all-kept c text s i =
        kept-next goca J _ _ (kept-wrapped goca J _ _ i)
          λ t u _ j. kept-ok goca J _ _ _ (allows.of_expected _ _ j)

    diff_nodes-kept :
        (ca : Option goca.Ca) (nodes : List (String × Option goca.Cert)) (c : Secret) (need : Bool)
        (text : String)
        → Keeps goca J (diff_nodes goca kube h ca nodes c need text)
    unfolding diff_nodes
    diff_nodes-kept ca [] c need text s i = i
    diff_nodes-kept ca ((name, none) ∷ nodes) c need text s i =
        kept-next goca J _ _ (kept-wrapped goca J _ _ i) λ nc t _ j.
          kept-next goca J _ _ j λ c' u _ k.
            kept-ok goca J _ _ _ (diff_nodes-kept ca nodes c' true _ _ (allows.of_current _ _ k))
    diff_nodes-kept ca ((name, some crt) ∷ nodes) c need text s i =
        kept-next goca J _ _ (kept-wrapped goca J _ _ i) λ due t _ j. elim (Bool-cases due) [
          | inl yes' ↦ rw yes' (kept-next goca J _ _ (renew_all-kept c _ t j) λ d u _ k. k)
          | inr no' ↦ rw no' (diff_nodes-kept ca nodes c need text t j)
        ]

    renew_admin-kept :
        (ca : Option goca.Ca) (c : Secret) → Keeps goca J (renew_admin goca kube h ca c)
    unfolding renew_admin
    renew_admin-kept ca c s i = kept-next goca J _ _ (kept-wrapped goca J _ _ i) λ ac t _ j.
        kept-next goca J _ _ j λ c' u _ k. kept-ok goca J _ _ _ (
          kept-next goca J _ _ (kept-wrapped goca J _ _ (allows.of_current _ _ k)) λ p v _ l.
            kept-next goca J _ _ l λ c'' w _ m. kept-ok goca J _ _ _ (allows.of_current _ _ m))

    diff_result-kept :
        (c : Secret) (need : Bool) (text : String)
        → Keeps goca J (diff_result goca kube h c need text)
    unfolding diff_result
    diff_result-kept c true text s i = kept-ok goca J _ _ _ (allows.of_expected _ _ i)
    diff_result-kept c false text s i = i

    diff_admin-kept :
        (ca : Option goca.Ca) (admin : Option goca.Cert) (end' : LoopEnd)
        → Keeps goca J (diff_admin goca kube h ca admin end')
    unfolding diff_admin
    diff_admin-kept ca admin (returned d) s i = i
    diff_admin-kept ca admin (reached c need text) s i =
        kept-next goca J _ _ (kept-wrapped goca J _ _ i) λ due t _ j. elim (Bool-cases due) [
          | inl yes' ↦ rw yes' (
              kept-next goca J _ _ (renew_admin-kept ca c t j)
                λ c' u _ k. diff_result-kept c' true _ u k)
          | inr no' ↦ rw no' (diff_result-kept c need text t j)
        ]

    diff_existing-kept :
        (c : Secret) (ca : Option goca.Ca) (admin : Option goca.Cert)
        (nodes : List (String × Option goca.Cert))
        → Keeps goca J (diff_existing goca kube h c ca admin nodes)
    unfolding diff_existing
    diff_existing-kept c ca admin nodes s i = kept-next goca J _ _ i λ root t _ j.
        kept-next goca J _ _ (kept-wrapped goca J _ _ j) λ due u _ k. elim (Bool-cases due) [
          | inl yes' ↦ rw yes' (renew_all-kept c _ u k)
          | inr no' ↦ rw no' (
              kept-next goca J _ _ k λ entries v _ l.
                kept-next goca J _ _ (diff_nodes-kept ca entries c false "" v l)
                  λ end' v' _ l'. diff_admin-kept ca admin end' v' l')
        ]

  -- The property of the map that all phases keep.
  abbrev pub IsConsistent : Data goca → Type 0
  IsConsistent d = IsTyped goca d × IsLinked goca d

  abbrev HasPair : Data goca → Type 0
  HasPair d = IsTyped goca d × HasRoot goca d

  HasPair-AllowsSecrets : AllowsSecrets HasPair
  HasPair-AllowsSecrets = record {
    of_current = λ d s (t, root). (put_current goca t s, root);
    of_expected = λ d s (t, root). (put_expected goca t s, root);
  }

  diff_missing-kept : Keeps goca IsConsistent (diff_missing goca kube h)
  unfolding diff_missing
  diff_missing-kept s i =
      kept-next goca IsConsistent _ _ (kept-wrapped goca IsConsistent _ _ i)
        λ t u _ (typed, linked).
          kept-ok goca IsConsistent _ _ _ (put_expected goca typed (some t), linked)

  read_results-kept :
      (ca : Option goca.Ca) (admin : Option goca.Cert) (nodes : List (String × Option goca.Cert))
      (o : Option Secret)
      → ((c : Secret) → o ≡ some c → (a : goca.Ca) × (ca ≡ some a))
      → Keeps goca IsConsistent (read_results goca kube h ca admin nodes o)
  unfolding read_results next
  read_results-kept ca admin nodes o both s (typed, linked) = (
    put_current goca (put_nodes goca (put_admin goca (put_root goca typed ca) admin) nodes) o,
    λ c e. let (a, same) = both c cc in (a, rw same refl),
  )

  load_secret-kept : (c : Secret) → Keeps goca IsConsistent (load_secret goca kube h c)
  unfolding load_secret
  load_secret-kept c s i =
      kept-next goca IsConsistent _ _ (kept-wrapped goca IsConsistent _ _ i) λ ca t _ j.
        kept-next goca IsConsistent _ _ (kept-wrapped goca IsConsistent _ _ j) λ admin u _ k.
          kept-next goca IsConsistent _ _ k λ names v _ l.
            kept-next goca IsConsistent _ _ l λ nodes w _ m.
              read_results-kept (some ca) admin nodes (some c) (λ c' _. (ca, refl)) w m

  read_found-kept : (r : Outcome Secret) → Keeps goca IsConsistent (read_found goca kube h r)
  unfolding read_found
  read_found-kept (ok c) s i = load_secret-kept c s i
  read_found-kept (err e) s i = elim (Bool-cases (kube.is_not_found e)) [
    | inl absent ↦ rw absent (read_results-kept none none [] none (λ c e'. absurd cc) s i)
    | inr other ↦ rw other i
  ]
  read_found-kept (panic p) s i = i

  pub read-kept : Keeps goca IsConsistent (read goca kube h)
  unfolding read
  read-kept s i = read_found-kept _ _ i

  linked_at :
      ReadsData goca kube
      → (s t : Store goca) (c : Secret)
      → fetch goca kube "currentSecret" (as_secret goca) s ≡ (ok (some c), t)
      → IsConsistent s.entries
      → HasRoot goca t.entries
  linked_at reads s t c run (typed, linked) =
      let (v, stored, secret_given, same) = fetch-stored goca kube _ _ s reads run in
      rw (← same) (linked c (stored ∙ ap some (is_secret v secret_given)))
    where
      is_secret : (v : Value goca) → as_secret goca v ≡ ok (some c) → v ≡ secret (some c)
      is_secret (secret o) e = let same : o ≡ some c = cc in ap secret same
      is_secret (authority o) e = absurd cc
      is_secret (certificate o) e = absurd cc
      is_secret (certificates o) e = absurd cc

  pub diff-kept : ReadsData goca kube → Keeps goca IsConsistent (diff goca kube h)
  unfolding diff
  diff-kept reads s i =
      kept-next goca IsConsistent _ _
        (kept-fetch goca IsConsistent kube "currentSecret" (as_secret goca) s i)
        λ current t run j. elim (Option-cases current) [
          | inl absent ↦ rw absent (
              kept-next goca IsConsistent _ _ (kept-fetch goca IsConsistent kube _ _ _ j)
                λ ca u _ k.
                  kept-next goca IsConsistent _ _ (kept-fetch goca IsConsistent kube _ _ _ k)
                    λ a v _ l.
                      kept-next goca IsConsistent _ _ (kept-fetch goca IsConsistent kube _ _ _ l)
                        λ n w _ m. diff_missing-kept w m)
          | inr (c, present) ↦
              let root = linked_at reads s t c (rw present at run) i in
              let result =
                kept-next goca HasPair _ _ (kept-fetch goca HasPair kube _ _ t (j.0, root))
                  λ ca u _ k.
                    kept-next goca HasPair _ _ (kept-fetch goca HasPair kube _ _ _ k) λ a v _ l.
                      kept-next goca HasPair _ _ (kept-fetch goca HasPair kube _ _ _ l)
                        λ n w _ m. diff_existing-kept HasPair HasPair-AllowsSecrets c ca a n w m in
              rw present (result.0, λ c' _. result.1)
        ]
