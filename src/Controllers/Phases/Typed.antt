-- ===== src/Controllers/Phases/Typed.antt =====
-- What the phases store in `data`, by key, so that their type assertions hold.
use opensearch_operator.Common.{
  ◌≡◌, refl, ap, String, Option, none, some, List, inl, inr, Option-cases, arith,
}
use opensearch_operator.Common.Outcome.{Outcome, ok, err, panic}
use opensearch_operator.Common.Action.{Action, next, wrapped}
use opensearch_operator.Pki.{Goca}
use opensearch_operator.Controllers.State.{
  Secret, Value, secret, authority, certificate, certificates, Data, set_data, Kube, Store,
  ReadsData, as_secret, as_authority, as_certificate, as_certificates, fetch, save,
}

abbrev pub Panics : {A : Type 0} → Outcome A → Type 0
Panics (ok a) = ⊥
Panics (err e) = ⊥
Panics (panic p) = Unit

module _ (goca : Goca) where
  -- What is stored, if anything is, has the type that is asserted of it.
  abbrev pub Typed : {A : Type 0} → (Value goca → Outcome A) → Option (Value goca) → Type 0
  Typed as_type none = Unit
  Typed {A} as_type (some v) = (a : A) × (as_type v ≡ ok a)

  -- All keys of both reconcilers.
  pub record IsTyped (d : Data goca) : Type 0 where
    pub current : Typed (as_secret goca) (d "currentSecret")
    pub expected : Typed (as_secret goca) (d "expectedSecret")
    pub root : Typed (as_authority goca) (d "rootCA")
    pub admin : Typed (as_certificate goca) (d "adminCertificate")
    pub nodes : Typed (as_certificates goca) (d "nodeCertificates")
    pub api : Typed (as_certificate goca) (d "apiCertificate")

  module _ {d : Data goca} (t : IsTyped d) where
    pub put_current : (s : Option Secret) → IsTyped (set_data goca "currentSecret" (secret s) d)
    put_current s = record {
      current = (s, refl);
      expected = t.expected;
      root = t.root;
      admin = t.admin;
      nodes = t.nodes;
      api = t.api;
    }

    pub put_expected : (s : Option Secret) → IsTyped (set_data goca "expectedSecret" (secret s) d)
    put_expected s = record {
      current = t.current;
      expected = (s, refl);
      root = t.root;
      admin = t.admin;
      nodes = t.nodes;
      api = t.api;
    }

    pub put_root : (c : Option goca.Ca) → IsTyped (set_data goca "rootCA" (authority c) d)
    put_root c = record {
      current = t.current;
      expected = t.expected;
      root = (c, refl);
      admin = t.admin;
      nodes = t.nodes;
      api = t.api;
    }

    pub put_admin :
        (c : Option goca.Cert) → IsTyped (set_data goca "adminCertificate" (certificate c) d)
    put_admin c = record {
      current = t.current;
      expected = t.expected;
      root = t.root;
      admin = (c, refl);
      nodes = t.nodes;
      api = t.api;
    }

    pub put_nodes :
        (cs : List (String × Option goca.Cert))
        → IsTyped (set_data goca "nodeCertificates" (certificates cs) d)
    put_nodes cs = record {
      current = t.current;
      expected = t.expected;
      root = t.root;
      admin = t.admin;
      nodes = (cs, refl);
      api = t.api;
    }

    pub put_api :
        (c : Option goca.Cert) → IsTyped (set_data goca "apiCertificate" (certificate c) d)
    put_api c = record {
      current = t.current;
      expected = t.expected;
      root = t.root;
      admin = t.admin;
      nodes = t.nodes;
      api = (c, refl);
    }

  -- Where a secret is stored, its root CA is, too.
  abbrev pub HasRoot : Data goca → Type 0
  HasRoot d = (ca : goca.Ca) × (d "rootCA" ≡ some (authority (some ca)))

  abbrev pub IsLinked : Data goca → Type 0
  IsLinked d = (s : Secret) → d "currentSecret" ≡ some (secret (some s)) → HasRoot d

  module _ (I : Data goca → Type 0) where
    -- A chain keeps a property where its first part does, and its rest does on what that gives.
    pub kept-next :
        {A B : Type 0} (r : Outcome A × Store goca) (f : A → Action (Store goca) B)
        → I r.1.entries
        → ((a : A) (s : Store goca) → r ≡ (ok a, s) → I s.entries → I (f a s).1.entries)
        → I (next r f).1.entries
    unfolding next
    kept-next (ok a, s) f i h = h a s refl i
    kept-next (err e, s) f i h = i
    kept-next (panic p, s) f i h = i

    -- After a statement that gives nothing back.
    pub kept-ok :
        {A B : Type 0} (a : A) (s : Store goca) (f : A → Action (Store goca) B)
        → I (f a s).1.entries
        → I (next (ok a, s) f).1.entries
    unfolding next
    kept-ok a s f i = i

    pub kept-wrapped :
        {A : Type 0} (message : String) (r : Outcome A × Store goca)
        → I r.1.entries
        → I (wrapped message r).1.entries
    unfolding wrapped
    kept-wrapped message (ok a, s) i = i
    kept-wrapped message (err e, s) i = i
    kept-wrapped message (panic p, s) i = i

    module _ (kube : Kube goca) where
      pub kept-fetch :
          {A : Type 0} (k : String) (as_type : Value goca → Outcome A) (s : Store goca)
          → I s.entries
          → I (fetch goca kube k as_type s).1.entries
      kept-fetch k as_type s i = kept-next _ _ i λ v t e j. j

      pub kept-save :
          (verb layer : String) (o : Option Secret) (s : Store goca)
          → I s.entries
          → I (save goca kube verb layer o s).1.entries
      unfolding save
      kept-save verb layer o s i = i

  -- A value of the right type is taken out without a panic.
  pub fetch-typed :
      (kube : Kube goca) {A : Type 0} (k : String) (as_type : Value goca → Outcome A)
      (s : Store goca)
      → ReadsData goca kube
      → Typed as_type (s.entries k)
      → ¬ Panics (fetch goca kube k as_type s).0
  unfolding next
  fetch-typed kube k as_type s reads t = elim (Option-cases (s.entries k)) [
    | inl absent ↦ let (e, run) = reads.missing s.entries k absent in rw run (λ p. p)
    | inr (v, present) ↦
        let (a, same) = rw present at t in rw (reads.found s.entries k v present, same) (λ p. p)
  ]

  -- What was fetched is stored.
  pub fetch-stored :
      (kube : Kube goca) {A : Type 0} (k : String) (as_type : Value goca → Outcome A)
      (s : Store goca) {a : A} {t : Store goca}
      → ReadsData goca kube
      → fetch goca kube k as_type s ≡ (ok a, t)
      → (v : Value goca) × (s.entries k ≡ some v) × (as_type v ≡ ok a) × (s ≡ t)
  unfolding next
  fetch-stored kube k as_type s {a} {t} reads run = elim (Option-cases (s.entries k)) [
    | inl absent ↦
        let (e, missing) = reads.missing s.entries k absent in
        let no : ◌≡◌ {A = Outcome _ × Store goca} (err e, s) (ok a, t) = rw missing at run in
        absurd (ground arith)
    | inr (v, present) ↦
        let same : ◌≡◌ {A = Outcome _ × Store goca} (as_type v, s) (ok a, t) =
          rw (reads.found s.entries k v present) at run in
        (v, present, ap (λ r. r.0) same, ap (λ r. r.1) same)
  ]
