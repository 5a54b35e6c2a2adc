-- ===== src/Controllers/TransportTls/NewNodes.antt =====
-- The loop of `Diff` where no certificate is due: new nodes get certificates, all else stays.
use opensearch_operator.Common.{
  ◌≡◌, ◌≢◌, ◌⊎◌, inl, inr, refl, sym, ap, ◌∙◌, true, false, Bool, ◌||◌, String, ◌<>◌, ◌=?◌, eq_iff,
  Option, none, some, List, [], ◌∷◌, All, All-of-In, All-In, In, ◌↔◌, arith, Bool-cases,
}
use mathlib.Core.Path.{subst}
use opensearch_operator.Common.Outcome.{Outcome, ok}
use opensearch_operator.Common.Action.{next, wrapped}
use opensearch_operator.Api.Types.{Opensearch}
use opensearch_operator.Pki.{Goca, Identity, Bytes, need_renew_certificate, new_node_tls}
use opensearch_operator.Controllers.State.{Secret, secret, Kube, Store, write_map, set_data}
use opensearch_operator.Controllers.TransportTls.Secrets.{issued_entries}
use opensearch_operator.Controllers.TransportTls.Keys.{
  IsKeyOf, HasIssued, SameEntries, written, written_old, written_own, written_other,
}
use opensearch_operator.Controllers.TransportTls.Steps.{LoopEnd, reached, diff_nodes}

or_false : (b : Bool) → (b || false) ≡ b
or_false true = refl
or_false false = refl

or_true : (b : Bool) → (b || true) ≡ true
or_true true = refl
or_true false = refl

-- What a node's certificate is issued for: its name, 397 days and a key of 2048 bits.
abbrev pub node_identity : String → Identity
node_identity name = record {
  organization = "Opensearch Org";
  organizational_unit = "Opensearch node";
  country = "US";
  locality = "TORONTO";
  province = "ONTARIO";
  intermediate = false;
  dns_names = name ∷ [];
  ip_addresses = [];
  valid = 397;
  key_bit_size = 2048;
}

module _ (goca : Goca) where
  new_node_tls-issues :
      (name : String) (ca : goca.Ca) (w : goca.World)
      → name ≢ ""
      → new_node_tls goca name (some ca) w ≡ goca.issue_certificate ca name (node_identity name) w
  unfolding new_node_tls
  new_node_tls-issues name ca w given = elim (Bool-cases (name =? "")) [
    | inl empty ↦ absurd (given ((eq_iff name "").0 empty))
    | inr named ↦ rw named refl
  ]

  abbrev pub any_missing : List (String × Option goca.Cert) → Bool
  any_missing [] = false
  any_missing ((name, none) ∷ nodes) = true
  any_missing ((name, some crt) ∷ nodes) = any_missing nodes

  -- A node without a certificate.
  abbrev pub IsNewNode : List (String × Option goca.Cert) → String → Type 0
  IsNewNode nodes n = In (n, none) nodes

  -- The keys of all nodes without a certificate.
  abbrev pub IsNewKey : List (String × Option goca.Cert) → String → Type 0
  IsNewKey nodes k = (n : String) × IsNewNode nodes n × IsKeyOf n k

  -- While `Within` holds of the world, the certificate is not found to be due, and `Within` goes on
  -- to hold.
  abbrev pub NotDue : (goca.World → Type 0) → goca.Cert → Type 0
  NotDue Within crt =
      (w : goca.World)
      → Within w
      → (w' : goca.World) × Within w' × (need_renew_certificate goca (some crt) w ≡ (ok false, w'))

  -- Meanwhile a node's certificate is not due, or it can be issued where there is none.
  abbrev pub IsReady : (goca.World → Type 0) → goca.Ca → String × Option goca.Cert → Type 0
  IsReady Within ca (name, none) =
      (name ≢ "")
      × ((w : goca.World)
          → Within w
          → (c : goca.Issued) × (w' : goca.World) × Within w'
            × (goca.issue_certificate ca name (node_identity name) w ≡ (ok c, w')))
  IsReady Within ca (name, some crt) = NotDue Within crt

  -- The secret has a certificate that the CA issued for the name meanwhile, its key and its
  -- request.
  abbrev pub IssuedFor : (goca.World → Type 0) → goca.Ca → (String → Bytes) → String → Type 0
  IssuedFor Within ca m n =
      (c : goca.Issued) × (w : goca.World) × (w' : goca.World) × Within w
      × (goca.issue_certificate ca n (node_identity n) w ≡ (ok c, w'))
      × HasIssued goca m n c

  -- The secret after the loop, against that before it.
  pub record IsExtended (Within : goca.World → Type 0) (ca : goca.Ca)
      (nodes : List (String × Option goca.Cert)) (m m' : String → Bytes) : Type 0 where
    pub issued : (n : String) → IsNewNode nodes n → IssuedFor Within ca m' n
    pub unchanged : (k : String) → ¬ IsNewKey nodes k → m' k ≡ m k
    -- The entries of one name change together.
    pub kept : (n : String) → IsNewNode nodes n ⊎ SameEntries goca m m' n

  HasIssued-same :
      (m m' : String → Bytes) (n : String) (c : goca.Issued)
      → SameEntries goca m m' n
      → HasIssued goca m n c
      → HasIssued goca m' n c
  HasIssued-same m m' n c same has = (same.0 ∙ has.0, same.1 ∙ has.1, same.2 ∙ has.2)

  any_missing-of_In :
      (nodes : List (String × Option goca.Cert)) (n : String)
      → IsNewNode nodes n
      → any_missing nodes ≡ true
  any_missing-of_In [] n i = absurd i
  any_missing-of_In ((name, none) ∷ nodes) n i = refl
  any_missing-of_In ((name, some crt) ∷ nodes) n (inl e) =
      let no : none ≡ some crt = ap (λ x. x.1) e in absurd cc
  any_missing-of_In ((name, some crt) ∷ nodes) n (inr i) = any_missing-of_In nodes n i

  In-of_any_missing :
      (nodes : List (String × Option goca.Cert))
      → any_missing nodes ≡ true
      → (n : String) × IsNewNode nodes n
  In-of_any_missing [] e = absurd cc
  In-of_any_missing ((name, none) ∷ nodes) e = (name, inl refl)
  In-of_any_missing ((name, some crt) ∷ nodes) e =
      let (n, i) = In-of_any_missing nodes e in (n, inr i)

  -- The order of the nodes does not matter.
  module _ (xs ys : List (String × Option goca.Cert))
      (same : (e : String × Option goca.Cert) → In e xs ↔ In e ys) where
    pub any_missing-same : any_missing xs ≡ any_missing ys
    any_missing-same = elim (Bool-cases (any_missing xs)) [
      | inl new ↦
          let (n, i) = In-of_any_missing xs new in
          new ∙ sym (any_missing-of_In ys n ((same (n, none)).0 i))
      | inr old ↦ elim (Bool-cases (any_missing ys)) [
        | inr old' ↦ old ∙ sym old'
        | inl new ↦
            let (n, i) = In-of_any_missing ys new in
            let e = any_missing-of_In xs n ((same (n, none)).1 i) in absurd (ground arith)
      ]
    ]

    pub IsReady-same :
        (Within : goca.World → Type 0) (ca : goca.Ca)
        → All (IsReady Within ca) ys
        → All (IsReady Within ca) xs
    IsReady-same Within ca ready =
        All-of-In (IsReady Within ca) xs
          (λ e i. All-In (IsReady Within ca) ys ready e ((same e).0 i))

    pub IsExtended-same :
        (Within : goca.World → Type 0) (ca : goca.Ca) (m m' : String → Bytes)
        → IsExtended Within ca xs m m'
        → IsExtended Within ca ys m m'
    IsExtended-same Within ca m m' ext = record {
      issued = λ n i. ext.issued n ((same (n, none)).1 i);
      unchanged = λ k out. ext.unchanged k (λ (n, i, key). out (n, (same (n, none)).0 i, key));
      kept = λ n. elim (ext.kept n) [
        | inl new ↦ inl ((same (n, none)).0 new)
        | inr before ↦ inr before
      ];
    }

  module _ (kube : Kube goca) (h : Opensearch) (ca : goca.Ca) where
    -- The loop reaches its end, and the secret that `data` points to is the extended one.
    pub record LoopReaches (Within : goca.World → Type 0) (nodes : List (String × Option goca.Cert))
        (first : Secret) (need : Bool) (m : String → Bytes) (r : Outcome LoopEnd × Store goca)
        : Type 0 where
      pub current : Secret
      pub contents : String → Bytes
      pub text : String
      pub store : Store goca
      pub within : Within store.world
      pub run : r ≡ (ok (reached current (need || any_missing nodes) text), store)
      pub same_meta : current.meta ≡ first.meta
      pub has_contents : current.contents ≡ some contents
      pub shown : store.entries "currentSecret" ≡ some (secret (some current))
      pub extended : IsExtended Within ca nodes m contents

    -- One round for a node without a certificate.
    new_node-round :
        (name : String) (nodes : List (String × Option goca.Cert)) (current : Secret) (need : Bool)
        (text : String) (s : Store goca) (m : String → Bytes) (c : goca.Issued) (w : goca.World)
        → current.contents ≡ some m
        → new_node_tls goca name (some ca) s.world ≡ (ok c, w)
        → diff_nodes goca kube h (some ca) ((name, none) ∷ nodes) current need text s
          ≡ diff_nodes goca kube h
              (some ca)
              nodes
              (record current { contents = some (write_map (issued_entries goca name c) m) })
              true
              (text <> ("Create node certificate " <> (name <> "\n")))
              (record {
                world = w;
                entries =
                    set_data goca "currentSecret"
                      (secret (
                        some (record current {
                          contents = some (write_map (issued_entries goca name c) m);
                        })))
                      s.entries;
              })
    unfolding diff_nodes next wrapped
    new_node-round name nodes current need text s m c w e issued = rw (issued, e) refl

    -- The entry of a new node, before the rest of the loop.
    IsExtended-new :
        (Within : goca.World → Type 0) (name : String) (nodes : List (String × Option goca.Cert))
        (c : goca.Issued) (m m' : String → Bytes) (w w' : goca.World)
        → Within w
        → goca.issue_certificate ca name (node_identity name) w ≡ (ok c, w')
        → IsExtended Within ca nodes (write_map (issued_entries goca name c) m) m'
        → IsExtended Within ca ((name, none) ∷ nodes) m m'
    IsExtended-new Within name nodes c m m' w w' now made rest =
        let own : IssuedFor Within ca m' name = elim (rest.kept name) [
          | inl new ↦ rest.issued name new
          | inr same ↦ (
            c,
            w,
            w',
            now,
            made,
            HasIssued-same (written goca name c m) m' name c same (written_own goca name c m),
          )
        ] in
        record {
          issued = λ n i. elim i [
            | inl e ↦ subst (IssuedFor Within ca m') (sym (ap (λ x. x.0) e)) own
            | inr later ↦ rest.issued n later
          ];
          unchanged = λ k out.
              rest.unchanged k (λ (n, i, key). out (n, inr i, key))
              ∙ written_old goca name c m k (λ key. out (name, inl refl, key));
          kept = λ n. elim (Bool-cases (n =? name)) [
            | inl is ↦ inl (inl (ap (λ (x : String). (x, none)) ((eq_iff n name).0 is)))
            | inr other ↦ elim (rest.kept n) [
              | inl new ↦ inl (inr new)
              | inr same ↦
                  let before =
                    written_other goca name c m n (λ e. absurd (ground (arith, eq_iff n name))) in
                  inr (same.0 ∙ before.0, same.1 ∙ before.1, same.2 ∙ before.2)
            ]
          ];
        }

    -- A node with a certificate adds nothing.
    IsExtended-old :
        (Within : goca.World → Type 0) (name : String) (crt : goca.Cert)
        (nodes : List (String × Option goca.Cert)) (m m' : String → Bytes)
        → IsExtended Within ca nodes m m'
        → IsExtended Within ca ((name, some crt) ∷ nodes) m m'
    IsExtended-old Within name crt nodes m m' rest = record {
      issued = λ n i. elim i [
        | inl e ↦ let no : none ≡ some crt = ap (λ x. x.1) e in absurd cc
        | inr later ↦ rest.issued n later
      ];
      unchanged = λ k out. rest.unchanged k (λ (n, i, key). out (n, inr i, key));
      kept = λ n. elim (rest.kept n) [ inl new ↦ inl (inr new) | inr before ↦ inr before ];
    }

    pub diff_nodes-LoopReaches :
        (Within : goca.World → Type 0) (nodes : List (String × Option goca.Cert)) (current : Secret)
        (need : Bool) (text : String) (s : Store goca) (m : String → Bytes)
        → Within s.world
        → All (IsReady Within ca) nodes
        → current.contents ≡ some m
        → s.entries "currentSecret" ≡ some (secret (some current))
        → LoopReaches Within nodes current need m
            (diff_nodes goca kube h (some ca) nodes current need text s)
    unfolding diff_nodes next wrapped
    diff_nodes-LoopReaches Within [] current need text s m now ready e shown = record {
      current = current;
      contents = m;
      text = text;
      store = s;
      within = now;
      run = rw (or_false need) refl;
      same_meta = refl;
      has_contents = e;
      shown = shown;
      extended = record {
        issued = λ n i. absurd i;
        unchanged = λ k n. refl;
        kept = λ n. inr (refl, refl, refl);
      };
    }
    diff_nodes-LoopReaches Within ((name, none) ∷ nodes) current need text s m now
          ((named, issue), ready) e shown =
        let (c, w', later, made) = issue s.world now in
        let issued = new_node_tls-issues name ca s.world named ∙ made in
        let m' = write_map (issued_entries goca name c) m in
        let current' : Secret = record current { contents = some m' } in
        let s' : Store goca = record {
          world = w';
          entries = set_data goca "currentSecret" (secret (some current')) s.entries;
        } in
        let rest =
          diff_nodes-LoopReaches Within nodes current' true
            (text <> ("Create node certificate " <> (name <> "\n"))) s' m' later ready refl refl in
        record {
          current = rest.current;
          contents = rest.contents;
          text = rest.text;
          store = rest.store;
          within = rest.within;
          run =
              rw (or_true need)
                (new_node-round name nodes current need text s m c w' e issued ∙ rest.run);
          same_meta = rest.same_meta;
          has_contents = rest.has_contents;
          shown = rest.shown;
          extended =
              IsExtended-new Within name nodes c m rest.contents s.world w' now made rest.extended;
        }
    diff_nodes-LoopReaches Within ((name, some crt) ∷ nodes) current need text s m now
          (valid, ready) e shown =
        let (w', later, run) = valid s.world now in
        let s' : Store goca = record { world = w'; entries = s.entries } in
        let rest = diff_nodes-LoopReaches Within nodes current need text s' m later ready e shown in
        record {
          current = rest.current;
          contents = rest.contents;
          text = rest.text;
          store = rest.store;
          within = rest.within;
          run = rw run rest.run;
          same_meta = rest.same_meta;
          has_contents = rest.has_contents;
          shown = rest.shown;
          extended = IsExtended-old Within name crt nodes m rest.contents rest.extended;
        }
