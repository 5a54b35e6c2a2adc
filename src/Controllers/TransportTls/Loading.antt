-- ===== src/Controllers/TransportTls/Loading.antt =====
-- The loop of `Read` over the node names, before and after new nodes got their certificates.
use opensearch_operator.Common.{
  All-of-In, All-In, ap, ◌≡◌, ◌≢◌, ◌⊎◌, inl, inr, refl, sym, ◌∙◌, true, false, Bool-cases, String,
  ◌<>◌, ◌=?◌, eq_iff, Option, none, some, List, [], ◌∷◌, is_some, All, In, map,
}
use Prim.Native.String.{count}
use opensearch_operator.Common.Maps.{insert}
use opensearch_operator.Common.Outcome.{Error, Outcome, ok, err, panic, wrap}
use opensearch_operator.Api.Types.{Opensearch}
use opensearch_operator.Pki.{Goca, Bytes}
use opensearch_operator.Controllers.State.{Secret, Kube}
use opensearch_operator.Controllers.TransportTls.Keys.{IsKeyOf-stem}
use opensearch_operator.Controllers.TransportTls.NewNodes.{
  node_identity, any_missing, IsNewNode, IsNewKey, NotDue, IsReady, IsExtended,
}
use opensearch_operator.Controllers.TransportTls.Steps.{load_nodes}

outcome_cases :
    {A : Type 0} (o : Outcome A)
    → ((a : A) × (o ≡ ok a)) ⊎ (((e : Error) × (o ≡ err e)) ⊎ ((p : String) × (o ≡ panic p)))
outcome_cases (ok a) = inl (a, refl)
outcome_cases (err e) = inr (inl (e, refl))
outcome_cases (panic p) = inr (inr (p, refl))

abbrev pub IsNodeName : String → Type 0
IsNodeName n = (n ≢ "ca") × (n ≢ "admin")

module _ (goca : Goca) where
  -- The bytes are there and hold the certificate.
  abbrev pub HoldsCert : Bytes → goca.Cert → Type 0
  HoldsCert b crt = (is_some b ≡ true) × (goca.load_cert_from_pem b ≡ ok (some crt))

  -- The bytes hold a certificate that is not found due.
  abbrev pub Loads : (goca.World → Type 0) → Bytes → Type 0
  Loads Within b = (crt : goca.Cert) × HoldsCert b crt × NotDue goca Within crt

  -- What goca documents: a certificate that it issued can be read back.
  abbrev pub LoadsIssued : Type 0
  LoadsIssued =
      (c : goca.Issued)
      → (crt : goca.Cert) × (goca.load_cert_from_pem (some (goca.certificate c)) ≡ ok (some crt))

  -- A certificate that the CA issues meanwhile for one of the new nodes is not found due.
  abbrev pub IssuesValid :
      (goca.World → Type 0) → goca.Ca → List (String × Option goca.Cert) → Type 0
  IssuesValid Within ca nodes =
      (n : String) (c : goca.Issued) (w w' : goca.World) (crt : goca.Cert)
      → IsNewNode goca nodes n
      → Within w
      → goca.issue_certificate ca n (node_identity n) w ≡ (ok c, w')
      → goca.load_cert_from_pem (some (goca.certificate c)) ≡ ok (some crt)
      → NotDue goca Within crt

  -- A node's entry in the result is one that was loaded, if there is any, and none of the keys of
  -- the CA and of the administrator are the node's.
  abbrev pub IsFrom : (String → Bytes) → String × Option goca.Cert → Type 0
  IsFrom m (name, none) = IsNodeName name
  IsFrom m (name, some crt) = IsNodeName name × HoldsCert (m (name <> ".crt")) crt

  abbrev names_of : List (String × Option goca.Cert) → List String
  names_of = map λ e. e.0

  insert-IsFrom :
      (m : String → Bytes) (name : String) (o : Option goca.Cert)
      (nodes : List (String × Option goca.Cert))
      → IsFrom m (name, o)
      → All (IsFrom m) nodes
      → All (IsFrom m) (insert name o nodes)
  insert-IsFrom m name o [] f fs = (f, tt)
  insert-IsFrom m name o ((j, w) ∷ nodes) f (g, fs) = elim (Bool-cases (j =? name)) [
    | inl same ↦ rw same (f, fs)
    | inr other ↦ rw other (g, insert-IsFrom m name o nodes f fs)
  ]

  insert-own :
      (name : String) (o : Option goca.Cert) (nodes : List (String × Option goca.Cert))
      → In name (names_of (insert name o nodes))
  insert-own name o [] = inl refl
  insert-own name o ((j, w) ∷ nodes) = elim (Bool-cases (j =? name)) [
    | inl same ↦ rw same (inl refl)
    | inr other ↦ rw other (inr (insert-own name o nodes))
  ]

  insert-others :
      (k name : String) (o : Option goca.Cert) (nodes : List (String × Option goca.Cert))
      → In k (names_of nodes)
      → In k (names_of (insert name o nodes))
  insert-others k name o [] i = absurd i
  insert-others k name o ((j, w) ∷ nodes) i = elim (Bool-cases (j =? name)) [
    | inr other ↦
        rw other (elim i [ inl e ↦ inl e | inr later ↦ inr (insert-others k name o nodes later) ])
    | inl same ↦
        rw same (elim i [ inl e ↦ inl (e ∙ (eq_iff j name).0 same) | inr later ↦ inr later ])
  ]

  -- Entries of which every one has a certificate that is not found due.
  abbrev IsValid : (goca.World → Type 0) → String × Option goca.Cert → Type 0
  IsValid Within (name, none) = ⊥
  IsValid Within (name, some crt) = NotDue goca Within crt

  insert-IsValid :
      (Within : goca.World → Type 0) (name : String) (crt : goca.Cert)
      (nodes : List (String × Option goca.Cert))
      → NotDue goca Within crt
      → All (IsValid Within) nodes
      → All (IsValid Within) (insert name (some crt) nodes)
  insert-IsValid Within name crt [] v vs = (v, tt)
  insert-IsValid Within name crt ((j, w) ∷ nodes) v (u, vs) = elim (Bool-cases (j =? name)) [
    | inl same ↦ rw same (v, vs)
    | inr other ↦ rw other (u, insert-IsValid Within name crt nodes v vs)
  ]

  valid-IsReady :
      (Within : goca.World → Type 0) (ca : goca.Ca) (nodes : List (String × Option goca.Cert))
      → All (IsValid Within) nodes
      → All (IsReady goca Within ca) nodes × (any_missing goca nodes ≡ false)
  valid-IsReady Within ca [] vs = (tt, refl)
  valid-IsReady Within ca ((name, none) ∷ nodes) vs = absurd vs.0
  valid-IsReady Within ca ((name, some crt) ∷ nodes) (v, vs) =
      let (ready, all) = valid-IsReady Within ca nodes vs in ((v, ready), all)

  -- A name of the result is that of a new node, or one whose certificate loads.
  new_or_Loads :
      (Within : goca.World → Type 0) (ca : goca.Ca) (m : String → Bytes) (n : String)
      (nodes : List (String × Option goca.Cert))
      → All (IsFrom m) nodes
      → All (IsReady goca Within ca) nodes
      → In n (names_of nodes)
      → IsNewNode goca nodes n ⊎ Loads Within (m (n <> ".crt"))
  new_or_Loads Within ca m n [] fs rs i = absurd i
  new_or_Loads Within ca m n ((j, none) ∷ nodes) (f, fs) (r, rs) (inl e) =
      inl (inl (ap (λ (x : String). (x, none)) e))
  new_or_Loads Within ca m n ((j, none) ∷ nodes) (f, fs) (r, rs) (inr i) =
      elim (new_or_Loads Within ca m n nodes fs rs i) [
        | inl new ↦ inl (inr new)
        | inr old ↦ inr old
      ]
  new_or_Loads Within ca m n ((j, some w) ∷ nodes) (f, fs) (r, rs) (inl e) = inr (w, rw e f.1, r)
  new_or_Loads Within ca m n ((j, some w) ∷ nodes) (f, fs) (r, rs) (inr i) =
      elim (new_or_Loads Within ca m n nodes fs rs i) [
        | inl new ↦ inl (inr new)
        | inr old ↦ inr old
      ]

  -- No key with the stem is written for a new node.
  pub stem-NotNew :
      (stem ending : String)
      → count ending ≡ 4
      → ((n : String) → IsNodeName n → n ≢ stem)
      → (m : String → Bytes) (nodes : List (String × Option goca.Cert)) → All (IsFrom m) nodes
      → ¬ IsNewKey goca nodes (stem <> ending)
  stem-NotNew stem ending e other m nodes fs (n, i, key) =
      other n (All-In (IsFrom m) nodes fs (n, none) i) (sym (IsKeyOf-stem n stem ending e key))

  module _ (kube : Kube goca) (h : Opensearch) where
    -- What `Read` found in the secret.
    load_nodes-names :
        (s : Secret) (m : String → Bytes) (names : List String)
        (found : List (String × Option goca.Cert)) {nodes : List (String × Option goca.Cert)}
        → s.contents ≡ some m
        → load_nodes goca kube h s names found ≡ ok nodes
        → All IsNodeName names
        → All (IsFrom m) found
        → All (IsFrom m) nodes
          × ((n : String) → In n names ⊎ In n (names_of found) → In n (names_of nodes))
    unfolding load_nodes
    load_nodes-names s m [] found {nodes} has e ps fs =
        let same : found ≡ nodes = cc in
        (rw (← same) fs, λ n i. elim i [ inl none_left ↦ absurd none_left | inr j ↦ rw (← same) j ])
    load_nodes-names s m (name ∷ names) found {nodes} has e (p, ps) fs =
        let step : (o : Option goca.Cert)
            → IsFrom m (name, o)
            → load_nodes goca kube h s names (insert name o found) ≡ ok nodes
            → All (IsFrom m) nodes
              × ((n : String)
                  → In n (name ∷ names) ⊎ In n (names_of found)
                  → In n (names_of nodes)) =
          λ o f e'.
            let (all, reach) =
              load_nodes-names s m names (insert name o found) has e' ps
                (insert-IsFrom m name o found f fs) in
            (
              all,
              λ n i. elim i [
                | inl (inl own) ↦ reach n (inr (rw own (insert-own name o found)))
                | inl (inr later) ↦ reach n (inl later)
                | inr before ↦ reach n (inr (insert-others n name o found before))
              ],
            ) in
        elim (Bool-cases (is_some (m (name <> ".crt")))) [
          | inr absent ↦ step none p (rw (has, absent) at e)
          | inl present ↦ elim (outcome_cases (goca.load_cert_from_pem (m (name <> ".crt")))) [
            | inl (none, run) ↦ step none p (rw (has, present, run) at e)
            | inl (some crt, run) ↦
                step (some crt) (p, (present, run)) (rw (has, present, run) at e)
            | inr (inl (x, run)) ↦
                let no_value : ◌≡◌ {A = Outcome (List (String × Option goca.Cert))}
                    (err (wrap ("Error when load node certificate " <> name) x)) (ok nodes) =
                  rw (has, present, run) at e in
                absurd cc
            | inr (inr (x, run)) ↦
                let no_value : panic x ≡ ok nodes = rw (has, present, run) at e in absurd cc
          ]
        ]

    pub load_nodes-IsFrom :
        (s : Secret) (m : String → Bytes) (names : List String)
        {nodes : List (String × Option goca.Cert)}
        → s.contents ≡ some m
        → load_nodes goca kube h s names [] ≡ ok nodes
        → All IsNodeName names
        → All (IsFrom m) nodes
    load_nodes-IsFrom s m names has e ps = (load_nodes-names s m names [] has e ps tt).0

    -- Where every certificate is there and loads, none of the result is found due.
    load_nodes_complete :
        (Within : goca.World → Type 0) (s : Secret) (m : String → Bytes) (names : List String)
        (found : List (String × Option goca.Cert))
        → s.contents ≡ some m
        → All (λ n. Loads Within (m (n <> ".crt"))) names
        → All (IsValid Within) found
        → (nodes : List (String × Option goca.Cert)) × (load_nodes goca kube h s names found
            ≡ ok nodes)
          × All (IsValid Within) nodes
    unfolding load_nodes
    load_nodes_complete Within s m [] found has loads vs = (found, refl, vs)
    load_nodes_complete Within s m (name ∷ names) found has ((crt, (present, run), v), loads) vs =
        let (nodes, rest, complete) =
          load_nodes_complete Within s m names (insert name (some crt) found) has loads
            (insert-IsValid Within name crt found v vs) in
        (nodes, rw (has, present, run) rest, complete)

    -- The extended secret has a certificate for every node that `Read` looks for, and none is found
    -- due.
    pub extended_complete :
        LoadsIssued
        → (Within : goca.World → Type 0) (ca : goca.Ca) (s t : Secret) (m m' : String → Bytes)
          (names : List String) {nodes : List (String × Option goca.Cert)}
        → s.contents ≡ some m
        → t.contents ≡ some m'
        → load_nodes goca kube h s names [] ≡ ok nodes
        → All IsNodeName names
        → All (IsReady goca Within ca) nodes
        → IssuesValid Within ca nodes
        → IsExtended goca Within ca nodes m m'
        → (nodes' : List (String × Option goca.Cert)) × (load_nodes goca kube h t names []
            ≡ ok nodes')
          × All (IsReady goca Within ca) nodes'
          × (any_missing goca nodes' ≡ false)
    extended_complete issued Within ca s t m m' names {nodes} has has' e ps ready fresh ext =
        let (all, reach) = load_nodes-names s m names [] has e ps tt in
        let new_loads : (n : String) → IsNewNode goca nodes n → Loads Within (m' (n <> ".crt")) =
          λ n new.
            let (c, w, w', now, made, entries) = ext.issued n new in
            let (crt, is_crt) = issued c in
            (crt, rw entries.0 (refl, is_crt), fresh n c w w' crt new now made is_crt) in
        let loads : (n : String) → In n names → Loads Within (m' (n <> ".crt")) = λ n i.
          elim (new_or_Loads Within ca m n nodes all ready (reach n (inl i))) [
            | inl new ↦ new_loads n new
            | inr (crt, held, valid) ↦ elim (ext.kept n) [
              | inl new ↦ new_loads n new
              | inr same ↦ (crt, rw same.0 held, valid)
            ]
          ] in
        let (nodes', run, vs) =
          load_nodes_complete Within t m' names [] has' (All-of-In _ names loads) tt in
        let (ready', complete) = valid-IsReady Within ca nodes' vs in
        (nodes', run, ready', complete)
