-- ===== src/Helper/Settings/Values.antt =====
-- `MergeSettings`, key by key.
use opensearch_operator.Common.{
  ◌≡◌, refl, sym, ◌∙◌, String, eq_iff, Option, none, some, List, [], ◌∷◌, In, map, inl, inr,
  Option-cases, arith,
}
use opensearch_operator.Common.Outcome.{
  Outcome, ok, ◌>>=◌, >>=-eq-ok, wrapping, wrapping-eq-ok, ok-injective,
}
use opensearch_operator.Common.Maps.{In-of_lookup, Entries, GoMap, find, lookup}
use opensearch_operator.Funk.{Funk, IsLawful}
use opensearch_operator.Helper.Settings.{
  Yaml, merge_contents, copy_keys, merge_keys, merge_settings,
}
use opensearch_operator.Helper.Settings.Loops.{
  lookup-copy_keys-In, lookup-copy_keys_out, lookup-merge_keys-In, lookup-merge_keys_out,
  merge_keys_total,
}

not-In_of_lookup : (m : Entries String) (k : String) → lookup k m ≡ none → ¬ In k (map (λ e. e.0) m)
not-In_of_lookup [] k e i = i
not-In_of_lookup ((j, w) ∷ m) k e (inl same) = absurd (ground (arith, eq_iff j k))
not-In_of_lookup ((j, w) ∷ m) k e (inr i) = not-In_of_lookup m k (ground (arith, eq_iff j k)) i

module _ (yaml : Yaml) where
  -- The text is a YAML text of the tree.
  abbrev pub Reads : String → yaml.Tree → Type 0
  Reads text tree = (c : yaml.Config) × (yaml.new_config text ≡ ok c) × (yaml.unpack c ≡ ok tree)

  -- The text writes the tree of the first text, filled by mergo from the tree of the second one.
  pub record IsMerge (first second text : String) : Type 0 where
    pub above : yaml.Tree
    pub below : yaml.Tree
    pub filled : yaml.Tree
    pub reads_above : Reads first above
    pub reads_below : Reads second below
    pub fills : yaml.merge above below ≡ ok filled
    pub writes : yaml.marshal filled ≡ ok text

  -- What a merged map holds under a key, from what the two maps hold: the value of the one that has
  -- it, or the merge of both, where the first map's contents win.
  abbrev pub IsValue : (first second result : Option String) → Type 0
  IsValue none none o = o ≡ none
  IsValue (some v) none o = o ≡ some v
  IsValue none (some w) o = o ≡ some w
  IsValue (some v) (some w) o = (text : String) × (o ≡ some text) × IsMerge v w text

  -- The same as a computation.
  abbrev pub merged_value : String → Option String → Option String → Outcome (Option String)
  merged_value k none none = ok none
  merged_value k (some v) none = ok (some v)
  merged_value k none (some w) = ok (some w)
  merged_value k (some v) (some w) = merge_contents yaml k v w >>= λ c. ok (some c)

  merge_contents-IsMerge :
      (k v w : String) {text : String} → merge_contents yaml k v w ≡ ok text → IsMerge v w text
  unfolding merge_contents
  merge_contents-IsMerge k v w {text} e =
      let (c, read, e₁) = >>=-eq-ok (wrapping _ (yaml.new_config v)) _ e in
      let (d, read', e₂) = >>=-eq-ok (wrapping _ (yaml.new_config w)) _ e₁ in
      let (a, tree, e₃) = >>=-eq-ok (wrapping _ (yaml.unpack c)) _ e₂ in
      let (b, tree', e₄) = >>=-eq-ok (wrapping _ (yaml.unpack d)) _ e₃ in
      let (r, run, e₅) = >>=-eq-ok (wrapping _ (yaml.merge a b)) _ e₄ in
      record {
        above = a;
        below = b;
        filled = r;
        reads_above = (c, wrapping-eq-ok _ _ read, wrapping-eq-ok _ _ tree);
        reads_below = (d, wrapping-eq-ok _ _ read', wrapping-eq-ok _ _ tree');
        fills = wrapping-eq-ok _ _ run;
        writes = wrapping-eq-ok _ _ e₅;
      }

  pub merged_value-IsValue :
      (k : String) (v w o : Option String) → merged_value k v w ≡ ok o → IsValue v w o
  merged_value-IsValue k none none o e = sym (ok-injective e)
  merged_value-IsValue k (some v) none o e = sym (ok-injective e)
  merged_value-IsValue k none (some w) o e = sym (ok-injective e)
  merged_value-IsValue k (some v) (some w) o e =
      let (text, run, e') = >>=-eq-ok (merge_contents yaml k v w) _ e in
      (text, sym (ok-injective e'), merge_contents-IsMerge k v w run)

  -- A merge of two contents that both maps have succeeded.
  pub merged_both :
      (k v w : String) (o : Option String)
      → merged_value k (some v) (some w) ≡ ok o
      → (c : String) × (merge_contents yaml k v w ≡ ok c)
  merged_both k v w o e = let (c, run, _) = >>=-eq-ok (merge_contents yaml k v w) _ e in (c, run)

  -- The merge under a key depends on what the two maps hold there alone.
  pub at_keys :
      (k : String) {v v' w w' : Option String} {o : Outcome (Option String)}
      → v ≡ v'
      → w ≡ w'
      → merged_value k v w ≡ o
      → merged_value k v' w' ≡ o
  at_keys k e e' run = rw (← e, ← e') run

  module _ (f : Funk) (lawful : IsLawful f) where
    has_key : (m : Entries String) (k : String) {v : String} → lookup k m ≡ some v → In k (f.keys m)
    has_key m k e = (lawful.in-keys m k).1 (In-of_lookup m k _ e)

    lacks_key : (m : Entries String) (k : String) → lookup k m ≡ none → ¬ In k (f.keys m)
    lacks_key m k e i = not-In_of_lookup m k e ((lawful.in-keys m k).0 i)

    module _ (a b : Entries String) where
      -- The keys of one map only, for each of the two, and the common ones.
      abbrev only_a : List String
      only_a = (f.difference_string (f.keys a) (f.keys b)).0

      abbrev only_b : List String
      only_b = (f.difference_string (f.keys a) (f.keys b)).1

      abbrev common : List String
      common = f.intersect_string (f.keys a) (f.keys b)

      -- The result before the loop over the common keys.
      abbrev start : Entries String
      start = copy_keys yaml b only_b (copy_keys yaml a only_a [])

      not_common :
          {r : Entries String} (k : String)
          → merge_keys yaml a b common start ≡ ok r
          → ¬ (In k (f.keys a) × In k (f.keys b))
          → lookup k r ≡ lookup k start
      not_common k run no_both =
          lookup-merge_keys_out yaml a b common start k run
            (λ i. no_both ((lawful.in-intersect _ _ k).0 i))

      not_only_b : (k : String) → ¬ (In k (f.keys b) × ¬ In k (f.keys a)) → ¬ In k only_b
      not_only_b k h i = h ((lawful.in-difference_right _ _ k).0 i)

      value_of :
          {r : Entries String} (k : String) (v w : Option String)
          → merge_keys yaml a b common start ≡ ok r
          → lookup k a ≡ v
          → lookup k b ≡ w
          → merged_value k v w ≡ ok (lookup k r)
      value_of k none none run ea eb = rw (
          not_common k run (λ i. lacks_key a k ea i.0)
          ∙ lookup-copy_keys_out yaml b only_b _ k (not_only_b k (λ i. lacks_key b k eb i.0))
          ∙ lookup-copy_keys_out yaml a only_a [] k
              (λ i. lacks_key a k ea ((lawful.in-difference_left _ _ k).0 i).0))
      value_of k (some v) none run ea eb = rw (
        not_common k run (λ i. lacks_key b k eb i.1)
            ∙ lookup-copy_keys_out yaml b only_b _ k (not_only_b k (λ i. lacks_key b k eb i.0))
            ∙ lookup-copy_keys-In yaml a only_a [] k
                ((lawful.in-difference_left _ _ k).1 (has_key a k ea, lacks_key b k eb)),
        ea,
      )
      value_of k none (some w) run ea eb = rw (
        not_common k run (λ i. lacks_key a k ea i.0)
            ∙ lookup-copy_keys-In yaml b only_b _ k
                ((lawful.in-difference_right _ _ k).1 (has_key b k eb, lacks_key a k ea)),
        eb,
      )
      value_of k (some v) (some w) run ea eb =
          let (c, got, e) =
            lookup-merge_keys-In yaml a b common start k run
              ((lawful.in-intersect _ _ k).1 (has_key a k ea, has_key b k eb)) in
          let got' : merge_contents yaml k v w ≡ ok c = rw (ea, eb) at got in rw (got', e)

      pub merge_settings-entries :
          {r : GoMap String}
          → merge_settings yaml f (some a) (some b) ≡ ok r
          → (t : Entries String) × (r ≡ some t) × (merge_keys yaml a b common start ≡ ok t)
      unfolding merge_settings
      merge_settings-entries {r} e =
          let (t, run, same) = >>=-eq-ok (merge_keys yaml a b common start) _ e in
          let e' : r ≡ some t = cc in (t, e', run)

    pub alone_left : (k : String) (o : Option String) → merged_value k o none ≡ ok o
    alone_left k none = refl
    alone_left k (some v) = refl

    alone_right : (k : String) (o : Option String) → merged_value k none o ≡ ok o
    alone_right k none = refl
    alone_right k (some v) = refl

    pub merge_settings-merged_value :
        (m1 m2 : GoMap String) {r : GoMap String} (k : String)
        → merge_settings yaml f m1 m2 ≡ ok r
        → merged_value k (find k m1) (find k m2) ≡ ok (find k r)
    unfolding merge_settings
    merge_settings-merged_value none m2 {r} k e =
        let same : m2 ≡ r = cc in alone_right k (find k m2) ∙ rw same
    merge_settings-merged_value (some a) none {r} k e =
        let same : some a ≡ r = cc in alone_left k (lookup k a) ∙ rw (← same)
    merge_settings-merged_value (some a) (some b) {r} k e =
        let (t, same, run) = merge_settings-entries a b e in
        rw same (value_of a b k _ _ run refl refl)

    -- Where MergeSettings returns a map, this map holds under every key the contents of the map
    -- that has it alone; where both have it, a text of the tree that mergo makes of the first map's
    -- contents, filled from those of the second one; and nothing where none has it. It assumes the
    -- laws of go-funk.
    pub merge_settings-value :
        (m1 m2 : GoMap String) {r : GoMap String} (k : String)
        → merge_settings yaml f m1 m2 ≡ ok r
        → IsValue (find k m1) (find k m2) (find k r)
    merge_settings-value m1 m2 {r} k e =
        merged_value-IsValue k (find k m1) (find k m2) (find k r)
          (merge_settings-merged_value m1 m2 k e)

    lookup_of_In :
        (m : Entries String) (k : String) → In k (f.keys m) → (v : String) × (lookup k m ≡ some v)
    lookup_of_In m k i = elim (Option-cases (lookup k m)) [
      | inl missing ↦ absurd (lacks_key m k missing i)
      | inr (v, e) ↦ (v, e)
    ]

    -- MergeSettings returns a map where the contents of every key that both maps have can be
    -- merged. It assumes the laws of go-funk.
    pub merge_settings_total :
        (m1 m2 : GoMap String)
        → ((k v w : String)
            → find k m1 ≡ some v
            → find k m2 ≡ some w
            → (c : String) × (merge_contents yaml k v w ≡ ok c))
        → (r : GoMap String) × (merge_settings yaml f m1 m2 ≡ ok r)
    unfolding merge_settings
    merge_settings_total none m2 good = (m2, refl)
    merge_settings_total (some a) none good = (some a, refl)
    merge_settings_total (some a) (some b) good =
        let (r, run) = merge_keys_total yaml a b (common a b) (start a b) (λ k i.
          let (in_a, in_b) = (lawful.in-intersect _ _ k).0 i in
          let (v, ea) = lookup_of_In a k in_a in
          let (w, eb) = lookup_of_In b k in_b in
          let (c, e) = good k v w ea eb in (c, rw (ea, eb) e)) in
        (some r, rw run)
