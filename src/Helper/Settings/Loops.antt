-- ===== src/Helper/Settings/Loops.antt =====
-- What the loops of `MergeSettings` leave under a key.
use opensearch_operator.Common.{
  ◌≡◌, refl, sym, ◌∙◌, String, ◌=?◌, eq_iff, List, [], ◌∷◌, In, inl, inr, Bool-cases, some, arith,
}
use opensearch_operator.Common.Outcome.{Outcome, ok, >>=-eq-ok}
use opensearch_operator.Common.Maps.{Entries, lookup, insert, lookup-insert}
use opensearch_operator.Helper.Settings.{Yaml, value, merge_contents, copy_keys, merge_keys}

module _ (yaml : Yaml) where
  lookup-copy_keys_set :
      (m : Entries String) (keys : List String) (res : Entries String) (k : String)
      → lookup k res ≡ some (value (lookup k m))
      → lookup k (copy_keys yaml m keys res) ≡ some (value (lookup k m))
  unfolding copy_keys
  lookup-copy_keys_set m [] res k e = e
  lookup-copy_keys_set m (key ∷ keys) res k e =
      lookup-copy_keys_set m keys _ k
        (ground (arith, eq_iff key k, lookup-insert key k (value (lookup key m)) res))

  pub lookup-copy_keys-In :
      (m : Entries String) (keys : List String) (res : Entries String) (k : String)
      → In k keys
      → lookup k (copy_keys yaml m keys res) ≡ some (value (lookup k m))
  unfolding copy_keys
  lookup-copy_keys-In m [] res k i = absurd i
  lookup-copy_keys-In m (key ∷ keys) res k (inl e) =
      lookup-copy_keys_set m keys _ k
        (ground (arith, eq_iff key k, lookup-insert key k (value (lookup key m)) res))
  lookup-copy_keys-In m (key ∷ keys) res k (inr i) = lookup-copy_keys-In m keys _ k i

  pub lookup-copy_keys_out :
      (m : Entries String) (keys : List String) (res : Entries String) (k : String)
      → ¬ In k keys
      → lookup k (copy_keys yaml m keys res) ≡ lookup k res
  unfolding copy_keys
  lookup-copy_keys_out m [] res k out = refl
  lookup-copy_keys_out m (key ∷ keys) res k out =
      lookup-copy_keys_out m keys _ k (λ i. out (inr i))
      ∙ ground (
        arith,
        eq_iff key k,
        lookup-insert key k (value (lookup key m)) res,
        λ (e : k ≡ key). out (inl e),
      )

  module _ (m1 m2 : Entries String) where
    abbrev contents : String → Outcome String
    contents k = merge_contents yaml k (value (lookup k m1)) (value (lookup k m2))

    lookup-merge_keys_set :
        (keys : List String) (res : Entries String) {r : Entries String} (k c : String)
        → merge_keys yaml m1 m2 keys res ≡ ok r
        → contents k ≡ ok c
        → lookup k res ≡ some c
        → lookup k r ≡ some c
    unfolding merge_keys
    lookup-merge_keys_set [] res k c run got e = ground arith
    lookup-merge_keys_set (key ∷ keys) res k c run got e =
        let (d, first, later) = >>=-eq-ok (contents key) _ run in
        lookup-merge_keys_set keys _ k c later got (
          lookup-insert key k d res ∙ elim (Bool-cases (key =? k)) [
            | inl same ↦
                let e' : key ≡ k = (eq_iff key k).0 same in let d≡c : d ≡ c = cc in rw (same, d≡c)
            | inr other ↦ rw other e
          ])

    -- Under a common key stands the merge of the two contents.
    pub lookup-merge_keys-In :
        (keys : List String) (res : Entries String) {r : Entries String} (k : String)
        → merge_keys yaml m1 m2 keys res ≡ ok r
        → In k keys
        → (c : String) × (contents k ≡ ok c) × (lookup k r ≡ some c)
    unfolding merge_keys
    lookup-merge_keys-In [] res k run i = absurd i
    lookup-merge_keys-In (key ∷ keys) res k run (inl e) =
        let (d, first, later) = >>=-eq-ok (contents key) _ run in
        let own : contents k ≡ ok d = cc in
        (
          d,
          own,
          lookup-merge_keys_set keys _ k d later own
              (lookup-insert key k d res ∙ rw ((eq_iff key k).1 (sym e))),
        )
    lookup-merge_keys-In (key ∷ keys) res k run (inr i) =
        let (d, first, later) = >>=-eq-ok (contents key) _ run in
        lookup-merge_keys-In keys _ k later i

    pub lookup-merge_keys_out :
        (keys : List String) (res : Entries String) {r : Entries String} (k : String)
        → merge_keys yaml m1 m2 keys res ≡ ok r
        → ¬ In k keys
        → lookup k r ≡ lookup k res
    unfolding merge_keys
    lookup-merge_keys_out [] res {r} k run out = let e : res ≡ r = cc in rw e
    lookup-merge_keys_out (key ∷ keys) res k run out =
        let (d, first, later) = >>=-eq-ok (contents key) _ run in
        lookup-merge_keys_out keys _ k later (λ i. out (inr i))
        ∙ lookup-insert key k d res
        ∙ elim (Bool-cases (key =? k)) [
          | inl same ↦ absurd (out (inl (sym ((eq_iff key k).0 same))))
          | inr other ↦ rw other
        ]

    -- The loop succeeds where the contents of each of its keys can be merged.
    pub merge_keys_total :
        (keys : List String) (res : Entries String)
        → ((k : String) → In k keys → (c : String) × (contents k ≡ ok c))
        → (r : Entries String) × (merge_keys yaml m1 m2 keys res ≡ ok r)
    unfolding merge_keys
    merge_keys_total [] res good = (res, refl)
    merge_keys_total (key ∷ keys) res good =
        let (c, run) = good key (inl refl) in
        let (r, later) = merge_keys_total keys (insert key c res) (λ k i. good k (inr i)) in
        (r, rw run later)
