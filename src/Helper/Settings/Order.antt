-- ===== src/Helper/Settings/Order.antt =====
-- A Go map has no order: each run goes through the keys in an order of its own. `MergeSettings` is
-- stated here on the maps that such runs have in common.
use text.Mathlib.TextEquality.{IsScalar-prop}
use mathlib.Core.Quot
use mathlib.Core.Quot.{Quot, Quot-set}
use opensearch_operator.Common.{◌≡◌, sym, ap, ◌∙◌, String, Option}
use opensearch_operator.Common.Outcome.{ok, ok-injective}
use opensearch_operator.Common.Maps.{GoMap, find}
use opensearch_operator.Funk.{Funk, IsLawful}
use opensearch_operator.Helper.Settings.{Yaml, merge_settings}
use opensearch_operator.Helper.Settings.Values.{
  merged_both, at_keys, merge_settings-merged_value, merge_settings_total,
}

-- Two maps hold the same, in whatever order.
abbrev pub SameMap : GoMap String → GoMap String → Type 0
SameMap a b = (k : String) → find k a ≡ find k b

-- A map without its order. A nil map and an empty one are one map here, as they are to a reader.
abbrev pub Unordered : Type 0
Unordered = Quot SameMap

abbrev pub unordered : GoMap String → Unordered
unordered m = Quot.mk m

-- What a reader finds does not depend on the order.
reading : String → Unordered → Option String
reading k = Quot.lift (hlevel IsScalar-prop) (find k) (λ a b same. same k)

SameMap-of : (a b : GoMap String) → unordered a ≡ unordered b → SameMap a b
unfolding reading
SameMap-of a b e k = ap (reading k) e

module _ (yaml : Yaml) where
  module _ (f g : Funk) (f_lawful : IsLawful f) (g_lawful : IsLawful g) where
    -- Where MergeSettings returns a map, it also returns one on maps that are the same up to the
    -- order, with another order of the keys in go-funk, and the two results are the same up to the
    -- order. It assumes the laws of go-funk for both orders.
    pub merge_settings-unordered :
        (a a' b b' : GoMap String) {r : GoMap String}
        → unordered a ≡ unordered a'
        → unordered b ≡ unordered b'
        → merge_settings yaml f a b ≡ ok r
        → (r' : GoMap String) × (merge_settings yaml g a' b' ≡ ok r') × (unordered r' ≡ unordered r)
    merge_settings-unordered a a' b b' {r} a_is b_is run =
        let same_a = SameMap-of a a' a_is in
        let same_b = SameMap-of b b' b_is in
        let value = λ (k : String). merge_settings-merged_value yaml f f_lawful a b k run in
        let (r', run') = merge_settings_total yaml g g_lawful a' b' λ k v w has_v has_w.
          merged_both yaml k v w (find k r)
            (at_keys yaml k (same_a k ∙ has_v) (same_b k ∙ has_w) (value k)) in
        let value' = λ (k : String). merge_settings-merged_value yaml g g_lawful a' b' k run' in
        (
          r',
          run',
          Quot.sound
              λ k. ok-injective (sym (value' k) ∙ at_keys yaml k (same_a k) (same_b k) (value k)),
        )
