-- ===== src/Helper/Merge.antt =====
-- pkg/helper/merge.go: `Merge`, over the external `mergo.Merge`.
use opensearch_operator.Common.{
  ◌≡◌, refl, ◌=?◌, String, Option, none, some, List, [], ◌∷◌, if◌then◌else◌,
}
use opensearch_operator.Common.Outcome.{Outcome, ok, err, foreign, ◌>>=◌}

-- What is passed as `dst any`: nil, a value that is no pointer, or a pointer to a value.
pub data Destination {ℓ} (A : Type ℓ) : Type ℓ where
  nil : Destination A
  value pointer : A → Destination A

-- What a destination holds.
abbrev pub pointee {ℓ} : {A : Type ℓ} → Destination A → Option A
pointee nil = none
pointee (value a) = some a
pointee (pointer a) = some a

-- `mergo.Merge(dst, src)`, with what `dst` points to after the call.
abbrev pub Mergo {ℓ} : Type ℓ → Type ℓ
Mergo A = Destination A → A → Outcome (Destination A)

module _ {ℓ} {A : Type ℓ} (mergo : Mergo A) where
  -- The loop over the sources: a nil one is skipped.
  pub merge_sources : Destination A → List (Option A) → Outcome (Destination A)
  merge_sources dst [] = ok dst
  merge_sources dst (none ∷ srcs) = merge_sources dst srcs
  merge_sources dst (some src ∷ srcs) = mergo dst src >>= λ d. merge_sources d srcs

  unfoldable pub merge : Destination A → List (Option A) → Outcome (Destination A)
  unfolding merge_sources
  merge (value a) srcs = err (foreign "dst must be a pointer")
  merge dst srcs = merge_sources dst srcs

  -- The first of the texts that is not empty, from the destination's own to the last source's.
  abbrev pub first_set : (A → String) → String → List (Option A) → String
  first_set f s [] = s
  first_set f s (none ∷ srcs) = first_set f s srcs
  first_set f s (some src ∷ srcs) = first_set f (if s =? "" then f src else s) srcs

  -- What mergo documents of a text field: it is filled where it is empty, and kept otherwise.
  abbrev pub Fills : (A → String) → Type ℓ
  Fills f =
      (a src : A)
      → (b : A) × (mergo (pointer a) src ≡ ok (pointer b))
        × (f b ≡ (if f a =? "" then f src else f a))

  merge_sources-first_set :
      (f : A → String)
      → Fills f
      → (a : A) (srcs : List (Option A))
      → (b : A) × (merge_sources (pointer a) srcs ≡ ok (pointer b)) × (f b ≡ first_set f (f a) srcs)
  unfolding merge_sources
  merge_sources-first_set f fills a [] = (a, refl, refl)
  merge_sources-first_set f fills a (none ∷ srcs) = merge_sources-first_set f fills a srcs
  merge_sources-first_set f fills a (some src ∷ srcs) =
      let (b, run, e) = fills a src in
      let (c, later, e') = merge_sources-first_set f fills b srcs in (c, rw run later, rw e at e')

  -- Into a pointer, Merge succeeds, and a text field then has the first value that is not empty,
  -- from the destination's own to the last source's: no later source replaces an earlier one's
  -- value. It assumes what mergo documents of text fields.
  pub merge-first_set :
      (f : A → String)
      → Fills f
      → (a : A) (srcs : List (Option A))
      → (b : A) × (merge (pointer a) srcs ≡ ok (pointer b)) × (f b ≡ first_set f (f a) srcs)
  unfolding merge
  merge-first_set f fills a srcs = merge_sources-first_set f fills a srcs
