-- ===== src/Common/Maps.antt =====
-- Go's `map[string]V`: nil, or the entries in some order. Reading nil finds nothing.
use Prim.Native.String.{String}
use mathlib.Core.Path.{◌≡◌, refl, sym}
use mathlib.Core.Logic.{inl, inr}
use mathlib.Core.Bool.{Bool, true, false}
use mathlib.Core.Option.{Option, none, some}
use mathlib.Core.List.{List, [], ◌∷◌, map}
use native.Mathlib.Omega.{arith}
use text.Mathlib.Text.{◌==◌}
use text.Mathlib.TextEquality.{eq_iff}
use opensearch_operator.Common.Tests.{if◌then◌else◌, Bool-cases}
use opensearch_operator.Common.Lists.{In}

abbrev pub Entries {ℓ} : Type ℓ → Type ℓ
Entries V = List (String × V)

abbrev pub GoMap {ℓ} : Type ℓ → Type ℓ
GoMap V = Option (Entries V)

module _ {ℓ} {V : Type ℓ} where
  abbrev pub lookup : String → Entries V → Option V
  lookup k [] = none
  lookup k ((j, v) ∷ m) = if j == k then some v else lookup k m

  -- `res[k] = v` on a map that is not nil.
  abbrev pub insert : String → V → Entries V → Entries V
  insert k v [] = (k, v) ∷ []
  insert k v ((j, w) ∷ m) = if j == k then (k, v) ∷ m else (j, w) ∷ insert k v m

  abbrev pub entries : GoMap V → Entries V
  entries none = []
  entries (some m) = m

  abbrev pub find : String → GoMap V → Option V
  find k m = lookup k (entries m)

  -- `len(m) == 0`.
  abbrev pub is_empty : GoMap V → Bool
  is_empty none = true
  is_empty (some []) = true
  is_empty (some (_ ∷ _)) = false

  pub lookup-insert :
      (k j : String) (v : V) (m : Entries V)
      → lookup j (insert k v m) ≡ (if k == j then some v else lookup j m)
  lookup-insert k j v [] = refl
  lookup-insert k j v ((i, w) ∷ m) =
      ground (arith, eq_iff k j, eq_iff i k, eq_iff i j, lookup-insert k j v m)

-- The value of the last of several maps that has the key.
abbrev pub last_found {ℓ} : {V : Type ℓ} → String → List (GoMap V) → Option V
last_found k [] = none
last_found k (m ∷ ms) = elim (last_found k ms) [ none ↦ find k m | some v ↦ some v ]

pub In-of_lookup :
    (m : Entries String) (k v : String) → lookup k m ≡ some v → In k (map (λ e. e.0) m)
In-of_lookup [] k v e = absurd (ground arith)
In-of_lookup ((j, w) ∷ m) k v e = elim (Bool-cases (j == k)) [
  | inl same ↦ inl (sym ((eq_iff j k).0 same))
  | inr other ↦ inr (In-of_lookup m k v (rw other at e))
]
