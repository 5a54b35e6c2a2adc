-- ===== src/Common/Lists.antt =====
-- Lists measured by native numbers, and predicates on lists by recursion.
use Prim.Native.Nat.{ℕ, suc, ◌+◌}
use mathlib.Core.Path.{◌≡◌, refl, ap, sym, subst}
use mathlib.Core.Logic.{◌≢◌, ◌⊎◌, inl, inr}
use mathlib.Core.Option.{Option, none, some}
use mathlib.Core.List.{List, [], ◌∷◌, ◌++◌, map}
use native.Mathlib.Omega.{arith}

module _ {ℓ} {A : Type ℓ} where
  abbrev pub length : List A → ℕ
  length [] = 0
  length (x ∷ xs) = suc (length xs)

  pub length-append : (xs ys : List A) → length (xs ++ ys) ≡ length xs + length ys
  length-append [] ys = omega arith
  length-append (x ∷ xs) ys = omega (arith, length-append xs ys)

pub length-map {ℓ κ} :
    {A : Type ℓ} {B : Type κ} (f : A → B) (xs : List A) → length (map f xs) ≡ length xs
length-map f [] = refl
length-map f (x ∷ xs) = ap suc (length-map f xs)

module _ {ℓ κ} {A : Type ℓ} (P : A → Type κ) where
  abbrev pub All : List A → Type κ
  All [] = Unit
  All (x ∷ xs) = P x × All xs

  pub All-append : (xs ys : List A) → All xs → All ys → All (xs ++ ys)
  All-append [] ys h k = k
  All-append (x ∷ xs) ys (p, h) k = (p, All-append xs ys h k)

  pub All-of : ((a : A) → P a) → (xs : List A) → All xs
  All-of p [] = tt
  All-of p (x ∷ xs) = (p x, All-of p xs)

pub All-mono {ℓ κ μ} :
    {A : Type ℓ} (P : A → Type κ) (Q : A → Type μ)
    → ((a : A) → P a → Q a)
    → (xs : List A) → All P xs
    → All Q xs
All-mono P Q f [] h = tt
All-mono P Q f (x ∷ xs) (p, h) = (f x p, All-mono P Q f xs h)

pub All-map {ℓ κ μ} :
    {A : Type ℓ} {B : Type κ} (P : B → Type μ) (f : A → B) (xs : List A)
    → All (λ a. P (f a)) xs
    → All P (map f xs)
All-map P f [] h = tt
All-map P f (x ∷ xs) (p, h) = (p, All-map P f xs h)

-- No element stands twice.
abbrev pub Distinct {ℓ} : {A : Type ℓ} → List A → Type ℓ
Distinct [] = Unit
Distinct (x ∷ xs) = All (λ y. x ≢ y) xs × Distinct xs

pub Distinct-append {ℓ} :
    {A : Type ℓ} (xs ys : List A)
    → Distinct xs
    → Distinct ys
    → All (λ x. All (λ y. x ≢ y) ys) xs
    → Distinct (xs ++ ys)
Distinct-append [] ys d e h = e
Distinct-append (x ∷ xs) ys (n, d) e (p, h) =
    (All-append (λ y. x ≢ y) xs ys n p, Distinct-append xs ys d e h)

-- Membership, by recursion.
abbrev pub In : {A : Type 0} → A → List A → Type 0
In x [] = ⊥
In x (y ∷ ys) = (x ≡ y) ⊎ In x ys

-- Two lists of one length, related place by place.
abbrev pub Pairs : {A B : Type 0} → (A → B → Type 0) → List A → List B → Type 0
Pairs R [] [] = Unit
Pairs R [] (y ∷ ys) = ⊥
Pairs R (x ∷ xs) [] = ⊥
Pairs R (x ∷ xs) (y ∷ ys) = R x y × Pairs R xs ys

module _ {A B : Type 0} (R : A → B → Type 0) where
  pub Pairs-left :
      (xs : List A) (ys : List B) → Pairs R xs ys → (x : A) → In x xs → (y : B) × In y ys × R x y
  Pairs-left (x ∷ xs) (y ∷ ys) (r, rs) z (inl e) = (y, inl refl, subst (λ x. R x y) (sym e) r)
  Pairs-left (x ∷ xs) (y ∷ ys) (r, rs) z (inr i) =
      let (w, j, s) = Pairs-left xs ys rs z i in (w, inr j, s)
  Pairs-left [] [] rs z i = absurd i
  Pairs-left [] (y ∷ ys) rs z i = absurd i
  Pairs-left (x ∷ xs) [] rs z i = absurd rs

  pub Pairs-right :
      (xs : List A) (ys : List B) → Pairs R xs ys → (y : B) → In y ys → (x : A) × In x xs × R x y
  Pairs-right (x ∷ xs) (y ∷ ys) (r, rs) z (inl e) = (x, inl refl, subst (R x) (sym e) r)
  Pairs-right (x ∷ xs) (y ∷ ys) (r, rs) z (inr i) =
      let (w, j, s) = Pairs-right xs ys rs z i in (w, inr j, s)
  Pairs-right [] [] rs z i = absurd i
  Pairs-right [] (y ∷ ys) rs z i = absurd rs
  Pairs-right (x ∷ xs) [] rs z i = absurd i

pub Pairs-mono :
    {A B : Type 0} (R S : A → B → Type 0)
    → ((a : A) (b : B) → R a b → S a b)
    → (xs : List A) (ys : List B) → Pairs R xs ys
    → Pairs S xs ys
Pairs-mono R S f [] [] rs = tt
Pairs-mono R S f [] (y ∷ ys) rs = rs
Pairs-mono R S f (x ∷ xs) [] rs = rs
Pairs-mono R S f (x ∷ xs) (y ∷ ys) (r, rs) = (f x y r, Pairs-mono R S f xs ys rs)

pub All-of-In {ℓ} :
    {A : Type 0} (P : A → Type ℓ) (xs : List A) → ((x : A) → In x xs → P x) → All P xs
All-of-In P [] h = tt
All-of-In P (x ∷ xs) h = (h x (inl refl), All-of-In P xs (λ y i. h y (inr i)))

pub All-In : {A : Type 0} (P : A → Type 0) (xs : List A) → All P xs → (x : A) → In x xs → P x
All-In P [] ps x i = absurd i
All-In P (y ∷ xs) (p, ps) x (inl e) = subst P (sym e) p
All-In P (y ∷ xs) (p, ps) x (inr i) = All-In P xs ps x i

pub In-map :
    {A B : Type 0} (f : A → B) (xs : List A) (b : B)
    → In b (map f xs)
    → (a : A) × In a xs × (b ≡ f a)
In-map f [] b i = absurd i
In-map f (x ∷ xs) b (inl e) = (x, inl refl, e)
In-map f (x ∷ xs) b (inr i) = let (a, j, e) = In-map f xs b i in (a, inr j, e)

-- A predicate on the value of an option, if there is one.
abbrev pub Each {ℓ κ} : {A : Type ℓ} → (A → Type κ) → Option A → Type κ
Each P none = Unit
Each P (some a) = P a
