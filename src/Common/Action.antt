-- ===== src/Common/Action.antt =====
-- Code that acts on a state: what it gives back, and the state that it leaves. The state stays as
-- it is where the code stopped with an error or a panic.
use Prim.Native.String.{String}
use mathlib.Core.Path.{◌≡◌, refl}
use mathlib.Core.Logic.{◌≢◌}
use native.Mathlib.Omega.{arith}
use opensearch_operator.Common.Outcome.{Outcome, ok, err, panic, Error, wrap}

abbrev pub Action : Type 0 → Type 0 → Type 0
Action S A = S → Outcome A × S

abbrev pub pure : {S A : Type 0} → A → Action S A
pure a s = (ok a, s)

abbrev pub fail : {S A : Type 0} → Error → Action S A
fail e s = (err e, s)

abbrev pub crash : {S A : Type 0} → String → Action S A
crash message s = (panic message, s)

-- An outcome that touches no state.
abbrev pub lift : {S A : Type 0} → Outcome A → Action S A
lift o s = (o, s)

unfoldable pub next : {S A B : Type 0} → Outcome A × S → (A → Action S B) → Outcome B × S
next (ok a, s) f = f a s
next (err e, s) f = (err e, s)
next (panic p, s) f = (panic p, s)

infixl 5 ◌>>=◌ ◌>>◌
abbrev pub ◌>>=◌ : {S A B : Type 0} → Action S A → (A → Action S B) → Action S B
◌>>=◌ m f s = next (m s) f

abbrev pub ◌>>◌ : {S B : Type 0} → Action S (Unit {0}) → Action S B → Action S B
m >> k = m >>= λ _. k

unfoldable pub wrapped : {S A : Type 0} → String → Outcome A × S → Outcome A × S
wrapped message (ok a, s) = (ok a, s)
wrapped message (err e, s) = (err (wrap message e), s)
wrapped message (panic p, s) = (panic p, s)

-- `if err != nil { return ..., errors.Wrap(err, message) }`
abbrev pub wrapping : {S A : Type 0} → String → Action S A → Action S A
wrapping message m s = wrapped message (m s)

-- No value was given back.
abbrev pub Fails : {A : Type 0} → Outcome A → Type 0
Fails (ok a) = ⊥
Fails (err e) = Unit
Fails (panic p) = Unit

-- A chain fails where its first part does, or its rest does on whatever the first part gives.
pub Fails-next :
    {S A B : Type 0} (r : Outcome A × S) (f : A → Action S B)
    → ((a : A) (s : S) → r ≡ (ok a, s) → Fails (f a s).0)
    → Fails (next r f).0
unfolding next
Fails-next (ok a, s) f h = h a s refl
Fails-next (err e, s) f h = tt
Fails-next (panic p, s) f h = tt

pub Fails-wrapped :
    {S A : Type 0} (message : String) (r : Outcome A × S) → Fails r.0 → Fails (wrapped message r).0
unfolding wrapped
Fails-wrapped message (ok a, s) h = h
Fails-wrapped message (err e, s) h = tt
Fails-wrapped message (panic p, s) h = tt

pub wrapped-eq-ok :
    {S A : Type 0} (message : String) (r : Outcome A × S) {a : A} {s : S}
    → wrapped message r ≡ (ok a, s)
    → r ≡ (ok a, s)
unfolding wrapped
wrapped-eq-ok message (ok b, t) e = e
wrapped-eq-ok message (err x, t) e = absurd (ground arith)
wrapped-eq-ok message (panic x, t) e = absurd (ground arith)

-- A chain gave a value: so did its first part, and its rest on that value.
pub next-eq-ok :
    {S A B : Type 0} (r : Outcome A × S) (f : A → Action S B) {b : B} {t : S}
    → next r f ≡ (ok b, t)
    → (a : A) × (s : S) × (r ≡ (ok a, s)) × (f a s ≡ (ok b, t))
unfolding next
next-eq-ok (ok a, s) f e = (a, s, refl, e)
next-eq-ok (err x, s) f e = absurd (ground arith)
next-eq-ok (panic x, s) f e = absurd (ground arith)

pub not_ok_of_Fails : {A : Type 0} (o : Outcome A) (a : A) → Fails o → o ≢ ok a
not_ok_of_Fails (ok b) a h e = h
not_ok_of_Fails (err x) a h e = cc
not_ok_of_Fails (panic x) a h e = cc
