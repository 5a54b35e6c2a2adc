-- ===== src/Common/Outcome.antt =====
-- What a Go function gives back: a value, an error, or a run-time panic.
use Prim.Native.String.{String}
use mathlib.Core.Path.{◌≡◌, refl}

-- An error value: the message of `errors.New` or `errors.Errorf`, a cause under the message of
-- `errors.Wrap` or `errors.Wrapf`, or an error that code outside the repository made.
pub data Error : Type 0 where
  new : String → Error
  wrap : String → Error → Error
  foreign : String → Error

pub data Outcome {ℓ} (A : Type ℓ) : Type ℓ where
  ok : A → Outcome A
  err : Error → Outcome A
  panic : String → Outcome A

infixl 5 ◌>>=◌
abbrev pub ◌>>=◌ {ℓ κ} : {A : Type ℓ} {B : Type κ} → Outcome A → (A → Outcome B) → Outcome B
ok a >>= f = f a
err e >>= f = err e
panic s >>= f = panic s

-- `if err != nil { return nil, errors.Wrap(err, message) }`
abbrev pub wrapping {ℓ} : {A : Type ℓ} → String → Outcome A → Outcome A
wrapping message (ok a) = ok a
wrapping message (err e) = err (wrap message e)
wrapping message (panic s) = panic s

-- A chain gave a value: so did its first part, and its rest on that value.
pub >>=-eq-ok {ℓ κ} :
    {A : Type ℓ} {B : Type κ} (first : Outcome A) (rest : A → Outcome B) {result : B}
    → (first >>= rest) ≡ ok result
    → (value : A) × (first ≡ ok value) × (rest value ≡ ok result)
>>=-eq-ok (ok value) rest given = (value, refl, given)
>>=-eq-ok (err e) rest given = cc
>>=-eq-ok (panic s) rest given = cc

pub wrapping-eq-ok {ℓ} :
    {A : Type ℓ} (s : String) (m : Outcome A) {a : A} → wrapping s m ≡ ok a → m ≡ ok a
wrapping-eq-ok s (ok b) e = e
wrapping-eq-ok s (err x) e = cc
wrapping-eq-ok s (panic x) e = cc

pub ok-injective {ℓ} : {A : Type ℓ} {a b : A} → ◌≡◌ {A = Outcome A} (ok a) (ok b) → a ≡ b
ok-injective e = cc
