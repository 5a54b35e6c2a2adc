-- ===== src/Common/Text.antt =====
-- Texts: `strings.Join`, the verb `%d` of `fmt.Sprintf`, and what tells composed names apart.
use Prim.Native.Nat.{ℕ, zero, suc, ◌+◌, ◌*◌, ◌/◌, ◌%◌, ◌-◌, ◌<◌}
use Prim.Native.Char.{Char, code}
use Prim.Native.String.{String, [], ◌∷◌, ◌++◌, count}
use mathlib.Core.Path.{◌≡◌, refl, sym, ◌∙◌, ap, ap₂, subst}
use mathlib.Core.Logic.{◌≢◌, inl, inr}
use mathlib.Core.List.{List}
use native.Mathlib.Omega.{arith}
use text.Mathlib.TextLemmas.{nil-append, cons-append, cons-eq-cons, append_inj, length-append}
use opensearch_operator.Common.Tests.{ltb, if◌then◌else◌, Bool-cases, ltb→lt, ltb→ge}

-- `strings.Join`.
unfoldable pub join : List String → String → String
join List.[] sep = ""
join (List.◌∷◌ s List.[]) sep = s
join (List.◌∷◌ s (List.◌∷◌ t ts)) sep = s ++ (sep ++ join (List.◌∷◌ t ts) sep)

digit : ℕ → Char
digit zero = "0"
digit (suc zero) = "1"
digit (suc (suc zero)) = "2"
digit (suc (suc (suc zero))) = "3"
digit (suc (suc (suc (suc zero)))) = "4"
digit (suc (suc (suc (suc (suc zero))))) = "5"
digit (suc (suc (suc (suc (suc (suc zero)))))) = "6"
digit (suc (suc (suc (suc (suc (suc (suc zero))))))) = "7"
digit (suc (suc (suc (suc (suc (suc (suc (suc zero)))))))) = "8"
digit (suc (suc (suc (suc (suc (suc (suc (suc (suc n))))))))) = "9"

digits : ℕ → ℕ → String
digits zero n = ""
digits (suc fuel) n =
    let higher = digits fuel (n / 10) in
    if ltb n 10 then digit n ∷ [] else higher ++ (digit (n % 10) ∷ [])

-- `%d` of a number that is not negative. A number has fewer digits than its successor's value.
unfoldable pub decimal : ℕ → String
unfolding digits digit
decimal n = digits (suc n) n

-- The number that decimal digits stand for, after those read before.
pub read : String → ℕ → ℕ
read [] acc = acc
read (c ∷ s) acc = read s (acc * 10 + (code c - 48))

code-digit : (n : ℕ) → n < 10 → code (digit n) ≡ 48 + n
unfolding digit
code-digit zero h = refl
code-digit (suc zero) h = refl
code-digit (suc (suc zero)) h = refl
code-digit (suc (suc (suc zero))) h = refl
code-digit (suc (suc (suc (suc zero)))) h = refl
code-digit (suc (suc (suc (suc (suc zero))))) h = refl
code-digit (suc (suc (suc (suc (suc (suc zero)))))) h = refl
code-digit (suc (suc (suc (suc (suc (suc (suc zero))))))) h = refl
code-digit (suc (suc (suc (suc (suc (suc (suc (suc zero)))))))) h = refl
code-digit (suc (suc (suc (suc (suc (suc (suc (suc (suc n))))))))) h =
    let e : n ≡ 0 = omega arith in rw e refl

read-append : (s t : String) (acc : ℕ) → read (s ++ t) acc ≡ read t (read s acc)
unfolding read
read-append [] t acc = rw nil-append refl
read-append (c ∷ s) t acc = rw cons-append (read-append s t _)

read-digits : (fuel n : ℕ) → n < fuel → read (digits fuel n) 0 ≡ n
unfolding digits read
read-digits zero n h = elim h [ ]
read-digits (suc fuel) n h = elim (Bool-cases (ltb n 10)) [
  | inl small ↦ rw small (omega (arith, code-digit n (ltb→lt n 10 small)))
  | inr large ↦
      rw (large, read-append (digits fuel (n / 10)) (digit (n % 10) ∷ []) 0)
        (omega (
          arith,
          code-digit (n % 10) (omega arith),
          ltb→ge n 10 large,
          read-digits fuel (n / 10) (omega (arith, ltb→ge n 10 large)),
        ))
]

pub read-decimal : (n : ℕ) → read (decimal n) 0 ≡ n
unfolding decimal
read-decimal n = read-digits (suc n) n (omega arith)

pub decimal_injective : {m n : ℕ} → decimal m ≡ decimal n → m ≡ n
decimal_injective {m} {n} e = sym (read-decimal m) ∙ ap (λ s. read s 0) e ∙ read-decimal n

-- No character is a dash.
abbrev pub NoDash : String → Type 0
NoDash [] = Unit
NoDash (c ∷ s) = (code c ≢ b'-') × NoDash s

NoDash-append : (s t : String) → NoDash s → NoDash t → NoDash (s ++ t)
NoDash-append [] t h k = rw nil-append k
NoDash-append (c ∷ s) t (p, h) k = rw cons-append (p, NoDash-append s t h k)

NoDash-digit : (n : ℕ) → n < 10 → code (digit n) ≢ b'-'
NoDash-digit n h e = absurd (omega (arith, code-digit n h))

NoDash-digits : (fuel n : ℕ) → NoDash (digits fuel n)
unfolding digits
NoDash-digits zero n = tt
NoDash-digits (suc fuel) n = elim (Bool-cases (ltb n 10)) [
  | inl small ↦ rw small (NoDash-digit n (ltb→lt n 10 small), tt)
  | inr large ↦ rw large (
      NoDash-append (digits fuel (n / 10)) (digit (n % 10) ∷ []) (NoDash-digits fuel (n / 10))
        (NoDash-digit (n % 10) (omega arith), tt))
]

pub NoDash-decimal : (n : ℕ) → NoDash (decimal n)
unfolding decimal
NoDash-decimal n = NoDash-digits (suc n) n

pub dash-not-in : (s t : String) → NoDash (s ++ ("-" ++ t)) → ⊥
dash-not-in [] t h = (rw nil-append at (rw (cons-append "-" [] t) at h)).0 refl
dash-not-in (c ∷ s) t h = dash-not-in s t (rw (cons-append c s ("-" ++ t)) at h).1

dash-cons : (s : String) → "" ++ ("-" ++ s) ≡ "-" ∷ s
dash-cons s = nil-append _ ∙ cons-append "-" [] s ∙ ap (λ t. "-" ∷ t) (nil-append s)

-- What follows the last dash determines what stands before it.
pub dash_split :
    (u v s t : String) → NoDash s → NoDash t → u ++ ("-" ++ s) ≡ v ++ ("-" ++ t) → (u ≡ v) × (s ≡ t)
dash_split [] [] s t h k e = (refl, (cons-eq-cons.0 (sym (dash-cons s) ∙ e ∙ dash-cons t)).1)
dash_split [] (d ∷ v) s t h k e =
    let (_, tail) = cons-eq-cons.0 (sym (dash-cons s) ∙ e ∙ cons-append d v ("-" ++ t)) in
    absurd (dash-not-in v t (subst NoDash tail h))
dash_split (c ∷ u) [] s t h k e =
    let (_, tail) = cons-eq-cons.0 (sym (dash-cons t) ∙ sym e ∙ cons-append c u ("-" ++ s)) in
    absurd (dash-not-in u s (subst NoDash tail k))
dash_split (c ∷ u) (d ∷ v) s t h k e =
    let (head, tail) =
      cons-eq-cons.0 (sym (cons-append c u ("-" ++ s)) ∙ e ∙ cons-append d v ("-" ++ t)) in
    let (same, rest) = dash_split u v s t h k tail in (ap₂ ◌∷◌ head same, rest)

-- Two texts that end in parts of one length are one text only part by part.
pub suffix_split : (u v s t : String) → count s ≡ count t → u ++ s ≡ v ++ t → (u ≡ v) × (s ≡ t)
suffix_split u v s t e same =
    append_inj same (omega (arith, length-append u s, length-append v t, ap count same, e))
