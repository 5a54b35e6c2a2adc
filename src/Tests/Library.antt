-- ===== src/Tests/Library.antt =====
-- An instance of the functions of go-funk, with the laws of `IsLawful`.
use opensearch_operator.Common.{
  ◌≡◌, refl, ◌↔◌, inl, inr, String, ◌=?◌, eq_iff, Bool, true, false, not, ◌||◌, none, some, List,
  [], ◌∷◌, ◌++◌, map, if◌then◌else◌, arith, Bool-cases, In,
}
use opensearch_operator.Common.Maps.{Entries, GoMap, entries, lookup, last_found}
use opensearch_operator.Funk.{Funk, IsLawful}

abbrev has : List String → String → Bool
has [] x = false
has (y ∷ ys) x = (x =? y) || has ys x

abbrev keep : (String → Bool) → List String → List String
keep p [] = []
keep p (x ∷ xs) = if p x then x ∷ keep p xs else keep p xs

abbrev union : List (GoMap String) → Entries String
union [] = []
union (m ∷ ms) = union ms ++ entries m

abbrev pub funk : Funk
funk = record {
  contains = has;
  contains_string = has;
  keys = map (λ e. e.0);
  difference_string = λ xs ys. (keep (λ x. not (has ys x)) xs, keep (λ y. not (has xs y)) ys);
  intersect_string = λ xs ys. keep (has ys) xs;
  union_string_map = λ ms. some (union ms);
  get_anti_affinity = λ g. g.anti_affinity;
  get_pod_disruption_budget_spec = λ g. g.pod_disruption_budget_spec;
}

has_iff : (xs : List String) (x : String) → (has xs x ≡ true) ↔ In x xs
has_iff [] x = (λ e. cc, λ i. absurd i)
has_iff (y ∷ ys) x =
    let (to, from) = has_iff ys x in
    elim (Bool-cases (x =? y)) [
      | inl same ↦ (λ _. inl ((eq_iff x y).0 same), λ _. rw same refl)
      | inr other ↦ (
        λ e. inr (to (ground arith)),
        λ i. elim i [
          | inl e ↦ absurd (ground (arith, eq_iff x y))
          | inr later ↦ rw other (from later)
        ],
      )
    ]

In-keep :
    (p : String → Bool) (xs : List String) (k : String)
    → In k (keep p xs) ↔ (In k xs × (p k ≡ true))
In-keep p [] k = (λ i. absurd i, λ i. absurd i.0)
In-keep p (x ∷ xs) k =
    let (to, from) = In-keep p xs k in
    elim (Bool-cases (p x)) [
      | inl kept ↦ rw kept (
        λ i. elim i [ inl e ↦ (inl e, rw e kept) | inr later ↦ (inr (to later).0, (to later).1) ],
        λ i. elim i.0 [ inl e ↦ inl e | inr later ↦ inr (from (later, i.1)) ],
      )
      | inr dropped ↦ rw dropped (
        λ i. (inr (to i).0, (to i).1),
        λ i. elim i.0 [ inl e ↦ absurd (ground arith) | inr later ↦ from (later, i.1) ],
      )
    ]

In-keep_missing :
    (xs ys : List String) (k : String)
    → In k (keep (λ x. not (has ys x)) xs) ↔ (In k xs × ¬ In k ys)
In-keep_missing xs ys k =
    let (to, from) = In-keep (λ x. not (has ys x)) xs k in
    let (seen, found) = has_iff ys k in
    (
      λ i. ((to i).0, λ j. let e = found j in let e' = (to i).1 in ground arith),
      λ i.
          from (
            i.0,
            elim (Bool-cases (has ys k)) [ inl e ↦ absurd (i.1 (seen e)) | inr e ↦ rw e refl ],
          ),
    )

lookup-append :
    (k : String) (a b : Entries String)
    → lookup k (a ++ b) ≡ elim (lookup k a) [ none ↦ lookup k b | some v ↦ some v ]
lookup-append k [] b = refl
lookup-append k ((j, v) ∷ a) b = elim (Bool-cases (j =? k)) [
  | inl same ↦ rw same refl
  | inr other ↦ rw other (lookup-append k a b)
]

find-union : (ms : List (GoMap String)) (k : String) → lookup k (union ms) ≡ last_found k ms
find-union [] k = refl
find-union (m ∷ ms) k = rw (lookup-append k (union ms) (entries m), find-union ms k) refl

pub funk-IsLawful : IsLawful funk
funk-IsLawful = record {
  contains_iff = has_iff;
  contains_string_iff = has_iff;
  in-keys = λ m k. (λ i. i, λ i. i);
  in-difference_left = λ xs ys k. In-keep_missing xs ys k;
  in-difference_right = λ xs ys k. In-keep_missing ys xs k;
  in-intersect = λ xs ys k.
      let (to, from) = In-keep (has ys) xs k in
      let (seen, found) = has_iff ys k in
      (λ i. ((to i).0, seen (to i).1), λ i. from (i.0, found i.1));
  find-union = find-union;
  get_anti_affinity_lem = λ g. refl;
  get_pod_disruption_budget_spec_lem = λ g. refl;
}

-- Another one, which takes common keys in the order of the second list.
abbrev pub turned : Funk
turned = record funk { intersect_string = λ xs ys. keep (has xs) ys }

pub turned-IsLawful : IsLawful turned
turned-IsLawful = record {
  contains_iff = has_iff;
  contains_string_iff = has_iff;
  in-keys = λ m k. (λ i. i, λ i. i);
  in-difference_left = λ xs ys k. In-keep_missing xs ys k;
  in-difference_right = λ xs ys k. In-keep_missing ys xs k;
  find-union = find-union;
  get_anti_affinity_lem = λ g. refl;
  get_pod_disruption_budget_spec_lem = λ g. refl;
  in-intersect = λ xs ys k.
      let (to, from) = funk-IsLawful.in-intersect ys xs k in
      (λ i. ((to i).1, (to i).0), λ i. from (i.1, i.0));
}
