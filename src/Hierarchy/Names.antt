-- ===== src/Hierarchy/Names.antt =====
-- The names that `updateParents` of src/main/cpp/hierarchy.cpp goes through: proper prefixes of the
-- name of the logger, each a proper prefix of those before it.
use logging_log4cxx.Prelude.{
  ℕ, zero, suc, ◌-◌, ◌≤◌, ◌<◌, ◌≡◌, refl, sym, ap, subst, ◌∙◌, ◌⊎◌, inl, inr, true, Bool-cases,
  Option-cases, List, [], ◌∷◌, ◌++◌, map, arith, ◌==◌, Text, length, take, drop, get_elem?,
  take-append-drop, length-take,
}
use logging_log4cxx.StringHelper.{starts_with}
use logging_log4cxx.StringHelper.Trim.{starts_with_iff}
use logging_log4cxx.Hierarchy.{dots, ancestors}

abbrev pub In : Text → List Text → Type 0
In p [] = ⊥
In p (q ∷ qs) = (p ≡ q) ⊎ In p qs

abbrev pub Inside : Text → Text → Type 0
Inside q p = (starts_with q p ≡ true) × (length p < length q)

abbrev pub Descends : List Text → Type 0
Descends [] = Unit {0}
Descends (q ∷ qs) = ((p : Text) → In p qs → Inside q p) × Descends qs

take-take : (name : Text) (i j : ℕ) → j ≤ i → take j (take i name) ≡ take j name
take-take name i zero le = refl
take-take name zero (suc j) le = absurd (omega arith)
take-take [] (suc i) (suc j) le = refl
take-take (c ∷ name) (suc i) (suc j) le = ap (λ s. c ∷ s) (take-take name i j (omega arith))

take-Inside : (name : Text) (i j : ℕ) → j < i → i ≤ length name → Inside (take i name) (take j name)
take-Inside name i j less le = (
  (starts_with_iff (take i name) (take j name)).1 (
    drop j (take i name),
    sym (take-append-drop j (take i name))
        ∙ ap (λ s. s ++ drop j (take i name)) (take-take name i j (omega arith)),
  ),
  omega (arith, length-take i name, length-take j name),
)

abbrev cuts : Text → List ℕ → List Text
cuts name = map (λ i. take i name)

abbrev IsCut : ℕ → Text → Text → Type 0
IsCut i name q = (j : ℕ) × (0 < j) × (j ≤ i) × (q ≡ take j name)

dots-cases :
    (name : Text) (i : ℕ)
    → (dots name (suc i) ≡ suc i ∷ dots name i) ⊎ (dots name (suc i) ≡ dots name i)
unfolding dots
dots-cases name i = elim (Option-cases (get_elem? name (suc i))) [
  | inl e ↦ inr (rw (e, dots) refl)
  | inr (c, e) ↦ elim (Bool-cases (c == b'.')) [
    | inl f ↦ inl (rw (e, dots, f) refl)
    | inr f ↦ inr (rw (e, dots, f) refl)
  ]
]

In-dots : (name : Text) (i : ℕ) (q : Text) → In q (cuts name (dots name i)) → IsCut i name q
unfolding dots
In-dots name zero q m = absurd m
In-dots name (suc i) q m = elim (dots-cases name i) [
  | inl e ↦ elim (subst (λ l. In q (cuts name l)) e m) [
    | inl f ↦ (suc i, omega arith, omega arith, f)
    | inr k ↦ let (j, pos, le, f) = In-dots name i q k in (j, pos, omega arith, f)
  ]
  | inr e ↦
      let (j, pos, le, f) = In-dots name i q (subst (λ l. In q (cuts name l)) e m) in
      (j, pos, omega arith, f)
]

dots-Descends : (name : Text) (i : ℕ) → i ≤ length name → Descends (cuts name (dots name i))
unfolding dots
dots-Descends name zero le = tt
dots-Descends name (suc i) le = elim (dots-cases name i) [
  | inl e ↦
      subst (λ l. Descends (cuts name l)) (sym e)
        (
          λ p m.
              let (j, pos, less, f) = In-dots name i p m in
              subst (λ q. Inside (take (suc i) name) q) (sym f)
                (take-Inside name (suc i) j (omega arith) le),
          dots-Descends name i (omega arith),
        )
  | inr e ↦ subst (λ l. Descends (cuts name l)) (sym e) (dots-Descends name i (omega arith))
]

pub ancestors-Descends : (name : Text) → Descends (ancestors name)
unfolding ancestors
ancestors-Descends name = dots-Descends name (length name - 1) (omega arith)

-- Every ancestor is shorter than the name.
pub In-ancestors : (name q : Text) → In q (ancestors name) → length q < length name
unfolding ancestors
In-ancestors name q m =
    let (j, pos, le, f) = In-dots name (length name - 1) q m in
    omega (arith, length-take j name, ap (length {A = ℕ}) f)
