-- ===== src/Prelude/Texts.antt =====
-- `LogString`: a text is the list of its code units (`logchar`).
use Prim.Native.Nat.{ℕ}
use Prim.Native.Char.{code}
use Prim.Native.String.{String}
use mathlib.Core.Path.{◌≡◌, refl}
use mathlib.Core.Logic.{◌↔◌, ◌≢◌, inl, inr}
use mathlib.Core.Option.{Option, none, some}
use mathlib.Core.Bool.{Bool, true, false, ◌&&◌}
use mathlib.Core.List.{List, [], ◌∷◌, ◌++◌}
use native.Mathlib.Omega.{arith}
use logging_log4cxx.Prelude.Tests.{◌==◌, if◌then◌else◌, Option-cases}

abbrev pub Text : Type 0
Text = List ℕ

-- The code units of a literal; every literal of the sources that is modelled is ASCII.
abbrev pub codes : String → Text
codes String.[] = []
codes (String.◌∷◌ c s) = code c ∷ codes s

-- `operator==` of two strings.
unfoldable pub text_eq : Text → Text → Bool
text_eq [] [] = true
text_eq [] (y ∷ ys) = false
text_eq (x ∷ xs) [] = false
text_eq (x ∷ xs) (y ∷ ys) = x == y && text_eq xs ys

pub text_eq_iff : (s t : Text) → (text_eq s t ≡ true) ↔ (s ≡ t)
unfolding text_eq
text_eq_iff [] [] = ground arith
text_eq_iff [] (y ∷ ys) = ground arith
text_eq_iff (x ∷ xs) [] = ground arith
text_eq_iff (x ∷ xs) (y ∷ ys) = ground (arith, text_eq_iff xs ys)

pub text_eq_self : (s : Text) → text_eq s s ≡ true
text_eq_self s = (text_eq_iff s s).1 refl

-- `empty()`.
abbrev pub is_empty {ℓ} : {A : Type ℓ} → List A → Bool
is_empty [] = true
is_empty (x ∷ xs) = false

-- `find(c)`: the text before the first `c`, and the text behind it.
unfoldable pub split_at : ℕ → Text → Option (Text × Text)
split_at c [] = none
split_at c (x ∷ s) =
    let rest = split_at c s in
    if x == c
    then some ([], s)
    else elim rest [ none ↦ none | some (before, after) ↦ some (x ∷ before, after) ]

-- The text does not hold the character.
abbrev pub Free : ℕ → Text → Type 0
Free c [] = Unit {0}
Free c (x ∷ s) = (x ≢ c) × Free c s

pub Free-append : (c : ℕ) (s t : Text) → Free c s → Free c t → Free c (s ++ t)
Free-append c [] t f g = g
Free-append c (x ∷ s) t f g = (f.0, Free-append c s t f.1 g)

pub split_at-append : (c : ℕ) (s t : Text) → Free c s → split_at c (s ++ (c ∷ t)) ≡ some (s, t)
unfolding split_at
split_at-append c [] t f = ground arith
split_at-append c (x ∷ s) t f = ground (arith, split_at-append c s t f.1)

pub split_at_sound :
    (c : ℕ) (rest before after : Text)
    → split_at c rest ≡ some (before, after)
    → rest ≡ before ++ (c ∷ after)
unfolding split_at
split_at_sound c [] before after h = cc
split_at_sound c (x ∷ s) before after h = elim (Option-cases (split_at c s)) [
  | inl e ↦ ground arith
  | inr ((b, a), e) ↦ ground (arith, split_at_sound c s b a e)
]

pub is_empty-append : (s t : Text) (c : ℕ) → is_empty (s ++ (c ∷ t)) ≡ false
is_empty-append [] t c = refl
is_empty-append (x ∷ s) t c = refl
