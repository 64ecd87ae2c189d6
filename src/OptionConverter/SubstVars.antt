-- ===== src/OptionConverter/SubstVars.antt =====
-- Variable substitution of src/main/cpp/optionconverter.cpp: what the searches find.
pub mod Templates
pub mod Depth
use logging_log4cxx.Prelude.{
  ℕ, zero, suc, ◌+◌, ◌≤◌, ◌<◌, ◌≡◌, ◌≢◌, refl, sym, ap, ◌∙◌, ◌⊎◌, inl, inr, Bool, true, false, List,
  [], ◌∷◌, ◌++◌, Option-cases, Free, split_at, Option, none, some, Text, arith, ◌==◌, if◌then◌else◌,
  append_assoc, append-nil, length, length-append,
}
use logging_log4cxx.OptionConverter.{split_start, Subst, substituted, no_closing_brace, too_deep}

abbrev pub in_front : Text → Option (Text × Text) → Option (Text × Text)
in_front s none = none
in_front s (some (before, after)) = some (s ++ before, after)

split_start-cons :
    (c : ℕ) (t : Text) → c ≢ b'$' → split_start (c ∷ t) ≡ in_front (c ∷ []) (split_start t)
unfolding split_start
split_start-cons c [] h = refl
split_start-cons c (d ∷ t) h = ground arith

in_front-append :
    (c : ℕ) (s : Text) (o : Option (Text × Text))
    → in_front (c ∷ []) (in_front s o) ≡ in_front (c ∷ s) o
in_front-append c s none = refl
in_front-append c s (some (before, after)) = refl

in_front-nil : (o : Option (Text × Text)) → o ≡ in_front [] o
in_front-nil none = refl
in_front-nil (some (before, after)) = refl

-- The search passes over a text without "$".
pub split_start-append :
    (s t : Text) → Free b'$' s → split_start (s ++ t) ≡ in_front s (split_start t)
split_start-append [] t f = in_front-nil (split_start t)
split_start-append (c ∷ s) t f =
    split_start-cons c (s ++ t) f.0
    ∙ ap (in_front (c ∷ [])) (split_start-append s t f.1)
    ∙ in_front-append c s (split_start t)

pub split_start-variable :
    (s t : Text) → Free b'$' s → split_start (s ++ (b'$' ∷ b'{' ∷ t)) ≡ some (s, t)
split_start-variable s t f =
    split_start-append s (b'$' ∷ b'{' ∷ t) f ∙ unfold split_start in rw append-nil refl

-- What a search finds stands in the text.
pub split_start_sound :
    (rest before after : Text)
    → split_start rest ≡ some (before, after)
    → rest ≡ before ++ (b'$' ∷ b'{' ∷ after)
unfolding split_start
split_start_sound [] before after h = cc
split_start_sound (c ∷ []) before after h = cc
split_start_sound (c ∷ d ∷ s) before after h = elim (Option-cases (split_start (d ∷ s))) [
  | inl e ↦ ground arith
  | inr ((b, a), e) ↦ ground (arith, split_start_sound (d ∷ s) b a e)
]
