-- ===== src/Tests/Options.antt =====
-- Tests of Level and OptionConverter.
use logging_log4cxx.Prelude.{
  ℕ, ◌-◌, ◌^◌, ◌≡◌, ◌≢◌, ◌<◌, refl, sym, ◌∙◌, Bool-cases, text_eq_iff, inl, inr, List, [], ◌∷◌,
  ◌++◌, none, some, ℤ, pos, Text, codes, text_eq, if◌then◌else◌, arith,
}
use logging_log4cxx.Level.{Level, to_level_ls, warn, off, error, info}
use logging_log4cxx.Level.Names.{is_warn, to_level-round_trip}
use logging_log4cxx.StringHelper.Trim.{spaces}
use logging_log4cxx.Properties.{PropertyMap}
use logging_log4cxx.OptionConverter.{
  convert_special_chars, to_boolean, to_file_size, to_int, times, Subst, substituted,
  no_closing_brace, too_deep, replacement, subst_vars, find_and_subst,
}
use logging_log4cxx.OptionConverter.Values.{HasNoB, mega, to_file_size-unit}
use logging_log4cxx.OptionConverter.SubstVars.Templates.{
  Piece, literal, variable, print, IsTemplate, meaning, subst_vars-print, subst_vars_self,
}
use logging_log4cxx.OptionConverter.SubstVars.Depth.{Mentions, subst_vars-ne-too_deep}

to_level-round_trip_example :
    (to_level_ls (spaces 1 ++ (codes "WARN" ++ spaces 2)) none ≡ some warn)
    × (logging_log4cxx.Level.to_level (pos 30000) none ≡ some warn)
to_level-round_trip_example = to_level-round_trip 1 2 none is_warn

-- The properties of the tests: `a` refers to `b`, and `r` to itself.
abbrev props : PropertyMap
props = (codes "a", codes "<${b}>") ∷ (codes "b", codes "x") ∷ (codes "r", codes "${r}") ∷ []

abbrev no_system : Text → Text
no_system key = []

abbrev template : List Piece
template = literal (codes "1") ∷ variable (codes "a") ∷ []

template-IsTemplate : IsTemplate template
template-IsTemplate = ((omega arith, _), ((omega arith, _), _))

subst_vars-print_example :
    subst_vars no_system props 3 (print template)
    ≡ meaning (replacement no_system props) (subst_vars no_system props 2) template
subst_vars-print_example = subst_vars-print no_system props 2 template template-IsTemplate

self-IsTemplate : IsTemplate (literal [] ∷ variable (codes "r") ∷ [])
self-IsTemplate = (_, ((omega arith, _), _))

self-replacement : replacement no_system props (codes "r") ≡ codes "${r}"
unfolding replacement logging_log4cxx.Properties.get text_eq
self-replacement = refl

subst_vars_self_example : subst_vars no_system props 9 (codes "${r}") ≡ too_deep
subst_vars_self_example =
    subst_vars_self no_system props (codes "r") [] [] self-IsTemplate self-replacement 9

subst_two : find_and_subst no_system props 3 (codes "a") ≡ substituted (codes "<x>")
unfolding find_and_subst logging_log4cxx.Properties.get text_eq
subst_two = refl

abbrev flat : PropertyMap
flat = (codes "b", codes "x") ∷ []

abbrev rank : Text → ℕ
rank val = if text_eq val (codes "x") then 0 else 1

no_mention : (before rest : Text) → ◌≢◌ {A = Text} (b'x' ∷ []) (before ++ (b'$' ∷ b'{' ∷ rest))
no_mention [] rest e = ground arith
no_mention (c ∷ []) rest e = cc
no_mention (c ∷ d ∷ before) rest e = cc

rank-Mentions : (val key : Text) → Mentions val key → rank val ≡ 1
unfolding text_eq
rank-Mentions val key (before, after, e) = elim (Bool-cases (text_eq val (codes "x"))) [
  | inl h ↦
      absurd
        (no_mention before (key ++ (b'}' ∷ after)) (sym ((text_eq_iff val (codes "x")).0 h) ∙ e))
  | inr h ↦ rw h refl
]

rank-replacement :
    (key : Text) → replacement no_system flat key ≢ [] → rank (replacement no_system flat key) ≡ 0
unfolding replacement logging_log4cxx.Properties.get text_eq
rank-replacement [] h = absurd (h refl)
rank-replacement (c ∷ key) h = elim (Bool-cases (text_eq (codes "b") (c ∷ key))) [
  | inl e ↦ rw e refl
  | inr e ↦ absurd (h (rw e refl))
]

rank-less :
    (val key : Text)
    → Mentions val key
    → replacement no_system flat key ≢ []
    → rank (replacement no_system flat key) < rank val
rank-less val key m h = omega (arith, rank-Mentions val key m, rank-replacement key h)

subst_vars-ne-too_deep_example : subst_vars no_system flat 2 (codes "${b}") ≢ too_deep
unfolding text_eq
subst_vars-ne-too_deep_example =
    subst_vars-ne-too_deep no_system flat rank rank-less 2 (codes "${b}") (omega arith)

-- `atol` for the tests: the texts of one digit.
abbrev one_digit : Text → ℤ
one_digit [] = pos 0
one_digit (c ∷ s) = pos (c - 48)

ten-HasNoB : HasNoB (codes "5")
ten-HasNoB = (omega arith, omega arith, _)

to_file_size-unit_example :
    to_file_size one_digit (codes "5MB") (pos 1)
    ≡ times (to_int one_digit (codes "5") (pos 1)) (1024 ^ 2)
to_file_size-unit_example =
    to_file_size-unit one_digit (codes "5MB") (codes "5") 2 (pos 1)
      (mega (codes "5") [] b'M' b'B' ten-HasNoB (inr refl) (inr refl))

by_class :
    logging_log4cxx.OptionConverter.to_level (λ clazz name. some (some info)) (codes "x#C") none
    ≡ some info
unfolding logging_log4cxx.OptionConverter.to_level
by_class = refl
