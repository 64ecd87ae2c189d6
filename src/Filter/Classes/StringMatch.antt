-- ===== src/Filter/Classes/StringMatch.antt =====
-- src/main/cpp/stringmatchfilter.cpp
use logging_log4cxx.Prelude.{
  Bool, true, not, ◌||◌, ℕ, ◌≡◌, ◌≢◌, ◌↔◌, refl, sym, subst, ap, inl, inr, Bool-cases, [], ◌∷◌,
  ◌++◌, if◌then◌else◌, Text, codes, is_empty, arith,
}
use logging_log4cxx.StringHelper.{equals_ignore_case, starts_with}
use logging_log4cxx.StringHelper.Trim.{starts_with_iff}
use logging_log4cxx.OptionConverter.{to_boolean}
use logging_log4cxx.Filter.{Decision, deny, neutral, accept, LoggingEvent}
use logging_log4cxx.Filter.Classes.{is_accept_on_match}

pub record StringMatchFilter : Type 0 where
  pub accept_on_match : Bool
  pub string_to_match : Text

unfoldable pub new : StringMatchFilter
new = record { accept_on_match = true; string_to_match = [] }

unfoldable pub set_option : Text → Text → StringMatchFilter → StringMatchFilter
unfolding to_boolean equals_ignore_case
set_option option value f =
    if equals_ignore_case option (codes "STRINGTOMATCH") (codes "stringtomatch")
    then record f { string_to_match = value }
    else if is_accept_on_match option
    then record f { accept_on_match = to_boolean value f.accept_on_match }
    else f

-- `find(wanted) != npos`
unfoldable pub contains : Text → Text → Bool
unfolding starts_with
contains [] wanted = is_empty wanted
contains (c ∷ s) wanted = starts_with (c ∷ s) wanted || contains s wanted

unfoldable pub decide : StringMatchFilter → LoggingEvent → Decision
unfolding contains
decide f event =
    if is_empty event.message || is_empty f.string_to_match
    then neutral
    else if not (contains event.message f.string_to_match)
    then neutral
    else if f.accept_on_match
    then accept
    else deny

contains_sound :
    (s wanted : Text)
    → contains s wanted ≡ true
    → (before : Text) × (after : Text) × (s ≡ before ++ (wanted ++ after))
unfolding contains
contains_sound [] [] h = ([], [], refl)
contains_sound [] (c ∷ w) h = cc
contains_sound (c ∷ s) wanted h = elim (Bool-cases (starts_with (c ∷ s) wanted)) [
  | inl e ↦ let (after, p) = (starts_with_iff (c ∷ s) wanted).0 e in ([], after, p)
  | inr e ↦
      let (before, after, p) = contains_sound s wanted (ground (arith, e, h)) in
      (c ∷ before, after, ap (λ t. c ∷ t) p)
]

starts-contains : (s wanted : Text) → starts_with s wanted ≡ true → contains s wanted ≡ true
unfolding contains starts_with
starts-contains [] [] h = refl
starts-contains [] (c ∷ w) h = ground arith
starts-contains (c ∷ s) wanted h = ground (arith, h)

contains-later :
    (c : ℕ) (s wanted : Text) → contains s wanted ≡ true → contains (c ∷ s) wanted ≡ true
unfolding contains
contains-later c s wanted h = ground (arith, h)

contains_complete :
    (before wanted after : Text) → contains (before ++ (wanted ++ after)) wanted ≡ true
contains_complete [] wanted after =
    starts-contains (wanted ++ after) wanted
      ((starts_with_iff (wanted ++ after) wanted).1 (after, refl))
contains_complete (c ∷ before) wanted after =
    contains-later c (before ++ (wanted ++ after)) wanted (contains_complete before wanted after)

-- The decision by the texts alone.
found_in :
    (message wanted : Text) (a : Bool)
    → wanted ≢ []
    → ((if is_empty message || is_empty wanted
          then neutral
          else if not (contains message wanted)
          then neutral
          else if a
          then accept
          else deny)
        ≡ (if a then accept else deny))
      ↔ (contains message wanted ≡ true)
unfolding contains
found_in message [] a h = absurd (h refl)
found_in [] (w ∷ wanted) a h = ground arith
found_in (m ∷ message) (w ∷ wanted) a h = ground arith

-- A string match filter with a text to match decides other than NEUTRAL exactly when the text stands
-- somewhere in the message of the event; the decision is then the one that `acceptOnMatch` selects.
pub decide-contains :
    (f : StringMatchFilter) (event : LoggingEvent)
    → f.string_to_match ≢ []
    → (decide f event ≡ (if f.accept_on_match then accept else deny)) ↔ (
        (before : Text) × (after : Text) × (event.message ≡ before ++ (f.string_to_match ++ after)))
unfolding decide
decide-contains f event h =
    let (to, from) = found_in event.message f.string_to_match f.accept_on_match h in
    (
      λ e. contains_sound event.message f.string_to_match (to e),
      λ (before, after, p). from (
          subst (λ t. contains t f.string_to_match ≡ true) (sym p)
            (contains_complete before f.string_to_match after)),
    )
