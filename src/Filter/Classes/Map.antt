-- ===== src/Filter/Classes/Map.antt =====
-- src/main/cpp/mapfilter.cpp. `key_vals` is read in the order of the association list, where `std::map`
-- goes by the order of the keys.
use logging_log4cxx.Prelude.{
  Bool, true, false, not, ◌&&◌, ◌||◌, ◌≡◌, ◌≢◌, ◌↔◌, ◌⊎◌, inl, inr, refl, Option, none, some, [],
  ◌∷◌, if◌then◌else◌, Text, codes, text_eq, text_eq_iff, is_empty, arith,
}
use logging_log4cxx.Properties.{PropertyMap, assign, get}
use logging_log4cxx.StringHelper.{equals_ignore_case}
use logging_log4cxx.OptionConverter.{to_boolean}
use logging_log4cxx.Filter.{Decision, deny, neutral, accept, LoggingEvent}
use logging_log4cxx.Filter.Classes.{is_accept_on_match}

pub record MapFilter : Type 0 where
  pub accept_on_match : Bool
  pub must_match_all : Bool
  pub key_vals : PropertyMap

unfoldable pub new : MapFilter
new = record { accept_on_match = true; must_match_all = false; key_vals = [] }

unfoldable pub set_option : Text → Text → MapFilter → MapFilter
unfolding to_boolean assign equals_ignore_case
set_option option value f =
    if is_accept_on_match option
    then record f { accept_on_match = to_boolean value f.accept_on_match }
    else if equals_ignore_case option (codes "OPERATOR") (codes "operator")
    then record f { must_match_all = equals_ignore_case value (codes "AND") (codes "and") }
    else if not (is_empty option) && not (is_empty value)
    then record f { key_vals = assign option value f.key_vals }
    else f

-- `getMDC(key, curval)`, which leaves `curval` empty where the key has no value.
abbrev or_none : Option Text → Text
or_none none = []
or_none (some v) = v

abbrev curval : LoggingEvent → Text → Text
curval event key = or_none (event.mdc key)

unfoldable item_matched : LoggingEvent → Text → Text → Bool
unfolding text_eq
item_matched event key value =
    if is_empty (curval event key) || not (text_eq (curval event key) value) then false else true

-- The loop of `decide`, with its `break` where `mustMatchAll != matched`.
unfoldable loop : Bool → LoggingEvent → PropertyMap → Bool → Bool
unfolding item_matched
loop must_match_all event [] matched = matched
loop must_match_all event ((key, value) ∷ items) matched =
    let now = item_matched event key value in
    let rest = loop must_match_all event items now in
    if must_match_all then (if now then rest else now) else (if now then now else rest)

unfoldable pub decide : MapFilter → LoggingEvent → Decision
unfolding loop
decide f event =
    let matched = loop f.must_match_all event f.key_vals true in
    if is_empty f.key_vals
    then neutral
    else if f.accept_on_match
    then (if matched then accept else neutral)
    else (if matched then deny else neutral)

unfoldable pub set_key_value : Text → Text → MapFilter → MapFilter
unfolding assign
set_key_value key value f = record f { key_vals = assign key value f.key_vals }

unfoldable pub get_value : Text → MapFilter → Text
unfolding get
get_value key f = get key f.key_vals

-- The event's context has the value under the key, and the value is not empty.
abbrev Carries : LoggingEvent → Text → Text → Type 0
Carries event key value = (value ≢ []) × (event.mdc key ≡ some value)

abbrev CarriesAll : LoggingEvent → PropertyMap → Type 0
CarriesAll event [] = Unit {0}
CarriesAll event ((key, value) ∷ items) = Carries event key value × CarriesAll event items

abbrev CarriesAny : LoggingEvent → PropertyMap → Type 0
CarriesAny event [] = ⊥
CarriesAny event ((key, value) ∷ items) = Carries event key value ⊎ CarriesAny event items

carried :
    (found : Option Text) (value : Text)
    → ((if is_empty (or_none found) || not (text_eq (or_none found) value) then false else true)
        ≡ true)
      ↔ ((value ≢ []) × (found ≡ some value))
carried none value = ground arith
carried (some []) value = ground (arith, text_eq_iff [] value)
carried (some (c ∷ v)) value = ground (arith, text_eq_iff (c ∷ v) value)

item_matched_iff :
    (event : LoggingEvent) (key value : Text)
    → (item_matched event key value ≡ true) ↔ Carries event key value
unfolding item_matched
item_matched_iff event key value = carried (event.mdc key) value

cc_false : false ≡ true → ⊥
cc_false h = cc

all_step :
    {P Q : Type 0} (now : Bool) (loop_again : Bool → Bool)
    → (now ≡ true) ↔ P
    → (loop_again true ≡ true) ↔ Q
    → ((if now then loop_again now else now) ≡ true) ↔ (P × Q)
all_step true again (to, from) (later, back) = (λ h. (to refl, later h), λ h. back h.1)
all_step false again (to, from) (later, back) = (λ h. cc, λ h. from h.0)

any_step :
    {P Q : Type 0} (now : Bool) (loop_again : Bool → Bool)
    → (now ≡ true) ↔ P
    → (loop_again false ≡ true) ↔ Q
    → ((if now then now else loop_again now) ≡ true) ↔ (P ⊎ Q)
any_step true again (to, from) (later, back) = (λ h. inl (to refl), λ h. refl)
any_step false again (to, from) (later, back) =
    (λ h. inr (later h), λ h. elim h [ inl p ↦ absurd (cc_false (from p)) | inr q ↦ back q ])

loop-all :
    (event : LoggingEvent) (items : PropertyMap)
    → (loop true event items true ≡ true) ↔ CarriesAll event items
unfolding loop
loop-all event [] = (λ h. _, λ h. refl)
loop-all event ((key, value) ∷ items) =
    all_step (item_matched event key value) (λ m. loop true event items m)
      (item_matched_iff event key value) (loop-all event items)

loop-any :
    (event : LoggingEvent) (items : PropertyMap)
    → (loop false event items false ≡ true) ↔ CarriesAny event items
unfolding loop
loop-any event [] = (λ h. cc, λ h. absurd h)
loop-any event ((key, value) ∷ items) =
    any_step (item_matched event key value) (λ m. loop false event items m)
      (item_matched_iff event key value) (loop-any event items)

-- What the operator asks of the items of a filter.
abbrev pub Matched : Bool → LoggingEvent → PropertyMap → Type 0
Matched true event items = CarriesAll event items
Matched false event items = CarriesAny event items

selected :
    {P : Type 0} (m a : Bool)
    → (m ≡ true) ↔ P
    → ((if a then (if m then accept else neutral) else (if m then deny else neutral))
        ≡ (if a then accept else deny))
      ↔ P
selected true true (to, from) = (λ h. to refl, λ h. refl)
selected true false (to, from) = (λ h. to refl, λ h. refl)
selected false true (to, from) = (λ h. cc, λ h. absurd (cc_false (from h)))
selected false false (to, from) = (λ h. cc, λ h. absurd (cc_false (from h)))

passed_over :
    {P : Type 0} (m a : Bool)
    → (m ≡ true) ↔ P
    → ((if a then (if m then accept else neutral) else (if m then deny else neutral)) ≡ neutral)
      ↔ (P → ⊥)
passed_over true true (to, from) = (λ h. cc, λ h. absurd (h (to refl)))
passed_over true false (to, from) = (λ h. cc, λ h. absurd (h (to refl)))
passed_over false true (to, from) = (λ h p. cc_false (from p), λ h. refl)
passed_over false false (to, from) = (λ h p. cc_false (from p), λ h. refl)

answers :
    {P : Type 0} (m a : Bool)
    → (m ≡ true) ↔ P
    → (((if a then (if m then accept else neutral) else (if m then deny else neutral))
          ≡ (if a then accept else deny))
        ↔ P)
      × (((if a then (if m then accept else neutral) else (if m then deny else neutral)) ≡ neutral)
          ↔ (P → ⊥))
answers m a e = (selected m a e, passed_over m a e)

decided :
    (all a : Bool) (event : LoggingEvent) (items : PropertyMap)
    → items ≢ []
    → (((if is_empty items
            then neutral
            else if a
            then (if loop all event items true then accept else neutral)
            else (if loop all event items true then deny else neutral))
          ≡ (if a then accept else deny))
        ↔ Matched all event items)
      × (((if is_empty items
              then neutral
              else if a
              then (if loop all event items true then accept else neutral)
              else (if loop all event items true then deny else neutral))
            ≡ neutral)
          ↔ (Matched all event items → ⊥))
unfolding loop
decided all a event [] h = absurd (h refl)
decided true a event (x ∷ items) h =
    answers (loop true event (x ∷ items) true) a (loop-all event (x ∷ items))
decided false a event (x ∷ items) h =
    answers (loop false event (x ∷ items) false) a (loop-any event (x ∷ items))

-- Of a map filter with at least one pair say that it matches an event when, under AND, every pair and,
-- under OR, some pair is in the event's context with a value that is not empty. The filter decides as
-- `acceptOnMatch` selects exactly when it matches, and is NEUTRAL exactly when it does not.
pub decide-items :
    (f : MapFilter) (event : LoggingEvent)
    → f.key_vals ≢ []
    → ((decide f event ≡ (if f.accept_on_match then accept else deny))
        ↔ Matched f.must_match_all event f.key_vals)
      × ((decide f event ≡ neutral) ↔ (Matched f.must_match_all event f.key_vals → ⊥))
unfolding decide
decide-items f event h = decided f.must_match_all f.accept_on_match event f.key_vals h
