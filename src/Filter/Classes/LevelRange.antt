-- ===== src/Filter/Classes/LevelRange.antt =====
-- src/main/cpp/levelrangefilter.cpp. `load_level_class` is as in OptionConverter.
use logging_log4cxx.Prelude.{
  Bool, false, ◌≡◌, ◌↔◌, Option, none, some, if◌then◌else◌, Text, codes, ◌≤ℤ◌, ℤ, arith,
}
use logging_log4cxx.Level.{Level, is_greater_or_equal, all, off}
use logging_log4cxx.StringHelper.{equals_ignore_case}
use logging_log4cxx.OptionConverter.{to_boolean, to_level}
use logging_log4cxx.Filter.{Decision, deny, neutral, accept, LoggingEvent}
use logging_log4cxx.Filter.Classes.{is_accept_on_match, below, exceeds}

pub record LevelRangeFilter : Type 0 where
  pub accept_on_match : Bool
  pub level_min : Option Level
  pub level_max : Option Level

unfoldable pub new : LevelRangeFilter
new = record { accept_on_match = false; level_min = some all; level_max = some off }

unfoldable pub decide : LevelRangeFilter → LoggingEvent → Decision
unfolding is_greater_or_equal
decide f event =
    if below event.level f.level_min
    then deny
    else if exceeds event.level f.level_max
    then deny
    else if f.accept_on_match
    then accept
    else neutral

unfoldable pub set_option :
    (Text → Text → Option (Option Level)) → Text → Text → LevelRangeFilter → LevelRangeFilter
unfolding to_boolean equals_ignore_case
set_option load_level_class option value f =
    if equals_ignore_case option (codes "LEVELMIN") (codes "levelmin")
    then record f { level_min = to_level load_level_class value f.level_min }
    else if equals_ignore_case option (codes "LEVELMAX") (codes "levelmax")
    then record f { level_max = to_level load_level_class value f.level_max }
    else if is_accept_on_match option
    then record f { accept_on_match = to_boolean value f.accept_on_match }
    else f

-- A level that lies between the two bounds, where a missing bound bounds nothing.
abbrev pub AtLeast : ℤ → Option Level → Type 0
AtLeast n none = Unit {0}
AtLeast n (some min) = min.level ≤ℤ n

abbrev pub AtMost : ℤ → Option Level → Type 0
AtMost n none = Unit {0}
AtMost n (some max) = n ≤ℤ max.level

decide-bounds :
    (l : Level) (lo hi : Option Level) (a : Bool)
    → (AtLeast l.level lo × AtMost l.level hi) ↔ (
        (if below l lo then deny else if exceeds l hi then deny else if a then accept else neutral)
        ≡ (if a then accept else neutral))
unfolding is_greater_or_equal
decide-bounds l none none a = ground arith
decide-bounds l none (some hi) a = ground arith
decide-bounds l (some lo) none a = ground arith
decide-bounds l (some lo) (some hi) a = ground arith

-- A level range filter lets an event pass exactly when the event's level lies between its bounds, a
-- null bound being no bound; the decision is then the one that `acceptOnMatch` selects.
pub decide-range :
    (f : LevelRangeFilter) (event : LoggingEvent)
    → (AtLeast event.level.level f.level_min × AtMost event.level.level f.level_max)
      ↔ (decide f event ≡ (if f.accept_on_match then accept else neutral))
unfolding decide is_greater_or_equal
decide-range f event = decide-bounds event.level f.level_min f.level_max f.accept_on_match
