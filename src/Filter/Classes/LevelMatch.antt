-- ===== src/Filter/Classes/LevelMatch.antt =====
-- src/main/cpp/levelmatchfilter.cpp. `load_level_class` is as in OptionConverter.
use logging_log4cxx.Prelude.{Bool, Option, if◌then◌else◌, Text, codes}
use logging_log4cxx.Level.{Level, equals}
use logging_log4cxx.StringHelper.{equals_ignore_case}
use logging_log4cxx.OptionConverter.{to_boolean, to_level}
use logging_log4cxx.Filter.{Decision, deny, neutral, accept, LoggingEvent}
use logging_log4cxx.Filter.Classes.{is_accept_on_match, matches}

pub record LevelMatchFilter : Type 0 where
  pub accept_on_match : Bool
  pub level_to_match : Option Level

-- `setLevelToMatch`
unfoldable pub set_level_to_match :
    (Text → Text → Option (Option Level)) → Text → LevelMatchFilter → LevelMatchFilter
set_level_to_match load_level_class value f = record f {
  level_to_match = to_level load_level_class value f.level_to_match;
}

unfoldable pub set_option :
    (Text → Text → Option (Option Level)) → Text → Text → LevelMatchFilter → LevelMatchFilter
unfolding set_level_to_match to_boolean equals_ignore_case
set_option load_level_class option value f =
    if equals_ignore_case option (codes "LEVELTOMATCH") (codes "leveltomatch")
    then set_level_to_match load_level_class value f
    else if is_accept_on_match option
    then record f { accept_on_match = to_boolean value f.accept_on_match }
    else f

unfoldable pub decide : LevelMatchFilter → LoggingEvent → Decision
unfolding equals
decide f event =
    if matches event.level f.level_to_match
    then (if f.accept_on_match then accept else deny)
    else neutral
