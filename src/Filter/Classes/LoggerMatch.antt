-- ===== src/Filter/Classes/LoggerMatch.antt =====
-- src/main/cpp/loggermatchfilter.cpp
use logging_log4cxx.Prelude.{Bool, true, if◌then◌else◌, Text, codes, text_eq}
use logging_log4cxx.StringHelper.{equals_ignore_case}
use logging_log4cxx.OptionConverter.{to_boolean}
use logging_log4cxx.Filter.{Decision, deny, neutral, accept, LoggingEvent}
use logging_log4cxx.Filter.Classes.{is_accept_on_match}

pub record LoggerMatchFilter : Type 0 where
  pub accept_on_match : Bool
  pub logger_to_match : Text

unfoldable pub new : LoggerMatchFilter
new = record { accept_on_match = true; logger_to_match = codes "root" }

-- `setLoggerToMatch` and `getLoggerToMatch`
unfoldable pub set_logger_to_match : Text → LoggerMatchFilter → LoggerMatchFilter
set_logger_to_match value f = record f { logger_to_match = value }

unfoldable pub set_option : Text → Text → LoggerMatchFilter → LoggerMatchFilter
unfolding set_logger_to_match to_boolean equals_ignore_case
set_option option value f =
    if equals_ignore_case option (codes "LOGGERTOMATCH") (codes "loggertomatch")
    then set_logger_to_match value f
    else if is_accept_on_match option
    then record f { accept_on_match = to_boolean value f.accept_on_match }
    else f

unfoldable pub decide : LoggerMatchFilter → LoggingEvent → Decision
unfolding text_eq
decide f event =
    if text_eq f.logger_to_match event.logger_name
    then (if f.accept_on_match then accept else deny)
    else neutral
