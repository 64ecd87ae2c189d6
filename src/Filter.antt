-- ===== src/Filter.antt =====
-- src/main/cpp/filter.cpp and src/main/include/log4cxx/spi/filter.h: the decision of a filter and the chain
-- of filters. A filter object is a number, its address; `Next` is the field `next` of every object
-- of the heap, null as `none`. `LoggingEvent` is what the filters and appenders read of an event.
pub mod Classes
pub mod Chains
pub mod AndFilter
use logging_log4cxx.Prelude.{ℕ, Option, none, some, ◌==◌, if◌then◌else◌, Text}
use logging_log4cxx.Level.{Level}

pub data Decision : Type 0 where
  deny neutral accept : Decision

pub record LoggingEvent : Type 0 where
  pub level : Level
  pub logger_name : Text
  pub message : Text
  pub mdc : Text → Option Text

abbrev pub Next : Type 0
Next = ℕ → Option ℕ

-- `getNext` and `setNext`
unfoldable pub get_next : ℕ → Next → Option ℕ
get_next f next = next f

unfoldable pub set_next : ℕ → Option ℕ → Next → Next
set_next f new_next next g = if f == g then new_next else next g
