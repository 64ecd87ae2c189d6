-- ===== src/Level.antt =====
-- src/main/cpp/level.cpp. `toInt()` is the field `level`; the shared static objects are values here, so
-- two levels are one object exactly when they are equal. A null `LevelPtr` is `none`.
pub mod Names
use logging_log4cxx.Prelude.{
  ℕ, Bool, true, false, Option, none, some, ℤ, pos, negsuc, leb_ℤ, eqb_ℤ, ◌==◌, if◌then◌else◌, Text,
  codes, length, List, [], ◌∷◌,
}
use logging_log4cxx.StringHelper.{equals_ignore_case, trim}

pub record Level : Type 0 where
  pub level : ℤ
  pub name : Text
  pub syslog_equivalent : ℕ

-- The constants of `enum` in src/main/include/log4cxx/level.h; an `int` has 32 bits.
abbrev pub off_int : ℤ
off_int = pos 2147483647

abbrev pub fatal_int : ℤ
fatal_int = pos 50000

abbrev pub error_int : ℤ
error_int = pos 40000

abbrev pub warn_int : ℤ
warn_int = pos 30000

abbrev pub info_int : ℤ
info_int = pos 20000

abbrev pub debug_int : ℤ
debug_int = pos 10000

abbrev pub trace_int : ℤ
trace_int = pos 5000

abbrev pub all_int : ℤ
all_int = negsuc 2147483647

abbrev pub off : Level
off = record { level = off_int; name = codes "OFF"; syslog_equivalent = 0 }

abbrev pub fatal : Level
fatal = record { level = fatal_int; name = codes "FATAL"; syslog_equivalent = 0 }

abbrev pub error : Level
error = record { level = error_int; name = codes "ERROR"; syslog_equivalent = 3 }

abbrev pub warn : Level
warn = record { level = warn_int; name = codes "WARN"; syslog_equivalent = 4 }

abbrev pub info : Level
info = record { level = info_int; name = codes "INFO"; syslog_equivalent = 6 }

abbrev pub debug : Level
debug = record { level = debug_int; name = codes "DEBUG"; syslog_equivalent = 7 }

abbrev pub trace : Level
trace = record { level = trace_int; name = codes "TRACE"; syslog_equivalent = 7 }

abbrev pub all : Level
all = record { level = all_int; name = codes "ALL"; syslog_equivalent = 7 }

-- `toLevel(int, const LevelPtr&)`
pub to_level : ℤ → Option Level → Option Level
to_level val default =
    if eqb_ℤ val all_int
    then some all
    else if eqb_ℤ val debug_int
    then some debug
    else if eqb_ℤ val trace_int
    then some trace
    else if eqb_ℤ val info_int
    then some info
    else if eqb_ℤ val warn_int
    then some warn
    else if eqb_ℤ val error_int
    then some error
    else if eqb_ℤ val fatal_int
    then some fatal
    else if eqb_ℤ val off_int
    then some off
    else default

-- The tests of `toLevelLS` on the trimmed text, by its length.
named : Text → Option Level → Option Level
named trimmed default =
    if length trimmed == 4
    then (if equals_ignore_case trimmed (codes "INFO") (codes "info")
        then some info
        else if equals_ignore_case trimmed (codes "WARN") (codes "warn")
        then some warn
        else default)
    else if length trimmed == 5
    then (if equals_ignore_case trimmed (codes "DEBUG") (codes "debug")
        then some debug
        else if equals_ignore_case trimmed (codes "TRACE") (codes "trace")
        then some trace
        else if equals_ignore_case trimmed (codes "ERROR") (codes "error")
        then some error
        else if equals_ignore_case trimmed (codes "FATAL") (codes "fatal")
        then some fatal
        else default)
    else if length trimmed == 3
    then (if equals_ignore_case trimmed (codes "OFF") (codes "off")
        then some off
        else if equals_ignore_case trimmed (codes "ALL") (codes "all")
        then some all
        else default)
    else default

-- `toLevelLS(const LogString&, const LevelPtr&)`
unfoldable pub to_level_ls : Text → Option Level → Option Level
unfolding named
to_level_ls arg default = named (trim arg) default

-- `equals` and `isGreaterOrEqual`, whose argument may be null.
unfoldable pub equals : Level → Option Level → Bool
equals this none = false
equals this (some other) = eqb_ℤ this.level other.level

unfoldable pub is_greater_or_equal : Level → Option Level → Bool
is_greater_or_equal this none = false
is_greater_or_equal this (some other) = leb_ℤ other.level this.level
