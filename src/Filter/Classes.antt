-- ===== src/Filter/Classes.antt =====
-- What the filter classes that look at one event share: the options, and the tests of a level
-- pointer that may be null.
pub mod LevelRange
pub mod LevelMatch
pub mod StringMatch
pub mod LoggerMatch
pub mod Map
use logging_log4cxx.Prelude.{Bool, false, not, Option, none, some, Text, codes, ltb_ℤ}
use logging_log4cxx.Level.{Level, is_greater_or_equal, equals}
use logging_log4cxx.StringHelper.{equals_ignore_case}

abbrev pub is_accept_on_match : Text → Bool
is_accept_on_match option =
    equals_ignore_case option (codes "ACCEPTONMATCH") (codes "acceptonmatch")

-- `max != 0 && level->toInt() > max->toInt()`
abbrev pub exceeds : Level → Option Level → Bool
exceeds level none = false
exceeds level (some max) = ltb_ℤ max.level level.level

-- `min != 0 && !level->isGreaterOrEqual(min)`
abbrev pub below : Level → Option Level → Bool
below level none = false
below level (some min) = not (is_greater_or_equal level (some min))

-- `wanted != 0 && wanted->equals(level)`
abbrev pub matches : Level → Option Level → Bool
matches level none = false
matches level (some wanted) = equals wanted (some level)
