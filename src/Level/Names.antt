-- ===== src/Level/Names.antt =====
-- How src/main/cpp/level.cpp reads the names and the numbers of its levels.
use logging_log4cxx.Prelude.{
  ℕ, ◌≡◌, refl, true, Option, some, List, [], ◌∷◌, ◌++◌, Text, codes, length, arith, ◌⊎◌, ◌≢◌,
  if◌then◌else◌,
}
use logging_log4cxx.StringHelper.Trim.{trim-spaces, IsBare, spaces, more}
use logging_log4cxx.StringHelper.{equals_ignore_case, trim}
use logging_log4cxx.Level.{
  Level, off, fatal, error, warn, info, debug, trace, all, to_level, to_level_ls, named,
}

-- The eight levels that the class makes.
pub data IsStandard : Level → Type 0 where
  is_off : IsStandard off
  is_fatal : IsStandard fatal
  is_error : IsStandard error
  is_warn : IsStandard warn
  is_info : IsStandard info
  is_debug : IsStandard debug
  is_trace : IsStandard trace
  is_all : IsStandard all

-- Each character of the text is the one of the upper case word or the one of the lower case word.
abbrev pub SpelledAs : Text → Text → Text → Type 0
SpelledAs [] [] [] = Unit {0}
SpelledAs (c ∷ s) (u ∷ upper) (l ∷ lower) = (c ≢ 0) × ((c ≡ u) ⊎ (c ≡ l)) × SpelledAs s upper lower
SpelledAs _ _ _ = ⊥

pub equals_ignore_case-SpelledAs :
    (s upper lower : Text)
    → length upper ≡ length lower
    → (equals_ignore_case s upper lower ≡ true → SpelledAs s upper lower)
      × (SpelledAs s upper lower → equals_ignore_case s upper lower ≡ true)
unfolding equals_ignore_case
equals_ignore_case-SpelledAs [] [] [] e = (λ h. tt, λ h. refl)
equals_ignore_case-SpelledAs [] [] (l ∷ lower) e = absurd (omega arith)
equals_ignore_case-SpelledAs [] (u ∷ upper) lower e = (λ h. cc, λ h. absurd h)
equals_ignore_case-SpelledAs (c ∷ s) [] lower e = (λ h. cc, λ h. absurd h)
equals_ignore_case-SpelledAs (c ∷ s) (u ∷ upper) [] e = absurd (omega arith)
equals_ignore_case-SpelledAs (c ∷ s) (u ∷ upper) (l ∷ lower) e =
    let ih = equals_ignore_case-SpelledAs s upper lower (omega arith) in
    (λ h. (ground arith, ground arith, ih.0 (ground arith)), λ h. ground (arith, ih.1 h.2))

pub length-equals_ignore_case :
    (s upper lower : Text) → equals_ignore_case s upper lower ≡ true → length s ≡ length upper
unfolding equals_ignore_case
length-equals_ignore_case [] [] lower h = refl
length-equals_ignore_case [] (u ∷ upper) lower h = absurd (cc)
length-equals_ignore_case (c ∷ s) [] lower h = absurd (cc)
length-equals_ignore_case (c ∷ s) (u ∷ upper) [] h = absurd (cc)
length-equals_ignore_case (c ∷ s) (u ∷ upper) (l ∷ lower) h =
    ground (arith, length-equals_ignore_case s upper lower)

-- The levels that a text may name, in the order of the tests, with their two spellings.
abbrev pub table : List (Level × Text × Text)
table =
    (info, codes "INFO", codes "info")
    ∷ (warn, codes "WARN", codes "warn")
    ∷ (debug, codes "DEBUG", codes "debug")
    ∷ (trace, codes "TRACE", codes "trace")
    ∷ (error, codes "ERROR", codes "error")
    ∷ (fatal, codes "FATAL", codes "fatal")
    ∷ (off, codes "OFF", codes "off")
    ∷ (all, codes "ALL", codes "all")
    ∷ []

-- A plain scan for the first entry that the text spells.
abbrev pub scan : List (Level × Text × Text) → Text → Option Level → Option Level
scan [] s default = default
scan ((v, upper, lower) ∷ rest) s default =
    if equals_ignore_case s upper lower then some v else scan rest s default

-- The choice by length loses nothing: `toLevelLS` is the scan of the table for the trimmed text.
pub to_level_ls-scan :
    (arg : Text) (default : Option Level) → to_level_ls arg default ≡ scan table (trim arg) default
unfolding to_level_ls
to_level_ls-scan arg default =
    let s = trim arg in
    ground (
      arith,
      length-equals_ignore_case s (codes "INFO") (codes "info"),
      length-equals_ignore_case s (codes "WARN") (codes "warn"),
      length-equals_ignore_case s (codes "DEBUG") (codes "debug"),
      length-equals_ignore_case s (codes "TRACE") (codes "trace"),
      length-equals_ignore_case s (codes "ERROR") (codes "error"),
      length-equals_ignore_case s (codes "FATAL") (codes "fatal"),
      length-equals_ignore_case s (codes "OFF") (codes "off"),
      length-equals_ignore_case s (codes "ALL") (codes "all"),
    )

name-IsBare : {v : Level} → IsStandard v → IsBare v.name
name-IsBare is_off = more b'O' b'F' (codes "F") (omega arith) (omega arith)
name-IsBare is_fatal = more b'F' b'L' (codes "ATA") (omega arith) (omega arith)
name-IsBare is_error = more b'E' b'R' (codes "RRO") (omega arith) (omega arith)
name-IsBare is_warn = more b'W' b'N' (codes "AR") (omega arith) (omega arith)
name-IsBare is_info = more b'I' b'O' (codes "NF") (omega arith) (omega arith)
name-IsBare is_debug = more b'D' b'G' (codes "EBU") (omega arith) (omega arith)
name-IsBare is_trace = more b'T' b'E' (codes "RAC") (omega arith) (omega arith)
name-IsBare is_all = more b'A' b'L' (codes "L") (omega arith) (omega arith)

named-name : {v : Level} → IsStandard v → (default : Option Level) → named v.name default ≡ some v
unfolding named equals_ignore_case
named-name is_off d = refl
named-name is_fatal d = refl
named-name is_error d = refl
named-name is_warn d = refl
named-name is_info d = refl
named-name is_debug d = refl
named-name is_trace d = refl
named-name is_all d = refl

to_level-level :
    {v : Level} → IsStandard v → (default : Option Level) → to_level v.level default ≡ some v
unfolding to_level
to_level-level is_off d = refl
to_level-level is_fatal d = refl
to_level-level is_error d = refl
to_level-level is_warn d = refl
to_level-level is_info d = refl
to_level-level is_debug d = refl
to_level-level is_trace d = refl
to_level-level is_all d = refl

-- A standard level is read back from its name, with any spaces around it, and from its number,
-- whatever the default is.
pub to_level-round_trip :
    {v : Level} (m n : ℕ) (default : Option Level)
    → IsStandard v
    → (to_level_ls (spaces m ++ (v.name ++ spaces n)) default ≡ some v)
      × (to_level v.level default ≡ some v)
unfolding to_level_ls
to_level-round_trip m n default s =
    (rw (trim-spaces m n (name-IsBare s)) (named-name s default), to_level-level s default)
