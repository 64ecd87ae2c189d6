-- ===== src/OptionConverter.antt =====
-- src/main/cpp/optionconverter.cpp: the conversions of option values. What C's `atol` reads, the system
-- properties (environment variables) and the classes that `Loader` finds are parameters.
pub mod SubstVars
pub mod Values
use logging_log4cxx.Prelude.{
  ℕ, zero, suc, ◌+◌, ◌-◌, ◌*◌, ◌%◌, ◌^◌, Bool, true, false, ◌&&◌, ◌||◌, List, [], ◌∷◌, ◌++◌, Option,
  none, some, ℤ, pos, negsuc, ltb, leb, ◌==◌, if◌then◌else◌, Text, codes, is_empty, split_at,
  length, take, drop, get_elem?,
}
use logging_log4cxx.StringHelper.{equals_ignore_case, trim}
use logging_log4cxx.Level.{Level, to_level_ls}
use logging_log4cxx.Properties.{PropertyMap, get}

-- The switch of `convertSpecialChars`.
abbrev special_char : ℕ → ℕ
special_char c =
    if c == b'n'
    then 0x0A
    else if c == b'r'
    then 0x0D
    else if c == b't'
    then 0x09
    else if c == b'f'
    then 0x0C
    else c

unfoldable pub convert_special_chars : Text → Text
convert_special_chars [] = []
convert_special_chars (c ∷ []) = c ∷ []
convert_special_chars (c ∷ d ∷ s) =
    let escaped = special_char d ∷ convert_special_chars s in
    let plain = c ∷ convert_special_chars (d ∷ s) in if c == 0x5C then escaped else plain

unfoldable pub to_boolean : Text → Bool → Bool
to_boolean value default =
    if leb 4 (length value) && equals_ignore_case (take 4 value) (codes "TRUE") (codes "true")
    then true
    else if default
        && leb 5 (length value)
        && equals_ignore_case (take 5 value) (codes "FALSE") (codes "false")
    then false
    else default

-- `(int)` of a `long`: the low 32 bits, as a signed number.
abbrev pub int_of_residue : ℕ → ℤ
int_of_residue r = if ltb r 2147483648 then pos r else negsuc (4294967296 - r - 1)

abbrev pub int_of_long : ℤ → ℤ
int_of_long (pos n) = int_of_residue (n % 4294967296)
int_of_long (negsuc n) = int_of_residue (4294967295 - n % 4294967296)

-- The product of an `int` and a `long` multiplier; it fits the 64 bits of a `long`.
abbrev pub times : ℤ → ℕ → ℤ
times (pos n) k = pos (n * k)
times (negsuc n) k = negsuc (n * k + k - 1)

-- `find_first_of("bB")`
unfoldable pub find_b : Text → Option ℕ
find_b [] = none
find_b (c ∷ s) =
    let rest = find_b s in
    if c == b'b' || c == b'B' then some 0 else elim rest [ none ↦ none | some k ↦ some (k + 1) ]

abbrev pub multiplier : ℕ → ℕ
multiplier c =
    if c == b'k' || c == b'K'
    then 1024
    else if c == b'm' || c == b'M'
    then 1048576
    else if c == b'g' || c == b'G'
    then 1073741824
    else 1

abbrev code_at : Text → ℕ → ℕ
code_at [] i = 0
code_at (c ∷ s) zero = c
code_at (c ∷ s) (suc i) = code_at s i

module _ (atol : Text → ℤ) where
  unfoldable pub to_int : Text → ℤ → ℤ
  to_int value default = if is_empty (trim value) then default else int_of_long (atol (trim value))

  pub to_file_size : Text → ℤ → ℤ
  unfolding to_int find_b
  to_file_size s default = if is_empty s then default else elim (find_b s) [
    | none ↦ to_int s (pos 1)
    | some zero ↦ to_int s (pos 1)
    | some (suc index) ↦ times (to_int (take index s) (pos 1)) (multiplier (code_at s index))
  ]

-- What `substVars` does: it returns, it throws (for a text with no closing brace, at a position), or
-- the recursion goes deeper than the fuel.
pub data Subst : Type 0 where
  substituted : Text → Subst
  no_closing_brace : Text → ℕ → Subst
  too_deep : Subst

-- `find(delimStart)`: the text before the first "${", and the text behind it.
unfoldable pub split_start : Text → Option (Text × Text)
split_start [] = none
split_start (c ∷ []) = none
split_start (c ∷ d ∷ s) =
    let rest = split_start (d ∷ s) in
    if c == b'$' && d == b'{'
    then some ([], s)
    else elim rest [ none ↦ none | some (before, after) ↦ some (c ∷ before, after) ]

-- `system_property` is `System::getProperty`, which is asked for no empty key.
module _ (system_property : Text → Text) where
  pub get_system_property : Text → Text → Text
  get_system_property key def =
      if is_empty key
      then def
      else if is_empty (system_property key)
      then def
      else system_property key

  -- The value of a variable: the system property, or else the property.
  unfoldable pub replacement : PropertyMap → Text → Text
  unfolding get_system_property
  replacement props key =
      if is_empty (get_system_property key []) then get key props else get_system_property key []

  -- One variable: `again` is the recursive call.
  expand_key : PropertyMap → (Text → Subst) → Text → Subst
  unfolding replacement
  expand_key props again key =
      if is_empty (replacement props key) then substituted [] else again (replacement props key)

  -- The loop of `substVars`; the "}" is searched from the "${", neither of whose characters is one.
  -- `rest` is the part of `val` from the index `i` on, `sbuf` the output so far. A round reads at least
  -- three characters of `rest`, and the fuel is for the rounds.
  subst_loop : PropertyMap → (Text → Subst) → ℕ → Text → ℕ → Text → Text → Subst
  unfolding split_start split_at expand_key
  subst_loop props again zero val i rest sbuf = too_deep
  subst_loop props again (suc n) val i rest sbuf = elim (split_start rest) [
    | none ↦ substituted (if i == 0 then val else sbuf ++ rest)
    | some (before, after) ↦ elim (split_at b'}' after) [
      | none ↦ no_closing_brace val (i + length before)
      | some (key, tail) ↦ elim (expand_key props again key) [
        | substituted value ↦
            subst_loop props again n val (i + length before + 2 + length key + 1) tail
              ((sbuf ++ before) ++ value)
        | no_closing_brace t j ↦ no_closing_brace t j
        | too_deep ↦ too_deep
      ]
    ]
  ]

  -- `substVars`, on fuel for the depth of its recursion.
  unfoldable pub subst_vars : PropertyMap → ℕ → Text → Subst
  unfolding subst_loop
  subst_vars props zero val = too_deep
  subst_vars props (suc depth) val =
      subst_loop props (subst_vars props depth) (suc (length val)) val 0 val []

  -- `findAndSubst`, which logs an exception and returns the value as it stands.
  unfoldable pub find_and_subst : PropertyMap → ℕ → Text → Subst
  unfolding subst_vars
  find_and_subst props depth key =
      let value = get key props in
      if is_empty value then substituted value else elim (subst_vars props depth value) [
        | substituted t ↦ substituted t
        | no_closing_brace t j ↦ substituted value
        | too_deep ↦ too_deep
      ]

-- `toLevel`. `load_level_class` is the `toLevel(name)` of the level class that `Loader` finds, and
-- `none` where the class is not found, is no level class, or throws.
module _ (load_level_class : Text → Text → Option (Option Level)) where
  class_level : Option Level → Option (Option Level) → Option Level
  class_level default none = default
  class_level default (some v) = v

  unfoldable pub to_level : Text → Option Level → Option Level
  unfolding split_at class_level
  to_level value default = elim (split_at b'#' value) [
    | none ↦ if is_empty value then default else to_level_ls value default
    | some (level_name, clazz) ↦
        if is_empty level_name
        then to_level_ls value default
        else class_level default (load_level_class clazz level_name)
  ]
