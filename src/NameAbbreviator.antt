-- ===== src/NameAbbreviator.antt =====
-- src/main/cpp/nameabbreviator.cpp: the abbreviators of a name that stands in `buf` from `name_start`
-- on. A position of `std::string::npos` is `none`.
pub mod Elements
pub mod Patterns
pub mod Precision
pub mod Reading
use logging_log4cxx.Prelude.{
  ℕ, zero, suc, ◌+◌, ◌-◌, Bool, true, false, not, ◌&&◌, Option, none, some, Outcome, returned,
  thrown, illegal_argument, List, [], ◌∷◌, ◌++◌, if◌then◌else◌, ltb, ◌==◌, Text, length, take, drop,
  get_elem?, leb, ◌||◌, split_at,
}
use logging_log4cxx.StringHelper.{trim}

-- The first dot, as its distance from the start.
unfoldable pub first_dot : Text → Option ℕ
first_dot [] = none
first_dot (c ∷ s) =
    let later = first_dot s in
    if c == b'.' then some 0 else elim later [ none ↦ none | some i ↦ some (suc i) ]

-- `buf.find(0x2E, start)`
unfoldable pub find_dot : Text → ℕ → Option ℕ
unfolding first_dot
find_dot buf start = elim (first_dot (drop start buf)) [ none ↦ none | some i ↦ some (start + i) ]

-- `buf.erase(begin + first, begin + last)`
abbrev pub erase : Text → ℕ → ℕ → Text
erase buf first last = take first buf ++ drop last buf

-- `buf.insert(at, 1, c)`
abbrev pub insert : Text → ℕ → ℕ → Text
insert buf at c = take at buf ++ c ∷ drop at buf

-- `PatternAbbreviatorFragment`
pub record Fragment : Type 0 where
  pub char_count : ℕ
  pub ellipsis : ℕ

-- `PatternAbbreviatorFragment::abbreviate`
unfoldable pub abbreviate_element : Fragment → Text → ℕ → Text × Option ℕ
unfolding find_dot
abbreviate_element f buf start = elim (find_dot buf start) [
  | none ↦ (buf, none)
  | some next_dot ↦
      if ltb f.char_count (next_dot - start)
      then (let cut : Text = erase buf (start + f.char_count) next_dot in
          if f.ellipsis == 0
          then (cut, some (start + f.char_count + 1))
          else (insert cut (start + f.char_count) f.ellipsis, some (start + f.char_count + 1 + 1)))
      else (buf, some (next_dot + 1))
]

-- `pos < buf.length()`
abbrev pub is_inside : Option ℕ → Text → Bool
is_inside none buf = false
is_inside (some pos) buf = ltb pos (length buf)

-- The loop with the last fragment, on fuel: `none` where it is out.
unfoldable pub repeat_last : ℕ → Fragment → Text → Option ℕ → Option Text
unfolding abbreviate_element
repeat_last n f buf none = some buf
repeat_last zero f buf (some pos) = if ltb pos (length buf) then none else some buf
repeat_last (suc n) f buf (some pos) =
    let (buf', pos') = abbreviate_element f buf pos in
    let rest = repeat_last n f buf' pos' in if ltb pos (length buf) then rest else some buf

-- `PatternAbbreviator::abbreviate` from a fragment and a position on.
unfoldable pub abbreviate_from : ℕ → Fragment → List Fragment → Text → Option ℕ → Option Text
unfolding abbreviate_element repeat_last
abbreviate_from n f [] buf pos = repeat_last n f buf pos
abbreviate_from n f (g ∷ fs) buf none = some buf
abbreviate_from n f (g ∷ fs) buf (some pos) =
    let (buf', pos') = abbreviate_element f buf pos in
    let rest = abbreviate_from n g fs buf' pos' in if ltb pos (length buf) then rest else some buf

-- `PatternAbbreviator::abbreviate`; the constructor refuses an empty vector.
unfoldable pub abbreviate : ℕ → List Fragment → ℕ → Text → Outcome (Option Text)
unfolding abbreviate_from
abbreviate n [] name_start buf = thrown illegal_argument
abbreviate n (f ∷ fs) name_start buf = returned (abbreviate_from n f fs buf (some name_start))

-- The last dot before a position.
unfoldable pub last_dot_before : Text → ℕ → Option ℕ
last_dot_before buf zero = none
last_dot_before buf (suc i) =
    let earlier = last_dot_before buf i in
    elim (get_elem? buf i) [ none ↦ earlier | some c ↦ if c == b'.' then some i else earlier ]

-- `buf.rfind(0x2E, end - 1)`: the subtraction wraps around at 0, and then the whole text is searched.
unfoldable pub rfind_dot : Text → ℕ → Option ℕ
unfolding last_dot_before
rfind_dot buf end = last_dot_before buf (if end == 0 then length buf else end)

-- The loop of `MaxElementAbbreviator::abbreviate`: `none` where it returns early.
unfoldable pub back_up : ℕ → ℕ → Text → ℕ → Option ℕ
unfolding rfind_dot
back_up zero name_start buf end = some end
back_up (suc i) name_start buf end = elim (rfind_dot buf end) [
  | none ↦ none
  | some dot ↦ if ltb dot name_start then none else back_up i name_start buf dot
]

-- `MaxElementAbbreviator::abbreviate`, on a text that is not empty.
unfoldable pub keep_last : ℕ → ℕ → Text → Text
unfolding back_up
keep_last count name_start buf = elim (back_up count name_start buf (length buf - 1)) [
  | none ↦ buf
  | some end ↦ erase buf name_start (end + 1)
]

pub data Abbreviator : Type 0 where
  nop : Abbreviator
  max_element : ℕ → Abbreviator
  pattern_abbreviator : List Fragment → Abbreviator

abbrev pub is_digit : ℕ → Bool
is_digit c = leb b'0' c && leb c b'9'

-- The digits at the start are the whole text.
abbrev pub all_digits : Text → Bool
all_digits [] = true
all_digits (c ∷ s) = is_digit c && all_digits s

-- The ellipsis that stands at `ellipsisPos`.
abbrev pub ellipsis_at : Text → ℕ
ellipsis_at [] = 0
ellipsis_at (c ∷ s) = if c == b'.' then 0 else c

-- The fragment that starts at `pos`; `INT_MAX` for a star.
unfoldable pub fragment_at : ℕ → Text → Fragment
fragment_at c s =
    if c == b'*'
    then record { char_count = 2147483647; ellipsis = ellipsis_at s }
    else if is_digit c
    then record { char_count = c - b'0'; ellipsis = ellipsis_at s }
    else record { char_count = 0; ellipsis = ellipsis_at (c ∷ s) }

-- The loop of `getAbbreviator` over the fragments, on fuel: `none` where it is out.
unfoldable pub fragments : ℕ → Text → Option (List Fragment)
unfolding fragment_at split_at
fragments n [] = some []
fragments zero (c ∷ s) = none
fragments (suc n) (c ∷ s) = elim (split_at b'.' (c ∷ s)) [
  | none ↦ some (fragment_at c s ∷ [])
  | some (before, after) ↦ elim (fragments n after) [
    | none ↦ none
    | some fs ↦ some (fragment_at c s ∷ fs)
  ]
]

abbrev pub with_fragments : Option (List Fragment) → Option Abbreviator
with_fragments none = none
with_fragments (some fs) = some (pattern_abbreviator fs)

-- `getAbbreviator`, where `to_int` is `StringHelper::toInt` on digits: `none` where that is out of range.
unfoldable pub get_abbreviator : (Text → Option ℕ) → Text → Option Abbreviator
unfolding trim fragments
get_abbreviator to_int pattern =
    let trimmed : Text = trim pattern in
    if length pattern == 0 || length trimmed == 0
    then some nop
    else if all_digits trimmed
    then elim (to_int trimmed) [
      | none ↦ some (max_element 256)
      | some len ↦ some (max_element (if ltb 256 len then 256 else len))
    ]
    else with_fragments (fragments (length trimmed) trimmed)
