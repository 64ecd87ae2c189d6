-- ===== src/Transform.antt =====
-- src/main/cpp/transform.cpp: the escapes of XML. A text is appended to a buffer.
pub mod Entities
pub mod Cdata
use logging_log4cxx.Prelude.{
  ℕ, zero, suc, Bool, ◌||◌, Option, none, some, List, [], ◌∷◌, ◌++◌, ◌==◌, if◌then◌else◌, Text,
  codes, is_empty, length, take, drop, text_eq,
}

abbrev pub is_special : ℕ → Bool
is_special c = c == 0x22 || c == 0x26 || c == 0x3C || c == 0x3E

-- `find_first_of(specials, start)`: the text before the first special character, that character, and
-- the text behind it.
unfoldable pub find_special : Text → Option (Text × (ℕ × Text))
find_special [] = none
find_special (c ∷ s) =
    let rest = find_special s in
    if is_special c then some ([], (c, s)) else elim rest [
      | none ↦ none
      | some (before, (special, after)) ↦ some (c ∷ before, (special, after))
    ]

-- The `switch`.
abbrev pub replaced : ℕ → Text
replaced c =
    if c == 0x22
    then codes "&quot;"
    else if c == 0x26
    then codes "&amp;"
    else if c == 0x3C
    then codes "&lt;"
    else if c == 0x3E
    then codes "&gt;"
    else c ∷ []

-- The loop, on fuel for the special characters; `rest` is the input from `start` on.
unfoldable pub escape_loop : ℕ → Text → Text → Option Text
unfolding find_special
escape_loop zero rest buf = none
escape_loop (suc n) rest buf = elim (find_special rest) [
  | none ↦ some (if is_empty rest then buf else buf ++ rest)
  | some (before, (special, after)) ↦
      escape_loop n after ((if is_empty before then buf else buf ++ before) ++ replaced special)
]

unfoldable pub append_escaping_tags : Text → Text → Option Text
unfolding escape_loop
append_escaping_tags buf input =
    if is_empty input then some buf else escape_loop (suc (length input)) input buf

-- `CDATA_EMBEDED_END`
abbrev pub embedded_end : Text
embedded_end = codes "]]>]]&gt;<![CDATA["

-- Whether `CDATA_END` stands at the front.
abbrev pub at_end : Text → Bool
at_end s = text_eq (take 3 s) (codes "]]>")

-- `find(CDATA_END, start)`: the text before it, and the text behind it.
unfoldable pub find_end : Text → Option (Text × Text)
find_end [] = none
find_end (c ∷ s) =
    let rest = find_end s in
    if at_end (c ∷ s)
    then some ([], drop 2 s)
    else elim rest [ none ↦ none | some (before, after) ↦ some (c ∷ before, after) ]

-- The loop, on fuel for the ends in the input; `rest` is the input from `start` on.
unfoldable pub cdata_loop : ℕ → Text → Text → Option Text
unfolding find_end
cdata_loop zero rest buf = none
cdata_loop (suc n) rest buf = elim (find_end rest) [
  | none ↦ some (buf ++ rest)
  | some (before, after) ↦
      if is_empty after
      then some ((buf ++ before) ++ embedded_end)
      else cdata_loop n after ((buf ++ before) ++ embedded_end)
]

unfoldable pub append_escaping_cdata : Text → Text → Option Text
unfolding cdata_loop
append_escaping_cdata buf input =
    if is_empty input then some buf else cdata_loop (suc (length input)) input buf
