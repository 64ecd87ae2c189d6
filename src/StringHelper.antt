-- ===== src/StringHelper.antt =====
-- src/main/cpp/stringhelper.cpp, where it does not print or read numbers.
pub mod Trim
use logging_log4cxx.Prelude.{
  ℕ, zero, suc, ◌+◌, ◌-◌, Bool, true, false, not, ◌&&◌, ◌||◌, List, [], ◌∷◌, ◌++◌, Option, none,
  some, leb, ltb, ◌==◌, if◌then◌else◌, Text, text_eq, is_empty, length, take, drop, get_elem?,
}

-- The overload on C strings: `upper` and `lower` are read up to their NUL. Every caller gives two
-- spellings of one length, so the end of `upper` is the end of `lower`.
unfoldable pub equals_ignore_case : Text → Text → Text → Bool
equals_ignore_case [] [] lower = true
equals_ignore_case [] (u ∷ upper) lower = false
equals_ignore_case (item ∷ s1) (u ∷ upper) (l ∷ lower) =
    let rest = equals_ignore_case s1 upper lower in
    if item == 0 || (not (item == u) && not (item == l)) then false else rest
equals_ignore_case (item ∷ s1) _ _ = false

-- `find_first_not_of(' ')`
pub find_first_not_space : Text → Option ℕ
find_first_not_space [] = none
find_first_not_space (c ∷ s) =
    let rest = find_first_not_space s in
    if c == b' ' then elim rest [ none ↦ none | some k ↦ some (k + 1) ] else some 0

-- `find_last_not_of(' ')`
pub find_last_not_space : Text → Option ℕ
find_last_not_space [] = none
find_last_not_space (c ∷ s) = elim (find_last_not_space s) [
  | none ↦ if c == b' ' then none else some 0
  | some k ↦ some (k + 1)
]

abbrev pub substr : Text → ℕ → ℕ → Text
substr s pos n = take n (drop pos s)

unfoldable pub trim : Text → Text
unfolding find_first_not_space find_last_not_space
trim s = elim (find_first_not_space s) [
  | none ↦ []
  | some p ↦ elim (find_last_not_space s) [ none ↦ [] | some q ↦ substr s p (q + 1 - p) ]
]

unfoldable pub starts_with : Text → Text → Bool
starts_with s prefix =
    if ltb (length s) (length prefix) then false else text_eq (take (length prefix) s) prefix

unfoldable pub ends_with : Text → Text → Bool
ends_with s suffix =
    if leb (length suffix) (length s)
    then text_eq (drop (length s - length suffix) s) suffix
    else false

abbrev is_placeholder : ℕ → ℕ → ℕ → Bool
is_placeholder a b c = a == b'{' && leb b'0' b && leb b b'9' && c == b'}'

-- One more piece in front of the rest of the result; a missing parameter is undefined behaviour.
abbrev joined : Option Text → Option Text → Option Text
joined none rest = none
joined (some piece) none = none
joined (some piece) (some rest) = some (piece ++ rest)

-- `format`: `none` where `params[arg]` is past the end. The loop stops at the first NUL.
unfoldable pub format : Text → List Text → Option Text
format [] params = some []
format (a ∷ []) params = if a == 0 then some [] else some (a ∷ [])
format (a ∷ b ∷ []) params =
    let rest = format (b ∷ []) params in if a == 0 then some [] else joined (some (a ∷ [])) rest
format (a ∷ b ∷ c ∷ pattern) params =
    let next = joined (some (a ∷ [])) (format (b ∷ c ∷ pattern) params) in
    let after = joined (get_elem? params (b - b'0')) (format pattern params) in
    if a == 0 then some [] else if is_placeholder a b c then after else next
