-- ===== src/Tests/NameAbbreviators.antt =====
-- Tests of NameAbbreviator.
use logging_log4cxx.Prelude.{
  ◌≡◌, refl, none, some, List, [], ◌∷◌, ◌++◌, returned, Text, codes, length, arith,
}
use logging_log4cxx.StringHelper.{trim}
use logging_log4cxx.NameAbbreviator.Reading.{get_abbreviator-print}
use logging_log4cxx.NameAbbreviator.{
  pattern_abbreviator, max_element, get_abbreviator, Fragment, abbreviate, keep_last,
}
use logging_log4cxx.NameAbbreviator.Elements.{join}
use logging_log4cxx.NameAbbreviator.Patterns.{abbreviated, abbreviate-join}

-- The pattern "1~.2".
abbrev one_mark : Fragment
one_mark = record { char_count = 1; ellipsis = b'~' }

abbrev two : Fragment
two = record { char_count = 2; ellipsis = 0 }

abbrev others : List Text
others = codes "apache" ∷ codes "log" ∷ codes "Test" ∷ []

abbreviate-join_example :
    abbreviate 4 (one_mark ∷ two ∷ []) (length (codes "[")) (codes "[" ++ join (codes "org") others)
    ≡ returned (some (codes "[" ++ abbreviated one_mark (two ∷ []) (codes "org") others))
abbreviate-join_example =
    abbreviate-join 4 one_mark (two ∷ []) (codes "[") (codes "org") others (ground arith)
      (omega arith)

abbreviate_org :
    abbreviate 4 (one_mark ∷ two ∷ []) 1 (codes "[org.apache.log.Test")
    ≡ returned (some (codes "[o~.ap.lo.Test"))
unfolding abbreviate
abbreviate_org = refl

keep_two : keep_last 2 1 (codes "[org.apache.log.Test") ≡ codes "[log.Test"
unfolding keep_last
keep_two = refl

-- A dot at the start of the text: the search starts again from the end.
keep_wrapped : keep_last 2 0 (codes ".a") ≡ codes "a"
unfolding keep_last
keep_wrapped = refl

-- The same pattern as a text, with a space.
get_abbreviator-print_example :
    get_abbreviator (λ s. none) (codes " 1~.2") ≡ some (pattern_abbreviator (one_mark ∷ two ∷ []))
unfolding trim
get_abbreviator-print_example =
    get_abbreviator-print (λ s. none) (codes " 1~.2") one_mark (two ∷ []) (ground arith) refl refl

many_digits : get_abbreviator (λ s. none) (codes "99999999999") ≡ some (max_element 256)
unfolding get_abbreviator
many_digits = refl
