-- ===== src/Tests/Patterns.antt =====
-- Tests of Pattern. The rules of the tests: "m" and "c" are conversion words.
use logging_log4cxx.Prelude.{
  ℕ, ◌≤◌, ◌≡◌, refl, true, List, [], ◌∷◌, ◌++◌, Option, none, some, Text, codes, if◌then◌else◌,
  ◌==◌, length, arith,
}
use logging_log4cxx.Pattern.FormattingInfo.{FormattingInfo, format, format_bounds}
use logging_log4cxx.Pattern.Parser.{
  Parser, initial, parse, is_unicode_identifier_start, is_unicode_identifier_part,
}
use logging_log4cxx.Pattern.Parser.Printed.{
  Specifier, IsSpecifier, AreItems, literals, defaults, converters_of, infos_of, print_pattern,
  parse-print_pattern,
}

-- A converter is its number and its options.
abbrev Made : Type 0
Made = ℕ × List Text

abbrev rules : Text → Option (List Text → Made)
rules [] = none
rules (c ∷ []) =
    if c == b'm' then some (λ os. (1, os)) else if c == b'c' then some (λ os. (2, os)) else none
rules (c ∷ d ∷ s) = none

abbrev message : Specifier Made
message = record {
  left = true;
  min_digits = 5 ∷ [];
  max_digits = 1 ∷ 0 ∷ [];
  letter = b'm';
  word = [];
  options = codes "a" ∷ [];
  make = λ os. (1, os);
}

message-IsSpecifier : IsSpecifier rules message
unfolding is_unicode_identifier_start
message-IsSpecifier = record {
  min_IsDigits = (omega arith, _);
  min_short = omega arith;
  max_IsDigits = (omega arith, (omega arith, _));
  max_short = omega arith;
  letter_IsLetter = (refl, refl);
  word_IsWord = _;
  options_AreOptions = ((omega arith, _), _);
  has_rule = refl;
}

abbrev items : List (Specifier Made × Text)
items = (message, codes " %") ∷ []

items-AreItems : AreItems rules items
unfolding is_unicode_identifier_part
items-AreItems = (message-IsSpecifier, (refl, refl), _)

print_items : print_pattern (codes "[") items ≡ codes "[%-5.10m{a} %%"
print_items = refl

parse-print_pattern_example :
    parse rules (print_pattern (codes "[") items)
    ≡ (literals (codes "[") ++ converters_of items, defaults (codes "[") ++ infos_of items)
parse-print_pattern_example = parse-print_pattern rules (codes "[") items items-AreItems

abbrev at_word : Parser Made
at_word = record initial { current_literal = codes "%mx" }

abbrev narrow : FormattingInfo
narrow = record { left_align = true; min_length = 2; max_length = 4 }

format_bounds_example :
    (field' : Text) × (format narrow (length (codes "x")) (codes "x" ++ codes "abcde")
      ≡ codes "x" ++ field')
    × (2 ≤ length field')
    × (length field' ≤ 4)
    × (2 ≤ length (codes "abcde") → length (codes "abcde") ≤ 4 → field' ≡ codes "abcde")
format_bounds_example = format_bounds narrow (codes "x") (codes "abcde") (omega arith)
