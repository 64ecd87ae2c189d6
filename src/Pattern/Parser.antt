-- ===== src/Pattern/Parser.antt =====
-- src/main/cpp/patternparser.cpp. An index into the pattern is the text from that index on, and the two
-- vectors that the parser fills are lists. What a rule of the `PatternMap` makes is a parameter.
pub mod Rounds
pub mod Literals
pub mod Specifiers
pub mod Printed
pub mod Rules
use logging_log4cxx.Prelude.{
  ℕ, zero, suc, ◌+◌, ◌-◌, ◌*◌, Bool, true, false, not, ◌&&◌, ◌||◌, List, [], ◌∷◌, ◌++◌, Option,
  none, some, ltb, leb, ◌==◌, if◌then◌else◌, Text, codes, is_empty, length, take, drop, split_at,
}
use logging_log4cxx.Pattern.FormattingInfo.{FormattingInfo, default}

abbrev pub is_digit : ℕ → Bool
is_digit c = leb 0x30 c && leb c 0x39

unfoldable pub is_unicode_identifier_start : ℕ → Bool
is_unicode_identifier_start c =
    leb 0x41 c && leb c 0x5A || leb 0x61 c && leb c 0x7A || leb 0x30 c && leb c 0x39

unfoldable pub is_unicode_identifier_part : ℕ → Bool
unfolding is_unicode_identifier_start
is_unicode_identifier_part c = is_unicode_identifier_start c || c == 0x5F

-- The loop of `extractConverter`: the identifier characters at the head of the text, and the rest.
pub identifier : Text → Text × Text
identifier [] = ([], [])
identifier (c ∷ s) =
    let (word, rest) = identifier s in
    if is_unicode_identifier_part c then (c ∷ word, rest) else ([], c ∷ s)

-- `extractConverter`: the conversion word (which may be empty), what it adds to the current literal,
-- and the rest of the pattern.
pub extract_converter : ℕ → Text → Text × Text × Text
extract_converter last_char rest =
    if not (is_unicode_identifier_start last_char)
    then ([], [], rest)
    else (last_char ∷ (identifier rest).0, (identifier rest).0, (identifier rest).1)

abbrev first_option : Text → List Text × Text → List Text × Text
first_option option (options, rest) = (option ∷ options, rest)

-- `extractOptions`: the options in braces, and the rest. The fuel is for the rounds; the search for
-- the "}" starts at the "{".
pub extract_options : ℕ → Text → List Text × Text
unfolding split_at
extract_options zero rest = ([], rest)
extract_options (suc n) [] = ([], [])
extract_options (suc n) (c ∷ s) =
    if c == 0x7B
    then elim (split_at 0x7D s) [
      | none ↦ ([], c ∷ s)
      | some (option, tail) ↦ first_option option (extract_options n tail)
    ]
    else ([], c ∷ s)

pub data State : Type 0 where
  literal_state converter_state dot_state min_state max_state : State

-- A pattern converter: a literal, or what the factory of a rule made.
pub data Converter (C : Type 0) : Type 0 where
  literal : Text → Converter C
  made : C → Converter C

-- The local variables of `parse` and its two output vectors.
pub record Parser (C : Type 0) : Type 0 where
  pub state : State
  pub current_literal : Text
  pub min_digit_count : ℕ
  pub max_digit_count : ℕ
  pub formatting_info : FormattingInfo
  pub pattern_converters : List (Converter C)
  pub formatting_infos : List FormattingInfo

module _ {C : Type 0} where
  abbrev pub push : Converter C → FormattingInfo → Parser C → Parser C
  push converter info p = record p {
    pattern_converters = p.pattern_converters ++ converter ∷ [];
    formatting_infos = p.formatting_infos ++ info ∷ [];
  }

  abbrev pub append : Parser C → ℕ → Parser C
  append p c = record p { current_literal = p.current_literal ++ c ∷ [] }

  -- `createConverter`: from the whole word down to its first character, the first of the prefixes
  -- that has a rule; with the rule comes the number of characters of the prefix.
  pub find_rule : (Text → Option C) → Text → ℕ → Option (C × ℕ)
  find_rule rules converter_id zero = none
  find_rule rules converter_id (suc i) =
      let shorter = find_rule rules converter_id i in
      elim (rules (take (suc i) converter_id)) [ none ↦ shorter | some make ↦ some (make, suc i) ]

  -- The flush of the literal before a conversion.
  pub flushed : Parser C → Parser C
  flushed p =
      if is_empty p.current_literal
      then p
      else record (push (literal p.current_literal) default p) { current_literal = [] }

  abbrev pub initial : Parser C
  initial = record {
    state = literal_state;
    current_literal = [];
    min_digit_count = 0;
    max_digit_count = 0;
    formatting_info = default;
    pattern_converters = [];
    formatting_infos = [];
  }

  -- What stands behind the loop: the last literal.
  pub finish : Parser C → Parser C
  unfolding flushed
  finish p = flushed p

  -- What every caller of `finalizeConverter` does behind it.
  abbrev pub closed : Parser C → Parser C
  closed q = record q { state = literal_state; formatting_info = default; current_literal = [] }

module _ {C : Type 0} (rules : Text → Option (List Text → C)) where
  -- The branches of `finalizeConverter` behind the options, on a word that is not empty. The first
  -- part of the literal, up to the end of the prefix that has the rule, is erased.
  pub finish_converter : Text → List Text → Parser C → Parser C
  unfolding find_rule
  finish_converter converter_id options p =
      elim (find_rule rules converter_id (length converter_id)) [
        | none ↦ record (push (literal p.current_literal) default p) { current_literal = [] }
        | some (make, i) ↦
            let left =
              drop (length p.current_literal - (length converter_id - i)) p.current_literal in
            let q = push (made (make options)) p.formatting_info p in
            let q' = push (literal left) default q in
            record (if is_empty left then q else q') { current_literal = [] }
      ]

  -- `finalizeConverter`, and what every caller does behind it.
  pub finalize_converter : ℕ → Text → Parser C → Parser C × Text
  unfolding extract_converter identifier extract_options finish_converter
  finalize_converter c rest p =
      let (word, added, after) = extract_converter c rest in
      let read = record p { current_literal = p.current_literal ++ added } in
      let (options, tail) = extract_options (length after) after in
      let failed = record (push (literal read.current_literal) default read) {
        current_literal = [];
      } in
      let (q, behind) : Parser C × Text =
        if is_empty word then (failed, after) else (finish_converter word options read, tail) in
      (closed q, behind)

  step_literal : Parser C → ℕ → Text → Parser C × Text
  unfolding flushed
  step_literal p c [] = (append p c, [])
  step_literal p c (d ∷ rest) =
      if c == 0x25
      then (if d == 0x25 then (append p c, rest) else (
        record (append (flushed p) c) { state = converter_state; formatting_info = default },
        d ∷ rest,
      ))
      else (append p c, d ∷ rest)

  step_converter : Parser C → ℕ → Text → Parser C × Text
  step_converter p c rest =
      let q = append p c in
      if c == 0x2D
      then (record q { formatting_info = record (q.formatting_info) { left_align = true } }, rest)
      else if c == 0x2E
      then (record q { state = dot_state }, rest)
      else if is_digit c
      then (
        record q {
          formatting_info = record (q.formatting_info) { min_length = c - 0x30 };
          state = min_state;
          min_digit_count = 1;
        },
        rest,
      )
      else finalize_converter c rest q

  step_min : Parser C → ℕ → Text → Parser C × Text
  step_min p c rest =
      let q = append p c in
      if is_digit c && ltb p.min_digit_count 3
      then (
        record q {
          formatting_info = record (q.formatting_info) {
            min_length = q.formatting_info.min_length * 10 + (c - 0x30);
          };
          min_digit_count = q.min_digit_count + 1;
        },
        rest,
      )
      else if c == 0x2E
      then (record q { state = dot_state }, rest)
      else finalize_converter c rest q

  step_dot : Parser C → ℕ → Text → Parser C × Text
  step_dot p c rest =
      let q = append p c in
      if is_digit c
      then (
        record q {
          formatting_info = record (q.formatting_info) { max_length = c - 0x30 };
          state = max_state;
          max_digit_count = 1;
        },
        rest,
      )
      else (record q { state = literal_state }, rest)

  step_max : Parser C → ℕ → Text → Parser C × Text
  step_max p c rest =
      let q = append p c in
      if is_digit c && ltb p.max_digit_count 3
      then (
        record q {
          formatting_info = record (q.formatting_info) {
            max_length = q.formatting_info.max_length * 10 + (c - 0x30);
          };
          max_digit_count = q.max_digit_count + 1;
        },
        rest,
      )
      else finalize_converter c rest q

  -- One round of the loop of `parse`, by the state.
  unfoldable pub step_in : State → Parser C → ℕ → Text → Parser C × Text
  unfolding step_literal step_converter step_min step_dot step_max
  step_in literal_state p c rest = step_literal p c rest
  step_in converter_state p c rest = step_converter p c rest
  step_in dot_state p c rest = step_dot p c rest
  step_in min_state p c rest = step_min p c rest
  step_in max_state p c rest = step_max p c rest

  -- The loop, on fuel for its rounds.
  unfoldable pub loop : ℕ → Parser C → Text → Parser C
  loop zero p pattern = p
  loop (suc n) p [] = p
  loop (suc n) p (c ∷ rest) = let (q, behind) = step_in p.state p c rest in loop n q behind

  -- `parse`: the converters, and the formatting of each.
  unfoldable pub parse : Text → List (Converter C) × List FormattingInfo
  unfolding loop finish
  parse pattern =
      let p = finish (loop (length pattern) initial pattern) in
      (p.pattern_converters, p.formatting_infos)
