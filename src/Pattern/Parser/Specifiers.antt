-- ===== src/Pattern/Parser/Specifiers.antt =====
-- Conversion specifiers in a pattern of src/main/cpp/patternparser.cpp: "%", an optional "-", at most three
-- digits, optionally a "." with at most three digits, and the conversion word.
use logging_log4cxx.Prelude.{
  ℕ, zero, suc, ◌+◌, ◌-◌, ◌*◌, ◌≤◌, ◌<◌, ◌≡◌, refl, ap, ◌∙◌, ◌⊎◌, Bool, true, false, List, [], ◌∷◌,
  ◌++◌, Option, some, Text, arith, ◌==◌, length, length-append, take, drop, Free, split_at-append,
}
use logging_log4cxx.Pattern.FormattingInfo.{FormattingInfo, default, int_max}
use logging_log4cxx.Pattern.Parser.{
  Parser, made, State, literal_state, converter_state, dot_state, min_state, max_state, step_in,
  append, flushed, push, closed, is_digit, is_unicode_identifier_start, is_unicode_identifier_part,
  identifier, extract_options, finalize_converter, finish_converter, find_rule,
}
use logging_log4cxx.Pattern.Parser.Rounds.{run, run-cons, finalize_word}

-- The characters of a list of digits, and the number that they write.
abbrev pub digits : List ℕ → Text
digits [] = []
digits (d ∷ ds) = (0x30 + d) ∷ digits ds

abbrev pub IsDigits : List ℕ → Type 0
IsDigits [] = Unit {0}
IsDigits (d ∷ ds) = (d < 10) × IsDigits ds

abbrev pub value_from : ℕ → List ℕ → ℕ
value_from n [] = n
value_from n (d ∷ ds) = value_from (n * 10 + d) ds

abbrev pub dash : Bool → Text → Text
dash true rest = 0x2D ∷ rest
dash false rest = rest

abbrev pub dotted : List ℕ → Text → Text
dotted [] rest = rest
dotted (e ∷ es) rest = 0x2E ∷ (digits (e ∷ es) ++ rest)

abbrev pub max_value : List ℕ → ℕ
max_value [] = int_max
max_value (e ∷ es) = value_from 0 (e ∷ es)

-- The parser has read a part of a specifier.
pub record Reads {C : Type 0} (s : State) (info : FormattingInfo) (p q : Parser C) : Type 0 where
  pub in_state : q.state ≡ s
  pub has_info : q.formatting_info ≡ info
  pub converters : q.pattern_converters ≡ p.pattern_converters
  pub infos : q.formatting_infos ≡ p.formatting_infos

module _ {C : Type 0} (rules : Text → Option (List Text → C)) where
  pub run-dash :
      (left : Bool) (p : Parser C) (rest : Text)
      → p.state ≡ converter_state
      → p.formatting_info ≡ default
      → (q : Parser C) × (run rules p (dash left rest) ≡ run rules q rest)
        × Reads converter_state
            (record { left_align = left; min_length = 0; max_length = int_max })
            p
            q
  unfolding step_in
  run-dash true p rest h d =
      let q = record (append p 0x2D) {
        formatting_info = record (p.formatting_info) { left_align = true };
      } in
      (q, run-cons rules p 0x2D rest ∙ ground arith, ground arith)
  run-dash false p rest h d = (p, refl, ground arith)

  abbrev pub with_min : Parser C → ℕ → State → ℕ → ℕ → Parser C
  with_min p d s n count = record (append p (0x30 + d)) {
    state = s;
    formatting_info = record (p.formatting_info) { min_length = n };
    min_digit_count = count;
  }

  abbrev pub with_max : Parser C → ℕ → ℕ → ℕ → Parser C
  with_max p e n count = record (append p (0x30 + e)) {
    state = max_state;
    formatting_info = record (p.formatting_info) { max_length = n };
    max_digit_count = count;
  }

  pub run_first_min :
      (d : ℕ) (p : Parser C) (rest : Text)
      → p.state ≡ converter_state
      → d < 10
      → run rules p ((0x30 + d) ∷ rest) ≡ run rules (with_min p d min_state d 1) rest
  unfolding step_in
  run_first_min d p rest h b = run-cons rules p (0x30 + d) rest ∙ ground arith

  run_next_min :
      (d : ℕ) (p : Parser C) (rest : Text)
      → p.state ≡ min_state
      → d < 10
      → p.min_digit_count < 3
      → run rules p ((0x30 + d) ∷ rest)
        ≡ run rules
            (with_min p d min_state (p.formatting_info.min_length * 10 + d) (p.min_digit_count + 1))
            rest
  unfolding step_in
  run_next_min d p rest h b k = run-cons rules p (0x30 + d) rest ∙ ground arith

  pub run_dot :
      (p : Parser C) (rest : Text)
      → (p.state ≡ converter_state) ⊎ (p.state ≡ min_state)
      → run rules p (0x2E ∷ rest) ≡ run rules (record (append p 0x2E) { state = dot_state }) rest
  unfolding step_in
  run_dot p rest h = run-cons rules p 0x2E rest ∙ ground arith

  pub run_first_max :
      (e : ℕ) (p : Parser C) (rest : Text)
      → p.state ≡ dot_state
      → e < 10
      → run rules p ((0x30 + e) ∷ rest) ≡ run rules (with_max p e e 1) rest
  unfolding step_in
  run_first_max e p rest h b = run-cons rules p (0x30 + e) rest ∙ ground arith

  run_next_max :
      (e : ℕ) (p : Parser C) (rest : Text)
      → p.state ≡ max_state
      → e < 10
      → p.max_digit_count < 3
      → run rules p ((0x30 + e) ∷ rest)
        ≡ run rules
            (with_max p e (p.formatting_info.max_length * 10 + e) (p.max_digit_count + 1))
            rest
  unfolding step_in
  run_next_max e p rest h b k = run-cons rules p (0x30 + e) rest ∙ ground arith

  pub run_min_more :
      (ds : List ℕ) (p : Parser C) (rest : Text)
      → p.state ≡ min_state
      → IsDigits ds
      → p.min_digit_count + length ds ≤ 3
      → (q : Parser C) × (run rules p (digits ds ++ rest) ≡ run rules q rest)
        × Reads min_state
            (record (p.formatting_info) { min_length = value_from p.formatting_info.min_length ds })
            p
            q
  run_min_more [] p rest h b k = (p, refl, ground arith)
  run_min_more (d ∷ ds) p rest h b k =
      let n = p.formatting_info.min_length * 10 + d in
      let (q, e, r) =
        run_min_more ds (with_min p d min_state n (p.min_digit_count + 1)) rest refl b.1
          (omega arith) in
      (
        q,
        run_next_min d p (digits ds ++ rest) h b.0 (omega arith) ∙ e,
        record {
          in_state = r.in_state;
          has_info = r.has_info;
          converters = r.converters;
          infos = r.infos;
        },
      )

  pub run_max_more :
      (es : List ℕ) (p : Parser C) (rest : Text)
      → p.state ≡ max_state
      → IsDigits es
      → p.max_digit_count + length es ≤ 3
      → (q : Parser C) × (run rules p (digits es ++ rest) ≡ run rules q rest)
        × Reads max_state
            (record (p.formatting_info) { max_length = value_from p.formatting_info.max_length es })
            p
            q
  run_max_more [] p rest h b k = (p, refl, ground arith)
  run_max_more (d ∷ es) p rest h b k =
      let n = p.formatting_info.max_length * 10 + d in
      let (q, e, r) =
        run_max_more es (with_max p d n (p.max_digit_count + 1)) rest refl b.1 (omega arith) in
      (
        q,
        run_next_max d p (digits es ++ rest) h b.0 (omega arith) ∙ e,
        record {
          in_state = r.in_state;
          has_info = r.has_info;
          converters = r.converters;
          infos = r.infos;
        },
      )

-- A list of identifier characters.
abbrev pub IsWord : Text → Type 0
IsWord [] = Unit {0}
IsWord (c ∷ s) = (is_unicode_identifier_part c ≡ true) × IsWord s

-- The text goes on with neither an identifier character nor an option.
abbrev pub EndsWord : Text → Type 0
EndsWord [] = Unit {0}
EndsWord (c ∷ s) = (is_unicode_identifier_part c ≡ false) × ((c == 0x7B) ≡ false)

abbrev pub braced : List Text → Text → Text
braced [] rest = rest
braced (o ∷ os) rest = 0x7B ∷ (o ++ (0x7D ∷ braced os rest))

abbrev pub AreOptions : List Text → Type 0
AreOptions [] = Unit {0}
AreOptions (o ∷ os) = Free 0x7D o × AreOptions os

extract_options-braced :
    (os : List Text) (rest : Text) (n : ℕ)
    → AreOptions os
    → EndsWord rest
    → length (braced os rest) ≤ n
    → extract_options n (braced os rest) ≡ (os, rest)
unfolding extract_options
extract_options-braced [] [] zero a e h = refl
extract_options-braced [] [] (suc n) a e h = refl
extract_options-braced [] (c ∷ rest) zero a e h = absurd (omega arith)
extract_options-braced [] (c ∷ rest) (suc n) a e h = rw (e.1) refl
extract_options-braced (o ∷ os) rest zero a e h = absurd (omega arith)
extract_options-braced (o ∷ os) rest (suc n) a e h =
    rw (split_at-append 0x7D o (braced os rest) a.0, extract_options)
      (rw
        (extract_options-braced os rest n a.1 e
          (omega (arith, length-append o (0x7D ∷ braced os rest))))
        refl)

identifier-braced :
    (w : Text) (os : List Text) (rest : Text)
    → IsWord w
    → EndsWord rest
    → identifier (w ++ braced os rest) ≡ (w, braced os rest)
unfolding identifier
identifier-braced [] [] [] h e = refl
identifier-braced [] [] (c ∷ rest) h e = rw (e.0) refl
identifier-braced [] (o ∷ os) rest h e = unfold is_unicode_identifier_part in refl
identifier-braced (c ∷ w) os rest h e = rw (identifier-braced w os rest h.1 e, h.0) refl

take-length : (s : Text) → take (length s) s ≡ s
take-length [] = refl
take-length (c ∷ s) = ap (◌∷◌ c) (take-length s)

drop-length : (s : Text) (k : ℕ) → k ≡ length s → drop k s ≡ []
drop-length [] zero e = refl
drop-length [] (suc k) e = refl
drop-length (c ∷ s) zero e = absurd (omega arith)
drop-length (c ∷ s) (suc k) e = drop-length s k (omega arith)

module _ {C : Type 0} (rules : Text → Option (List Text → C)) where
  find_rule-whole :
      (c : ℕ) (w : Text) (make : List Text → C)
      → rules (c ∷ w) ≡ some make
      → find_rule rules (c ∷ w) (length (c ∷ w)) ≡ some (make, length (c ∷ w))
  unfolding find_rule
  find_rule-whole c w make h = rw (take-length w, h) refl

  finish_whole :
      (c : ℕ) (w : Text) (os : List Text) (make : List Text → C) (p : Parser C)
      → rules (c ∷ w) ≡ some make
      → finish_converter rules (c ∷ w) os p
        ≡ record (push (made (make os)) p.formatting_info p) { current_literal = [] }
  unfolding finish_converter
  finish_whole c w os make p h =
      let whole : length p.current_literal - (length (c ∷ w) - length (c ∷ w))
          ≡ length p.current_literal =
        omega arith in
      rw (find_rule-whole c w make h, finish_converter)
        (rw (whole, drop-length p.current_literal (length p.current_literal) refl) refl)

-- A letter: it starts a word, and belongs to no other part of a specifier.
abbrev pub IsLetter : ℕ → Type 0
IsLetter c = (is_unicode_identifier_start c ≡ true) × (is_digit c ≡ false)

module _ {C : Type 0} (rules : Text → Option (List Text → C)) where
  run_finalize :
      (c : ℕ) (p : Parser C) (rest : Text)
      → (p.state ≡ converter_state) ⊎ (p.state ≡ min_state) ⊎ (p.state ≡ max_state)
      → IsLetter c
      → run rules p (c ∷ rest)
        ≡ run rules
            (finalize_converter rules c rest (append p c)).0
            (finalize_converter rules c rest (append p c)).1
  unfolding step_in is_unicode_identifier_start
  run_finalize c p rest h l = run-cons rules p c rest ∙ ground arith

  pub run_word :
      (c : ℕ) (w : Text) (os : List Text) (make : List Text → C) (p : Parser C) (rest : Text)
      → (p.state ≡ converter_state) ⊎ (p.state ≡ min_state) ⊎ (p.state ≡ max_state)
      → IsLetter c
      → IsWord w
      → AreOptions os
      → EndsWord rest
      → rules (c ∷ w) ≡ some make
      → run rules p (c ∷ (w ++ braced os rest))
        ≡ run rules (closed (push (made (make os)) p.formatting_info p)) rest
  run_word c w os make p rest h l iw ao er m =
      let text = w ++ braced os rest in
      let read : Parser C = record (append p c) {
        current_literal = (p.current_literal ++ c ∷ []) ++ w;
      } in
      run_finalize c p text h l
      ∙ rw
          (
            finalize_word rules c text (append p c) l.0,
            identifier-braced w os rest iw er,
            extract_options-braced os rest (length (braced os rest)) ao er (omega arith),
            finish_whole rules c w os make read m,
          )
          refl

  pub run_percent :
      (p : Parser C) (d : ℕ) (rest : Text)
      → p.state ≡ literal_state
      → (d == 0x25) ≡ false
      → run rules p (0x25 ∷ d ∷ rest)
        ≡ run rules
            (record (append (flushed p) 0x25) {
              state = converter_state;
              formatting_info = default;
            })
            (d ∷ rest)
  unfolding step_in
  run_percent p d rest h e = run-cons rules p 0x25 (d ∷ rest) ∙ ground arith
