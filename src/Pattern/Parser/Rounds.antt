-- ===== src/Pattern/Parser/Rounds.antt =====
-- The rounds of the loop of src/main/cpp/patternparser.cpp: every round reads a character, so the length
-- of the pattern is fuel enough, and both vectors grow together.
use logging_log4cxx.Prelude.{
  ℕ, zero, suc, ◌-◌, ◌≤◌, ◌≡◌, refl, ap, inl, inr, Bool, true, false, List, [], ◌∷◌, ◌++◌, Option,
  Option-cases, Bool-cases, Text, arith, if◌then◌else◌, length, length-append, split_at,
  split_at_sound, is_empty, drop,
}
use logging_log4cxx.Pattern.FormattingInfo.{FormattingInfo, default}
use logging_log4cxx.Pattern.Parser.{
  Parser, append, closed, is_unicode_identifier_start, Converter, literal, made, State,
  literal_state, identifier, extract_converter, extract_options, first_option, finish_converter,
  finalize_converter, step_in, loop, initial, finish, parse, find_rule, flushed, push,
}

identifier-le : (s : Text) → length (identifier s).1 ≤ length s
unfolding identifier
identifier-le [] = omega arith
identifier-le (c ∷ s) = ground (arith, identifier-le s)

first_option_rest : (o : Text) (r : List Text × Text) → (first_option o r).1 ≡ r.1
first_option_rest o (options, rest) = refl

extract_options-le : (n : ℕ) (s : Text) → length (extract_options n s).1 ≤ length s
unfolding extract_options
extract_options-le zero s = omega arith
extract_options-le (suc n) [] = omega arith
extract_options-le (suc n) (c ∷ s) = elim (Option-cases (split_at 0x7D s)) [
  | inl e ↦ ground (arith, e)
  | inr ((option, tail), e) ↦ ground (
    arith,
    e,
    extract_options-le n tail,
    ap (length {A = ℕ}) (split_at_sound 0x7D s option tail e),
    length-append option (0x7D ∷ tail),
    first_option_rest option (extract_options n tail),
  )
]

module _ {C : Type 0} (rules : Text → Option (List Text → C)) where
  -- A character that starts no identifier: the literal so far, and nothing else is read.
  pub finalize_not_word :
      (c : ℕ) (rest : Text) (p : Parser C)
      → is_unicode_identifier_start c ≡ false
      → finalize_converter rules c rest p
        ≡ (closed (push (literal (p.current_literal ++ [])) default p), rest)
  unfolding finalize_converter
  finalize_not_word c rest p e = rw (e, finalize_converter, extract_converter) refl

  -- A word: the identifier and the options behind it are read.
  pub finalize_word :
      (c : ℕ) (rest : Text) (p : Parser C)
      → is_unicode_identifier_start c ≡ true
      → finalize_converter rules c rest p ≡ (
        closed (
            finish_converter rules
              (c ∷ (identifier rest).0)
              (extract_options (length (identifier rest).1) (identifier rest).1).0
              (record p { current_literal = p.current_literal ++ (identifier rest).0 })),
        (extract_options (length (identifier rest).1) (identifier rest).1).1,
      )
  unfolding finalize_converter
  finalize_word c rest p e = rw (e, finalize_converter, extract_converter) refl

  finalize-le :
      (c : ℕ) (rest : Text) (p : Parser C)
      → length (finalize_converter rules c rest p).1 ≤ length rest
  finalize-le c rest p = elim (Bool-cases (is_unicode_identifier_start c)) [
    | inl e ↦
        let after = (identifier rest).1 in
        rw (finalize_word c rest p e)
          (omega (arith, identifier-le rest, extract_options-le (length after) after))
    | inr e ↦ rw (finalize_not_word c rest p e) (omega arith)
  ]

  step-le :
      (s : State) (p : Parser C) (c : ℕ) (rest : Text)
      → length (step_in rules s p c rest).1 ≤ length rest
  unfolding step_in
  step-le literal_state p c [] = omega arith
  step-le literal_state p c (d ∷ rest) = ground arith
  step-le _ p c rest = ground (arith, finalize-le c rest (append p c))

  -- Any fuel that is at least the length of the pattern gives the same result.
  pub loop-loop :
      (n m : ℕ) (p : Parser C) (pattern : Text)
      → length pattern ≤ n
      → length pattern ≤ m
      → loop rules n p pattern ≡ loop rules m p pattern
  unfolding loop
  loop-loop zero zero p pattern h k = refl
  loop-loop zero (suc m) p [] h k = refl
  loop-loop zero (suc m) p (c ∷ rest) h k = absurd (omega arith)
  loop-loop (suc n) zero p [] h k = refl
  loop-loop (suc n) zero p (c ∷ rest) h k = absurd (omega arith)
  loop-loop (suc n) (suc m) p [] h k = refl
  loop-loop (suc n) (suc m) p (c ∷ rest) h k =
      let le = step-le p.state p c rest in
      loop-loop n m (step_in rules p.state p c rest).0 (step_in rules p.state p c rest).1
        (omega arith) (omega arith)

  -- The loop with fuel enough.
  pub run : Parser C → Text → Parser C
  run p pattern = loop rules (length pattern) p pattern

  pub run-nil : (p : Parser C) → run p [] ≡ p
  unfolding run loop
  run-nil p = refl

  -- One round.
  pub run-cons :
      (p : Parser C) (c : ℕ) (rest : Text)
      → run p (c ∷ rest) ≡ run (step_in rules p.state p c rest).0 (step_in rules p.state p c rest).1
  unfolding run loop
  run-cons p c rest =
      let r = step_in rules p.state p c rest in
      loop-loop (length rest) (length r.1) r.0 r.1 (step-le p.state p c rest) (omega arith)

  pub parse-run :
      (pattern : Text)
      → parse rules pattern ≡ (
        (finish (run initial pattern)).pattern_converters,
        (finish (run initial pattern)).formatting_infos,
      )
  unfolding parse run
  parse-run pattern = refl

  -- As many formats as converters.
  abbrev Paired : Parser C → Type 0
  Paired p = length p.pattern_converters ≡ length p.formatting_infos

  push-Paired :
      (x : Converter C) (f : FormattingInfo) (p : Parser C) → Paired p → Paired (push x f p)
  push-Paired x f p h = omega (
    arith,
    length-append p.pattern_converters (x ∷ []),
    length-append p.formatting_infos (f ∷ []),
  )

  flushed-Paired : (p : Parser C) → Paired p → Paired (flushed p)
  unfolding flushed
  flushed-Paired p h = ground (arith, push-Paired (literal p.current_literal) default p h)

  finish_converter-Paired :
      (word : Text) (options : List Text) (p : Parser C)
      → Paired p
      → Paired (finish_converter rules word options p)
  unfolding finish_converter
  finish_converter-Paired word options p h =
      elim (Option-cases (find_rule rules word (length word))) [
        | inl e ↦ rw (e, finish_converter) (push-Paired (literal p.current_literal) default p h)
        | inr ((make, i), e) ↦
            let left = drop (length p.current_literal - (length word - i)) p.current_literal in
            let q = push (made (make options)) p.formatting_info p in
            let hq = push-Paired (made (make options)) p.formatting_info p h in
            rw (e, finish_converter)
              (both (is_empty left) q (push (literal left) default q) hq
                (push-Paired (literal left) default q hq))
      ]
    where
      both :
          (b : Bool) (q r : Parser C)
          → Paired q
          → Paired r
          → Paired (record (if b then q else r) { current_literal = [] })
      both true q r hq hr = hq
      both false q r hq hr = hr

  finalize-Paired :
      (c : ℕ) (rest : Text) (p : Parser C) → Paired p → Paired (finalize_converter rules c rest p).0
  finalize-Paired c rest p h = elim (Bool-cases (is_unicode_identifier_start c)) [
    | inl e ↦
        let after = (identifier rest).1 in
        rw (finalize_word c rest p e) (
          finish_converter-Paired (c ∷ (identifier rest).0) (extract_options (length after) after).0
            (record p { current_literal = p.current_literal ++ (identifier rest).0 }) h)
    | inr e ↦
        rw (finalize_not_word c rest p e)
          (push-Paired (literal (p.current_literal ++ [])) default p h)
  ]

  step-Paired :
      (s : State) (p : Parser C) (c : ℕ) (rest : Text)
      → Paired p
      → Paired (step_in rules s p c rest).0
  unfolding step_in
  step-Paired literal_state p c [] h = h
  step-Paired literal_state p c (d ∷ rest) h = ground (arith, flushed-Paired p h)
  step-Paired _ p c rest h = ground (arith, finalize-Paired c rest (append p c) h)

  loop-Paired : (n : ℕ) (p : Parser C) (pattern : Text) → Paired p → Paired (loop rules n p pattern)
  unfolding loop
  loop-Paired zero p pattern h = h
  loop-Paired (suc n) p [] h = h
  loop-Paired (suc n) p (c ∷ rest) h =
      loop-Paired n (step_in rules p.state p c rest).0 (step_in rules p.state p c rest).1
        (step-Paired p.state p c rest h)

  -- For every pattern and every set of rules, `parse` gives as many formats as converters.
  pub parse-length :
      (pattern : Text) → length (parse rules pattern).0 ≡ length (parse rules pattern).1
  unfolding parse
  parse-length pattern =
      flushed-Paired (loop rules (length pattern) initial pattern)
        (loop-Paired (length pattern) initial pattern refl)
