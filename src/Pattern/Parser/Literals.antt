-- ===== src/Pattern/Parser/Literals.antt =====
-- Plain text in a pattern of src/main/cpp/patternparser.cpp: "%%" stands for "%".
use logging_log4cxx.Prelude.{
  ℕ, ◌≡◌, refl, sym, ap, ◌∙◌, false, List, [], ◌∷◌, ◌++◌, Option, Text, arith, ◌==◌, if◌then◌else◌,
  append_assoc, append-nil, Bool-cases, ==_iff, inl, inr,
}
use logging_log4cxx.Pattern.FormattingInfo.{default}
use logging_log4cxx.Pattern.Parser.{
  Parser, literal, literal_state, step_in, initial, finish, parse, append,
}
use logging_log4cxx.Pattern.Parser.Rounds.{run, run-nil, run-cons, parse-run}

abbrev pub doubled : Text → Text
doubled [] = []
doubled (c ∷ s) = if c == 0x25 then 0x25 ∷ 0x25 ∷ doubled s else c ∷ doubled s

-- The parser inside plain text.
abbrev pub inside : {C : Type 0} → Parser C → Text → Parser C
inside p s = record p { current_literal = p.current_literal ++ s }

inside_path :
    {C : Type 0} (p : Parser C) {s t : Text}
    → s ≡ t
    → record p { current_literal = s } ≡ record p { current_literal = t }
inside_path p e = λ i. record p { current_literal = e i }

module _ {C : Type 0} (rules : Text → Option (List Text → C)) where
  run-char :
      (p : Parser C) (c : ℕ) (rest : Text)
      → p.state ≡ literal_state
      → (c == 0x25) ≡ false
      → run rules p (c ∷ rest) ≡ run rules (append p c) rest
  unfolding step_in
  run-char p c [] h e = run-cons rules p c [] ∙ ground arith
  run-char p c (d ∷ rest) h e = run-cons rules p c (d ∷ rest) ∙ ground arith

  run-percent :
      (p : Parser C) (rest : Text)
      → p.state ≡ literal_state
      → run rules p (0x25 ∷ 0x25 ∷ rest) ≡ run rules (append p 0x25) rest
  unfolding step_in
  run-percent p rest h = run-cons rules p 0x25 (0x25 ∷ rest) ∙ ground arith

  -- Doubled text is read as the text, whatever the parser held before.
  pub run-doubled :
      (s rest : Text) (p : Parser C)
      → p.state ≡ literal_state
      → run rules p (doubled s ++ rest) ≡ run rules (inside p s) rest
  run-doubled [] rest p h =
      ap (λ q. run rules q rest) (inside_path p (sym (append-nil p.current_literal)))
  run-doubled (c ∷ s) rest p h = elim (Bool-cases (c == 0x25)) [
    | inl e ↦ rw e (
        run-percent p (doubled s ++ rest) h
        ∙ run-doubled s rest (append p 0x25) h
        ∙ ap (λ q. run rules q rest)
            (inside_path p (
              append_assoc p.current_literal (0x25 ∷ []) s
              ∙ ap (λ x. p.current_literal ++ (x ∷ s)) (sym ((==_iff c 0x25).0 e)))))
    | inr e ↦ rw e (
        run-char p c (doubled s ++ rest) h e
        ∙ run-doubled s rest (append p c) h
        ∙ ap (λ q. run rules q rest) (inside_path p (append_assoc p.current_literal (c ∷ []) s)))
  ]

  -- A pattern of plain text with each "%" doubled is one literal with that text, in the default
  -- format; the empty pattern has no converter.
  pub parse-doubled :
      (c : ℕ) (s : Text)
      → (parse rules (doubled (c ∷ s)) ≡ (literal (c ∷ s) ∷ [], default ∷ []))
        × (parse rules [] ≡ ([], []))
  unfolding parse
  parse-doubled c s = (read, refl)
    where
      read : parse rules (doubled (c ∷ s)) ≡ (literal (c ∷ s) ∷ [], default ∷ [])
      read =
          parse-run rules (doubled (c ∷ s))
          ∙ rw (← append-nil (doubled (c ∷ s)), run-doubled (c ∷ s) [] initial refl, run-nil)
              (unfold finish in refl)
