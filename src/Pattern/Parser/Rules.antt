-- ===== src/Pattern/Parser/Rules.antt =====
-- `createConverter` of src/main/cpp/patternparser.cpp: the longest prefix of a word that has a rule.
use logging_log4cxx.Prelude.{
  ℕ, zero, suc, ◌-◌, ◌≤◌, ◌<◌, ◌≡◌, refl, ◌⊎◌, inl, inr, List, [], ◌∷◌, ◌++◌, Option, some, none,
  Option-cases, Text, arith, length, length-append, dec_le, take, drop, if◌then◌else◌, is_empty,
}
use logging_log4cxx.Pattern.FormattingInfo.{default}
use logging_log4cxx.Pattern.Parser.{Parser, literal, made, push, find_rule, finish_converter}

drop_tail :
    (before word : Text) (i : ℕ)
    → i ≤ length word
    → drop (length (before ++ word) - (length word - i)) (before ++ word) ≡ drop i word
drop_tail [] word i h = let e : length word - (length word - i) ≡ i = omega arith in rw e refl
drop_tail (c ∷ before) word i h =
    let e : suc (length (before ++ word)) - (length word - i)
        ≡ suc (length (before ++ word) - (length word - i)) =
      omega (arith, length-append before word) in
    rw e (drop_tail before word i h)

module _ {C : Type 0} (rules : Text → Option C) where
  -- The prefixes of a length above `i` and up to `n` have no rule.
  abbrev pub NoneAbove : Text → ℕ → ℕ → Type 0
  NoneAbove word i n = (j : ℕ) → i < j → j ≤ n → rules (take j word) ≡ none

  pub find_rule-none : (word : Text) (n : ℕ) → find_rule rules word n ≡ none → NoneAbove word 0 n
  unfolding find_rule
  find_rule-none word zero h j p q = absurd (omega arith)
  find_rule-none word (suc n) h j p q = elim (Option-cases (rules (take (suc n) word))) [
    | inl e ↦ elim (dec_le j n) [
      | yes l ↦ find_rule-none word n (rw (e, find_rule) at h) j p l
      | no l ↦ let same : j ≡ suc n = omega arith in rw same e
    ]
    | inr (make, e) ↦ absurd (ground (arith, e, h))
  ]

  pub find_rule-longest :
      (word : Text) (n i : ℕ) (make : C)
      → find_rule rules word n ≡ some (make, i)
      → (0 < i) × (i ≤ n) × (rules (take i word) ≡ some make) × NoneAbove word i n
  unfolding find_rule
  find_rule-longest word zero i make h = absurd (cc)
  find_rule-longest word (suc n) i make h = elim (Option-cases (rules (take (suc n) word))) [
    | inl e ↦
        let (a, b, c, d) = find_rule-longest word n i make (ground (arith, e, h)) in
        (
          a,
          omega arith,
          c,
          λ j p q. elim (dec_le j n) [
            | yes l ↦ d j p l
            | no l ↦ let same : j ≡ suc n = omega arith in rw same e
          ],
        )
    | inr (make', e) ↦
        let same : i ≡ suc n = ground (arith, e, h) in
        (omega arith, omega arith, rw same (ground (arith, e, h)), λ j p q. absurd (omega arith))
  ]

module _ {C : Type 0} (rules : Text → Option (List Text → C)) where
  -- For a word at the end of the current literal: if some prefix of it has a rule, the converter is
  -- the one of the longest such prefix, made from the options and in the given format, and the
  -- other characters of the word follow as a literal; if none has, the literal is kept as text.
  pub finish_converter-longest :
      (word : Text) (options : List Text) (before : Text) (p : Parser C)
      → p.current_literal ≡ before ++ word
      → ((i : ℕ) × (make : List Text → C) × (0 < i)
          × (i ≤ length word)
          × (rules (take i word) ≡ some make)
          × NoneAbove rules word i (length word)
          × (finish_converter rules word options p
              ≡ record (if is_empty (drop i word)
                  then push (made (make options)) p.formatting_info p
                  else push
                      (literal (drop i word))
                      default
                      (push (made (make options)) p.formatting_info p)) { current_literal = [] }))
        ⊎ (NoneAbove rules word 0 (length word)
            × (finish_converter rules word options p
                ≡ record (push (literal p.current_literal) default p) { current_literal = [] }))
  unfolding finish_converter
  finish_converter-longest word options before p h =
      elim (Option-cases (find_rule rules word (length word))) [
        | inl e ↦ inr (find_rule-none rules word (length word) e, rw (e, finish_converter) refl)
        | inr ((make, i), e) ↦
            let (a, b, c, d) = find_rule-longest rules word (length word) i make e in
            let left : drop (length p.current_literal - (length word - i)) p.current_literal
                ≡ drop i word =
              rw h (drop_tail before word i b) in
            inl (i, make, a, b, c, d, rw (e, finish_converter) (rw left refl))
      ]
