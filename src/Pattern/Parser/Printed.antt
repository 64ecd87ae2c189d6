-- ===== src/Pattern/Parser/Printed.antt =====
-- Whole patterns: text and specifiers, printed and parsed again by src/main/cpp/patternparser.cpp.
use native.Mathlib.Nat.{zero-add}
use logging_log4cxx.Prelude.{
  ℕ, ◌+◌, ◌≤◌, ◌≡◌, refl, sym, ap, ◌∙◌, ◌⊎◌, inl, inr, Bool, true, false, List, [], ◌∷◌, ◌++◌,
  Option, some, Text, arith, ◌==◌, if◌then◌else◌, append_assoc, append-nil, Bool-cases, ==_iff,
  length, is_empty,
}
use logging_log4cxx.Pattern.FormattingInfo.{FormattingInfo, default, int_max}
use logging_log4cxx.Pattern.Parser.{
  Parser, Converter, literal, made, State, literal_state, converter_state, dot_state, min_state,
  max_state, append, flushed, push, closed, finish, parse, initial, is_unicode_identifier_start,
  is_unicode_identifier_part,
}
use logging_log4cxx.Pattern.Parser.Rounds.{run, run-nil, parse-run}
use logging_log4cxx.Pattern.Parser.Literals.{doubled, inside, run-doubled}
use logging_log4cxx.Pattern.Parser.Specifiers.{
  digits, IsDigits, value_from, dash, dotted, max_value, Reads, IsWord, EndsWord, braced,
  AreOptions, IsLetter, run_word, run_percent, run-dash, run_min_more, run_max_more, run_first_min,
  run_first_max, run_dot, with_min, with_max,
}

pub record Specifier (C : Type 0) : Type 0 where
  pub left : Bool
  pub min_digits : List ℕ
  pub max_digits : List ℕ
  pub letter : ℕ
  pub word : Text
  pub options : List Text
  pub make : List Text → C

abbrev pub print_specifier : {C : Type 0} → Specifier C → Text → Text
print_specifier s rest =
    0x25
    ∷ dash s.left
        (digits s.min_digits ++ dotted s.max_digits (s.letter ∷ (s.word ++ braced s.options rest)))

abbrev pub info : {C : Type 0} → Specifier C → FormattingInfo
info s = record {
  left_align = s.left;
  min_length = value_from 0 s.min_digits;
  max_length = max_value s.max_digits;
}

-- At most three digits for each length, and a word that has a rule.
pub record IsSpecifier {C : Type 0} (rules : Text → Option (List Text → C)) (s : Specifier C)
    : Type 0 where
  pub min_IsDigits : IsDigits s.min_digits
  pub min_short : length s.min_digits ≤ 3
  pub max_IsDigits : IsDigits s.max_digits
  pub max_short : length s.max_digits ≤ 3
  pub letter_IsLetter : IsLetter s.letter
  pub word_IsWord : IsWord s.word
  pub options_AreOptions : AreOptions s.options
  pub has_rule : rules (s.letter ∷ s.word) ≡ some s.make

tail_path : {c d : ℕ} {s t : Text} → ◌≡◌ {A = Text} (c ∷ s) (d ∷ t) → s ≡ t
tail_path e = cc

module _ {C : Type 0} (rules : Text → Option (List Text → C)) where
  run_min :
      (ds : List ℕ) (p : Parser C) (rest : Text)
      → p.state ≡ converter_state
      → p.formatting_info.min_length ≡ 0
      → IsDigits ds
      → length ds ≤ 3
      → (q : Parser C) × (s : State) × (run rules p (digits ds ++ rest) ≡ run rules q rest)
        × ((s ≡ converter_state) ⊎ (s ≡ min_state))
        × Reads s (record (p.formatting_info) { min_length = value_from 0 ds }) p q
  run_min [] p rest h z b k = (p, converter_state, refl, inl refl, ground arith)
  run_min (d ∷ ds) p rest h z b k =
      let (q, e, r) =
        run_min_more rules ds (with_min rules p d min_state d 1) rest refl b.1 (omega arith) in
      (
        q,
        min_state,
        run_first_min rules d p (digits ds ++ rest) h b.0 ∙ e,
        inr refl,
        record {
          in_state = r.in_state;
          has_info = rw zero-add r.has_info;
          converters = r.converters;
          infos = r.infos;
        },
      )

  run_max :
      (es : List ℕ) (p : Parser C) (rest : Text)
      → (p.state ≡ converter_state) ⊎ (p.state ≡ min_state)
      → p.formatting_info.max_length ≡ int_max
      → IsDigits es
      → length es ≤ 3
      → (q : Parser C) × (s : State) × (run rules p (dotted es rest) ≡ run rules q rest)
        × ((s ≡ converter_state) ⊎ (s ≡ min_state) ⊎ (s ≡ max_state))
        × Reads s (record (p.formatting_info) { max_length = max_value es }) p q
  run_max [] p rest h z b k = (p, p.state, refl, ground arith, ground arith)
  run_max (e ∷ es) p rest h z b k =
      let p' : Parser C = record (append p 0x2E) { state = dot_state } in
      let (q, f, r) = run_max_more rules es (with_max rules p' e e 1) rest refl b.1 (omega arith) in
      (
        q,
        max_state,
        run_dot rules p (digits (e ∷ es) ++ rest) h
            ∙ run_first_max rules e p' (digits es ++ rest) refl b.0
            ∙ f,
        ground arith,
        record {
          in_state = r.in_state;
          has_info = rw zero-add r.has_info;
          converters = r.converters;
          infos = r.infos;
        },
      )

  -- The parser is between two pieces of the pattern.
  pub record Idle (converters : List (Converter C)) (infos : List FormattingInfo) (q : Parser C)
      : Type 0 where
    pub at_literal : q.state ≡ literal_state
    pub no_literal : q.current_literal ≡ []
    pub has_converters : q.pattern_converters ≡ converters
    pub has_infos : q.formatting_infos ≡ infos

  specifier_head :
      (s : Specifier C) (rest : Text)
      → IsSpecifier rules s
      → (d : ℕ) × (t : Text) × (print_specifier s rest ≡ 0x25 ∷ d ∷ t) × ((d == 0x25) ≡ false)
  specifier_head s rest h = head s.left s.min_digits s.max_digits h.min_IsDigits
    where
      not_percent : (d : ℕ) → IsLetter d → (d == 0x25) ≡ false
      not_percent d l = unfold is_unicode_identifier_start in ground (arith, l.0)

      head :
          (left : Bool) (ds es : List ℕ)
          → IsDigits ds
          → (d : ℕ) × (t : Text) × (◌≡◌ {A = Text}
              (0x25
                ∷ dash left (digits ds ++ dotted es (s.letter ∷ (s.word ++ braced s.options rest))))
              (0x25 ∷ d ∷ t))
            × ((d == 0x25) ≡ false)
      head true ds es b = (0x2D, _, refl, refl)
      head false (d ∷ ds) es b = (0x30 + d, _, refl, ground (arith, b.0))
      head false [] (e ∷ es) b = (0x2E, _, refl, refl)
      head false [] [] b = (s.letter, _, refl, not_percent s.letter h.letter_IsLetter)

  two_states :
      {a b st : State} (q : Parser C)
      → (st ≡ a) ⊎ (st ≡ b)
      → q.state ≡ st
      → (q.state ≡ a) ⊎ (q.state ≡ b)
  two_states q w e = ground arith

  three_states :
      {a b c st : State} (q : Parser C)
      → (st ≡ a) ⊎ (st ≡ b) ⊎ (st ≡ c)
      → q.state ≡ st
      → (q.state ≡ a) ⊎ (q.state ≡ b) ⊎ (q.state ≡ c)
  three_states q w e = ground arith

  closed-Idle :
      (s : Specifier C) (p p1 p2 p3 : Parser C) {a b c : State}
      → Reads a (record { left_align = s.left; min_length = 0; max_length = int_max }) p p1
      → Reads b (record (p1.formatting_info) { min_length = value_from 0 s.min_digits }) p1 p2
      → Reads c (record (p2.formatting_info) { max_length = max_value s.max_digits }) p2 p3
      → Idle
          (p.pattern_converters ++ made (s.make s.options) ∷ [])
          (p.formatting_infos ++ info s ∷ [])
          (closed (push (made (s.make s.options)) p3.formatting_info p3))
  closed-Idle s p p1 p2 p3 r1 r2 r3 =
      let same : p3.formatting_info ≡ info s = ground (arith, r1, r2, r3) in
      record {
        at_literal = refl;
        no_literal = refl;
        has_converters = rw (r3.converters, r2.converters, r1.converters) refl;
        has_infos = rw (r3.infos, r2.infos, r1.infos, same) refl;
      }

  pub run_specifier :
      (s : Specifier C) (p : Parser C) (rest : Text)
      → IsSpecifier rules s
      → EndsWord rest
      → p.state ≡ literal_state
      → (q : Parser C) × (run rules p (print_specifier s rest) ≡ run rules q rest)
        × Idle
            ((flushed p).pattern_converters ++ made (s.make s.options) ∷ [])
            ((flushed p).formatting_infos ++ info s ∷ [])
            q
  run_specifier s p rest h er l =
      let (d, t, head, nd) = specifier_head s rest h in
      let start : Parser C = record (append (flushed p) 0x25) {
        state = converter_state;
        formatting_info = default;
      } in
      let word = s.letter ∷ (s.word ++ braced s.options rest) in
      let (p1, e1, r1) =
        run-dash rules s.left start (digits s.min_digits ++ dotted s.max_digits word) refl refl in
      let (p2, st, e2, w2, r2) =
        run_min s.min_digits p1 (dotted s.max_digits word) r1.in_state
          (ap (λ f. f.min_length) r1.has_info) h.min_IsDigits h.min_short in
      let (p3, st', e3, w3, r3) =
        run_max s.max_digits p2 word (two_states p2 w2 r2.in_state)
          (ap (λ f. f.max_length) r2.has_info ∙ ap (λ f. f.max_length) r1.has_info) h.max_IsDigits
          h.max_short in
      let e4 =
        run_word rules s.letter s.word s.options s.make p3 rest (three_states p3 w3 r3.in_state)
          h.letter_IsLetter h.word_IsWord h.options_AreOptions er h.has_rule in
      (
        closed (push (made (s.make s.options)) p3.formatting_info p3),
        ap (run rules p) head
            ∙ run_percent rules p d t l nd
            ∙ ap (run rules start) (tail_path (sym head))
            ∙ e1
            ∙ e2
            ∙ e3
            ∙ e4,
        closed-Idle s start p1 p2 p3 r1 r2 r3,
      )

-- A pattern: text, and then specifiers with the text behind each.
abbrev pub print_items : {C : Type 0} → List (Specifier C × Text) → Text
print_items [] = []
print_items ((s, text) ∷ items) = print_specifier s (doubled text ++ print_items items)

abbrev pub print_pattern : {C : Type 0} → Text → List (Specifier C × Text) → Text
print_pattern text items = doubled text ++ print_items items

-- Every specifier is well formed, and the text behind it does not prolong it.
abbrev pub AreItems :
    {C : Type 0} → (Text → Option (List Text → C)) → List (Specifier C × Text) → Type 0
AreItems rules [] = Unit {0}
AreItems rules ((s, text) ∷ items) = IsSpecifier rules s × EndsWord text × AreItems rules items

abbrev pub literals : {C : Type 0} → Text → List (Converter C)
literals text = if is_empty text then [] else literal text ∷ []

abbrev pub defaults : Text → List FormattingInfo
defaults text = if is_empty text then [] else default ∷ []

-- What the pattern stands for.
abbrev pub converters_of : {C : Type 0} → List (Specifier C × Text) → List (Converter C)
converters_of [] = []
converters_of ((s, text) ∷ items) = made (s.make s.options) ∷ (literals text ++ converters_of items)

abbrev pub infos_of : {C : Type 0} → List (Specifier C × Text) → List FormattingInfo
infos_of [] = []
infos_of ((s, text) ∷ items) = info s ∷ (defaults text ++ infos_of items)

EndsWord-doubled : (c : ℕ) (s rest : Text) → EndsWord (c ∷ s) → EndsWord (doubled (c ∷ s) ++ rest)
EndsWord-doubled c s rest h = elim (Bool-cases (c == 0x25)) [
  | inl e ↦ rw e (rw ((==_iff c 0x25).0 e) at h)
  | inr e ↦ rw e h
]

EndsWord-items :
    {C : Type 0} (text : Text) (items : List (Specifier C × Text))
    → EndsWord text
    → EndsWord (doubled text ++ print_items items)
EndsWord-items [] [] h = tt
EndsWord-items [] ((s, text) ∷ items) h = (unfold is_unicode_identifier_part in refl, refl)
EndsWord-items (c ∷ text) items h = EndsWord-doubled c text (print_items items) h

pair_path : {A B : Type 0} {a a' : A} {b b' : B} → a ≡ a' → b ≡ b' → ◌≡◌ {A = A × B} (a, b) (a', b')
pair_path p q = λ i. (p i, q i)

module _ {C : Type 0} (rules : Text → Option (List Text → C)) where
  -- the lists that `finish` gives for a parser
  abbrev Ends : List (Converter C) → List FormattingInfo → Parser C → Type 0
  Ends cs fs q = ((finish q).pattern_converters ≡ cs) × ((finish q).formatting_infos ≡ fs)

  flushed-inside :
      {cs : List (Converter C)} {fs : List FormattingInfo} (text : Text) (q : Parser C)
      → Idle rules cs fs q
      → ((flushed (inside q text)).pattern_converters ≡ cs ++ literals text)
        × ((flushed (inside q text)).formatting_infos ≡ fs ++ defaults text)
  unfolding flushed
  flushed-inside [] q i =
      rw (i.no_literal, i.has_converters, i.has_infos) (sym (append-nil _), sym (append-nil _))
  flushed-inside (c ∷ text) q i = rw (i.no_literal, i.has_converters, i.has_infos) (refl, refl)

  run_items :
      (items : List (Specifier C × Text)) (p : Parser C)
      → AreItems rules items
      → p.state ≡ literal_state
      → Ends
          ((flushed p).pattern_converters ++ converters_of items)
          ((flushed p).formatting_infos ++ infos_of items)
          (run rules p (print_items items))
  unfolding finish
  run_items [] p h l = rw (run-nil rules p) (sym (append-nil _), sym (append-nil _))
  run_items ((s, text) ∷ items) p h l =
      let rest = doubled text ++ print_items items in
      let (q, e, i) = run_specifier rules s p rest h.0 (EndsWord-items text items h.1) l in
      let ih = run_items items (inside q text) h.2 i.at_literal in
      rw (e, run-doubled rules text (print_items items) q i.at_literal)
        (join q (flushed-inside text q i) ih)
    where
      join :
          (q : Parser C)
          → ((flushed (inside q text)).pattern_converters
              ≡ ((flushed p).pattern_converters ++ made (s.make s.options) ∷ []) ++ literals text)
            × ((flushed (inside q text)).formatting_infos
                ≡ ((flushed p).formatting_infos ++ info s ∷ []) ++ defaults text)
          → Ends
              ((flushed (inside q text)).pattern_converters ++ converters_of items)
              ((flushed (inside q text)).formatting_infos ++ infos_of items)
              (run rules (inside q text) (print_items items))
          → Ends
              ((flushed p).pattern_converters ++ converters_of ((s, text) ∷ items))
              ((flushed p).formatting_infos ++ infos_of ((s, text) ∷ items))
              (run rules (inside q text) (print_items items))
      join q f ih = (
        ih.0 ∙ ap (λ x. x ++ converters_of items) f.0 ∙ simp append_assoc,
        ih.1 ∙ ap (λ x. x ++ infos_of items) f.1 ∙ simp append_assoc,
      )

  -- Let a pattern be made of text (each "%" doubled) and well-formed specifiers, with lengths of at most
  -- three digits, where the text right behind a specifier begins neither with an identifier character
  -- nor with an opening brace, which would prolong the specifier. `parse` reads it as it is meant: for each
  -- specifier the converter of its rule, made from its options, with its alignment and its two
  -- lengths, and for each piece of text a literal in the default format, in order.
  pub parse-print_pattern :
      (text : Text) (items : List (Specifier C × Text))
      → AreItems rules items
      → parse rules (print_pattern text items)
        ≡ (literals text ++ converters_of items, defaults text ++ infos_of items)
  parse-print_pattern text items h =
      let idle : Idle rules [] [] (initial {C = C}) = record {
        at_literal = refl;
        no_literal = refl;
        has_converters = refl;
        has_infos = refl;
      } in
      let start = flushed-inside text initial idle in
      let ends = run_items items (inside initial text) h refl in
      parse-run rules (print_pattern text items)
      ∙ rw (run-doubled rules text (print_items items) initial refl) (
          pair_path (ends.0 ∙ ap (λ x. x ++ converters_of items) start.0)
            (ends.1 ∙ ap (λ x. x ++ infos_of items) start.1))
