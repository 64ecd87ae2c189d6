-- ===== src/Transform/Entities.antt =====
-- What the output of `appendEscapingTags` of src/main/cpp/transform.cpp means to a reader of XML.
use logging_log4cxx.Prelude.{
  ℕ, zero, suc, ◌<◌, ◌≡◌, refl, sym, ap, ◌∙◌, false, Bool-cases, none, some, Option-cases, [], ◌∷◌,
  ◌++◌, ◌==◌, ==_iff, if◌then◌else◌, Text, codes, is_empty, length, arith, inl, inr, append_assoc,
  append-nil,
}
use logging_log4cxx.Transform.{
  is_special, find_special, replaced, escape_loop, append_escaping_tags,
}

-- The first text, with its references resolved, is the second: it has no bare quotation mark, no bracket
-- and no "&" but those of the four references. Unlike XML this admits control characters, and it keeps
-- carriage returns.
pub data Denotes : Text → Text → Type 0 where
  end : Denotes [] []
  plain : (c : ℕ) (s t : Text) → is_special c ≡ false → Denotes s t → Denotes (c ∷ s) (c ∷ t)
  quot : (s t : Text) → Denotes s t → Denotes (codes "&quot;" ++ s) (0x22 ∷ t)
  amp : (s t : Text) → Denotes s t → Denotes (codes "&amp;" ++ s) (0x26 ∷ t)
  lt : (s t : Text) → Denotes s t → Denotes (codes "&lt;" ++ s) (0x3C ∷ t)
  gt : (s t : Text) → Denotes s t → Denotes (codes "&gt;" ++ s) (0x3E ∷ t)

abbrev pub escaped : Text → Text
escaped [] = []
escaped (c ∷ s) = replaced c ++ escaped s

no_special : (s : Text) → find_special s ≡ none → escaped s ≡ s
unfolding find_special
no_special [] h = refl
no_special (c ∷ s) h = elim (Bool-cases (is_special c)) [
  | inl e ↦ absurd (ground (arith, e, h))
  | inr e ↦ elim (Option-cases (find_special s)) [
    | inl g ↦ ground (arith, e, no_special s g)
    | inr (r, g) ↦ absurd (ground (arith, e, g, h))
  ]
]

found_special :
    (s before : Text) (c : ℕ) (after : Text)
    → find_special s ≡ some (before, (c, after))
    → (escaped s ≡ before ++ (replaced c ++ escaped after)) × (length after < length s)
unfolding find_special
found_special [] before c after h = absurd (cc)
found_special (d ∷ s) before c after h = elim (Bool-cases (is_special d)) [
  | inl e ↦ ground (arith, e, h)
  | inr e ↦ elim (Option-cases (find_special s)) [
    | inl g ↦ absurd (ground (arith, e, g, h))
    | inr ((b, (x, a)), g) ↦ ground (arith, e, g, h, found_special s b x a g)
  ]
]

appended : (buf s : Text) → (if is_empty s then buf else buf ++ s) ≡ buf ++ s
appended buf [] = sym (append-nil buf)
appended buf (c ∷ s) = refl

loop-escaped : (n : ℕ) (s buf : Text) → length s < n → escape_loop n s buf ≡ some (buf ++ escaped s)
unfolding escape_loop
loop-escaped zero s buf h = absurd (omega arith)
loop-escaped (suc n) s buf h = elim (Option-cases (find_special s)) [
  | inl e ↦ rw (e, escape_loop, no_special s e) (ap (λ t. some t) (appended buf s))
  | inr ((before, (c, after)), e) ↦
      let (whole, less) = found_special s before c after e in
      rw (e, escape_loop, whole)
        (loop-escaped n after ((if is_empty before then buf else buf ++ before) ++ replaced c)
            (omega arith)
          ∙ ap (λ t. some t)
              (ap (λ t. (t ++ replaced c) ++ escaped after) (appended buf before)
                ∙ append_assoc (buf ++ before) (replaced c) (escaped after)
                ∙ append_assoc buf before (replaced c ++ escaped after)))
]

replaced-Denotes : (c : ℕ) (s t : Text) → Denotes s t → Denotes (replaced c ++ s) (c ∷ t)
replaced-Denotes c s t d = elim (Bool-cases (c == 0x22)) [
  | inl e ↦ rw ((==_iff c 0x22).0 e) (quot s t d)
  | inr e ↦ elim (Bool-cases (c == 0x26)) [
    | inl f ↦ rw ((==_iff c 0x26).0 f) (amp s t d)
    | inr f ↦ elim (Bool-cases (c == 0x3C)) [
      | inl g ↦ rw ((==_iff c 0x3C).0 g) (lt s t d)
      | inr g ↦ elim (Bool-cases (c == 0x3E)) [
        | inl h ↦ rw ((==_iff c 0x3E).0 h) (gt s t d)
        | inr h ↦ rw (e, f, g, h) (plain c s t (ground (arith, e, f, g, h)) d)
      ]
    ]
  ]
]

escaped-Denotes : (s : Text) → Denotes (escaped s) s
escaped-Denotes [] = end
escaped-Denotes (c ∷ s) = replaced-Denotes c (escaped s) s (escaped-Denotes s)

-- `appendEscapingTags` always ends, leaves the buffer in front, and appends a text without quotation
-- marks, brackets and other "&" than those of the four references, which reads back as the input once
-- these are resolved. A control character, which XML forbids, and a carriage return, which a reader of
-- XML normalizes, are passed on as they are.
pub append_escaping_tags-Denotes :
    (buf input : Text)
    → (output : Text) × (append_escaping_tags buf input ≡ some (buf ++ output))
      × Denotes output input
unfolding append_escaping_tags
append_escaping_tags-Denotes buf [] = ([], ap (λ t. some t) (sym (append-nil buf)), end)
append_escaping_tags-Denotes buf (c ∷ s) = (
  escaped (c ∷ s),
  loop-escaped (suc (length (c ∷ s))) (c ∷ s) buf (omega arith),
  escaped-Denotes (c ∷ s),
)
