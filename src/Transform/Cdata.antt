-- ===== src/Transform/Cdata.antt =====
-- What the output of `appendEscapingCDATA` of src/main/cpp/transform.cpp means to a reader of XML.
use logging_log4cxx.Prelude.{
  ℕ, zero, suc, ◌<◌, ◌≡◌, refl, sym, ap, ◌∙◌, subst, Bool, true, false, Bool-cases, none, some,
  Option, Option-cases, [], ◌∷◌, ◌++◌, Text, codes, is_empty, length, take, drop, text_eq,
  text_eq_iff, arith, inl, inr, append_assoc, append-nil, length-append, take-append-drop,
}
use logging_log4cxx.Transform.{at_end, embedded_end, find_end, cdata_loop, append_escaping_cdata}

-- The first text, read as content of XML, is the second; the flag says whether the reader is in a
-- CDATA section. Outside of one, the only characters that are read here are "]" and the reference to ">".
pub data Reads : Bool → Text → Text → Type 0 where
  finish : Reads false [] []
  opening : (s t : Text) → Reads true s t → Reads false (codes "<![CDATA[" ++ s) t
  greater : (s t : Text) → Reads false s t → Reads false (codes "&gt;" ++ s) (b'>' ∷ t)
  bracket : (s t : Text) → Reads false s t → Reads false (b']' ∷ s) (b']' ∷ t)
  closing : (s t : Text) → Reads false s t → Reads true (codes "]]>" ++ s) t
  inside :
      (c : ℕ) (s t : Text) → at_end (c ∷ s) ≡ false → Reads true s t → Reads true (c ∷ s) (c ∷ t)

embedded-Reads : (s t : Text) → Reads true s t → Reads true (embedded_end ++ s) (codes "]]>" ++ t)
embedded-Reads s t r = closing (codes "]]&gt;<![CDATA[" ++ s) (codes "]]>" ++ t) (
    bracket (codes "]&gt;<![CDATA[" ++ s) (codes "]>" ++ t) (
      bracket (codes "&gt;<![CDATA[" ++ s) (codes ">" ++ t)
        (greater (codes "<![CDATA[" ++ s) t (opening s t r))))

-- The first three characters do not depend on what stands behind an end.
at_end-kept :
    (c : ℕ) (b s t : Text)
    → at_end (c ∷ (b ++ (codes "]]>" ++ s))) ≡ at_end (c ∷ (b ++ (codes "]]>" ++ t)))
at_end-kept c [] s t = refl
at_end-kept c (x ∷ []) s t = refl
at_end-kept c (x ∷ y ∷ b) s t = refl

at_end-tail : (s : Text) → at_end s ≡ true → s ≡ codes "]]>" ++ drop 3 s
at_end-tail s e =
    sym (take-append-drop 3 s)
    ∙ ap (λ p. p ++ drop 3 s) ((text_eq_iff (take 3 s) (codes "]]>")).0 e)

-- What `find` finds.
found-Reads :
    (rest before after : Text)
    → find_end rest ≡ some (before, after)
    → (rest ≡ before ++ (codes "]]>" ++ after))
      × ((s t : Text)
          → Reads true (codes "]]>" ++ s) t
          → Reads true (before ++ (codes "]]>" ++ s)) (before ++ t))
unfolding find_end
found-Reads [] before after h = absurd (cc h)
found-Reads (c ∷ rest) before after h = elim (Bool-cases (at_end (c ∷ rest))) [
  | inl e ↦
      let found : (before ≡ []) × (after ≡ drop 2 rest) = ground (arith, e, h) in
      rw (found.0, found.1) (at_end-tail (c ∷ rest) e, λ s t r. r)
  | inr e ↦ elim (Option-cases (find_end rest)) [
    | inl f ↦ absurd (ground (arith, e, f, h))
    | inr ((b, a), f) ↦
        let found : (before ≡ c ∷ b) × (after ≡ a) = ground (arith, e, f, h) in
        let (whole, reads) = found-Reads rest b a f in
        let apart : (s : Text) → at_end (c ∷ (b ++ (codes "]]>" ++ s))) ≡ false =
          λ s. at_end-kept c b s a ∙ ap (λ l. at_end (c ∷ l)) (sym whole) ∙ e in
        rw (found.0, found.1)
          (
            ap (c ∷◌) whole,
            λ s t r. inside c (b ++ (codes "]]>" ++ s)) (b ++ t) (apart s) (reads s t r),
          )
  ]
]

end-apart : (c : ℕ) (s : Text) → at_end (c ∷ s) ≡ false → at_end (c ∷ (s ++ codes "]]>")) ≡ false
unfolding text_eq
end-apart c [] e = ground arith
end-apart c (x ∷ []) e = ground arith
end-apart c (x ∷ y ∷ s) e = e

-- Without an end, the text is read up to the end that the caller writes.
none-Reads : (rest : Text) → find_end rest ≡ none → Reads true (rest ++ codes "]]>") rest
unfolding find_end
none-Reads [] h = closing [] [] finish
none-Reads (c ∷ rest) h = elim (Bool-cases (at_end (c ∷ rest))) [
  | inl e ↦ absurd (ground (arith, e, h))
  | inr e ↦ elim (Option-cases (find_end rest)) [
    | inl f ↦ inside c (rest ++ codes "]]>") rest (end-apart c rest e) (none-Reads rest f)
    | inr (r, f) ↦ absurd (ground (arith, e, f, h))
  ]
]

-- What the loop appends, with the end that the caller writes, is read as the rest of the input.
Appends : Option Text → Text → Text → Type 0
Appends result buf rest =
    (output : Text) × (result ≡ some (buf ++ output)) × Reads true (output ++ codes "]]>") rest

split-Appends :
    (rest before after buf : Text) (result : Option Text)
    → find_end rest ≡ some (before, after)
    → Appends result ((buf ++ before) ++ embedded_end) after
    → Appends result buf rest
unfolding Appends
split-Appends rest before after buf result e (output, same, r) =
    let (whole, reads) = found-Reads rest before after e in
    (
      before ++ (embedded_end ++ output),
      same
          ∙ ap (λ l. some l)
              (append_assoc (buf ++ before) embedded_end output
                ∙ append_assoc buf before (embedded_end ++ output)),
      subst (λ l. Reads true l rest)
          (sym (append_assoc before (embedded_end ++ output) (codes "]]>")))
          (subst (Reads true (before ++ (embedded_end ++ (output ++ codes "]]>")))) (sym whole) (
            reads (codes "]]&gt;<![CDATA[" ++ (output ++ codes "]]>")) (codes "]]>" ++ after)
              (embedded-Reads (output ++ codes "]]>") after r))),
    )

is_empty-nil : (s : Text) → is_empty s ≡ true → s ≡ []
is_empty-nil [] e = refl
is_empty-nil (c ∷ s) e = absurd (cc e)

loop-Appends :
    (n : ℕ) (rest buf : Text) → length rest < n → Appends (cdata_loop n rest buf) buf rest
unfolding cdata_loop Appends
loop-Appends zero rest buf h = absurd (omega arith)
loop-Appends (suc n) rest buf h = elim (Option-cases (find_end rest)) [
  | inl e ↦ (rest, rw (cdata_loop, e) refl, none-Reads rest e)
  | inr ((before, after), e) ↦
      let (whole, _) = found-Reads rest before after e in
      let less : length after < length rest =
        omega (arith, ap length whole, length-append before (codes "]]>" ++ after)) in
      let next = loop-Appends n after ((buf ++ before) ++ embedded_end) (omega arith) in
      elim (Bool-cases (is_empty after)) [
        | inr f ↦
            split-Appends rest before after buf (cdata_loop (suc n) rest buf) e
              (next.0, rw (cdata_loop, e, f) next.1, next.2)
        | inl f ↦ split-Appends rest before after buf (cdata_loop (suc n) rest buf) e (
          [],
          rw (cdata_loop, e, f)
              (ap (λ l. some l) (sym (append-nil ((buf ++ before) ++ embedded_end)))),
          subst (Reads true (codes "]]>")) (sym (is_empty-nil after f)) (closing [] [] finish),
        )
      ]
]

-- `appendEscapingCDATA` always ends, leaves the buffer in front, and appends a text that a reader of
-- XML, between the begin and the end of a CDATA section, reads as the input, whatever ends of such
-- sections the input has. The reader passes control characters and carriage returns on, which XML
-- forbids and normalizes.
pub append_escaping_cdata-Reads :
    (buf input : Text)
    → (output : Text) × (append_escaping_cdata buf input ≡ some (buf ++ output))
      × Reads false (codes "<![CDATA[" ++ (output ++ codes "]]>")) input
unfolding append_escaping_cdata Appends
append_escaping_cdata-Reads buf [] =
    ([], ap (λ l. some l) (sym (append-nil buf)), opening (codes "]]>") [] (closing [] [] finish))
append_escaping_cdata-Reads buf (c ∷ s) =
    let (output, e, r) = loop-Appends (suc (length (c ∷ s))) (c ∷ s) buf (omega arith) in
    (output, e, opening (output ++ codes "]]>") (c ∷ s) r)
