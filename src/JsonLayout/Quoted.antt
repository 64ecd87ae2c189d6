-- ===== src/JsonLayout/Quoted.antt =====
-- src/main/cpp/jsonlayout.cpp, appendItem: the string that it appends is read as the text.
use logging_log4cxx.Prelude.{
  ℕ, ◌≡◌, refl, sym, ap, subst, ◌∙◌, false, Bool-cases, inl, inr, Option, none, some, List, [], ◌∷◌,
  ◌++◌, append_assoc, append-nil, if◌then◌else◌, ◌==◌, ==_iff, Text, arith,
}
use logging_log4cxx.JsonLayout.{is_special, escape, append_segment, item_loop, append_item}
use logging_log4cxx.JsonLayout.Lexer.{
  Token, string, outside, inside, next, tokens, prepend, prepend-nil, Reads,
}

-- What the loop appends for a text.
abbrev pub escapes : Text → Text
escapes [] = []
escapes (c ∷ s) = (if is_special c then escape c else c ∷ []) ++ escapes s

append_segment-append : (segment buf : Text) → append_segment segment buf ≡ buf ++ segment
append_segment-append [] buf = sym (append-nil buf)
append_segment-append (c ∷ s) buf = refl

item_loop-escapes : (segment s buf : Text) → item_loop segment s buf ≡ buf ++ (segment ++ escapes s)
unfolding item_loop
item_loop-escapes segment [] buf =
    append_segment-append segment buf ∙ ap (buf ++◌) (sym (append-nil segment))
item_loop-escapes segment (c ∷ s) buf = elim (Bool-cases (is_special c)) [
  | inl e ↦
      rw (item_loop, e)
        (item_loop-escapes [] s (append_segment segment buf ++ escape c)
          ∙ ap (λ b. (b ++ escape c) ++ escapes s) (append_segment-append segment buf)
          ∙ append_assoc (buf ++ segment) (escape c) (escapes s)
          ∙ append_assoc buf segment (escape c ++ escapes s))
  | inr e ↦
      rw (item_loop, e)
        (item_loop-escapes (segment ++ (c ∷ [])) s buf
          ∙ ap (buf ++◌) (append_assoc segment (c ∷ []) (escapes s)))
]

prepend-nil_twice : (o : Option (List Token)) → prepend [] (prepend [] o) ≡ o
prepend-nil_twice o = prepend-nil (prepend [] o) ∙ prepend-nil o

-- One character of a string is read back.
abbrev IsRead : Text → Text → ℕ → Type 0
IsRead acc t c =
    tokens (inside acc) ((if is_special c then escape c else c ∷ []) ++ t)
    ≡ tokens (inside (acc ++ (c ∷ []))) t

IsRead-plain : (acc t : Text) (c : ℕ) → is_special c ≡ false → IsRead acc t c
unfolding tokens next
IsRead-plain acc t c e =
    let quote : (c == 0x22) ≡ false = ground (arith, e) in
    let backslash : (c == 0x5C) ≡ false = ground (arith, e) in
    let step : next (inside acc) c ≡ some (inside (acc ++ (c ∷ [])), []) =
      rw (next, quote, backslash) refl in
    rw e (
      ap (λ o. elim o [ none ↦ none | some (m, ts) ↦ prepend ts (tokens m t) ]) step
      ∙ prepend-nil (tokens (inside (acc ++ (c ∷ []))) t))

escape-IsRead : (acc t : Text) (c : ℕ) → IsRead acc t c
unfolding tokens next
escape-IsRead acc t c =
    let back : (d : ℕ)
        → prepend [] (prepend [] (tokens (inside (acc ++ (d ∷ []))) t))
          ≡ tokens (inside (acc ++ (d ∷ []))) t =
      λ d. prepend-nil_twice (tokens (inside (acc ++ (d ∷ []))) t) in
    elim (Bool-cases (c == 8)) [
      | inl e ↦ subst (IsRead acc t) (sym ((==_iff c 8).0 e)) (back 8)
      | inr e8 ↦ elim (Bool-cases (c == 9)) [
        | inl e ↦ subst (IsRead acc t) (sym ((==_iff c 9).0 e)) (back 9)
        | inr e9 ↦ elim (Bool-cases (c == 10)) [
          | inl e ↦ subst (IsRead acc t) (sym ((==_iff c 10).0 e)) (back 10)
          | inr e10 ↦ elim (Bool-cases (c == 12)) [
            | inl e ↦ subst (IsRead acc t) (sym ((==_iff c 12).0 e)) (back 12)
            | inr e12 ↦ elim (Bool-cases (c == 13)) [
              | inl e ↦ subst (IsRead acc t) (sym ((==_iff c 13).0 e)) (back 13)
              | inr e13 ↦ elim (Bool-cases (c == 0x22)) [
                | inl e ↦ subst (IsRead acc t) (sym ((==_iff c 0x22).0 e)) (back 0x22)
                | inr quote ↦ elim (Bool-cases (c == 0x5C)) [
                  | inl e ↦ subst (IsRead acc t) (sym ((==_iff c 0x5C).0 e)) (back 0x5C)
                  | inr backslash ↦
                      IsRead-plain acc t c (rw (e8, e9, e10, e12, e13, quote, backslash) refl)
                ]
              ]
            ]
          ]
        ]
      ]
    ]

tokens-escapes :
    (acc s rest : Text)
    → tokens (inside acc) (escapes s ++ (0x22 ∷ rest))
      ≡ prepend (string (acc ++ s) ∷ []) (tokens outside rest)
unfolding tokens next
tokens-escapes acc [] rest =
    ap (λ a. prepend (string a ∷ []) (tokens outside rest)) (sym (append-nil acc))
tokens-escapes acc (c ∷ s) rest =
    ap (tokens (inside acc))
      (append_assoc (if is_special c then escape c else c ∷ []) (escapes s) (0x22 ∷ rest))
    ∙ escape-IsRead acc (escapes s ++ (0x22 ∷ rest)) c
    ∙ tokens-escapes (acc ++ (c ∷ [])) s rest
    ∙ ap (λ a. prepend (string a ∷ []) (tokens outside rest)) (append_assoc acc (c ∷ []) s)

abbrev pub quoted : Text → Text
quoted s = 0x22 ∷ (escapes s ++ (0x22 ∷ []))

pub append_item-quoted : (s buf : Text) → append_item s buf ≡ buf ++ quoted s
unfolding append_item
append_item-quoted s buf =
    ap (λ b. b ++ (0x22 ∷ [])) (item_loop-escapes [] s (buf ++ (0x22 ∷ [])))
    ∙ append_assoc (buf ++ (0x22 ∷ [])) (escapes s) (0x22 ∷ [])
    ∙ append_assoc buf (0x22 ∷ []) (escapes s ++ (0x22 ∷ []))

pub quoted-Reads : (s : Text) → Reads (quoted s) (string s ∷ [])
unfolding tokens next
quoted-Reads s rest =
    prepend-nil (tokens (inside []) ((escapes s ++ (0x22 ∷ [])) ++ rest))
    ∙ ap (tokens (inside [])) (append_assoc (escapes s) (0x22 ∷ []) rest)
    ∙ tokens-escapes [] s rest
