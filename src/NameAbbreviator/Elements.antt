-- ===== src/NameAbbreviator/Elements.antt =====
-- Elements of a name in src/main/cpp/nameabbreviator.cpp: texts without a dot, joined by dots.
use logging_log4cxx.Prelude.{
  ℕ, zero, suc, ◌+◌, ◌-◌, ◌≤◌, ◌≡◌, refl, sym, ap, ◌∙◌, false, Bool-cases, Option, none, some, List,
  [], ◌∷◌, ◌++◌, append_assoc, append-nil, ltb→lt, inl, inr, if◌then◌else◌, ltb, ◌==◌, Text, Free,
  length, take, drop, length-append, length-take, take-length_append, drop-length_append, arith,
}
use logging_log4cxx.NameAbbreviator.{
  Fragment, first_dot, find_dot, erase, insert, abbreviate_element,
}

-- One element as a fragment shows it.
abbrev pub mark : Fragment → Text
mark f = if f.ellipsis == 0 then [] else f.ellipsis ∷ []

abbrev pub shorten : Fragment → Text → Text
shorten f el = if ltb f.char_count (length el) then take f.char_count el ++ mark f else el

-- A name from its first element and the others.
abbrev pub join : Text → List Text → Text
join el [] = el
join el (e ∷ es) = el ++ b'.' ∷ join e es

abbrev pub AreElements : Text → List Text → Type 0
AreElements el [] = Free b'.' el
AreElements el (e ∷ es) = Free b'.' el × AreElements e es

first_dot-element :
    (el rest : Text) → Free b'.' el → first_dot (el ++ b'.' ∷ rest) ≡ some (length el)
unfolding first_dot
first_dot-element [] rest h = refl
first_dot-element (c ∷ el) rest (ne, h) =
    let other : (c == b'.') ≡ false = ground arith in rw (other, first_dot-element el rest h) refl

first_dot-last : (el : Text) → Free b'.' el → first_dot el ≡ none
unfolding first_dot
first_dot-last [] h = refl
first_dot-last (c ∷ el) (ne, h) =
    let other : (c == b'.') ≡ false = ground arith in rw (other, first_dot-last el h) refl

find_dot-element :
    (pre el rest : Text)
    → Free b'.' el
    → find_dot (pre ++ (el ++ b'.' ∷ rest)) (length pre) ≡ some (length pre + length el)
unfolding find_dot
find_dot-element pre el rest h =
    rw (find_dot, drop-length_append pre (el ++ b'.' ∷ rest), first_dot-element el rest h) refl

pub find_dot-last : (pre el : Text) → Free b'.' el → find_dot (pre ++ el) (length pre) ≡ none
unfolding find_dot
find_dot-last pre el h = rw (find_dot, drop-length_append pre el, first_dot-last el h) refl

take-beyond : (xs ys : Text) (n : ℕ) → take (length xs + n) (xs ++ ys) ≡ xs ++ take n ys
take-beyond [] ys n = ap (λ m. take m ys) (omega arith)
take-beyond (x ∷ xs) ys n =
    let more : suc (length xs) + n ≡ suc (length xs + n) = omega arith in
    ap (λ m. take m (x ∷ xs ++ ys)) more ∙ ap (x ∷◌) (take-beyond xs ys n)

pub drop-beyond : (xs ys : Text) (n : ℕ) → drop (length xs + n) (xs ++ ys) ≡ drop n ys
drop-beyond [] ys n = ap (λ m. drop m ys) (omega arith)
drop-beyond (x ∷ xs) ys n =
    let more : suc (length xs) + n ≡ suc (length xs + n) = omega arith in
    ap (λ m. drop m (x ∷ xs ++ ys)) more ∙ drop-beyond xs ys n

take-element : (n : ℕ) (el rest : Text) → n ≤ length el → take n (el ++ rest) ≡ take n el
take-element zero el rest h = refl
take-element (suc n) [] rest h = absurd (omega arith)
take-element (suc n) (c ∷ el) rest h = ap (c ∷◌) (take-element n el rest (omega arith))

-- The element without what is cut.
erase-element :
    (pre el rest : Text) (n : ℕ)
    → n ≤ length el
    → erase (pre ++ (el ++ rest)) (length pre + n) (length pre + length el)
      ≡ (pre ++ take n el) ++ rest
erase-element pre el rest n h =
    ap (λ t. t ++ drop (length pre + length el) (pre ++ (el ++ rest)))
      (take-beyond pre (el ++ rest) n ∙ ap (pre ++◌) (take-element n el rest h))
    ∙ ap ((pre ++ take n el) ++◌)
        (drop-beyond pre (el ++ rest) (length el) ∙ drop-length_append el rest)

insert-after : (xs ys : Text) (c at : ℕ) → at ≡ length xs → insert (xs ++ ys) at c ≡ xs ++ c ∷ ys
insert-after xs ys c at e =
    ap (λ n. insert (xs ++ ys) n c) e
    ∙ ap (λ t. t ++ c ∷ drop (length xs) (xs ++ ys)) (take-length_append xs ys)
    ∙ ap (λ t. xs ++ c ∷ t) (drop-length_append xs ys)

changed :
    {b b' : Text} {n n' : ℕ} → b ≡ b' → n ≡ n' → ◌≡◌ {A = Text × Option ℕ} (b, some n) (b', some n')
changed e f = λ t. (e t, some (f t))

-- One call of a fragment at the start of an element that a dot follows.
pub abbreviate_element-shorten :
    (f : Fragment) (pre el rest : Text)
    → Free b'.' el
    → abbreviate_element f (pre ++ (el ++ b'.' ∷ rest)) (length pre)
      ≡ ((pre ++ shorten f el) ++ b'.' ∷ rest, some (length (pre ++ shorten f el) + 1))
unfolding abbreviate_element
abbreviate_element-shorten f pre el rest h =
    let buf : Text = pre ++ (el ++ b'.' ∷ rest) in
    let gap : length pre + length el - length pre ≡ length el = omega arith in
    elim (Bool-cases (ltb f.char_count (length el))) [
      | inr short ↦
          rw (abbreviate_element, find_dot-element pre el rest h, gap, short)
            (ap (λ t. (t, some (length pre + length el + 1)))
                (sym (append_assoc pre el (b'.' ∷ rest)))
              ∙ ap (λ m. ((pre ++ el) ++ b'.' ∷ rest, some (m + 1))) (sym (length-append pre el)))
      | inl long ↦
          let kept : Text = pre ++ take f.char_count el in
          let cut = erase-element pre el (b'.' ∷ rest) f.char_count (ground arith) in
          let size : length kept ≡ length pre + f.char_count = omega (
            arith,
            length-append pre (take f.char_count el),
            length-take f.char_count el,
            ltb→lt f.char_count (length el) long,
          ) in
          elim (Bool-cases (f.ellipsis == 0)) [
            | inl bare ↦
                rw (abbreviate_element, find_dot-element pre el rest h, gap, long, bare)
                  (changed
                    (cut
                      ∙ ap (λ t. (pre ++ t) ++ b'.' ∷ rest)
                          (sym (append-nil (take f.char_count el))))
                    (ap (λ m. m + 1)
                      (sym
                        (ap (λ t. length (pre ++ t)) (append-nil (take f.char_count el)) ∙ size))))
            | inr marked ↦
                rw (abbreviate_element, find_dot-element pre el rest h, gap, long, marked)
                  (changed
                    (ap (λ t. insert t (length pre + f.char_count) f.ellipsis) cut
                      ∙ insert-after kept (b'.' ∷ rest) f.ellipsis (length pre + f.char_count)
                          (sym size)
                      ∙ sym (append_assoc kept (f.ellipsis ∷ []) (b'.' ∷ rest))
                      ∙ ap (λ t. t ++ b'.' ∷ rest)
                          (append_assoc pre (take f.char_count el) (f.ellipsis ∷ [])))
                    (omega (
                      arith,
                      size,
                      length-append kept (f.ellipsis ∷ []),
                      ap length (append_assoc pre (take f.char_count el) (f.ellipsis ∷ [])),
                    )))
          ]
    ]
