-- ===== src/NameAbbreviator/Patterns.antt =====
-- `PatternAbbreviator` in src/main/cpp/nameabbreviator.cpp, element by element.
use logging_log4cxx.Prelude.{
  ℕ, zero, suc, ◌+◌, ◌<◌, ◌≡◌, refl, sym, ap, ◌∙◌, true, Bool-cases, inl, inr, none, some, returned,
  List, [], ◌∷◌, ◌++◌, append_assoc, ltb, Text, Free, length, length-append, arith,
}
use logging_log4cxx.NameAbbreviator.{
  Fragment, abbreviate_element, repeat_last, abbreviate_from, abbreviate,
}
use logging_log4cxx.NameAbbreviator.Elements.{
  shorten, join, AreElements, find_dot-last, abbreviate_element-shorten,
}

-- Each element but the last is shortened, by a fragment of its own while there are some and then by
-- the last fragment.
abbrev pub abbreviated : Fragment → List Fragment → Text → List Text → Text
abbreviated f fs el [] = el
abbreviated f [] el (e ∷ es) = shorten f el ++ b'.' ∷ abbreviated f [] e es
abbreviated f (g ∷ fs) el (e ∷ es) = shorten f el ++ b'.' ∷ abbreviated g fs e es

-- The text up to the next element.
behind_dot : (pre el rest : Text) → (pre ++ el) ++ b'.' ∷ rest ≡ ((pre ++ el) ++ b'.' ∷ []) ++ rest
behind_dot pre el rest = sym (append_assoc (pre ++ el) (b'.' ∷ []) rest)

length-behind_dot : (s : Text) → length s + 1 ≡ length (s ++ b'.' ∷ [])
length-behind_dot s = omega (arith, length-append s (b'.' ∷ []))

is_inside-element :
    (pre el rest : Text) → ltb (length pre) (length (pre ++ (el ++ b'.' ∷ rest))) ≡ true
is_inside-element pre el rest =
    inside (length pre) (length el) (length rest) (length (pre ++ (el ++ b'.' ∷ rest)))
      (omega (arith, length-append pre (el ++ b'.' ∷ rest), length-append el (b'.' ∷ rest)))
  where
    inside : (a b c n : ℕ) → n ≡ a + (b + (c + 1)) → ltb a n ≡ true
    inside a b c n e = ground arith

regroup : (pre el : Text) (s : Text) → ((pre ++ el) ++ b'.' ∷ []) ++ s ≡ pre ++ (el ++ b'.' ∷ s)
regroup pre el s = append_assoc (pre ++ el) (b'.' ∷ []) s ∙ append_assoc pre el (b'.' ∷ s)

abbreviate_element-last :
    (f : Fragment) (pre el : Text)
    → Free b'.' el
    → abbreviate_element f (pre ++ el) (length pre) ≡ (pre ++ el, none)
unfolding abbreviate_element
abbreviate_element-last f pre el h = rw (abbreviate_element, find_dot-last pre el h) refl

-- One call, as a step from one element to the next.
abbreviate_element-next :
    (f : Fragment) (pre el rest : Text)
    → Free b'.' el
    → let pre' : Text = (pre ++ shorten f el) ++ b'.' ∷ [] in
      abbreviate_element f (pre ++ (el ++ b'.' ∷ rest)) (length pre)
      ≡ (pre' ++ rest, some (length pre'))
abbreviate_element-next f pre el rest h = abbreviate_element-shorten f pre el rest h ∙ (λ t.
    (behind_dot pre (shorten f el) rest t, some (length-behind_dot (pre ++ shorten f el) t)))

repeat_last-elements :
    (n : ℕ) (f : Fragment) (pre el : Text) (es : List Text)
    → AreElements el es
    → length es < n
    → repeat_last n f (pre ++ join el es) (some (length pre)) ≡ some (pre ++ abbreviated f [] el es)
unfolding repeat_last
repeat_last-elements zero f pre el es h enough = absurd (omega arith)
repeat_last-elements (suc n) f pre el [] h enough =
    elim (Bool-cases (ltb (length pre) (length (pre ++ el)))) [
      | inl inside ↦ rw (inside, abbreviate_element-last f pre el h) refl
      | inr over ↦ rw over refl
    ]
repeat_last-elements (suc n) f pre el (e ∷ es) (h, hs) enough =
    let pre' : Text = (pre ++ shorten f el) ++ b'.' ∷ [] in
    rw (is_inside-element pre el (join e es), abbreviate_element-next f pre el (join e es) h)
      (repeat_last-elements n f pre' e es hs (omega arith)
        ∙ ap some (regroup pre (shorten f el) (abbreviated f [] e es)))

abbreviate_from-npos :
    (n : ℕ) (f : Fragment) (fs : List Fragment) (buf : Text)
    → abbreviate_from n f fs buf none ≡ some buf
unfolding abbreviate_from repeat_last
abbreviate_from-npos n f [] buf = refl
abbreviate_from-npos n f (g ∷ fs) buf = refl

abbreviate_from-elements :
    (n : ℕ) (f : Fragment) (fs : List Fragment) (pre el : Text) (es : List Text)
    → AreElements el es
    → length es < n
    → abbreviate_from n f fs (pre ++ join el es) (some (length pre))
      ≡ some (pre ++ abbreviated f fs el es)
unfolding abbreviate_from
abbreviate_from-elements n f [] pre el es h enough = repeat_last-elements n f pre el es h enough
abbreviate_from-elements n f (g ∷ fs) pre el [] h enough =
    elim (Bool-cases (ltb (length pre) (length (pre ++ el)))) [
      | inl inside ↦
          rw (inside, abbreviate_element-last f pre el h) (abbreviate_from-npos n g fs (pre ++ el))
      | inr over ↦ rw over refl
    ]
abbreviate_from-elements n f (g ∷ fs) pre el (e ∷ es) (h, hs) enough =
    let pre' : Text = (pre ++ shorten f el) ++ b'.' ∷ [] in
    rw (is_inside-element pre el (join e es), abbreviate_element-next f pre el (join e es) h)
      (abbreviate_from-elements n g fs pre' e es hs (omega arith)
        ∙ ap some (regroup pre (shorten f el) (abbreviated g fs e es)))

-- Let a name be made of elements without a dot, joined by dots, and stand behind any text. A pattern
-- of fragments, on fuel for the elements, leaves the text in front and the last element as they are,
-- and cuts each other element to the length of its fragment, with the ellipsis in place of what is cut;
-- the last fragment serves all the elements that are left.
pub abbreviate-join :
    (n : ℕ) (f : Fragment) (fs : List Fragment) (pre el : Text) (es : List Text)
    → AreElements el es
    → length es < n
    → abbreviate n (f ∷ fs) (length pre) (pre ++ join el es)
      ≡ returned (some (pre ++ abbreviated f fs el es))
unfolding abbreviate
abbreviate-join n f fs pre el es h enough =
    ap returned (abbreviate_from-elements n f fs pre el es h enough)
