-- ===== src/NameAbbreviator/Precision.antt =====
-- `MaxElementAbbreviator` in src/main/cpp/nameabbreviator.cpp, element by element.
use logging_log4cxx.Prelude.{
  ℕ, zero, suc, ◌+◌, ◌-◌, ◌≤◌, ◌<◌, ◌≡◌, refl, sym, ap, ◌∙◌, subst, true, false, Bool-cases,
  Option-cases, lt→ltb, inl, inr, Option, none, some, List, [], ◌∷◌, ◌++◌, append_assoc, append-nil,
  ltb, ◌==◌, Text, Free, length, length-append, get_elem?, take, drop, take-length_append, arith,
}
use logging_log4cxx.NameAbbreviator.{last_dot_before, rfind_dot, back_up, keep_last, erase}
use logging_log4cxx.NameAbbreviator.Elements.{drop-beyond}

-- Elements from the last to the first, each with a dot in front.
abbrev pub behind : List Text → Text
behind [] = []
behind (e ∷ es) = behind es ++ b'.' ∷ e

abbrev pub AllFree : List Text → Type 0
AllFree [] = Unit {0}
AllFree (e ∷ es) = Free b'.' e × AllFree es

get_elem?-beyond : (xs ys : Text) (k : ℕ) → get_elem? (xs ++ ys) (length xs + k) ≡ get_elem? ys k
get_elem?-beyond [] ys k = ap (get_elem? ys) (omega arith)
get_elem?-beyond (x ∷ xs) ys k =
    let more : suc (length xs) + k ≡ suc (length xs + k) = omega arith in
    ap (get_elem? (x ∷ xs ++ ys)) more ∙ get_elem?-beyond xs ys k

get_elem?-Free :
    (e rest : Text) (k : ℕ)
    → Free b'.' e
    → k < length e
    → (c : ℕ) × (get_elem? (e ++ rest) k ≡ some c) × ((c == b'.') ≡ false)
get_elem?-Free [] rest k h lt = absurd (omega arith)
get_elem?-Free (c ∷ e) rest zero (ne, h) lt = (c, refl, ground arith)
get_elem?-Free (c ∷ e) rest (suc k) (ne, h) lt = get_elem?-Free e rest k h (omega arith)

last_dot_before-other :
    (buf : Text) (i c : ℕ)
    → get_elem? buf i ≡ some c
    → (c == b'.') ≡ false
    → last_dot_before buf (suc i) ≡ last_dot_before buf i
unfolding last_dot_before
last_dot_before-other buf i c at other = rw (last_dot_before, at, other) refl

back_up-found :
    (n start : ℕ) (buf : Text) (end dot : ℕ)
    → rfind_dot buf end ≡ some dot
    → start ≤ dot
    → back_up (suc n) start buf end ≡ back_up n start buf dot
unfolding back_up
back_up-found n start buf end dot e le =
    let inside : ltb dot start ≡ false = ground arith in rw (back_up, e, inside) refl

keep_last-found :
    (count start : ℕ) (buf : Text) (end : ℕ)
    → back_up count start buf (length buf - 1) ≡ some end
    → keep_last count start buf ≡ erase buf start (end + 1)
unfolding keep_last
keep_last-found count start buf end e = rw (keep_last, e) refl

keep_last-early :
    (count start : ℕ) (buf : Text)
    → back_up count start buf (length buf - 1) ≡ none
    → keep_last count start buf ≡ buf
unfolding keep_last
keep_last-early count start buf e = rw (keep_last, e) refl

-- The dot in front of an element, from any position in the element or right behind it.
last_dot_before-element :
    (before e rest : Text) (k : ℕ)
    → Free b'.' e
    → k ≤ length e
    → last_dot_before (before ++ b'.' ∷ (e ++ rest)) (suc (length before + k))
      ≡ some (length before)
unfolding last_dot_before
last_dot_before-element before e rest zero h le =
    let start : length before + 0 ≡ length before = omega arith in
    rw (last_dot_before, get_elem?-beyond before (b'.' ∷ (e ++ rest)) 0, start) refl
last_dot_before-element before e rest (suc k) h le =
    let next : length before + suc k ≡ suc (length before + k) = omega arith in
    let (c, at, other) = get_elem?-Free e rest k h (omega arith) in
    ap (λ n. last_dot_before (before ++ b'.' ∷ (e ++ rest)) (suc n)) next
    ∙ last_dot_before-other (before ++ b'.' ∷ (e ++ rest)) (suc (length before + k)) c
        (ap (get_elem? (before ++ b'.' ∷ (e ++ rest))) (sym next)
          ∙ get_elem?-beyond before (b'.' ∷ (e ++ rest)) (suc k)
          ∙ at)
        other
    ∙ last_dot_before-element before e rest k h (omega arith)

rfind_dot-element :
    (before e rest : Text)
    → Free b'.' e
    → rfind_dot (before ++ b'.' ∷ (e ++ rest)) (suc (length before + length e))
      ≡ some (length before)
unfolding rfind_dot
rfind_dot-element before e rest h =
    let positive : (suc (length before + length e) == 0) ≡ false = ground arith in
    rw positive (last_dot_before-element before e rest (length e) h (omega arith))

back_up-element :
    (n start : ℕ) (before e rest : Text)
    → Free b'.' e
    → start ≤ length before
    → back_up (suc n) start (before ++ b'.' ∷ (e ++ rest)) (suc (length before + length e))
      ≡ back_up n start (before ++ b'.' ∷ (e ++ rest)) (length before)
back_up-element n start before e rest h le =
    back_up-found n start (before ++ b'.' ∷ (e ++ rest)) (suc (length before + length e))
      (length before) (rfind_dot-element before e rest h) le

-- The part of a text up to a dot.
around : (x b e rest : Text) → (x ++ (b ++ b'.' ∷ e)) ++ rest ≡ (x ++ b) ++ b'.' ∷ (e ++ rest)
around x b e rest =
    ap (λ t. t ++ rest) (sym (append_assoc x b (b'.' ∷ e))) ∙ append_assoc (x ++ b) (b'.' ∷ e) rest

-- As many rounds as there are elements go back to the end of what stands before them.
back_up-behind :
    (start : ℕ) (x : Text) (es : List Text) (rest : Text) (n : ℕ)
    → AllFree es
    → start ≤ length x
    → back_up (length es + n) start ((x ++ behind es) ++ rest) (length (x ++ behind es))
      ≡ back_up n start ((x ++ behind es) ++ rest) (length x)
back_up-behind start x [] rest n h le =
    ap (λ m. back_up m start ((x ++ []) ++ rest) (length (x ++ []))) (omega arith)
    ∙ ap (λ t. back_up n start ((x ++ []) ++ rest) (length t)) (append-nil x)
back_up-behind start x (e ∷ es) rest n (h, hs) le =
    let before : Text = x ++ behind es in
    let whole = around x (behind es) e rest in
    let size : length (x ++ (behind es ++ b'.' ∷ e)) ≡ suc (length before + length e) =
      omega (
        arith,
        ap length (append_assoc x (behind es) (b'.' ∷ e)),
        length-append before (b'.' ∷ e),
      ) in
    let rounds : suc (length es) + n ≡ suc (length es + n) = omega arith in
    ap
      (λ m.
        back_up m start ((x ++ (behind es ++ b'.' ∷ e)) ++ rest)
          (length (x ++ (behind es ++ b'.' ∷ e))))
      rounds
    ∙ (λ t. back_up (suc (length es + n)) start (whole t) (size t))
    ∙ back_up-element (length es + n) start before e rest h
        (omega (arith, length-append x (behind es)))
    ∙ back_up-behind start x es (b'.' ∷ (e ++ rest)) n hs le
    ∙ ap (λ t. back_up n start t (length x)) (sym whole)

-- Let a name stand behind `pre`, and end with the elements of `b ∷ es` and one more character, a dot or
-- not, behind a text `front`. With their number for its count, the abbreviator drops `front` and the
-- dot behind it, and keeps `pre` and those elements.
pub keep_last-behind :
    (pre front b : Text) (es : List Text) (c : ℕ)
    → AllFree (b ∷ es)
    → keep_last (length (b ∷ es)) (length pre) (((pre ++ front) ++ behind (b ∷ es)) ++ c ∷ [])
      ≡ pre ++ drop 1 (behind (b ∷ es) ++ c ∷ [])
unfolding back_up
keep_last-behind pre front b es c h =
    let name : Text = ((pre ++ front) ++ behind (b ∷ es)) ++ c ∷ [] in
    let end : length name - 1 ≡ length ((pre ++ front) ++ behind (b ∷ es)) =
      omega (arith, length-append ((pre ++ front) ++ behind (b ∷ es)) (c ∷ [])) in
    let reached =
      back_up-behind (length pre) (pre ++ front) (b ∷ es) (c ∷ []) 0 h
        (omega (arith, length-append pre front)) in
    let found : back_up (length (b ∷ es)) (length pre) name (length name - 1)
        ≡ some (length (pre ++ front)) =
      (λ t. back_up (rounds t) (length pre) name (end t)) ∙ reached in
    let tail : Text = behind (b ∷ es) ++ c ∷ [] in
    keep_last-found (length (b ∷ es)) (length pre) name (length (pre ++ front)) found
    ∙ ap (λ t. erase t (length pre) (length (pre ++ front) + 1))
        (append_assoc (pre ++ front) (behind (b ∷ es)) (c ∷ []))
    ∙ (λ t. first_part t ++ drop-beyond (pre ++ front) tail 1 t)
  where
    rounds : length (b ∷ es) ≡ length (b ∷ es) + 0
    rounds = omega arith

    first_part : take (length pre) ((pre ++ front) ++ (behind (b ∷ es) ++ c ∷ [])) ≡ pre
    first_part =
        ap (take (length pre)) (append_assoc pre front (behind (b ∷ es) ++ c ∷ []))
        ∙ take-length_append pre (front ++ (behind (b ∷ es) ++ c ∷ []))

-- No dot, or one before the name.
abbrev IsOutside : ℕ → Option ℕ → Type 0
IsOutside start none = Unit {0}
IsOutside start (some dot) = dot < start

IsOutside-position : (buf : Text) (n : ℕ) → IsOutside n (last_dot_before buf n)
unfolding last_dot_before
IsOutside-position buf zero = tt
IsOutside-position buf (suc i) = elim (Option-cases (get_elem? buf i)) [
  | inl e ↦ rw (last_dot_before, e) (further (last_dot_before buf i) (IsOutside-position buf i))
  | inr (c, e) ↦ elim (Bool-cases (c == b'.')) [
    | inl dot ↦ rw (last_dot_before, e, dot) (omega arith)
    | inr other ↦
        rw (last_dot_before, e, other) (further (last_dot_before buf i) (IsOutside-position buf i))
  ]
]
  where
    further : (o : Option ℕ) → IsOutside i o → IsOutside (suc i) o
    further none h = tt
    further (some dot) h = omega arith

-- The dot before the end of the first element.
IsOutside-first :
    (pre first rest : Text) (k : ℕ)
    → Free b'.' first
    → k ≤ length first
    → IsOutside (length pre) (last_dot_before (pre ++ (first ++ rest)) (length pre + k))
IsOutside-first pre first rest zero h le =
    let start : length pre + 0 ≡ length pre = omega arith in
    subst (λ m. IsOutside (length pre) (last_dot_before (pre ++ (first ++ rest)) m)) (sym start)
      (IsOutside-position (pre ++ (first ++ rest)) (length pre))
IsOutside-first pre first rest (suc k) h le =
    let next : length pre + suc k ≡ suc (length pre + k) = omega arith in
    let (c, at, other) = get_elem?-Free first rest k h (omega arith) in
    subst (IsOutside (length pre))
      (sym (
        ap (last_dot_before (pre ++ (first ++ rest))) next
        ∙ last_dot_before-other (pre ++ (first ++ rest)) (length pre + k) c
            (get_elem?-beyond pre (first ++ rest) k ∙ at) other))
      (IsOutside-first pre first rest k h (omega arith))

back_up-early :
    (n start : ℕ) (buf : Text) (end : ℕ)
    → 0 < end
    → IsOutside start (last_dot_before buf end)
    → back_up (suc n) start buf end ≡ none
unfolding back_up rfind_dot
back_up-early n start buf end positive h =
    let more : (end == 0) ≡ false = ground arith in
    elim (Option-cases (last_dot_before buf end)) [
      | inl e ↦ rw (back_up, rfind_dot, more, e) refl
      | inr (dot, e) ↦
          let outside : ltb dot start ≡ true = lt→ltb dot start (subst (IsOutside start) e h) in
          rw (back_up, rfind_dot, more, e, outside) refl
    ]

-- Let a name of the elements of `es`, behind `first`, and one more character stand behind `pre`, where
-- `pre` or `first` has a character. An abbreviator with a larger count than there are dots between the
-- elements keeps the name.
pub keep_last-short :
    (pre first : Text) (es : List Text) (c n : ℕ)
    → Free b'.' first
    → AllFree es
    → 0 < length (pre ++ first)
    → keep_last (length es + suc n) (length pre) (((pre ++ first) ++ behind es) ++ c ∷ [])
      ≡ ((pre ++ first) ++ behind es) ++ c ∷ []
keep_last-short pre first es c n free h positive =
    let name : Text = ((pre ++ first) ++ behind es) ++ c ∷ [] in
    let end : length name - 1 ≡ length ((pre ++ first) ++ behind es) =
      omega (arith, length-append ((pre ++ first) ++ behind es) (c ∷ [])) in
    let parts : name ≡ pre ++ (first ++ (behind es ++ c ∷ [])) =
      append_assoc (pre ++ first) (behind es) (c ∷ [])
      ∙ append_assoc pre first (behind es ++ c ∷ []) in
    let outside =
      subst (IsOutside (length pre))
        (λ t. last_dot_before (sym parts t) (sym (length-append pre first) t))
        (IsOutside-first pre first (behind es ++ c ∷ []) (length first) free (omega arith)) in
    keep_last-early (length es + suc n) (length pre) name (
      ap (back_up (length es + suc n) (length pre) name) end
      ∙ back_up-behind (length pre) (pre ++ first) es (c ∷ []) (suc n) h
          (omega (arith, length-append pre first))
      ∙ back_up-early n (length pre) name (length (pre ++ first)) positive outside)
