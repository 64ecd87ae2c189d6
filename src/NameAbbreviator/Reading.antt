-- ===== src/NameAbbreviator/Reading.antt =====
-- `getAbbreviator` in src/main/cpp/nameabbreviator.cpp: patterns of name abbreviators, read back.
use logging_log4cxx.Prelude.{
  ℕ, zero, suc, ◌+◌, ◌-◌, ◌≤◌, ◌<◌, ◌≡◌, ◌≢◌, refl, sym, subst, true, false, ◌&&◌, ◌||◌, Bool-cases,
  inl, inr, Option, none, some, List, [], ◌∷◌, ◌++◌, leb, ◌==◌, ==_iff, Text, length, length-append,
  split_at, arith,
}
use logging_log4cxx.StringHelper.{trim}
use logging_log4cxx.NameAbbreviator.{
  Fragment, pattern_abbreviator, all_digits, ellipsis_at, fragment_at, fragments, get_abbreviator,
}
use logging_log4cxx.NameAbbreviator.Elements.{mark}

-- A fragment as a pattern has it: a digit and the ellipsis.
abbrev pub shown : Fragment → Text
shown f = (b'0' + f.char_count) ∷ mark f

abbrev pub print : Fragment → List Fragment → Text
print f [] = shown f
print f (g ∷ fs) = shown f ++ b'.' ∷ print g fs

abbrev pub IsShort : Fragment → Type 0
IsShort f = (f.char_count < 10) × (f.ellipsis ≢ b'.')

abbrev pub AreShort : Fragment → List Fragment → Type 0
AreShort f [] = IsShort f
AreShort f (g ∷ fs) = IsShort f × AreShort g fs

-- The tests on the digit of a fragment.
record IsDigit (c : ℕ) : Type 0 where
  not_star : (c == b'*') ≡ false
  is_digit : leb b'0' c && leb c b'9' ≡ true
  not_dot : (c == b'.') ≡ false

digit : (n : ℕ) → n < 10 → IsDigit (b'0' + n)
digit n h = record { not_star = ground arith; is_digit = ground arith; not_dot = ground arith }

ellipsis_at-mark : (f : Fragment) → f.ellipsis ≢ b'.' → ellipsis_at (mark f) ≡ f.ellipsis
ellipsis_at-mark f ne = ground arith

ellipsis_at-before :
    (f : Fragment) (rest : Text)
    → f.ellipsis ≢ b'.'
    → ellipsis_at (mark f ++ b'.' ∷ rest) ≡ f.ellipsis
ellipsis_at-before f rest ne = elim (Bool-cases (f.ellipsis == 0)) [
  | inl e ↦ rw e (sym ((==_iff f.ellipsis 0).0 e))
  | inr e ↦ let other : (f.ellipsis == b'.') ≡ false = ground arith in rw (e, other) refl
]

fragment_at-ellipsis :
    (f : Fragment) (s : Text)
    → IsShort f
    → ellipsis_at s ≡ f.ellipsis
    → fragment_at (b'0' + f.char_count) s ≡ f
unfolding fragment_at
fragment_at-ellipsis f s (few, ne) e =
    let d = digit f.char_count few in
    let back : b'0' + f.char_count - b'0' ≡ f.char_count = omega arith in
    rw (fragment_at, d.not_star, d.is_digit) (λ t. record { char_count = back t; ellipsis = e t })

split_at-shown : (f : Fragment) → IsShort f → split_at b'.' (shown f) ≡ none
unfolding split_at
split_at-shown f (few, ne) = elim (Bool-cases (f.ellipsis == 0)) [
  | inl e ↦ rw (split_at, e, (digit f.char_count few).not_dot) refl
  | inr e ↦
      let other : (f.ellipsis == b'.') ≡ false = ground arith in
      rw (split_at, e, (digit f.char_count few).not_dot, other) refl
]

split_at-before :
    (f : Fragment) (rest : Text)
    → IsShort f
    → split_at b'.' (shown f ++ b'.' ∷ rest) ≡ some (shown f, rest)
unfolding split_at
split_at-before f rest (few, ne) = elim (Bool-cases (f.ellipsis == 0)) [
  | inl e ↦ rw (split_at, e, (digit f.char_count few).not_dot) refl
  | inr e ↦
      let other : (f.ellipsis == b'.') ≡ false = ground arith in
      rw (split_at, e, (digit f.char_count few).not_dot, other) refl
]

fragments-print :
    (n : ℕ) (f : Fragment) (fs : List Fragment)
    → AreShort f fs
    → length (print f fs) ≤ n
    → fragments n (print f fs) ≡ some (f ∷ fs)
unfolding fragments
fragments-print zero f [] h le = absurd (omega arith)
fragments-print zero f (g ∷ fs) h le = absurd (omega arith)
fragments-print (suc n) f [] h le =
    rw (fragments, split_at-shown f h, fragment_at-ellipsis f (mark f) h (ellipsis_at-mark f h.1))
      refl
fragments-print (suc n) f (g ∷ fs) (h, hs) le =
    let size = length-append (mark f) (b'.' ∷ print g fs) in
    rw
      (
        fragments,
        split_at-before f (print g fs) h,
        fragments-print n g fs hs (omega (arith, size)),
        fragment_at-ellipsis f (mark f ++ b'.' ∷ print g fs) h
            (ellipsis_at-before f (print g fs) h.1),
      )
      refl

empty_or : (s : Text) → 0 < length (trim s) → (length s == 0 || length (trim s) == 0) ≡ false
unfolding trim
empty_or [] h = absurd (omega arith)
empty_or (c ∷ s) h = ground arith

-- Let a pattern, without the spaces around it, be the text of some fragments, each a digit and its
-- ellipsis, which is not a dot, and let it not be of digits only. `getAbbreviator` reads back these
-- fragments, on fuel for its characters.
pub get_abbreviator-print :
    (to_int : Text → Option ℕ) (pattern : Text) (f : Fragment) (fs : List Fragment)
    → AreShort f fs
    → trim pattern ≡ print f fs
    → all_digits (print f fs) ≡ false
    → get_abbreviator to_int pattern ≡ some (pattern_abbreviator (f ∷ fs))
unfolding get_abbreviator
get_abbreviator-print to_int pattern f fs h trimmed mixed =
    let texts : 0 < length (trim pattern) =
      subst (λ t. 0 < length t) (sym trimmed) (positive f fs) in
    rw
      (
        get_abbreviator,
        empty_or pattern texts,
        trimmed,
        mixed,
        fragments-print (length (print f fs)) f fs h (omega arith),
      )
      refl
  where
    positive : (f : Fragment) (fs : List Fragment) → 0 < length (print f fs)
    positive f [] = omega arith
    positive f (g ∷ fs) = omega arith
