-- ===== src/OptionConverter/Values.antt =====
-- Escapes, Booleans and sizes as src/main/cpp/optionconverter.cpp reads them.
use logging_log4cxx.Prelude.{
  ℕ, suc, ◌≤◌, ◌≡◌, ◌≢◌, refl, sym, ap, ◌∙◌, ◌⊎◌, Bool, true, false, [], ◌^◌, ◌∷◌, ◌++◌, none, some,
  Text, codes, arith, ◌==◌, if◌then◌else◌, length, take, ℤ, pos, negsuc, length-append,
  take-length_append, is_empty-append,
}
use logging_log4cxx.StringHelper.{equals_ignore_case}
use logging_log4cxx.Level.Names.{SpelledAs, equals_ignore_case-SpelledAs}
use logging_log4cxx.OptionConverter.{
  convert_special_chars, to_boolean, to_int, to_file_size, find_b, times, multiplier, code_at,
}

-- A character as a property file writes it for `convertSpecialChars`.
abbrev pub special : ℕ → Text
special c =
    if c == 0x0A
    then b'\\' ∷ b'n' ∷ []
    else if c == 0x0D
    then b'\\' ∷ b'r' ∷ []
    else if c == 0x09
    then b'\\' ∷ b't' ∷ []
    else if c == 0x0C
    then b'\\' ∷ b'f' ∷ []
    else if c == 0x5C
    then b'\\' ∷ b'\\' ∷ []
    else c ∷ []

abbrev pub specials : Text → Text
specials [] = []
specials (c ∷ s) = special c ++ specials s

convert-special :
    (c : ℕ) (t : Text) → convert_special_chars (special c ++ t) ≡ c ∷ convert_special_chars t
unfolding convert_special_chars
convert-special c [] = ground arith
convert-special c (d ∷ t) = ground arith

-- `convertSpecialChars` undoes the escapes of every text, and so is onto.
pub convert_special_chars-specials : (s : Text) → convert_special_chars (specials s) ≡ s
convert_special_chars-specials [] = unfold convert_special_chars in refl
convert_special_chars-specials (c ∷ s) =
    convert-special c (specials s) ∙ ap (◌∷◌ c) (convert_special_chars-specials s)

length-SpelledAs : (w upper lower : Text) → SpelledAs w upper lower → length w ≡ length upper
length-SpelledAs [] [] [] h = refl
length-SpelledAs [] [] (l ∷ lower) h = absurd h
length-SpelledAs [] (u ∷ upper) lower h = absurd h
length-SpelledAs (c ∷ w) [] lower h = absurd h
length-SpelledAs (c ∷ w) (u ∷ upper) [] h = absurd h
length-SpelledAs (c ∷ w) (u ∷ upper) (l ∷ lower) h = ap suc (length-SpelledAs w upper lower h.2)

-- The first characters of a text that starts with a spelled word are that word.
starts_word :
    (n : ℕ) (w rest upper lower : Text)
    → length upper ≡ length lower
    → length upper ≡ n
    → SpelledAs w upper lower
    → (n ≤ length (w ++ rest)) × (equals_ignore_case (take n (w ++ rest)) upper lower ≡ true)
starts_word n w rest upper lower e k h =
    let size : n ≡ length w = sym (length-SpelledAs w upper lower h ∙ k) in
    (
      omega (arith, length-append w rest),
      rw (size, take-length_append w rest) ((equals_ignore_case-SpelledAs w upper lower e).1 h),
    )

not_true :
    (s : Text)
    → equals_ignore_case (take 5 s) (codes "FALSE") (codes "false") ≡ true
    → equals_ignore_case (take 4 s) (codes "TRUE") (codes "true") ≡ false
unfolding equals_ignore_case
not_true [] h = refl
not_true (c ∷ s) h = ground arith

-- A text that starts with "true", in any mixture of cases, is true, and one that starts with "false"
-- is false, whatever follows and whatever the default is.
pub to_boolean-spelled :
    (w rest : Text) (default : Bool)
    → (SpelledAs w (codes "TRUE") (codes "true") → to_boolean (w ++ rest) default ≡ true)
      × (SpelledAs w (codes "FALSE") (codes "false") → to_boolean (w ++ rest) default ≡ false)
unfolding to_boolean
to_boolean-spelled w rest default = (is_true, is_false)
  where
    is_true : SpelledAs w (codes "TRUE") (codes "true") → to_boolean (w ++ rest) default ≡ true
    is_true h = ground (arith, starts_word 4 w rest (codes "TRUE") (codes "true") refl refl h)

    is_false : SpelledAs w (codes "FALSE") (codes "false") → to_boolean (w ++ rest) default ≡ false
    is_false h = ground (
      arith,
      starts_word 5 w rest (codes "FALSE") (codes "false") refl refl h,
      not_true (w ++ rest),
    )

-- No "b" and no "B" in the text.
abbrev pub HasNoB : Text → Type 0
HasNoB [] = Unit {0}
HasNoB (c ∷ s) = (c ≢ b'b') × (c ≢ b'B') × HasNoB s

-- No letter of a unit.
abbrev pub IsNoUnit : ℕ → Type 0
IsNoUnit c = (c ≢ b'k') × (c ≢ b'K') × (c ≢ b'm') × (c ≢ b'M') × (c ≢ b'g') × (c ≢ b'G')

find_b-none : (s : Text) → HasNoB s → find_b s ≡ none
unfolding find_b
find_b-none [] h = refl
find_b-none (c ∷ s) h = ground (arith, find_b-none s h.2)

find_b-append :
    (s t : Text) (b : ℕ)
    → HasNoB s
    → (b ≡ b'b') ⊎ (b ≡ b'B')
    → find_b (s ++ (b ∷ t)) ≡ some (length s)
unfolding find_b
find_b-append [] t b h e = ground arith
find_b-append (c ∷ s) t b h e = ground (arith, find_b-append s t b h.2 e)

code_at-length : (s t : Text) (c : ℕ) → code_at (s ++ (c ∷ t)) (length s) ≡ c
code_at-length [] t c = refl
code_at-length (x ∷ s) t c = code_at-length s t c

find_b-unit :
    (number rest : Text) (unit b : ℕ)
    → HasNoB number
    → unit ≢ b'b'
    → unit ≢ b'B'
    → (b ≡ b'b') ⊎ (b ≡ b'B')
    → find_b (number ++ (unit ∷ b ∷ rest)) ≡ some (suc (length number))
unfolding find_b
find_b-unit [] rest unit b h u v e = ground arith
find_b-unit (c ∷ number) rest unit b h u v e =
    ground (arith, find_b-unit number rest unit b h.2 u v e)

-- What a size of `toFileSize` means: its first text is the number, which is scaled by 1024 once, twice,
-- three times or not at all.
pub data IsSize : Text → Text → ℕ → Type 0 where
  -- no "b": only a number
  bare : (c : ℕ) (s : Text) → HasNoB (c ∷ s) → IsSize (c ∷ s) (c ∷ s) 0
  -- a "b" in front
  leading : (b : ℕ) (s : Text) → (b ≡ b'b') ⊎ (b ≡ b'B') → IsSize (b ∷ s) (b ∷ s) 0
  kilo :
      (number rest : Text) (unit b : ℕ)
      → HasNoB number
      → (unit ≡ b'k') ⊎ (unit ≡ b'K')
      → (b ≡ b'b') ⊎ (b ≡ b'B')
      → IsSize (number ++ (unit ∷ b ∷ rest)) number 1
  mega :
      (number rest : Text) (unit b : ℕ)
      → HasNoB number
      → (unit ≡ b'm') ⊎ (unit ≡ b'M')
      → (b ≡ b'b') ⊎ (b ≡ b'B')
      → IsSize (number ++ (unit ∷ b ∷ rest)) number 2
  giga :
      (number rest : Text) (unit b : ℕ)
      → HasNoB number
      → (unit ≡ b'g') ⊎ (unit ≡ b'G')
      → (b ≡ b'b') ⊎ (b ≡ b'B')
      → IsSize (number ++ (unit ∷ b ∷ rest)) number 3
  -- any other character in front of the first "b", a digit included, is dropped
  other :
      (number rest : Text) (c b : ℕ)
      → HasNoB (number ++ (c ∷ []))
      → IsNoUnit c
      → (b ≡ b'b') ⊎ (b ≡ b'B')
      → IsSize (number ++ (c ∷ b ∷ rest)) number 0

times_one : (n : ℤ) → n ≡ times n 1
times_one (pos n) = ap pos (omega arith)
times_one (negsuc n) = ap negsuc (omega arith)

last_HasNoB : (s : Text) (c : ℕ) → HasNoB (s ++ (c ∷ [])) → HasNoB s × (c ≢ b'b') × (c ≢ b'B')
last_HasNoB [] c h = (_, h.0, h.1)
last_HasNoB (x ∷ s) c h =
    let (before, here, there) = last_HasNoB s c h.2 in ((h.0, h.1, before), here, there)

module _ (atol : Text → ℤ) where
  scaled :
      (number rest : Text) (unit b : ℕ) (default : ℤ)
      → HasNoB number
      → unit ≢ b'b'
      → unit ≢ b'B'
      → (b ≡ b'b') ⊎ (b ≡ b'B')
      → to_file_size atol (number ++ (unit ∷ b ∷ rest)) default
        ≡ times (to_int atol number (pos 1)) (multiplier unit)
  unfolding to_file_size
  scaled number rest unit b default h u v e =
      rw
        (
          find_b-unit number rest unit b h u v e,
          to_file_size,
          take-length_append number (unit ∷ b ∷ rest),
          code_at-length number (b ∷ rest) unit,
          is_empty-append number (b ∷ rest) unit,
        )
        refl

  by_factor :
      (number rest : Text) (unit b factor : ℕ) (default : ℤ)
      → HasNoB number
      → (unit ≢ b'b') × (unit ≢ b'B') × (multiplier unit ≡ factor)
      → (b ≡ b'b') ⊎ (b ≡ b'B')
      → to_file_size atol (number ++ (unit ∷ b ∷ rest)) default
        ≡ times (to_int atol number (pos 1)) factor
  by_factor number rest unit b factor default h (u, v, m) e =
      scaled number rest unit b default h u v e ∙ ap (times (to_int atol number (pos 1))) m

  -- A size that is not empty is its number, 1 where only spaces stand for it, times a power of 1024: the unit in front of the first "b" or
  -- "B", in either case, gives the power, and what follows that letter is not read. Any other character
  -- in front of it, also a digit, is dropped and scales nothing; a text without the letter, or with the
  -- letter in front, is read as a number as it stands.
  pub to_file_size-unit :
      (s number : Text) (power : ℕ) (default : ℤ)
      → IsSize s number power
      → to_file_size atol s default ≡ times (to_int atol number (pos 1)) (1024 ^ power)
  unfolding to_file_size to_int
  to_file_size-unit s number power default (bare c t h) =
      rw (find_b-none (c ∷ t) h, to_file_size) (times_one (to_int atol (c ∷ t) (pos 1)))
  to_file_size-unit s number power default (leading b t e) =
      rw (find_b-append [] t b _ e, to_file_size) (times_one (to_int atol (b ∷ t) (pos 1)))
  to_file_size-unit s number power default (kilo n rest unit b h u e) =
      by_factor n rest unit b 1024 default h (ground arith, ground arith, ground arith) e
  to_file_size-unit s number power default (mega n rest unit b h u e) =
      by_factor n rest unit b (1024 ^ 2) default h (ground arith, ground arith, ground arith) e
  to_file_size-unit s number power default (giga n rest unit b h u e) =
      by_factor n rest unit b (1024 ^ 3) default h (ground arith, ground arith, ground arith) e
  to_file_size-unit s number power default (other n rest c b h u e) =
      let (before, here, there) = last_HasNoB n c h in
      by_factor n rest c b 1 default before (here, there, ground arith) e
