-- ===== src/CachedDateFormat/Field.antt =====
-- src/main/cpp/cacheddateformat.cpp, millisecondFormat and findMillisecondStart: the three digits of
-- the milliseconds between two texts.
use logging_log4cxx.Prelude.{
  ℕ, zero, suc, ◌+◌, ◌/◌, ◌%◌, ◌<◌, ◌≡◌, refl, ap, sym, inl, inr, true, false, none, some, [], ◌∷◌,
  ◌++◌, returned, arith, ◌==◌, Bool-cases, ==_self, ltb, lt→ltb, subst, Text, text_eq_self, length,
  drop, set, get_elem?, length-append, drop-length_append,
}
use logging_log4cxx.CachedDateFormat.{
  digits, put_digit, millisecond_format, region_matches, first_difference, same_behind, recognized,
  examine, at, offset_back, position,
}

-- The three digits of a number below 1000.
unfoldable pub millis_text : ℕ → Text
millis_text m = (48 + m / 100) ∷ (48 + m / 10 % 10) ∷ (48 + m % 10) ∷ []

digits-get : (k : ℕ) → k < 10 → get_elem? digits k ≡ some (48 + k)
digits-get zero h = refl
digits-get (suc zero) h = refl
digits-get (suc (suc zero)) h = refl
digits-get (suc (suc (suc zero))) h = refl
digits-get (suc (suc (suc (suc zero)))) h = refl
digits-get (suc (suc (suc (suc (suc zero))))) h = refl
digits-get (suc (suc (suc (suc (suc (suc zero)))))) h = refl
digits-get (suc (suc (suc (suc (suc (suc (suc zero))))))) h = refl
digits-get (suc (suc (suc (suc (suc (suc (suc (suc zero)))))))) h = refl
digits-get (suc (suc (suc (suc (suc (suc (suc (suc (suc zero))))))))) h = refl
digits-get (suc (suc (suc (suc (suc (suc (suc (suc (suc (suc k)))))))))) h = absurd (omega arith)

set-append : (pre s : Text) (j v : ℕ) → set (pre ++ s) (length pre + j) v ≡ pre ++ set s j v
set-append [] s j v = ap (λ i. set s i v) (omega arith)
set-append (x ∷ pre) s j v =
    let e : suc (length pre) + j ≡ suc (length pre + j) = omega arith in
    rw (e, set-append pre s j v) refl

put_digit-append :
    (pre s : Text) (j d : ℕ)
    → j < length s
    → put_digit (pre ++ s) (length pre + j) (some d) ≡ returned (pre ++ set s j d)
put_digit-append pre s j d h =
    let inside = lt→ltb (length pre + j) (length (pre ++ s)) (omega (arith, length-append pre s)) in
    rw (inside, set-append pre s j d) refl

module _ (m : ℕ) (small : m < 1000) where
  -- What `millisecondFormat` writes over three characters between two texts.
  pub millisecond_format-write :
      (pre post : Text) (a b c : ℕ)
      → millisecond_format m (pre ++ (a ∷ b ∷ c ∷ post)) (length pre)
        ≡ returned (pre ++ (millis_text m ++ post))
  unfolding millisecond_format millis_text
  millisecond_format-write pre post a b c =
      let start : length pre ≡ length pre + 0 = omega arith in
      let w1 = put_digit-append pre (a ∷ b ∷ c ∷ post) 0 (48 + m / 100) (omega arith) in
      let w2 =
        put_digit-append pre ((48 + m / 100) ∷ b ∷ c ∷ post) 1 (48 + m / 10 % 10) (omega arith) in
      let w3 =
        put_digit-append pre ((48 + m / 100) ∷ (48 + m / 10 % 10) ∷ c ∷ post) 2 (48 + m % 10)
          (omega arith) in
      rw
        (
          digits-get (m / 100) (omega arith),
          digits-get (m / 10 % 10) (omega arith),
          digits-get (m % 10) (omega arith),
          subst
              (λ i.
                put_digit (pre ++ (a ∷ b ∷ c ∷ post)) i (some (48 + m / 100))
                ≡ returned (pre ++ ((48 + m / 100) ∷ b ∷ c ∷ post)))
              (sym start) w1,
          w2,
          w3,
        )
        refl

pub first_difference_self : (s : Text) → first_difference s s ≡ none
unfolding first_difference
first_difference_self [] = refl
first_difference_self (x ∷ s) = ground (arith, first_difference_self s)

pub first_difference-append :
    (pre s t : Text) (i c : ℕ)
    → first_difference s t ≡ some (i, c)
    → first_difference (pre ++ s) (pre ++ t) ≡ some (length pre + i, c)
unfolding first_difference
first_difference-append [] s t i c h = rw h (ap (λ j. some (j, c)) (omega arith))
first_difference-append (x ∷ pre) s t i c h =
    rw (==_self x, first_difference-append pre s t i c h) (ap (λ j. some (j, c)) (omega arith))

pub drop-length_add : (pre s : Text) (n : ℕ) → drop (length pre + n) (pre ++ s) ≡ drop n s
drop-length_add [] s n = ap (λ k. drop k s) (omega arith)
drop-length_add (x ∷ pre) s n =
    let e : suc (length pre) + n ≡ suc (length pre + n) = omega arith in
    rw (e, drop-length_add pre s n) refl

-- Three characters between two texts.
abbrev pub between : Text → Text → ℕ → ℕ → ℕ → Text
between pre post a b c = pre ++ (a ∷ b ∷ c ∷ post)

module _ (pre post : Text) (a b c : ℕ) where
  pub length-between : length (between pre post a b c) ≡ length pre + (length post + 3)
  length-between = omega (arith, length-append pre (a ∷ b ∷ c ∷ post))

  region_matches-between :
      region_matches (a ∷ b ∷ c ∷ []) 0 (between pre post a b c) (length pre) 3 ≡ returned true
  unfolding region_matches
  region_matches-between =
      let inside : ltb (length (between pre post a b c)) (length pre) ≡ false =
        ground (arith, length-between) in
      rw (inside, drop-length_append pre (a ∷ b ∷ c ∷ post), text_eq_self (a ∷ b ∷ c ∷ [])) refl

  drop-between : drop (length pre + 3) (between pre post a b c) ≡ post
  drop-between = drop-length_add pre (a ∷ b ∷ c ∷ post) 3

module _ (pre post post' : Text) (equal : length post' ≡ length post) (a b c x y z : ℕ) where
  pub length-between_same : length (between pre post x y z) ≡ length (between pre post' a b c)
  length-between_same = omega (arith, length-between pre post x y z, length-between pre post' a b c)

  same_behind-between :
      same_behind
        (between pre post' a b c)
        (between pre post x y z)
        (between pre post 48 48 48)
        (length pre + 3)
      ≡ returned true
  unfolding same_behind
  same_behind-between =
      let n = length-between pre post in
      let n' : length (between pre post' a b c) ≡ length pre + (length post + 3) =
        omega (arith, length-between pre post' a b c) in
      let short : ltb (length pre + (length post + 3)) (length pre + 3) ≡ false = ground arith in
      elim (Bool-cases (length pre + (length post + 3) == length pre + 3)) [
        | inl e ↦ rw (n', e) refl
        | inr e ↦
            rw (n', n x y z, n 48 48 48, e, short)
              (rw (drop-between pre post 48 48 48, drop-between pre post x y z, text_eq_self post)
                refl)
      ]

  -- The three conditions on the texts of the time, of the magic number and of the second's begin.
  recognized-between :
      recognized
        (x ∷ y ∷ z ∷ [])
        (a ∷ b ∷ c ∷ [])
        (between pre post' a b c)
        (between pre post x y z)
        (between pre post 48 48 48)
        (length pre)
      ≡ returned true
  unfolding recognized
  recognized-between =
      let n' : length (between pre post' a b c) ≡ length (between pre post 48 48 48) =
        omega (arith, length-between pre post' a b c, length-between pre post 48 48 48) in
      let same : (length (between pre post 48 48 48) == length (between pre post' a b c)) ≡ true =
        rw n' (==_self _) in
      rw
        (
          same,
          region_matches-between pre post' a b c,
          region_matches-between pre post x y z,
          region_matches-between pre post 48 48 48,
          same_behind-between,
        )
        refl

offset_back-add : (n i : ℕ) → offset_back (n + i) i ≡ n
offset_back-add n i = ground arith

-- Where the first difference lies does not matter: the digits of a magic number differ.
pub examine-between :
    (pre post post' : Text)
    → length post' ≡ length post
    → (m x y z i d : ℕ) → m < 1000
    → position d (x ∷ y ∷ z ∷ []) ≡ i
    → examine m
        (x ∷ y ∷ z ∷ [])
        (pre ++ (millis_text m ++ post'))
        (between pre post x y z)
        (between pre post 48 48 48)
        (length pre + i, d)
      ≡ returned (at (length pre))
unfolding examine millis_text
examine-between pre post post' equal m x y z i d small e =
    let (a, b, c) : ℕ × ℕ × ℕ = (48 + m / 100, 48 + m / 10 % 10, 48 + m % 10) in
    rw
      (
        millisecond_format-write m small [] [] 0x41 0x42 0x43,
        e,
        offset_back-add (length pre) i,
        recognized-between pre post post' equal a b c x y z,
      )
      refl
