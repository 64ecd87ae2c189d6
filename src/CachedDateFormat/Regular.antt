-- ===== src/CachedDateFormat/Regular.antt =====
-- src/main/cpp/cacheddateformat.cpp, findMillisecondStart: the two kinds of formats that the cache
-- serves, those that print the milliseconds once and those that do not print them.
use logging_log4cxx.Prelude.{
  ℕ, ◌+◌, ◌-◌, ◌*◌, ◌/◌, ◌%◌, ◌<◌, ◌≡◌, refl, ap, sym, ◌∙◌, ◌≢◌, inl, inr, true, some, [], ◌∷◌,
  ◌++◌, returned, arith, ◌==◌, Bool-cases, ==_self, Text, length, split_at,
}
use logging_log4cxx.CachedDateFormat.{
  slot_of, first_difference, magic_for, is_recognized, updated, find_millisecond_start, Start, at,
  no_milliseconds, position, search,
}
use logging_log4cxx.CachedDateFormat.Field.{
  millisecond_format-write, millis_text, between, first_difference_self, first_difference-append,
  examine-between, length-between_same,
}

-- The text is made of parts that stay the same for a second, with the milliseconds between them.
pub record PrintsMillis (f : ℕ → Text) : Type 0 where
  pub before : ℕ → Text
  pub behind : ℕ → Text
  pub prints :
      (t : ℕ)
      → f t ≡ before (t / 1000000) ++ (millis_text (t % 1000000 / 1000) ++ behind (t / 1000000))

-- The text stays the same for a second.
pub record PrintsSeconds (f : ℕ → Text) : Type 0 where
  pub second : ℕ → Text
  pub prints : (t : ℕ) → f t ≡ second (t / 1000000)

pub slot_of_lem : (t : ℕ) → slot_of t ≡ t / 1000000 * 1000000
unfolding slot_of
slot_of_lem t = ground arith

-- At the first difference with a magic number of three different digits stands one of them.
differ :
    (post post' : Text) (a b c x y z : ℕ)
    → x ≢ y
    → x ≢ z
    → y ≢ z
    → (a ≡ x → b ≡ y → c ≢ z)
    → (i : ℕ) × (d : ℕ) × (first_difference (a ∷ b ∷ c ∷ post') (x ∷ y ∷ z ∷ post) ≡ some (i, d))
      × (position d (x ∷ y ∷ z ∷ []) ≡ i)
unfolding first_difference split_at
differ post post' a b c x y z xy xz yz other = elim (Bool-cases (a == x)) [
  | inr e ↦ (0, x, ground arith, ground arith)
  | inl e ↦ elim (Bool-cases (b == y)) [
    | inr e' ↦ (1, y, ground arith, ground arith)
    | inl e' ↦ (2, z, ground arith, ground arith)
  ]
]

pub search-between :
    (pre post post' : Text)
    → length post' ≡ length post
    → (m x y z : ℕ) → m < 1000
    → x ≢ y
    → x ≢ z
    → y ≢ z
    → (48 + m / 100 ≡ x → 48 + m / 10 % 10 ≡ y → 48 + m % 10 ≢ z)
    → search m
        (x ∷ y ∷ z ∷ [])
        (pre ++ (millis_text m ++ post'))
        (between pre post x y z)
        (between pre post 48 48 48)
      ≡ returned (at (length pre))
unfolding search millis_text
search-between pre post post' equal m x y z small xy xz yz other =
    let a = 48 + m / 100 in
    let b = 48 + m / 10 % 10 in
    let c = 48 + m % 10 in
    let (i, d, first, e) = differ post post' a b c x y z xy xz yz other in
    let same : (length (between pre post x y z) == length (between pre post' a b c)) ≡ true =
      rw (length-between_same pre post post' equal a b c x y z) (==_self _) in
    rw (same, first_difference-append pre _ _ i d first)
      (examine-between pre post post' equal m x y z i d small e)

module _ (f : ℕ → Text) (regular : PrintsMillis f) where
  at_second :
      (s r : ℕ)
      → r < 1000000
      → f (s * 1000000 + r) ≡ regular.before s ++ (millis_text (r / 1000) ++ regular.behind s)
  at_second s r h =
      let quotient : (s * 1000000 + r) / 1000000 ≡ s = omega arith in
      let remainder : (s * 1000000 + r) % 1000000 ≡ r = omega arith in
      regular.prints (s * 1000000 + r) ∙ rw (quotient, remainder) refl

  -- The search finds the digits, wherever the first difference lies.
  pub find_millisecond_start-position :
      (t : ℕ)
      → find_millisecond_start t (f t) f ≡ returned (at (length (regular.before (t / 1000000))))
  unfolding find_millisecond_start magic_for millis_text
  find_millisecond_start-position t =
      let s = t / 1000000 in
      let m = t % 1000000 / 1000 in
      let pre = regular.before s in
      let post = regular.behind s in
      let slot = slot_of_lem t in
      let millis : (t - s * 1000000) / 1000 ≡ m = omega arith in
      let begin : f (s * 1000000) ≡ pre ++ (millis_text 0 ++ post) =
        ap f (omega arith) ∙ at_second s 0 (omega arith) in
      elim (Bool-cases (m == 654)) [
        | inl e ↦
            rw (slot, millis, e, at_second s 987000 (omega arith), begin, regular.prints t)
              (search-between pre post post refl m 57 56 55 (omega arith) (omega arith)
                (omega arith) (omega arith) (ground arith))
        | inr e ↦
            rw (slot, millis, e, at_second s 654000 (omega arith), begin, regular.prints t)
              (search-between pre post post refl m 54 53 52 (omega arith) (omega arith)
                (omega arith) (omega arith) (ground arith))
      ]

-- What the cache relies on: where the search finds the digits in a second's texts, and that they
-- can be written over.
pub record Served (f : ℕ → Text) : Type 0 where
  pub start : ℕ → Start
  pub found : (t : ℕ) → find_millisecond_start t (f t) f ≡ returned (start (t / 1000000))
  pub recognized : (s : ℕ) → is_recognized (start s) ≡ true
  pub rewritten :
      (t now : ℕ)
      → now / 1000000 ≡ t / 1000000
      → updated (start (t / 1000000)) ((now - t / 1000000 * 1000000) / 1000) (f t)
        ≡ returned (f now)

pub rewritten-millis :
    (f : ℕ → Text) (regular : PrintsMillis f) (t now : ℕ)
    → now / 1000000 ≡ t / 1000000
    → updated
        (at (length (regular.before (t / 1000000))))
        ((now - t / 1000000 * 1000000) / 1000)
        (f t)
      ≡ returned (f now)
unfolding updated millis_text
rewritten-millis f regular t now same =
    let s = t / 1000000 in
    let millis : (now - s * 1000000) / 1000 ≡ now % 1000000 / 1000 = omega arith in
    rw (regular.prints t, regular.prints now, same, millis)
      (millisecond_format-write (now % 1000000 / 1000) (omega arith) (regular.before s)
        (regular.behind s) _ _ _)

unfoldable pub served_millis : (f : ℕ → Text) → PrintsMillis f → Served f
served_millis f regular = record {
  start = λ s. at (length (regular.before s));
  found = find_millisecond_start-position f regular;
  recognized = λ s. refl;
  rewritten = rewritten-millis f regular;
}

magic_for-small : (m : ℕ) → (magic_for m).0 < 1000000
unfolding magic_for
magic_for-small m = ground arith

-- The search sees no change.
pub find_millisecond_start-none :
    (f : ℕ → Text) (regular : PrintsSeconds f) (t : ℕ)
    → find_millisecond_start t (f t) f ≡ returned no_milliseconds
unfolding find_millisecond_start search
find_millisecond_start-none f regular t =
    let n = (magic_for ((t - t / 1000000 * 1000000) / 1000)).0 in
    let small : n < 1000000 = magic_for-small _ in
    let same : f (t / 1000000 * 1000000 + n) ≡ f t =
      regular.prints _ ∙ ap regular.second (omega arith) ∙ sym (regular.prints t) in
    rw (slot_of_lem t, same, ==_self (length (f t)), first_difference_self (f t)) refl

pub rewritten-seconds :
    (f : ℕ → Text) (regular : PrintsSeconds f) (t now millis : ℕ)
    → now / 1000000 ≡ t / 1000000
    → updated no_milliseconds millis (f t) ≡ returned (f now)
unfolding updated
rewritten-seconds f regular t now millis same =
    ap returned (regular.prints t ∙ rw (sym same) (sym (regular.prints now)))

unfoldable pub served_seconds : (f : ℕ → Text) → PrintsSeconds f → Served f
served_seconds f regular = record {
  start = λ s. no_milliseconds;
  found = find_millisecond_start-none f regular;
  recognized = λ s. refl;
  rewritten = λ t now same. rewritten-seconds f regular t now _ same;
}
