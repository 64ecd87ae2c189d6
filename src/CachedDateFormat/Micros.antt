-- ===== src/CachedDateFormat/Micros.antt =====
-- src/main/cpp/cacheddateformat.cpp: a wrapped format that prints microseconds, such as a
-- SimpleDateFormat of six `S`.
use logging_log4cxx.Prelude.{
  ℕ, ◌+◌, ◌-◌, ◌*◌, ◌/◌, ◌%◌, ◌<◌, ◌≡◌, refl, ap, ◌∙◌, inl, inr, true, false, ◌&&◌, some, [], ◌∷◌,
  ◌++◌, returned, ◌>>=◌, arith, ◌==◌, ltb, leb, Bool-cases, ==_self, Text, codes, text_eq_self,
  Free, split_at, split_at-append, drop-length_append, length-append, pos, length,
}
use logging_log4cxx.CachedDateFormat.{
  CachedDateFormat, new, at, find_millisecond_start, slot_of, format, refreshed, rewritten, updated,
  reevaluated, serving_slot, magic_for, get_maximum_cache_validity,
}
use logging_log4cxx.CachedDateFormat.Field.{drop-length_add, millis_text, millisecond_format-write}
use logging_log4cxx.CachedDateFormat.Regular.{slot_of_lem, search-between}
use logging_log4cxx.CachedDateFormat.Requests.{run, format_at}

-- The text is made of parts that stay the same for a second, with the six digits of the
-- microseconds between them.
pub record PrintsMicros (f : ℕ → Text) : Type 0 where
  pub before : ℕ → Text
  pub behind : ℕ → Text
  pub prints :
      (t : ℕ)
      → f t
        ≡ before (t / 1000000)
          ++ (millis_text (t % 1000000 / 1000) ++ (millis_text (t % 1000) ++ behind (t / 1000000)))

module _ (f : ℕ → Text) (regular : PrintsMicros f) where
  at_second :
      (s r : ℕ)
      → r < 1000000
      → f (s * 1000000 + r)
        ≡ regular.before s
          ++ (millis_text (r / 1000) ++ (millis_text (r % 1000) ++ regular.behind s))
  at_second s r h =
      let quotient : (s * 1000000 + r) / 1000000 ≡ s = omega arith in
      let millis : (s * 1000000 + r) % 1000000 / 1000 ≡ r / 1000 = omega arith in
      let micros : (s * 1000000 + r) % 1000 ≡ r % 1000 = omega arith in
      regular.prints (s * 1000000 + r) ∙ rw (quotient, millis, micros) refl

  -- The first three of the six digits are taken for the milliseconds.
  find_millisecond_start-micros :
      (s r : ℕ)
      → r < 1000
      → find_millisecond_start (s * 1000000 + r) (f (s * 1000000 + r)) f
        ≡ returned (at (length (regular.before s)))
  unfolding find_millisecond_start magic_for millis_text
  find_millisecond_start-micros s r h =
      let t = s * 1000000 + r in
      let slot : t / 1000000 * 1000000 ≡ s * 1000000 = omega arith in
      let millis : (t - s * 1000000) / 1000 ≡ 0 = omega arith in
      let begin : f (s * 1000000) ≡ f (s * 1000000 + 0) = ap f (omega arith) in
      let none_yet : r / 1000 ≡ 0 = omega arith in
      rw
        (
          slot_of_lem t,
          slot,
          millis,
          begin,
          at_second s 0 (omega arith),
          at_second s 654000 (omega arith),
          at_second s r (omega arith),
          none_yet,
        )
        (search-between (regular.before s) (millis_text 0 ++ regular.behind s)
          (millis_text (r % 1000) ++ regular.behind s) refl 0 54 53 52 (omega arith) (omega arith)
          (omega arith) (omega arith) (λ e e' e''. omega arith))

  abbrev behind_first : ℕ → ℕ → ℕ → CachedDateFormat
  behind_first s r e = record {
    formatter = f;
    millisecond_start = at (length (regular.before s));
    slot_begin = some (s * 1000000);
    cache = f (s * 1000000 + r);
    expiration = e;
    previous_time = some (s * 1000000 + r);
  }

  -- The first call in the first millisecond of a second.
  refreshed-micros :
      (s r e : ℕ)
      → r < 1000
      → new (some f) (pos e) >>= format [] (s * 1000000 + r)
        ≡ returned (f (s * 1000000 + r), behind_first s r e)
  unfolding new format refreshed reevaluated serving_slot
  refreshed-micros s r e h =
      let slot : slot_of (s * 1000000 + r) ≡ s * 1000000 = slot_of_lem _ ∙ omega arith in
      rw (find_millisecond_start-micros s r h, slot) refl

  -- The zeros are written over the zeros, and the other digits stay.
  updated-micros :
      (s r : ℕ)
      → r < 1000
      → updated (at (length (regular.before s))) 0 (f (s * 1000000 + r))
        ≡ returned (f (s * 1000000 + r))
  unfolding updated millis_text
  updated-micros s r h =
      let none_yet : r / 1000 ≡ 0 = omega arith in
      rw (at_second s r (omega arith), none_yet)
        (millisecond_format-write 0 (omega arith) (regular.before s)
          (millis_text (r % 1000) ++ regular.behind s) 48 48 48)

  -- A second call in the first millisecond of the second.
  rewritten-micros :
      (s r r' : ℕ)
      → r < 1000
      → r' < 1000
      → format [] (s * 1000000 + r') (behind_first s r 1000)
        ≡ returned (
          f (s * 1000000 + r),
          record (behind_first s r 1000) { previous_time = some (s * 1000000 + r') },
        )
  unfolding format serving_slot rewritten
  rewritten-micros s r r' h h' = elim (Bool-cases (s * 1000000 + r' == s * 1000000 + r)) [
    | inl same ↦ let same' : r' ≡ r = ground arith in rw (same', ==_self (s * 1000000 + r)) refl
    | inr other ↦
        let now = s * 1000000 + r' in
        let inside : (ltb now (s * 1000000 + 1000)
              && leb (s * 1000000) now
              && ltb now (s * 1000000 + 1000000))
            ≡ true =
          ground arith in
        let millis : (now - s * 1000000) / 1000 ≡ 0 = omega arith in
        rw (other, inside, millis, updated-micros s r h) refl
  ]

-- Six `S` are not three.
get_maximum_cache_validity-micros :
    (before behind : Text)
    → Free b'S' before
    → get_maximum_cache_validity (before ++ (codes "SSSSSS" ++ behind)) ≡ 1000
unfolding get_maximum_cache_validity split_at
get_maximum_cache_validity-micros before behind free =
    let found = split_at-append b'S' before (codes "SSSSS" ++ behind) free in
    let more : (length (before ++ (codes "SSSSSS" ++ behind)) == length before + 3) ≡ false =
      ground (arith, length-append before (codes "SSSSSS" ++ behind)) in
    rw
      (
        get_maximum_cache_validity,
        found,
        drop-length_append before (codes "SSSSSS" ++ behind),
        more,
        drop-length_add before (codes "SSSSSS" ++ behind) 3,
        text_eq_self (codes "SSS"),
      )
      (ground arith)

-- In a pattern with six `S`, which prints microseconds, with the expiration that
-- `getMaximumCacheValidity` gives that pattern: for two times of the first millisecond of a second,
-- the second answer is the text of the first time.
pub run-micros :
    {Zone : Type 0} (formats : Zone → ℕ → Text) (z : Zone) (before behind : Text)
    → PrintsMicros (formats z)
    → Free b'S' before
    → (s r r' : ℕ) → r < 1000
    → r' < 1000
    → new
          (some (formats z))
          (pos (get_maximum_cache_validity (before ++ (codes "SSSSSS" ++ behind))))
        >>= run formats (format_at (s * 1000000 + r) ∷ format_at (s * 1000000 + r') ∷ [])
      ≡ returned (formats z (s * 1000000 + r) ∷ formats z (s * 1000000 + r) ∷ [])
unfolding run new
run-micros formats z before behind regular free s r r' h h' =
    let f = formats z in
    rw
      (
        get_maximum_cache_validity-micros before behind free,
        refreshed-micros f regular s r 1000 h,
        rewritten-micros f regular s r r' h h',
      )
      refl
