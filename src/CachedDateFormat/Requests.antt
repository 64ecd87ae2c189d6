-- ===== src/CachedDateFormat/Requests.antt =====
-- src/main/cpp/cacheddateformat.cpp, format and setTimeZone: sequences of requests against the
-- format without its cache.
use logging_log4cxx.Prelude.{
  ℕ, ◌+◌, ◌*◌, ◌/◌, ◌≡◌, refl, ◌⊎◌, inl, inr, ◌&&◌, none, some, List, [], ◌∷◌, ◌++◌, Outcome,
  returned, ◌>>=◌, arith, ◌==◌, ltb, leb, Bool-cases, ==_self, ==_iff, Text, pos,
}
use logging_log4cxx.CachedDateFormat.{
  CachedDateFormat, Start, at, new, serving_slot, rewritten, reevaluated, refreshed, format,
  set_time_zone,
}
use logging_log4cxx.CachedDateFormat.Regular.{
  PrintsMillis, PrintsSeconds, Served, slot_of_lem, served_millis, served_seconds,
}

pub data Request (Zone : Type 0) : Type 0 where
  format_at : ℕ → Request Zone
  zone_set : Zone → Request Zone

module _ {Zone : Type 0} (formats : Zone → ℕ → Text) where
  unfoldable pub run : List (Request Zone) → CachedDateFormat → Outcome (List Text)
  run [] c = returned []
  run (format_at t ∷ requests) c = do
    (text, c') ← format [] t c
    texts ← run requests c'
    returned (text ∷ texts)
  run (zone_set z ∷ requests) c = run requests (set_time_zone (formats z) c)

  -- The answers without a cache, in the zone `z` at first.
  unfoldable pub plain : Zone → List (Request Zone) → List Text
  plain z [] = []
  plain z (format_at t ∷ requests) = formats z t ∷ plain z requests
  plain z (zone_set z' ∷ requests) = plain z' requests

  module _ (served : (z : Zone) → Served (formats z)) where
    -- The search is made again, or it need not be.
    abbrev Ready : Start → Type 0
    Ready k =
        (z : Zone) (s : ℕ)
        → reevaluated k (returned ((served z).start s)) ≡ returned ((served z).start s)

    -- The state behind the time `t`.
    abbrev warmed : Zone → ℕ → ℕ → CachedDateFormat
    warmed z e t = record {
      formatter = formats z;
      millisecond_start = (served z).start (t / 1000000);
      slot_begin = some (t / 1000000 * 1000000);
      cache = formats z t;
      expiration = e;
      previous_time = some t;
    }

    -- The states between requests in the zone `z`: before the first time, and behind a time.
    data Fits (z : Zone) (e : ℕ) : CachedDateFormat → Type 0 where
      fresh :
          (k : Start) (text : Text)
          → Ready k
          → Fits z e (record {
            formatter = formats z;
            millisecond_start = k;
            slot_begin = none;
            cache = text;
            expiration = e;
            previous_time = none;
          })
      warm : (t : ℕ) → Fits z e (warmed z e t)

    refreshed-warmed :
        {z : Zone} (buf : Text) (now : ℕ) (c : CachedDateFormat)
        → c.formatter ≡ formats z
        → Ready c.millisecond_start
        → refreshed buf now c ≡ returned (buf ++ formats z now, warmed z c.expiration now)
    unfolding refreshed
    refreshed-warmed {z} buf now c same again =
        rw (same, (served z).found now, again z (now / 1000000), slot_of_lem now) refl

    -- A text of the same second is the cache with its milliseconds rewritten.
    rewritten-warmed :
        {z : Zone} {e : ℕ} (buf : Text) (t now : ℕ)
        → now / 1000000 ≡ t / 1000000
        → rewritten buf now (t / 1000000 * 1000000) (warmed z e t)
          ≡ returned (buf ++ formats z now, warmed z e now)
    unfolding rewritten
    rewritten-warmed {z} buf t now same = rw ((served z).rewritten t now same, same) refl

    module _ (ready : (z : Zone) (s : ℕ) → Ready ((served z).start s)) where
      format-warm :
          {z : Zone} {e : ℕ} (buf : Text) (t now : ℕ)
          → format buf now (warmed z e t) ≡ returned (buf ++ formats z now, warmed z e now)
      unfolding format serving_slot
      format-warm {z} {e} buf t now =
          let s = t / 1000000 * 1000000 in
          elim (Bool-cases (now == t)) [
            | inl same ↦ rw ((==_iff now t).0 same, ==_self t) refl
            | inr other ↦
                elim (Bool-cases (ltb now (s + e) && leb s now && ltb now (s + 1000000))) [
                  | inl inside ↦
                      rw (other, (served z).recognized (t / 1000000), inside)
                        (rewritten-warmed buf t now (ground arith))
                  | inr outside ↦
                      rw (other, (served z).recognized (t / 1000000), outside)
                        (refreshed-warmed buf now (warmed z e t) refl (ready z (t / 1000000)))
                ]
          ]

      Fits-format :
          {z : Zone} {e : ℕ} {c : CachedDateFormat} (buf : Text) (now : ℕ)
          → Fits z e c
          → format buf now c ≡ returned (buf ++ formats z now, warmed z e now)
      unfolding format serving_slot
      Fits-format buf now (fresh k text again) = refreshed-warmed buf now _ refl again
      Fits-format buf now (warm t) = format-warm buf t now

      Fits-set_time_zone :
          {z : Zone} {e : ℕ} {c : CachedDateFormat} (z' : Zone)
          → Fits z e c
          → Fits z' e (set_time_zone (formats z') c)
      unfolding set_time_zone
      Fits-set_time_zone z' (fresh k text again) = fresh k text again
      Fits-set_time_zone {z} z' (warm t) = fresh _ _ (ready z (t / 1000000))

      Fits-run :
          (requests : List (Request Zone)) {z : Zone} {e : ℕ} {c : CachedDateFormat}
          → Fits z e c
          → run requests c ≡ returned (plain z requests)
      unfolding run plain
      Fits-run [] f = refl
      Fits-run (format_at t ∷ requests) {z} {e} f =
          let next : Fits z e (warmed z e t) = warm t in
          rw (Fits-format [] t f, Fits-run requests next) refl
      Fits-run (zone_set z ∷ requests) f = Fits-run requests (Fits-set_time_zone z f)

  -- Where the texts in every time zone are made of parts that stay the same for a second, with the
  -- three digits of the milliseconds once between them, or where the texts in every time zone stay
  -- the same for a second: the cached format, of any expiration, answers every sequence of times, in
  -- any order, and of time zone changes as the format without a cache does.
  pub run-plain :
      ((z : Zone) → PrintsMillis (formats z)) ⊎ ((z : Zone) → PrintsSeconds (formats z))
      → (z : Zone) (e : ℕ) (requests : List (Request Zone))
      → new (some (formats z)) (pos e) >>= run requests ≡ returned (plain z requests)
  unfolding new reevaluated served_millis served_seconds
  run-plain (inl millis) z e requests =
      Fits-run (λ z. served_millis (formats z) (millis z)) (λ z s z' s'. refl) requests
        (fresh (at 0) _ (λ z s. refl))
  run-plain (inr seconds) z e requests =
      Fits-run (λ z. served_seconds (formats z) (seconds z)) (λ z s z' s'. refl) requests
        (fresh (at 0) _ (λ z s. refl))
