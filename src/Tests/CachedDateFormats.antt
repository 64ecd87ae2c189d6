-- ===== src/Tests/CachedDateFormats.antt =====
-- Runs of the cached date format, and its theorems at concrete formats.
use logging_log4cxx.Prelude.{
  ℕ, ◌+◌, ◌*◌, ◌/◌, ◌%◌, ◌≡◌, refl, inl, some, List, [], ◌∷◌, ◌++◌, returned, ◌>>=◌, arith, Text,
  codes, text_eq, split_at, pos,
}
use logging_log4cxx.CachedDateFormat.{new, get_maximum_cache_validity}
use logging_log4cxx.CachedDateFormat.Field.{millis_text}
use logging_log4cxx.CachedDateFormat.Regular.{PrintsMillis}
use logging_log4cxx.CachedDateFormat.Micros.{PrintsMicros, run-micros}
use logging_log4cxx.CachedDateFormat.Requests.{Request, run, plain, format_at, zone_set, run-plain}

-- Two zones, one hour apart: the hour, the milliseconds, and a letter for the zone.
abbrev with_millis : ℕ → ℕ → Text
with_millis zone t =
    (48 + (t / 1000000 / 3600 + zone) % 24)
    ∷ 44
    ∷ (millis_text (t % 1000000 / 1000) ++ ((65 + zone) ∷ []))

with_millis-PrintsMillis : (zone : ℕ) → PrintsMillis (with_millis zone)
with_millis-PrintsMillis zone = record {
  before = λ s. (48 + (s / 3600 + zone) % 24) ∷ 44 ∷ [];
  behind = λ s. (65 + zone) ∷ [];
  prints = λ t. refl;
}

abbrev requests : List (Request ℕ)
requests =
    format_at 3600654321
    ∷ format_at 3600987000
    ∷ format_at 3600001999
    ∷ zone_set 1
    ∷ format_at 3600001999
    ∷ format_at 3600001999
    ∷ []

run-plain_example :
    new (some (with_millis 0)) (pos 1000000) >>= run with_millis requests
    ≡ returned (plain with_millis 0 requests)
run-plain_example = run-plain with_millis (inl with_millis-PrintsMillis) 0 1000000 requests

plain_texts :
    plain with_millis 0 requests
    ≡ codes "1,654A" ∷ codes "1,987A" ∷ codes "1,001A" ∷ codes "2,001B" ∷ codes "2,001B" ∷ []
unfolding plain millis_text
plain_texts = refl

abbrev with_micros : ℕ → ℕ → Text
with_micros zone t =
    (48 + (t / 1000000 + zone) % 10)
    ∷ (millis_text (t % 1000000 / 1000) ++ (millis_text (t % 1000) ++ []))

with_micros-PrintsMicros : (zone : ℕ) → PrintsMicros (with_micros zone)
with_micros-PrintsMicros zone = record {
  before = λ s. (48 + (s + zone) % 10) ∷ [];
  behind = λ s. [];
  prints = λ t. refl;
}

run-micros_example :
    new (some (with_micros 0)) (pos (get_maximum_cache_validity (codes "sSSSSSS")))
      >>= run with_micros (format_at (7 * 1000000 + 5) ∷ format_at (7 * 1000000 + 6) ∷ [])
    ≡ returned (with_micros 0 (7 * 1000000 + 5) ∷ with_micros 0 (7 * 1000000 + 5) ∷ [])
run-micros_example =
    run-micros with_micros 0 (codes "s") [] (with_micros-PrintsMicros 0) (omega arith, tt) 7 5 6
      (omega arith) (omega arith)

validity_of_three : get_maximum_cache_validity (codes "HH:mm:ss,SSS") ≡ 1000000
unfolding get_maximum_cache_validity split_at text_eq
validity_of_three = refl
