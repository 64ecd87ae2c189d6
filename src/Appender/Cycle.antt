-- ===== src/Appender/Cycle.antt =====
-- An appender that is given the same filter twice: its chain comes back to the filter.
use logging_log4cxx.Prelude.{
  ℕ, zero, suc, ◌≡◌, refl, true, false, returned, none, some, [], ◌∷◌, arith,
}
use logging_log4cxx.Filter.{Decision, neutral, LoggingEvent, Next, set_next, get_next}
use logging_log4cxx.Appender.{
  AppenderSkeleton, add_filter, is_as_severe_as_threshold, consult, do_append,
}
use logging_log4cxx.Appender.Filters.{add_all}

module _ (decide : ℕ → LoggingEvent → Decision) where
  consult-cycle :
      (n : ℕ) (next : Next) (event : LoggingEvent) (f : ℕ)
      → next f ≡ some f
      → decide f event ≡ neutral
      → consult decide n (some f) next event ≡ none
  unfolding consult get_next
  consult-cycle zero next event f e d = refl
  consult-cycle (suc n) next event f e d = rw (d, consult, e) (consult-cycle n next event f e d)

  -- Where the appender is open, the level reaches its threshold and the filter is neutral about the
  -- event, adding this one filter twice to an appender without filters makes `doAppend` run for ever:
  -- no number of rounds is enough.
  pub do_append-twice :
      (next : Next) (event : LoggingEvent) (s : AppenderSkeleton) (f : ℕ)
      → s.head_filter ≡ none
      → s.closed ≡ false
      → is_as_severe_as_threshold (some event.level) s ≡ true
      → decide f event ≡ neutral
      → (next' : Next) × (s' : AppenderSkeleton) × ((add_all (f ∷ f ∷ []) next s
            ≡ returned (next', s'))
          × ((n : ℕ) → do_append decide n next' event s' ≡ none))
  unfolding add_all add_filter set_next do_append is_as_severe_as_threshold
  do_append-twice next event s f empty alive severe d =
      let s' : AppenderSkeleton = record s { head_filter = some f; tail_filter = some f } in
      let looped : set_next f (some f) next f ≡ some f = ground arith in
      (
        set_next f (some f) next,
        s',
        (
          rw empty refl,
          λ n. rw (alive, severe, consult-cycle n (set_next f (some f) next) event f looped d) refl,
        ),
      )
