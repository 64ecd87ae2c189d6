-- ===== src/Tests/Filters.antt =====
-- Tests of Filter and Appender. In a chain, filter 1 is neutral, filter 2 denies, and the others accept.
use logging_log4cxx.Prelude.{
  ℕ, ◌≡◌, ◌≤◌, ◌↔◌, refl, true, false, ◌&&◌, [], ◌∷◌, ◌++◌, none, some, returned, codes,
  if◌then◌else◌, ◌==◌, arith,
}
use logging_log4cxx.Level.{info, warn, debug}
use logging_log4cxx.Filter.{Decision, deny, neutral, accept, LoggingEvent, Next, set_next}
use logging_log4cxx.Filter.Classes.LevelRange.{LevelRangeFilter}
use logging_log4cxx.Filter.Classes.StringMatch.{StringMatchFilter}
use logging_log4cxx.Filter.Classes.Map.{MapFilter, Matched, decide-items}
use logging_log4cxx.Filter.AndFilter.{
  AndFilter, conjunction, is_accept, decide-conjunction, add_all-decide,
}
use logging_log4cxx.Appender.{
  AppenderSkeleton, Effect, refused, returned_early, appended, do_append, finalize, clear_filters,
  check_not_closed, check_layout, set_error_handler, set_option,
}
use logging_log4cxx.Appender.Cycle.{do_append-twice}
use logging_log4cxx.Appender.Filters.{add_all, promised, add_all-do_append}

abbrev event : LoggingEvent
event = record {
  level = info;
  logger_name = codes "org";
  message = codes "disk full";
  mdc = λ key. some (codes "u1");
}

abbrev decide_of : ℕ → LoggingEvent → Decision
decide_of f e = if f == 1 then neutral else if f == 2 then deny else accept

abbrev fresh : AppenderSkeleton
fresh = logging_log4cxx.Appender.new none 0

abbrev unlinked : Next
unlinked f = none

add_all-do_append_example :
    (next' : Next) × (s' : AppenderSkeleton) × ((add_all (1 ∷ 3 ∷ 2 ∷ []) unlinked fresh
        ≡ returned (next', s'))
      × ((n : ℕ)
          → 3 ≤ n
          → do_append decide_of n next' event s'
            ≡ some (promised decide_of event fresh (1 ∷ 3 ∷ 2 ∷ []))))
unfolding logging_log4cxx.Appender.new
add_all-do_append_example =
    add_all-do_append decide_of unlinked event fresh (1 ∷ 3 ∷ 2 ∷ []) refl
      ((omega arith, (omega arith, _)), ((omega arith, _), (_, _))) (refl, (refl, (refl, _)))

-- The third filter is never asked.
promised-appended : promised decide_of event fresh (1 ∷ 3 ∷ 2 ∷ []) ≡ appended
unfolding logging_log4cxx.Appender.new logging_log4cxx.Appender.is_as_severe_as_threshold
promised-appended = refl

abbrev one_and : AndFilter
one_and = record { head_filter = some 3; tail_filter = some 3; accept_on_match = true }

abbrev linked : Next
linked = set_next 3 (some 1) unlinked

abbrev empty_and : AndFilter
empty_and = logging_log4cxx.Filter.AndFilter.new

-- Filter 2, which denies, is between two that accept.
add_all-decide_example :
    (next' : Next) × (a' : AndFilter) × ((logging_log4cxx.Filter.AndFilter.add_all
          (3 ∷ ((2 ∷ []) ++ (4 ∷ [])))
          unlinked
          empty_and
        ≡ returned (next', a'))
      × ((n : ℕ)
          → 2 ≤ n
          → logging_log4cxx.Filter.AndFilter.decide decide_of n next' event a'
            ≡ some (
                if is_accept (decide_of 3 event) && is_accept (decide_of 4 event)
                then (if empty_and.accept_on_match then accept else deny)
                else neutral)))
unfolding logging_log4cxx.Filter.AndFilter.new
add_all-decide_example =
    add_all-decide decide_of unlinked event empty_and 3 (2 ∷ []) 4 refl (omega arith) refl

abbrev range : LevelRangeFilter
range = record { accept_on_match = true; level_min = some debug; level_max = some warn }

abbrev full : StringMatchFilter
full = record { accept_on_match = false; string_to_match = codes "full" }

abbrev users : MapFilter
users = record {
  accept_on_match = true;
  must_match_all = true;
  key_vals = (codes "user", codes "u1") ∷ (codes "host", codes "h") ∷ [];
}

decide-items_example :
    ((logging_log4cxx.Filter.Classes.Map.decide users event ≡ (if true then accept else deny))
      ↔ Matched true event users.key_vals)
    × ((logging_log4cxx.Filter.Classes.Map.decide users event ≡ neutral)
        ↔ (Matched true event users.key_vals → ⊥))
decide-items_example = decide-items users event (λ e. cc)

-- The operations that no theorem is about.
closed_once :
    finalize (λ s. record s { threshold = none }) (record fresh { closed = true })
    ≡ record fresh { closed = true }
unfolding finalize
closed_once = refl

no_filters :
    (clear_filters (record fresh { head_filter = some 1; tail_filter = some 1 })).head_filter ≡ none
unfolding clear_filters
no_filters = refl

warned_once : (check_not_closed (check_not_closed (record fresh { closed = true })).1.1).1.0 ≡ false
unfolding check_not_closed
warned_once = refl

no_layout : (check_layout fresh).0 ≡ false
unfolding check_layout logging_log4cxx.Appender.new
no_layout = refl

kept_handler : (set_error_handler none fresh).error_handler ≡ 0
unfolding set_error_handler logging_log4cxx.Appender.new
kept_handler = refl

do_append-twice_example :
    (next' : Next) × (s' : AppenderSkeleton) × ((add_all (1 ∷ 1 ∷ []) unlinked fresh
        ≡ returned (next', s'))
      × ((n : ℕ) → do_append decide_of n next' event s' ≡ none))
unfolding logging_log4cxx.Appender.new logging_log4cxx.Appender.is_as_severe_as_threshold
do_append-twice_example = do_append-twice decide_of unlinked event fresh 1 refl refl refl refl
