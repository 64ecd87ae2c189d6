-- ===== src/Tests/AsyncAppenders.antt =====
-- Tests of AsyncAppender. The appender of the tests has one slot.
use logging_log4cxx.Prelude.{
  ℕ, ◌+◌, ◌≤◌, ◌<◌, ◌≡◌, ◌≢◌, ◌⊎◌, refl, pos, true, false, some, [], ◌∷◌, map, Text, codes, length,
  take, leb, arith, returned,
}
use logging_log4cxx.Prelude.Maps.{find}
use logging_log4cxx.Level.{info, error}
use logging_log4cxx.AsyncAppender.{
  LoggingEvent, AsyncAppenderPriv, empty_slot, new, distance, has_room, claim, has_work, store,
  discard_events, set_buffer_size,
}
use logging_log4cxx.AsyncAppender.Discards.{
  discard_all, of_logger, Summarizes, discard_all-summaries,
}
use logging_log4cxx.AsyncAppender.System.{
  top, absent, claimed, committing, waiting, System, Reach, begin, later, enter, read_event_count,
  subtract_dispatched, claim_slot, write_slot, commit_slot, block, close, wake, look, flush, finish,
  create_dispatcher, find_dispatcher, join,
}
use logging_log4cxx.AsyncAppender.Invariant.{IsFreshAppender}
use logging_log4cxx.AsyncAppender.Progress.{taken-claims, append-progress}
use logging_log4cxx.AsyncAppender.Closed.{Steps, none_yet, one_more, stays_waiting}

abbrev first : LoggingEvent
first = record { logger_name = codes "a"; level = info; message = codes "one" }

abbrev second : LoggingEvent
second = record { logger_name = codes "a"; level = error; message = codes "two" }

abbrev one_slot : AsyncAppenderPriv
one_slot = record {
  buffer = empty_slot ∷ [];
  discard_map = [];
  buffer_size = 1;
  blocking = true;
  event_count = 0;
  dispatched_count = 0;
  commit_count = 0;
  closed = false;
  blocked_count = 0;
}

set_buffer_size_one : set_buffer_size (pos 0) new ≡ returned one_slot
unfolding set_buffer_size new
set_buffer_size_one = refl

one_slot-IsFreshAppender : IsFreshAppender one_slot
one_slot-IsFreshAppender = record {
  no_claims = refl;
  no_taken = refl;
  no_commits = refl;
  positive = omega arith;
  sized = refl;
}

abbrev to_string : ℕ → Text
to_string n = codes "?"

top-ne-absent : top ≢ absent
top-ne-absent e = cc

record Run : Type 0 where
  last : System
  reach : Reach to_string one_slot last

-- Thread 0 claims the slot, and thread 1 finds the buffer full and waits.
abbrev half_way : Run
unfolding claim
half_way = record {
  last = _;
  reach =
      later
        (later
          (later
            (later
              (later
                (later
                  (later
                    (later
                      (later (later begin (enter 0 first refl))
                        (create_dispatcher 0 first refl refl))
                      (read_event_count 0 first refl))
                    (subtract_dispatched 0 first 0 refl))
                  (claim_slot 0 first 0 refl refl))
                (enter 1 second refl))
              (find_dispatcher 1 second refl top-ne-absent))
            (read_event_count 1 second refl))
          (subtract_dispatched 1 second 1 refl))
        (block 1 second 1 refl refl refl);
}

-- The appender is closed, and its dispatcher ends and is joined.
abbrev left_behind : Run
unfolding half_way claim has_work discard_events
left_behind = record {
  last = _;
  reach =
      later
        (later
          (later (later (later (later half_way.reach close) (wake refl refl)) (look refl))
            (flush false [] refl refl))
          (finish refl))
        (join refl refl);
}

taken-claims_example :
    (half_way.last.taken ≡ map some (take half_way.last.priv.dispatched_count half_way.last.claims))
    × (half_way.last.priv.dispatched_count ≤ half_way.last.priv.commit_count)
    × (half_way.last.priv.commit_count ≤ half_way.last.priv.event_count)
    × (half_way.last.priv.event_count ≡ length half_way.last.claims)
    × (half_way.last.priv.commit_count
        ≤ half_way.last.priv.dispatched_count + half_way.last.priv.buffer_size)
unfolding half_way
taken-claims_example = taken-claims one_slot-IsFreshAppender half_way.reach (omega arith)

append-progress_example :
    (half_way.last.priv.dispatched_count < half_way.last.priv.commit_count)
    ⊎ ((i : ℕ) × (e : LoggingEvent) × (((n : ℕ) × (half_way.last.producer i
              ≡ claimed e half_way.last.priv.commit_count n)
            × (leb half_way.last.priv.buffer_size
                  (distance half_way.last.priv.commit_count half_way.last.priv.dispatched_count)
                ≡ false))
          ⊎ (half_way.last.producer i ≡ committing e half_way.last.priv.commit_count)))
unfolding half_way claim
append-progress_example =
    append-progress one_slot-IsFreshAppender half_way.reach (omega arith) (omega arith)

record Aftermath : Type 0 where
  last : System
  steps : Steps to_string left_behind.last last

-- Thread 0 writes and commits its event.
abbrev too_late : Aftermath
unfolding left_behind half_way claim has_work discard_events store
too_late = record {
  last = _;
  steps =
      one_more (one_more none_yet (write_slot 0 first 0 0 refl refl))
        (commit_slot 0 first 0 refl refl);
}

-- Where the dispatcher is joined, the next thread in `append` creates another one.
abbrev restarted : Aftermath
unfolding left_behind half_way claim has_work discard_events
restarted = record {
  last = _;
  steps = one_more (one_more none_yet (enter 2 second refl)) (create_dispatcher 2 second refl refl);
}

second_dispatcher : restarted.last.dispatchers ≡ 2
unfolding restarted left_behind half_way
second_dispatcher = refl

stays_waiting_example : too_late.last.producer 1 ≡ waiting second
unfolding too_late left_behind half_way has_room claim has_work discard_events store
stays_waiting_example =
    stays_waiting 1 second one_slot-IsFreshAppender left_behind.reach _ refl refl too_late.steps
      (omega arith) refl

discard_all-summaries_example :
    Summarizes
      (of_logger (codes "a") (first ∷ second ∷ []))
      (find (codes "a") (discard_all (first ∷ second ∷ []) []))
discard_all-summaries_example =
    discard_all-summaries (first ∷ second ∷ []) (codes "a") (omega arith)
