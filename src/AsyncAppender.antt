-- ===== src/AsyncAppender.antt =====
-- src/main/cpp/asyncappender.cpp: the state of the appender and what its threads do to it in one
-- step. A `size_t` has 64 bits. The buffer keeps its size while events are appended, so a call of
-- `setBufferSize` comes before them. The histogram of pending counts is a debug message and is left out.
pub mod Discards
pub mod System
pub mod Owners
pub mod Ring
pub mod Moves
pub mod Invariant
pub mod Progress
pub mod Closed
use logging_log4cxx.Prelude.{
  ℕ, zero, suc, ◌+◌, ◌-◌, ◌%◌, ◌^◌, Bool, true, false, not, ◌&&◌, ◌||◌, Option, none, some, Outcome,
  returned, thrown, illegal_argument, List, [], ◌∷◌, ◌++◌, map, if◌then◌else◌, ◌==◌, ltb, leb, Text,
  codes, length, set, get_elem?, replicate, ltb_ℤ, ℤ, pos, negsuc,
}
use logging_log4cxx.Prelude.Maps.{find, insert}
use logging_log4cxx.Level.{Level}

-- The parts of a logging event that the appender reads.
pub record LoggingEvent : Type 0 where
  pub logger_name : Text
  pub level : Level
  pub message : Text

-- `count` is an `int`, kept as its 32 bits.
pub record DiscardSummary : Type 0 where
  pub max_event : LoggingEvent
  pub count : ℕ

abbrev pub DiscardMap : Type 0
DiscardMap = List (Text × DiscardSummary)

-- `DiscardSummary(const LoggingEventPtr&)`
abbrev pub summarize : LoggingEvent → DiscardSummary
summarize event = record { max_event = event; count = 1 }

-- `DiscardSummary::add`
unfoldable pub add : LoggingEvent → DiscardSummary → DiscardSummary
add event s = record {
  max_event = if ltb_ℤ s.max_event.level.level event.level.level then event else s.max_event;
  count = (s.count + 1) % 2 ^ 32;
}

-- The branch of `append` that discards.
unfoldable pub discard : LoggingEvent → DiscardMap → DiscardMap
unfolding find insert add
discard event m = elim (find event.logger_name m) [
  | none ↦ insert event.logger_name (summarize event) m
  | some summary ↦ insert event.logger_name (add event summary) m
]

-- `DiscardSummary::createEvent`, where `to_string` is `StringHelper::toString`.
unfoldable pub create_event : (ℕ → Text) → DiscardSummary → LoggingEvent
create_event to_string s = record {
  logger_name = s.max_event.logger_name;
  level = s.max_event.level;
  message =
      codes "Discarded "
      ++ to_string s.count
      ++ codes " messages due to a full event buffer including: "
      ++ s.max_event.message;
}

-- A null event is `none`.
pub record EventData : Type 0 where
  pub event : Option LoggingEvent
  pub pending_count : ℕ

pub record AsyncAppenderPriv : Type 0 where
  pub buffer : List EventData
  pub discard_map : DiscardMap
  pub buffer_size : ℕ
  pub blocking : Bool
  pub event_count : ℕ
  pub dispatched_count : ℕ
  pub commit_count : ℕ
  pub closed : Bool
  pub blocked_count : ℕ

-- A value-initialised slot.
abbrev pub empty_slot : EventData
empty_slot = record { event = none; pending_count = 0 }

unfoldable pub new : AsyncAppenderPriv
new = record {
  buffer = replicate 128 empty_slot;
  discard_map = [];
  buffer_size = 128;
  blocking = true;
  event_count = 0;
  dispatched_count = 0;
  commit_count = 0;
  closed = false;
  blocked_count = 0;
}

-- `std::vector::resize`
abbrev pub resized : List EventData → ℕ → List EventData
resized slots zero = []
resized [] (suc n) = empty_slot ∷ resized [] n
resized (slot ∷ slots) (suc n) = slot ∷ resized slots n

-- `setBufferSize`
unfoldable pub set_buffer_size : ℤ → AsyncAppenderPriv → Outcome AsyncAppenderPriv
set_buffer_size (negsuc n) a = thrown illegal_argument
set_buffer_size (pos n) a =
    let size : ℕ = if ltb n 1 then 1 else n in
    returned (record a { buffer_size = size; buffer = resized a.buffer size })

-- `a - b` on `size_t`
abbrev pub distance : ℕ → ℕ → ℕ
distance a b = (a + 2 ^ 64 - b) % 2 ^ 64

-- `priv->eventCount++`
unfoldable pub claim : AsyncAppenderPriv → AsyncAppenderPriv
claim a = record a { event_count = (a.event_count + 1) % 2 ^ 64 }

-- The write to the slot of `old_event_count`; the vector is not empty.
unfoldable pub store : LoggingEvent → ℕ → ℕ → AsyncAppenderPriv → AsyncAppenderPriv
store event old_event_count pending a = record a {
  buffer =
      set a.buffer (old_event_count % length a.buffer)
        (record { event = some event; pending_count = pending });
}

-- `compare_exchange_weak` where it succeeds
unfoldable pub commit : ℕ → AsyncAppenderPriv → AsyncAppenderPriv
commit old_event_count a = record a { commit_count = (old_event_count + 1) % 2 ^ 64 }

-- `++priv->dispatchedCount`
unfoldable pub dispatched : AsyncAppenderPriv → AsyncAppenderPriv
dispatched a = record a { dispatched_count = (a.dispatched_count + 1) % 2 ^ 64 }

-- The predicate of `bufferNotFull.wait`
unfoldable pub has_room : AsyncAppenderPriv → Bool
has_room a = ltb (distance a.event_count a.dispatched_count) a.buffer_size

-- The predicate of `bufferNotEmpty.wait`
unfoldable pub has_work : AsyncAppenderPriv → Bool
has_work a = ltb 0 a.blocked_count || not (a.dispatched_count == a.commit_count) || a.closed

-- The events that the dispatcher makes of the discard map.
unfoldable pub discard_events : (ℕ → Text) → DiscardMap → List (Option LoggingEvent)
unfolding create_event
discard_events to_string m = map (λ (name, summary). some (create_event to_string summary)) m
