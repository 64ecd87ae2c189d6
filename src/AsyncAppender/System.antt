-- ===== src/AsyncAppender/System.antt =====
-- The threads of src/main/cpp/asyncappender.cpp, interleaved in any order. A step is one access to an
-- atomic variable or to the buffer, or a part that holds a mutex. A wait on a condition variable ends in
-- any state where its predicate holds. `take_event`, `flush` and `has_room` each read two counts at
-- once, which the code reads one after the other.
use logging_log4cxx.Prelude.{
  ℕ, ◌+◌, ◌-◌, ◌%◌, ◌≡◌, ◌≢◌, Bool, true, false, not, ◌&&◌, Option, some, List, [], ◌∷◌, ◌++◌,
  if◌then◌else◌, ◌==◌, ltb, leb, length, get_elem?,
}
use logging_log4cxx.AsyncAppender.{
  LoggingEvent, AsyncAppenderPriv, EventData, discard, distance, claim, store, commit, dispatched,
  has_room, has_work, discard_events,
}

-- Where a thread stands in `append`.
pub data Producer : Type 0 where
  idle : Producer
  -- before it looks for the dispatcher
  starting : LoggingEvent → Producer
  -- at the top of the loop
  entered : LoggingEvent → Producer
  -- has read `eventCount` or `dispatchedCount`, the operands of `pendingCount`, in either order
  read_events : LoggingEvent → ℕ → Producer
  read_dispatched : LoggingEvent → ℕ → Producer
  -- has read both
  tested : LoggingEvent → ℕ → Producer
  -- has a count, and waits for its slot
  claimed : LoggingEvent → ℕ → ℕ → Producer
  -- has written its slot
  committing : LoggingEvent → ℕ → Producer
  -- waits on `bufferNotFull`
  waiting : LoggingEvent → Producer

-- Where the dispatcher stands in `dispatch`, with `isActive` and `events`; `absent` where it is not
-- joinable, which is before it is created and once it is joined.
pub data Dispatcher : Type 0 where
  absent : Dispatcher
  top : Dispatcher
  woken : Dispatcher
  taking : Bool → List (Option LoggingEvent) → Dispatcher
  delivering : Bool → List (Option LoggingEvent) → Dispatcher
  ended : Dispatcher

-- `claims` has the events in the order of their counts, `taken` those that the dispatcher took out of
-- the buffer and `delivered` those that it passed on; `dispatchers` is the number of dispatchers that
-- were created. The program has none of the four.
pub record System : Type 0 where
  pub priv : AsyncAppenderPriv
  pub producer : ℕ → Producer
  pub dispatcher : Dispatcher
  pub claims : List LoggingEvent
  pub taken : List (Option LoggingEvent)
  pub delivered : List (Option LoggingEvent)
  pub dispatchers : ℕ

abbrev pub update : ℕ → Producer → (ℕ → Producer) → ℕ → Producer
update i p f j = if i == j then p else f j

abbrev pub move : System → ℕ → Producer → System
move s i p = record s { producer = update i p s.producer }

abbrev pub change : System → ℕ → Producer → AsyncAppenderPriv → System
change s i p a = record s { producer = update i p s.producer; priv = a }

abbrev pub turn : System → Dispatcher → System
turn s d = record s { dispatcher = d }

-- `to_string` is `StringHelper::toString`. The dispatcher does not call `append` itself.
pub data Step (to_string : ℕ → List ℕ) (s : System) : System → Type 0 where
  -- `append`
  enter :
      (i : ℕ) (e : LoggingEvent) → s.producer i ≡ idle → Step to_string s (move s i (starting e))
  find_dispatcher :
      (i : ℕ) (e : LoggingEvent)
      → s.producer i ≡ starting e
      → s.dispatcher ≢ absent
      → Step to_string s (move s i (entered e))
  -- under `mutex`
  create_dispatcher :
      (i : ℕ) (e : LoggingEvent)
      → s.producer i ≡ starting e
      → s.dispatcher ≡ absent
      → Step to_string s (record s {
        producer = update i (entered e) s.producer;
        dispatcher = top;
        dispatchers = s.dispatchers + 1;
      })
  read_event_count :
      (i : ℕ) (e : LoggingEvent)
      → s.producer i ≡ entered e
      → Step to_string s (move s i (read_events e s.priv.event_count))
  read_dispatched_count :
      (i : ℕ) (e : LoggingEvent)
      → s.producer i ≡ entered e
      → Step to_string s (move s i (read_dispatched e s.priv.dispatched_count))
  subtract_dispatched :
      (i : ℕ) (e : LoggingEvent) (n : ℕ)
      → s.producer i ≡ read_events e n
      → Step to_string s (move s i (tested e (distance n s.priv.dispatched_count)))
  subtract_from_events :
      (i : ℕ) (e : LoggingEvent) (n : ℕ)
      → s.producer i ≡ read_dispatched e n
      → Step to_string s (move s i (tested e (distance s.priv.event_count n)))
  claim_slot :
      (i : ℕ) (e : LoggingEvent) (pending : ℕ)
      → s.producer i ≡ tested e pending
      → ltb pending s.priv.buffer_size ≡ true
      → Step to_string s (record s {
        priv = claim s.priv;
        producer = update i (claimed e s.priv.event_count pending) s.producer;
        claims = s.claims ++ e ∷ [];
      })
  write_slot :
      (i : ℕ) (e : LoggingEvent) (old pending : ℕ)
      → s.producer i ≡ claimed e old pending
      → leb s.priv.buffer_size (distance old s.priv.dispatched_count) ≡ false
      → Step to_string s (change s i (committing e old) (store e old pending s.priv))
  commit_slot :
      (i : ℕ) (e : LoggingEvent) (old : ℕ)
      → s.producer i ≡ committing e old
      → s.priv.commit_count ≡ old
      → Step to_string s (change s i idle (commit old s.priv))
  block :
      (i : ℕ) (e : LoggingEvent) (pending : ℕ)
      → s.producer i ≡ tested e pending
      → ltb pending s.priv.buffer_size ≡ false
      → s.priv.blocking && not s.priv.closed ≡ true
      → Step to_string s
          (change s i (waiting e) (record s.priv { blocked_count = s.priv.blocked_count + 1 }))
  unblock :
      (i : ℕ) (e : LoggingEvent)
      → s.producer i ≡ waiting e
      → has_room s.priv ≡ true
      → Step to_string s
          (change s i (entered e) (record s.priv { blocked_count = s.priv.blocked_count - 1 }))
  discard_event :
      (i : ℕ) (e : LoggingEvent) (pending : ℕ)
      → s.producer i ≡ tested e pending
      → ltb pending s.priv.buffer_size ≡ false
      → s.priv.blocking && not s.priv.closed ≡ false
      → Step to_string s
          (change s i idle (record s.priv { discard_map = discard e s.priv.discard_map }))
  -- `setClosed`, the end of `stopDispatcher`, and `setBlocking`
  close : Step to_string s (record s { priv = record s.priv { closed = true } })
  join : s.priv.closed ≡ true → s.dispatcher ≡ ended → Step to_string s (turn s absent)
  set_blocking :
      (value : Bool) → Step to_string s (record s { priv = record s.priv { blocking = value } })
  -- `dispatch`
  wake : s.dispatcher ≡ top → has_work s.priv ≡ true → Step to_string s (turn s woken)
  look : s.dispatcher ≡ woken → Step to_string s (turn s (taking (not s.priv.closed) []))
  take_event :
      (active : Bool) (events : List (Option LoggingEvent)) (data_ : EventData)
      → s.dispatcher ≡ taking active events
      → ltb (length events) s.priv.buffer_size ≡ true
      → s.priv.dispatched_count ≢ s.priv.commit_count
      → get_elem? s.priv.buffer (s.priv.dispatched_count % length s.priv.buffer) ≡ some data_
      → Step to_string s (record s {
        priv = dispatched s.priv;
        dispatcher = taking active (events ++ data_.event ∷ []);
        taken = s.taken ++ data_.event ∷ [];
      })
  flush :
      (active : Bool) (events : List (Option LoggingEvent))
      → s.dispatcher ≡ taking active events
      → ltb (length events) s.priv.buffer_size
          && not (s.priv.dispatched_count == s.priv.commit_count)
        ≡ false
      → Step to_string s (record s {
        priv = record s.priv { discard_map = [] };
        dispatcher = delivering active (events ++ discard_events to_string s.priv.discard_map);
      })
  deliver :
      (active : Bool) (e : Option LoggingEvent) (events : List (Option LoggingEvent))
      → s.dispatcher ≡ delivering active (e ∷ events)
      → Step to_string s
          (record s { dispatcher = delivering active events; delivered = s.delivered ++ e ∷ [] })
  -- an appender throws
  fail :
      (active : Bool) (e : Option LoggingEvent) (events : List (Option LoggingEvent))
      → s.dispatcher ≡ delivering active (e ∷ events)
      → Step to_string s (turn s (delivering (active && s.priv.closed) events))
  repeat : s.dispatcher ≡ delivering true [] → Step to_string s (turn s top)
  finish : s.dispatcher ≡ delivering false [] → Step to_string s (turn s ended)

-- Any number of threads, none of which is in `append`.
abbrev pub start : AsyncAppenderPriv → System
start a = record {
  priv = a;
  producer = λ i. idle;
  dispatcher = absent;
  claims = [];
  taken = [];
  delivered = [];
  dispatchers = 0;
}

pub data Reach (to_string : ℕ → List ℕ) (a : AsyncAppenderPriv) : System → Type 0 where
  begin : Reach to_string a (start a)
  later : {s t : System} → Reach to_string a s → Step to_string s t → Reach to_string a t
