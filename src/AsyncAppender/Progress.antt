-- ===== src/AsyncAppender/Progress.antt =====
-- What holds of the event buffer of src/main/cpp/asyncappender.cpp whatever the order of the threads.
use logging_log4cxx.Prelude.{
  ℕ, ◌+◌, ◌-◌, ◌^◌, ◌≤◌, ◌<◌, ◌≡◌, ◌⊎◌, inl, inr, true, false, Bool-cases, some, List, map, ◌==◌,
  leb, length, take, arith,
}
use logging_log4cxx.AsyncAppender.{LoggingEvent, AsyncAppenderPriv, distance}
use logging_log4cxx.AsyncAppender.System.{
  Producer, idle, starting, entered, read_events, read_dispatched, tested, claimed, committing,
  waiting, System, Reach,
}
use logging_log4cxx.AsyncAppender.Ring.{held}
use logging_log4cxx.AsyncAppender.Invariant.{IsFreshAppender, distance-of_le, Reach-Inv}

-- Let any number of threads append to a fresh appender, with fewer than 2 ^ 64 events so far. In every
-- reachable state the events that the dispatcher took out of the buffer are the first that claimed a
-- count, in that order, each once and none null; and there are no more committed events than taken ones
-- and slots.
pub taken-claims :
    {to_string : ℕ → List ℕ} {a : AsyncAppenderPriv} {s : System}
    → IsFreshAppender a
    → Reach to_string a s
    → length s.claims < 2 ^ 64
    → (s.taken ≡ map some (take s.priv.dispatched_count s.claims))
      × (s.priv.dispatched_count ≤ s.priv.commit_count)
      × (s.priv.commit_count ≤ s.priv.event_count)
      × (s.priv.event_count ≡ length s.claims)
      × (s.priv.commit_count ≤ s.priv.dispatched_count + s.priv.buffer_size)
taken-claims f r small =
    let v = Reach-Inv f r small in (v.in_order, v.behind, v.pending, v.counted, v.window)

-- A thread with a count writes its slot or commits it.
holder :
    (p : Producer) (c : ℕ)
    → held p ≡ some c
    → ((e : LoggingEvent) × (n : ℕ) × (p ≡ claimed e c n))
      ⊎ ((e : LoggingEvent) × (p ≡ committing e c))
holder idle c h = absurd (cc h)
holder (starting e) c h = absurd (cc h)
holder (entered e) c h = absurd (cc h)
holder (read_events e n) c h = absurd (cc h)
holder (read_dispatched e n) c h = absurd (cc h)
holder (tested e n) c h = absurd (cc h)
holder (claimed e old n) c h = inl (e, n, cc h)
holder (committing e old) c h = inr (e, cc h)
holder (waiting e) c h = absurd (cc h)

no_gap : (size : ℕ) → 0 < size → leb size (0 - 0) ≡ false
no_gap size h = ground arith

-- Under the same conditions, while an event has a count and is not taken, the buffer is not stuck:
-- there is a committed event for the dispatcher, or a thread that can write the slot of the next count
-- to be committed, or one that can commit it.
pub append-progress :
    {to_string : ℕ → List ℕ} {a : AsyncAppenderPriv} {s : System}
    → IsFreshAppender a
    → Reach to_string a s
    → length s.claims < 2 ^ 64
    → s.priv.dispatched_count < s.priv.event_count
    → (s.priv.dispatched_count < s.priv.commit_count)
      ⊎ ((i : ℕ) × (e : LoggingEvent) × (((n : ℕ) × (s.producer i ≡ claimed e s.priv.commit_count n)
              × (leb s.priv.buffer_size (distance s.priv.commit_count s.priv.dispatched_count)
                  ≡ false))
            ⊎ (s.producer i ≡ committing e s.priv.commit_count)))
append-progress {s = s} f r small left =
    let v = Reach-Inv f r small in
    elim (Bool-cases (s.priv.dispatched_count == s.priv.commit_count)) [
      | inr apart ↦ inl (further s.priv.dispatched_count s.priv.commit_count v.behind apart)
      | inl same ↦
          let (i, has) =
            v.owners.covered s.priv.commit_count (omega arith)
              (next s.priv.dispatched_count s.priv.commit_count s.priv.event_count same left) in
          let gap =
            distance-of_le s.priv.commit_count s.priv.dispatched_count v.behind
              (omega (arith, v.counted, v.pending)) in
          inr (elim (holder (s.producer i) s.priv.commit_count has) [
            | inl (e, n, at) ↦ (
              i,
              e,
              inl (
                n,
                at,
                room s.priv.dispatched_count s.priv.commit_count s.priv.buffer_size
                    (distance s.priv.commit_count s.priv.dispatched_count) same gap v.positive,
              ),
            )
            | inr (e, at) ↦ (i, e, inr at)
          ])
    ]
  where
    further : (a b : ℕ) → a ≤ b → (a == b) ≡ false → a < b
    further a b le ne = ground arith

    next : (a b c : ℕ) → (a == b) ≡ true → a < c → b < c
    next a b c e lt = ground arith

    room : (a b size gap : ℕ) → (a == b) ≡ true → gap ≡ b - a → 0 < size → leb size gap ≡ false
    room a b size gap e eq positive = ground arith
