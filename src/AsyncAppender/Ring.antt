-- ===== src/AsyncAppender/Ring.antt =====
-- The event buffer in src/main/cpp/asyncappender.cpp while threads claim, write and commit slots.
use logging_log4cxx.Prelude.{
  ℕ, ◌+◌, ◌%◌, ◌≤◌, ◌<◌, ◌≡◌, ◌≢◌, refl, sym, ap, ◌∙◌, subst, inl, inr, Bool-cases, Option, none,
  some, List, map, ◌==◌, ==_iff, length, get_elem?, take, arith,
}
use logging_log4cxx.AsyncAppender.{LoggingEvent, AsyncAppenderPriv, EventData}
use logging_log4cxx.AsyncAppender.System.{Producer, claimed, committing, update}
use logging_log4cxx.AsyncAppender.Owners.{Owners, hold}

-- The parts of the state that the buffer depends on.
pub record Ring : Type 0 where
  pub slots : List EventData
  pub size : ℕ
  pub claimed : ℕ
  pub taken : ℕ
  pub committed : ℕ

abbrev pub ring_of : AsyncAppenderPriv → Ring
ring_of a = record {
  slots = a.buffer;
  size = a.buffer_size;
  claimed = a.event_count;
  taken = a.dispatched_count;
  committed = a.commit_count;
}

-- The slot of count `k` has the event that claimed it.
abbrev pub Stored : List EventData → List LoggingEvent → ℕ → Type 0
Stored slots claims k =
    (e : LoggingEvent) × (d : EventData) × (get_elem? claims k ≡ some e)
    × (get_elem? slots (k % length slots) ≡ some d)
    × (d.event ≡ some e)

-- The count that a thread has claimed and not committed.
abbrev pub held : Producer → Option ℕ
held (claimed e old pending) = some old
held (committing e old) = some old
held _ = none

abbrev pub IsFresh : Ring → List LoggingEvent → Producer → Type 0
IsFresh r claims (claimed e old pending) = get_elem? claims old ≡ some e
IsFresh r claims (committing e old) = (old < r.taken + r.size) × Stored r.slots claims old
IsFresh r claims _ = Unit {0}

pub record Inv (r : Ring) (producer : ℕ → Producer) (claims : List LoggingEvent)
    (out : List (Option LoggingEvent)) : Type 0 where
  pub behind : r.taken ≤ r.committed
  pub pending : r.committed ≤ r.claimed
  pub counted : r.claimed ≡ length claims
  pub window : r.committed ≤ r.taken + r.size
  pub positive : 0 < r.size
  pub sized : length r.slots ≡ r.size
  pub in_order : out ≡ map some (take r.taken claims)
  pub stored : (k : ℕ) → r.taken ≤ k → k < r.committed → Stored r.slots claims k
  pub owners : Owners (λ i. held (producer i)) r.committed r.claimed
  pub fresh : (i : ℕ) → IsFresh r claims (producer i)

-- What holds of the changed thread and of the others holds of all.
pub each_updated :
    (P : Producer → Type 0) (i : ℕ) (p : Producer) (producer : ℕ → Producer)
    → P p
    → ((j : ℕ) → i ≢ j → P (producer j))
    → (j : ℕ) → P (update i p producer j)
each_updated P i p producer own others j = elim (Bool-cases (i == j)) [
  | inl e ↦ rw e own
  | inr e ↦ rw e (others j (λ same. ground arith))
]

held_updated :
    (i : ℕ) (p : Producer) (producer : ℕ → Producer) (j : ℕ)
    → held (update i p producer j) ≡ hold i (held p) (λ k. held (producer k)) j
held_updated i p producer j = elim (Bool-cases (i == j)) [ inl e ↦ rw e refl | inr e ↦ rw e refl ]

hold_same : (i : ℕ) (f : ℕ → Option ℕ) (c : Option ℕ) (j : ℕ) → f i ≡ c → hold i c f j ≡ f j
hold_same i f c j e = elim (Bool-cases (i == j)) [
  | inl same ↦ rw same (sym e ∙ ap f ((==_iff i j).0 same))
  | inr other ↦ rw other refl
]

pub Owners-updated :
    (i : ℕ) (p : Producer) (producer : ℕ → Producer) {lo hi : ℕ}
    → Owners (hold i (held p) (λ k. held (producer k))) lo hi
    → Owners (λ j. held (update i p producer j)) lo hi
Owners-updated i p producer {lo} {hi} o =
    subst (λ f. Owners f lo hi) (λ t j. sym (held_updated i p producer j) t) o

pub Owners-same :
    (i : ℕ) (p : Producer) (producer : ℕ → Producer) {lo hi : ℕ}
    → held (producer i) ≡ held p
    → Owners (λ j. held (producer j)) lo hi
    → Owners (λ j. held (update i p producer j)) lo hi
Owners-same i p producer {lo} {hi} e o =
    subst (λ f. Owners f lo hi)
      (λ t j.
        sym (held_updated i p producer j ∙ hold_same i (λ k. held (producer k)) (held p) j e) t)
      o
