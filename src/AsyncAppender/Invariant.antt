-- ===== src/AsyncAppender/Invariant.antt =====
-- The reachable states of src/main/cpp/asyncappender.cpp.
use logging_log4cxx.Prelude.{
  ℕ, ◌+◌, ◌-◌, ◌%◌, ◌^◌, ◌≤◌, ◌<◌, ◌≡◌, refl, sym, ap, ◌∙◌, subst, false, some, List, [], ◌∷◌, ◌++◌,
  map, leb, length, take, length-append, arith,
}
use logging_log4cxx.AsyncAppender.{AsyncAppenderPriv, distance, claim, store, commit, dispatched}
use logging_log4cxx.AsyncAppender.System.{
  idle, starting, entered, read_events, read_dispatched, tested, claimed, committing, waiting,
  System, Step, enter, find_dispatcher, create_dispatcher, join, read_event_count,
  read_dispatched_count, subtract_dispatched, subtract_from_events, claim_slot, write_slot,
  commit_slot, block, unblock, discard_event, close, set_blocking, wake, look, take_event, flush,
  deliver, fail, repeat, finish, Reach, begin, later, update,
}
use logging_log4cxx.AsyncAppender.Ring.{ring_of, held, Inv}
use logging_log4cxx.AsyncAppender.Moves.{Inv-quiet, Inv-claim, Inv-write, Inv-commit, Inv-take}

-- An appender before its first event.
pub record IsFreshAppender (a : AsyncAppenderPriv) : Type 0 where
  pub no_claims : a.event_count ≡ 0
  pub no_taken : a.dispatched_count ≡ 0
  pub no_commits : a.commit_count ≡ 0
  pub positive : 0 < a.buffer_size
  pub sized : length a.buffer ≡ a.buffer_size

pub SystemInv : System → Type 0
SystemInv s = Inv (ring_of s.priv) s.producer s.claims s.taken

pub distance-of_le : (a b : ℕ) → b ≤ a → a < 2 ^ 64 → distance a b ≡ a - b
distance-of_le a b le small = omega arith

wrapped : (a : ℕ) → a + 1 < 2 ^ 64 → (a + 1) % 2 ^ 64 ≡ a + 1
wrapped a small = omega arith

room_left :
    (old taken size gap : ℕ)
    → gap ≡ old - taken
    → leb size gap ≡ false
    → 0 < size
    → old < taken + size
room_left old taken size gap e free positive = ground arith

begin-Inv : (a : AsyncAppenderPriv) → IsFreshAppender a → Inv (ring_of a) (λ i. idle) [] []
begin-Inv a f = record {
  behind = omega (arith, f.no_taken);
  pending = omega (arith, f.no_commits);
  counted = f.no_claims;
  window = omega (arith, f.no_commits);
  positive = f.positive;
  sized = f.sized;
  in_order = sym (ap (λ n. map some (take n [])) f.no_taken);
  stored = λ k p q. absurd (omega (arith, f.no_commits));
  owners = record {
    owned = λ i c e. absurd (cc e);
    unique = λ i j c e e'. absurd (cc e);
    covered = λ c p q. absurd (omega (arith, f.no_claims));
  };
  fresh = λ i. tt;
}

pub step-claims :
    {to_string : ℕ → List ℕ} {s t : System} → Step to_string s t → length s.claims ≤ length t.claims
step-claims {s} (claim_slot i e n at room) = omega (arith, length-append s.claims (e ∷ []))
step-claims (enter i e at) = omega arith
step-claims (find_dispatcher i e at there) = omega arith
step-claims (create_dispatcher i e at none_) = omega arith
step-claims (read_event_count i e at) = omega arith
step-claims (read_dispatched_count i e at) = omega arith
step-claims (subtract_dispatched i e n at) = omega arith
step-claims (subtract_from_events i e n at) = omega arith
step-claims (write_slot i e old n at free) = omega arith
step-claims (commit_slot i e old at first) = omega arith
step-claims (block i e n at full open_) = omega arith
step-claims (unblock i e at room) = omega arith
step-claims (discard_event i e n at full closed_) = omega arith
step-claims close = omega arith
step-claims (join over at) = omega arith
step-claims (set_blocking value) = omega arith
step-claims (wake at work) = omega arith
step-claims (look at) = omega arith
step-claims (take_event active events d at few some_left slot) = omega arith
step-claims (flush active events at no_more) = omega arith
step-claims (deliver active e events at) = omega arith
step-claims (fail active e events at) = omega arith
step-claims (repeat at) = omega arith
step-claims (finish at) = omega arith

Step-Inv :
    {to_string : ℕ → List ℕ} {s t : System}
    → Step to_string s t
    → length t.claims < 2 ^ 64
    → SystemInv s
    → SystemInv t
unfolding SystemInv claim store commit dispatched
Step-Inv {s} (enter i e at) small v =
    Inv-quiet (ring_of s.priv) s.producer s.claims s.taken v i (starting e) (ap held at) refl tt
Step-Inv {s} (find_dispatcher i e at there) small v =
    Inv-quiet (ring_of s.priv) s.producer s.claims s.taken v i (entered e) (ap held at) refl tt
Step-Inv {s} (create_dispatcher i e at none_) small v =
    Inv-quiet (ring_of s.priv) s.producer s.claims s.taken v i (entered e) (ap held at) refl tt
Step-Inv {s} (read_event_count i e at) small v =
    Inv-quiet (ring_of s.priv) s.producer s.claims s.taken v i (read_events e s.priv.event_count)
      (ap held at) refl tt
Step-Inv {s} (read_dispatched_count i e at) small v =
    Inv-quiet (ring_of s.priv) s.producer s.claims s.taken v i
      (read_dispatched e s.priv.dispatched_count) (ap held at) refl tt
Step-Inv {s} (subtract_dispatched i e n at) small v =
    Inv-quiet (ring_of s.priv) s.producer s.claims s.taken v i
      (tested e (distance n s.priv.dispatched_count)) (ap held at) refl tt
Step-Inv {s} (subtract_from_events i e n at) small v =
    Inv-quiet (ring_of s.priv) s.producer s.claims s.taken v i
      (tested e (distance s.priv.event_count n)) (ap held at) refl tt
Step-Inv {s} (write_slot i e old n at free) small v =
    let (after, below) = v.owners.owned i old (ap held at) in
    let gap =
      distance-of_le old s.priv.dispatched_count (omega (arith, v.behind))
        (omega (arith, v.counted)) in
    Inv-write (ring_of s.priv) s.producer s.claims s.taken v i e old n at (
      room_left old s.priv.dispatched_count s.priv.buffer_size
        (distance old s.priv.dispatched_count) gap free v.positive)
Step-Inv {s} (commit_slot i e old at first) small v =
    let mine : s.producer i ≡ committing e s.priv.commit_count =
      at ∙ ap (committing e) (sym first) in
    let (_, below) = v.owners.owned i s.priv.commit_count (ap held mine) in
    let fits : s.priv.commit_count + 1 < 2 ^ 64 = omega (arith, v.counted) in
    subst
      (λ m.
        Inv (record (ring_of s.priv) { committed = m }) (update i idle s.producer) s.claims s.taken)
      (sym (wrapped s.priv.commit_count fits) ∙ ap (λ m. (m + 1) % 2 ^ 64) first)
      (Inv-commit (ring_of s.priv) s.producer s.claims s.taken v i e mine)
Step-Inv {s} (block i e n at full open_) small v =
    Inv-quiet (ring_of s.priv) s.producer s.claims s.taken v i (waiting e) (ap held at) refl tt
Step-Inv {s} (unblock i e at room) small v =
    Inv-quiet (ring_of s.priv) s.producer s.claims s.taken v i (entered e) (ap held at) refl tt
Step-Inv {s} (discard_event i e n at full closed_) small v =
    Inv-quiet (ring_of s.priv) s.producer s.claims s.taken v i idle (ap held at) refl tt
Step-Inv close small v = v
Step-Inv (join over at) small v = v
Step-Inv (set_blocking value) small v = v
Step-Inv (wake at work) small v = v
Step-Inv (look at) small v = v
Step-Inv {s} (take_event active events d at few some_left slot) small v =
    let fits : s.priv.dispatched_count + 1 < 2 ^ 64 =
      omega (arith, v.counted, v.behind, v.pending, some_left) in
    subst
      (λ m.
        Inv (record (ring_of s.priv) { taken = m }) s.producer s.claims (s.taken ++ d.event ∷ []))
      (sym (wrapped s.priv.dispatched_count fits))
      (Inv-take (ring_of s.priv) s.producer s.claims s.taken v 0 d some_left slot)
Step-Inv (flush active events at no_more) small v = v
Step-Inv (deliver active e events at) small v = v
Step-Inv (fail active e events at) small v = v
Step-Inv (repeat at) small v = v
Step-Inv (finish at) small v = v
Step-Inv {s} (claim_slot i e n at room) small v =
    let fits : s.priv.event_count + 1 < 2 ^ 64 =
      omega (arith, v.counted, length-append s.claims (e ∷ [])) in
    subst
      (λ m.
        Inv (record (ring_of s.priv) { claimed = m })
          (update i (claimed e s.priv.event_count n) s.producer) (s.claims ++ e ∷ []) s.taken)
      (sym (wrapped s.priv.event_count fits))
      (Inv-claim (ring_of s.priv) s.producer s.claims s.taken v i e n (ap held at))

-- The invariant of the buffer, while fewer than 2 ^ 64 counts are claimed.
pub Reach-Inv :
    {to_string : ℕ → List ℕ} {a : AsyncAppenderPriv} {s : System}
    → IsFreshAppender a
    → Reach to_string a s
    → length s.claims < 2 ^ 64
    → Inv (ring_of s.priv) s.producer s.claims s.taken
unfolding SystemInv
Reach-Inv {a = a} f begin small = begin-Inv a f
Reach-Inv f (later r step) small =
    Step-Inv step small (Reach-Inv f r (omega (arith, step-claims step)))
