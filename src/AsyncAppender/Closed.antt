-- ===== src/AsyncAppender/Closed.antt =====
-- The appender of src/main/cpp/asyncappender.cpp while none of its dispatchers runs.
use logging_log4cxx.Prelude.{
  ℕ, ◌+◌, ◌-◌, ◌%◌, ◌^◌, ◌≤◌, ◌<◌, ◌≡◌, refl, sym, ap, ◌∙◌, subst, inl, inr, Bool, true, false,
  Bool-cases, List, [], ◌∷◌, ◌==◌, ==_iff, ltb, length, length-append, arith,
}
use logging_log4cxx.AsyncAppender.{
  LoggingEvent, AsyncAppenderPriv, distance, claim, store, commit, dispatched, has_room,
}
use logging_log4cxx.AsyncAppender.System.{
  Producer, idle, starting, entered, read_events, read_dispatched, tested, claimed, committing,
  waiting, Dispatcher, absent, top, woken, taking, delivering, ended, System, Step, enter,
  find_dispatcher, create_dispatcher, join, read_event_count, read_dispatched_count,
  subtract_dispatched, subtract_from_events, claim_slot, write_slot, commit_slot, block, unblock,
  discard_event, close, set_blocking, wake, look, take_event, flush, deliver, fail, repeat, finish,
  Reach, update,
}
use logging_log4cxx.AsyncAppender.Invariant.{
  IsFreshAppender, distance-of_le, Reach-Inv, step-claims,
}

pub data Steps (to_string : ℕ → List ℕ) (s : System) : System → Type 0 where
  none_yet : Steps to_string s s
  one_more : {t u : System} → Steps to_string s t → Step to_string t u → Steps to_string s u

-- No dispatcher runs: the last one has ended, or it is joined as well.
abbrev pub IsOver : Dispatcher → Type 0
IsOver absent = Unit {0}
IsOver ended = Unit {0}
IsOver top = ⊥
IsOver woken = ⊥
IsOver (taking active events) = ⊥
IsOver (delivering active events) = ⊥

-- Thread `i` waits, no dispatcher runs, and the counts leave no room.
pub record IsStuck (s : System) (i : ℕ) (e : LoggingEvent) : Type 0 where
  pub over : IsOver s.dispatcher
  pub waits : s.producer i ≡ waiting e
  pub full : s.priv.dispatched_count + s.priv.buffer_size ≤ s.priv.event_count
  pub counted : s.priv.event_count ≡ length s.claims

abbrev is_waiting : Producer → Bool
is_waiting (waiting e) = true
is_waiting _ = false

undisturbed :
    (j : ℕ) (p q : Producer) (producer : ℕ → Producer) (i : ℕ) (e : LoggingEvent)
    → producer j ≡ q
    → is_waiting q ≡ false
    → producer i ≡ waiting e
    → update j p producer i ≡ waiting e
undisturbed j p q producer i e at other waits = elim (Bool-cases (j == i)) [
  | inl same ↦
      absurd (clash (ap is_waiting (sym at ∙ ap producer ((==_iff j i).0 same) ∙ waits)) other)
  | inr apart ↦ rw apart waits
]
  where
    clash : is_waiting q ≡ true → is_waiting q ≡ false → ⊥
    clash a b = cc

no_room :
    (events taken size : ℕ)
    → taken + size ≤ events
    → events < 2 ^ 64
    → ltb (distance events taken) size ≡ false
no_room events taken size h small =
    let gap = distance-of_le events taken (omega arith) small in closed (distance events taken) gap
  where
    closed : (gap : ℕ) → gap ≡ events - taken → ltb gap size ≡ false
    closed gap e = ground arith

blocked :
    {s : System} {i : ℕ} {e : LoggingEvent}
    → IsStuck s i e
    → length s.claims < 2 ^ 64
    → has_room s.priv ≡ false
unfolding has_room
blocked {s} k small =
    no_room s.priv.event_count s.priv.dispatched_count s.priv.buffer_size k.full
      (omega (arith, k.counted))

running : {d d' : Dispatcher} → d ≡ d' → IsOver d → (IsOver d' → ⊥) → ⊥
running e over runs = runs (subst IsOver e over)

Step-IsStuck :
    {to_string : ℕ → List ℕ} {s t : System} {i : ℕ} {e : LoggingEvent}
    → Step to_string s t
    → length t.claims < 2 ^ 64
    → t.dispatchers ≡ s.dispatchers
    → IsStuck s i e
    → IsStuck t i e
unfolding claim store commit dispatched
Step-IsStuck {s = s} {i = i} {e = e} (enter j f at) small same k = record {
  over = k.over;
  waits = undisturbed j _ idle s.producer i e at refl k.waits;
  full = k.full;
  counted = k.counted;
}
Step-IsStuck {s = s} {i = i} {e = e} (find_dispatcher j f at there) small same k = record {
  over = k.over;
  waits = undisturbed j _ (starting f) s.producer i e at refl k.waits;
  full = k.full;
  counted = k.counted;
}
Step-IsStuck {s = s} (create_dispatcher j f at none_) small same k = absurd (omega (arith, same))
Step-IsStuck (join over at) small same k = record {
  over = tt;
  waits = k.waits;
  full = k.full;
  counted = k.counted;
}
Step-IsStuck {s = s} {i = i} {e = e} (read_event_count j f at) small same k = record {
  over = k.over;
  waits = undisturbed j _ (entered f) s.producer i e at refl k.waits;
  full = k.full;
  counted = k.counted;
}
Step-IsStuck {s = s} {i = i} {e = e} (read_dispatched_count j f at) small same k = record {
  over = k.over;
  waits = undisturbed j _ (entered f) s.producer i e at refl k.waits;
  full = k.full;
  counted = k.counted;
}
Step-IsStuck {s = s} {i = i} {e = e} (subtract_dispatched j f n at) small same k = record {
  over = k.over;
  waits = undisturbed j _ (read_events f n) s.producer i e at refl k.waits;
  full = k.full;
  counted = k.counted;
}
Step-IsStuck {s = s} {i = i} {e = e} (subtract_from_events j f n at) small same k = record {
  over = k.over;
  waits = undisturbed j _ (read_dispatched f n) s.producer i e at refl k.waits;
  full = k.full;
  counted = k.counted;
}
Step-IsStuck {s = s} {i = i} {e = e} (claim_slot j f n at room) small same k =
    let wrap : (s.priv.event_count + 1) % 2 ^ 64 ≡ s.priv.event_count + 1 =
      omega (arith, k.counted, length-append s.claims (f ∷ [])) in
    record {
      over = k.over;
      waits =
          undisturbed j (claimed f s.priv.event_count n) (tested f n) s.producer i e at refl
            k.waits;
      full = omega (arith, k.full);
      counted = wrap ∙ omega (arith, k.counted, length-append s.claims (f ∷ []));
    }
Step-IsStuck {s = s} {i = i} {e = e} (write_slot j f old n at free) small same k = record {
  over = k.over;
  waits = undisturbed j _ (claimed f old n) s.producer i e at refl k.waits;
  full = k.full;
  counted = k.counted;
}
Step-IsStuck {s = s} {i = i} {e = e} (commit_slot j f old at first) small same k = record {
  over = k.over;
  waits = undisturbed j _ (committing f old) s.producer i e at refl k.waits;
  full = k.full;
  counted = k.counted;
}
Step-IsStuck {s = s} {i = i} {e = e} (block j f n at full_ open_) small same k = record {
  over = k.over;
  waits = undisturbed j _ (tested f n) s.producer i e at refl k.waits;
  full = k.full;
  counted = k.counted;
}
Step-IsStuck {s = s} {i = i} {e = e} (unblock j f at room) small same k =
    absurd (cc (room, blocked k small))
Step-IsStuck {s = s} {i = i} {e = e} (discard_event j f n at full_ closed_) small same k = record {
  over = k.over;
  waits = undisturbed j _ (tested f n) s.producer i e at refl k.waits;
  full = k.full;
  counted = k.counted;
}
Step-IsStuck {s = s} {i = i} {e = e} close small same k = record {
  over = k.over;
  waits = k.waits;
  full = k.full;
  counted = k.counted;
}
Step-IsStuck {s = s} {i = i} {e = e} (set_blocking value) small same k = record {
  over = k.over;
  waits = k.waits;
  full = k.full;
  counted = k.counted;
}
Step-IsStuck {s = s} {i = i} {e = e} (wake at work) small same k =
    absurd (running at k.over (λ h. h))
Step-IsStuck {s = s} {i = i} {e = e} (look at) small same k = absurd (running at k.over (λ h. h))
Step-IsStuck {s = s} {i = i} {e = e} (take_event active events d at few some_left slot) small same
      k =
    absurd (running at k.over (λ h. h))
Step-IsStuck {s = s} {i = i} {e = e} (flush active events at no_more) small same k =
    absurd (running at k.over (λ h. h))
Step-IsStuck {s = s} {i = i} {e = e} (deliver active f events at) small same k =
    absurd (running at k.over (λ h. h))
Step-IsStuck {s = s} {i = i} {e = e} (fail active f events at) small same k =
    absurd (running at k.over (λ h. h))
Step-IsStuck {s = s} {i = i} {e = e} (repeat at) small same k = absurd (running at k.over (λ h. h))
Step-IsStuck {s = s} {i = i} {e = e} (finish at) small same k = absurd (running at k.over (λ h. h))

step-dispatchers :
    {to_string : ℕ → List ℕ} {s t : System} → Step to_string s t → s.dispatchers ≤ t.dispatchers
step-dispatchers (claim_slot i e n at room) = omega arith
step-dispatchers (enter i e at) = omega arith
step-dispatchers (find_dispatcher i e at there) = omega arith
step-dispatchers (create_dispatcher i e at none_) = omega arith
step-dispatchers (read_event_count i e at) = omega arith
step-dispatchers (read_dispatched_count i e at) = omega arith
step-dispatchers (subtract_dispatched i e n at) = omega arith
step-dispatchers (subtract_from_events i e n at) = omega arith
step-dispatchers (write_slot i e old n at free) = omega arith
step-dispatchers (commit_slot i e old at first) = omega arith
step-dispatchers (block i e n at full open_) = omega arith
step-dispatchers (unblock i e at room) = omega arith
step-dispatchers (discard_event i e n at full closed_) = omega arith
step-dispatchers close = omega arith
step-dispatchers (join over at) = omega arith
step-dispatchers (set_blocking value) = omega arith
step-dispatchers (wake at work) = omega arith
step-dispatchers (look at) = omega arith
step-dispatchers (take_event active events d at few some_left slot) = omega arith
step-dispatchers (flush active events at no_more) = omega arith
step-dispatchers (deliver active e events at) = omega arith
step-dispatchers (fail active e events at) = omega arith
step-dispatchers (repeat at) = omega arith
step-dispatchers (finish at) = omega arith

Steps-dispatchers :
    {to_string : ℕ → List ℕ} {s t : System} → Steps to_string s t → s.dispatchers ≤ t.dispatchers
Steps-dispatchers none_yet = omega arith
Steps-dispatchers (one_more r step) = omega (arith, Steps-dispatchers r, step-dispatchers step)

Steps-IsStuck :
    {to_string : ℕ → List ℕ} {s t : System} {i : ℕ} {e : LoggingEvent}
    → Steps to_string s t
    → length t.claims < 2 ^ 64
    → t.dispatchers ≡ s.dispatchers
    → IsStuck s i e
    → IsStuck t i e
Steps-IsStuck none_yet small same k = k
Steps-IsStuck (one_more r step) small same k =
    Step-IsStuck step small (omega (arith, same, Steps-dispatchers r, step-dispatchers step)) (
      Steps-IsStuck r (omega (arith, step-claims step))
        (omega (arith, same, Steps-dispatchers r, step-dispatchers step)) k)

Steps-claims :
    {to_string : ℕ → List ℕ} {s t : System}
    → Steps to_string s t
    → length s.claims ≤ length t.claims
Steps-claims none_yet = omega arith
Steps-claims (one_more r step) = omega (arith, Steps-claims r, step-claims step)

full_of :
    (events taken size : ℕ)
    → taken ≤ events
    → events < 2 ^ 64
    → ltb (distance events taken) size ≡ false
    → taken + size ≤ events
full_of events taken size le small e =
    open_ (distance events taken) (distance-of_le events taken le small) e
  where
    open_ : (gap : ℕ) → gap ≡ events - taken → ltb gap size ≡ false → taken + size ≤ events
    open_ gap f g = ground arith

-- Let no dispatcher run, in a state that a fresh appender reaches, while a thread waits for room and
-- there is none: the dispatcher has ended, and may be joined. Until a thread in `append` that finds it
-- joined creates another dispatcher, whatever the threads do, with fewer than 2 ^ 64 events in all,
-- the thread waits, though the appender may be closed.
pub stays_waiting :
    {to_string : ℕ → List ℕ} {a : AsyncAppenderPriv} {s t : System} (i : ℕ) (e : LoggingEvent)
    → IsFreshAppender a
    → Reach to_string a s
    → IsOver s.dispatcher
    → s.producer i ≡ waiting e
    → has_room s.priv ≡ false
    → Steps to_string s t
    → length t.claims < 2 ^ 64
    → t.dispatchers ≡ s.dispatchers
    → t.producer i ≡ waiting e
unfolding has_room
stays_waiting {s = s} i e f r over waits no_space steps small same =
    let fewer : length s.claims < 2 ^ 64 = omega (arith, Steps-claims steps) in
    let v = Reach-Inv f r fewer in
    let k = Steps-IsStuck steps small same (record {
      over = over;
      waits = waits;
      full =
          full_of s.priv.event_count s.priv.dispatched_count s.priv.buffer_size
            (omega (arith, v.behind, v.pending)) (omega (arith, v.counted)) no_space;
      counted = v.counted;
    }) in
    k.waits
