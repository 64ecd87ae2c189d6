-- ===== src/AsyncAppender/Moves.antt =====
-- The changes of the event buffer in src/main/cpp/asyncappender.cpp, one after the other.
use logging_log4cxx.Prelude.{
  ℕ, ◌+◌, ◌%◌, ◌≤◌, ◌<◌, ◌≡◌, ◌≢◌, refl, sym, ap, ◌∙◌, subst, inl, inr, Bool-cases, Option, none,
  some, List, [], ◌∷◌, ◌++◌, map, ◌==◌, ==_iff, ltb, length, get_elem?, set, take, length-append,
  length-set, get_elem?-set_self, get_elem?-set_ne, get_elem?-append_old, get_elem?-append_new,
  take-append_old, map-take_one, arith,
}
use logging_log4cxx.AsyncAppender.{LoggingEvent, EventData}
use logging_log4cxx.AsyncAppender.System.{
  Producer, idle, starting, entered, read_events, read_dispatched, tested, claimed, committing,
  waiting, update,
}
use logging_log4cxx.AsyncAppender.Owners.{Owners-claim, Owners-commit, slots_apart}
use native.Mathlib.Nat.{mod-lt}
use logging_log4cxx.AsyncAppender.Ring.{
  Ring, Stored, held, IsFresh, Inv, each_updated, Owners-updated, Owners-same,
}

Stored-append :
    (slots : List EventData) (claims : List LoggingEvent) (e : LoggingEvent) (k : ℕ)
    → Stored slots claims k
    → Stored slots (claims ++ e ∷ []) k
Stored-append slots claims e k (f, d, at, slot, same) =
    (f, d, get_elem?-append_old claims (e ∷ []) k f at, slot, same)

IsFresh-append :
    (r : Ring) (claims : List LoggingEvent) (e : LoggingEvent) (n : ℕ) (p : Producer)
    → IsFresh r claims p
    → IsFresh (record r { claimed = n }) (claims ++ e ∷ []) p
IsFresh-append r claims e n (claimed f old pending) h = get_elem?-append_old claims (e ∷ []) old f h
IsFresh-append r claims e n (committing f old) (near, h) =
    (near, Stored-append r.slots claims e old h)
IsFresh-append r claims e n idle h = tt
IsFresh-append r claims e n (starting f) h = tt
IsFresh-append r claims e n (entered f) h = tt
IsFresh-append r claims e n (read_events f m) h = tt
IsFresh-append r claims e n (read_dispatched f m) h = tt
IsFresh-append r claims e n (tested f m) h = tt
IsFresh-append r claims e n (waiting f) h = tt

Stored-set :
    (slots : List EventData) (claims : List LoggingEvent) (old : ℕ) (d : EventData) (k : ℕ)
    → k % length slots ≢ old % length slots
    → Stored slots claims k
    → Stored (set slots (old % length slots) d) claims k
Stored-set slots claims old d k ne (e, f, at, slot, same) = (
  e,
  f,
  at,
  ap (λ n. get_elem? (set slots (old % length slots) d) (k % n))
        (length-set slots (old % length slots) d)
      ∙ get_elem?-set_ne slots (old % length slots) (k % length slots) d (λ eq. ne (sym eq))
      ∙ slot,
  same,
)

IsFresh-set :
    (r : Ring) (claims : List LoggingEvent) (old : ℕ) (d : EventData) (p : Producer)
    → ((c : ℕ) → held p ≡ some c → c < r.taken + r.size → c % length r.slots ≢ old % length r.slots)
    → IsFresh r claims p
    → IsFresh (record r { slots = set r.slots (old % length r.slots) d }) claims p
IsFresh-set r claims old d (claimed f c pending) apart h = h
IsFresh-set r claims old d (committing f c) apart (near, h) =
    (near, Stored-set r.slots claims old d c (apart c refl near) h)
IsFresh-set r claims old d idle apart h = tt
IsFresh-set r claims old d (starting f) apart h = tt
IsFresh-set r claims old d (entered f) apart h = tt
IsFresh-set r claims old d (read_events f m) apart h = tt
IsFresh-set r claims old d (read_dispatched f m) apart h = tt
IsFresh-set r claims old d (tested f m) apart h = tt
IsFresh-set r claims old d (waiting f) apart h = tt

-- A commit does not touch what the threads know.
IsFresh-commit :
    (r : Ring) (claims : List LoggingEvent) (n : ℕ) (p : Producer)
    → IsFresh r claims p
    → IsFresh (record r { committed = n }) claims p
IsFresh-commit r claims n (claimed f c pending) h = h
IsFresh-commit r claims n (committing f c) h = h
IsFresh-commit r claims n idle h = tt
IsFresh-commit r claims n (starting f) h = tt
IsFresh-commit r claims n (entered f) h = tt
IsFresh-commit r claims n (read_events f m) h = tt
IsFresh-commit r claims n (read_dispatched f m) h = tt
IsFresh-commit r claims n (tested f m) h = tt
IsFresh-commit r claims n (waiting f) h = tt

IsFresh-take :
    (r : Ring) (claims : List LoggingEvent) (p : Producer)
    → IsFresh r claims p
    → IsFresh (record r { taken = r.taken + 1 }) claims p
IsFresh-take r claims (claimed f c pending) h = h
IsFresh-take r claims (committing f c) (near, h) = (omega arith, h)
IsFresh-take r claims idle h = tt
IsFresh-take r claims (starting f) h = tt
IsFresh-take r claims (entered f) h = tt
IsFresh-take r claims (read_events f m) h = tt
IsFresh-take r claims (read_dispatched f m) h = tt
IsFresh-take r claims (tested f m) h = tt
IsFresh-take r claims (waiting f) h = tt

module _ (r : Ring) (producer : ℕ → Producer) (claims : List LoggingEvent)
    (out : List (Option LoggingEvent)) (v : Inv r producer claims out) (i : ℕ) where
  open v use {behind, pending, counted, window, positive, sized, in_order, stored, owners, fresh}

  -- A thread that has no count goes where it has none.
  pub Inv-quiet :
      (p : Producer)
      → held (producer i) ≡ none
      → held p ≡ none
      → IsFresh r claims p
      → Inv r (update i p producer) claims out
  Inv-quiet p free none_held own = record {
    behind = behind;
    pending = pending;
    counted = counted;
    window = window;
    positive = positive;
    sized = sized;
    in_order = in_order;
    stored = stored;
    owners = Owners-same i p producer (free ∙ sym none_held) owners;
    fresh = each_updated (IsFresh r claims) i p producer own (λ j _. fresh j);
  }

  pub Inv-claim :
      (e : LoggingEvent) (pending : ℕ)
      → held (producer i) ≡ none
      → Inv
          (record r { claimed = r.claimed + 1 })
          (update i (claimed e r.claimed pending) producer)
          (claims ++ e ∷ [])
          out
  Inv-claim e n free = record {
    behind = behind;
    pending = omega arith;
    counted = omega (arith, length-append claims (e ∷ []));
    window = window;
    positive = positive;
    sized = sized;
    in_order =
        in_order ∙ ap (map some) (sym (take-append_old r.taken claims (e ∷ []) (omega arith)));
    stored = λ k p q. Stored-append r.slots claims e k (stored k p q);
    owners =
        Owners-updated i (claimed e r.claimed n) producer
          (Owners-claim (λ j. held (producer j)) r.committed r.claimed i pending free owners);
    fresh =
        each_updated (IsFresh (record r { claimed = r.claimed + 1 }) (claims ++ e ∷ [])) i
          (claimed e r.claimed n) producer
          (ap (get_elem? (claims ++ e ∷ [])) counted ∙ get_elem?-append_new claims e)
          (λ j _. IsFresh-append r claims e (r.claimed + 1) (producer j) (fresh j));
  }

  -- Of two counts of the window, which two threads have or one of which is committed.
  window_apart :
      (a b : ℕ)
      → a ≢ b
      → r.taken ≤ a
      → r.taken ≤ b
      → a < r.taken + r.size
      → b < r.taken + r.size
      → a % length r.slots ≢ b % length r.slots
  window_apart a b ne p q p' q' same = elim (Bool-cases (ltb a b)) [
    | inl lt ↦ slots_apart a b (length r.slots) (ground arith) (ground (arith, sized)) same
    | inr ge ↦ slots_apart b a (length r.slots) (ground arith) (ground (arith, sized)) (sym same)
  ]

  pub Inv-write :
      (e : LoggingEvent) (old n : ℕ)
      → producer i ≡ claimed e old n
      → old < r.taken + r.size
      → let d : EventData = record { event = some e; pending_count = n } in
        Inv
          (record r { slots = set r.slots (old % length r.slots) d })
          (update i (committing e old) producer)
          claims
          out
  Inv-write e old n at near =
      let d : EventData = record { event = some e; pending_count = n } in
      let mine : held (producer i) ≡ some old = ap held at in
      let (after, _) = owners.owned i old mine in
      let new_ring : Ring = record r { slots = set r.slots (old % length r.slots) d } in
      record {
        behind = behind;
        pending = pending;
        counted = counted;
        window = window;
        positive = positive;
        sized = length-set r.slots (old % length r.slots) d ∙ sized;
        in_order = in_order;
        stored = λ k p q.
            Stored-set r.slots claims old d k
              (window_apart k old (λ same. omega arith) p (omega arith) (omega arith) near)
              (stored k p q);
        owners = Owners-same i (committing e old) producer mine owners;
        fresh =
            each_updated (IsFresh new_ring claims) i (committing e old) producer
              (
                near,
                (
                  e,
                  d,
                  subst (IsFresh r claims) at (fresh i),
                  ap (λ m. get_elem? new_ring.slots (old % m))
                        (length-set r.slots (old % length r.slots) d)
                      ∙ get_elem?-set_self r.slots (old % length r.slots) d
                          (mod-lt old (omega arith)),
                  refl,
                ),
              )
              (λ j ne.
                IsFresh-set r claims old d (producer j)
                  (λ c has c_near.
                    window_apart c old
                      (λ same. ne (owners.unique i j old mine (has ∙ ap some same)))
                      (let (l, _) = owners.owned j c has in omega arith) (omega arith) c_near near)
                  (fresh j));
      }

  pub Inv-commit :
      (e : LoggingEvent)
      → producer i ≡ committing e r.committed
      → Inv (record r { committed = r.committed + 1 }) (update i idle producer) claims out
  Inv-commit e at =
      let mine : held (producer i) ≡ some r.committed = ap held at in
      let (near, own) : IsFresh r claims (committing e r.committed) =
        subst (IsFresh r claims) at (fresh i) in
      let (_, below) = owners.owned i r.committed mine in
      record {
        behind = omega arith;
        pending = omega arith;
        counted = counted;
        window = omega arith;
        positive = positive;
        sized = sized;
        in_order = in_order;
        stored = λ k p q. elim (Bool-cases (k == r.committed)) [
          | inl last ↦ subst (Stored r.slots claims) (sym ((==_iff k r.committed).0 last)) own
          | inr old ↦ stored k p (ground arith)
        ];
        owners =
            Owners-updated i idle producer
              (Owners-commit (λ j. held (producer j)) r.committed r.claimed i mine owners);
        fresh =
            each_updated (IsFresh (record r { committed = r.committed + 1 }) claims) i idle producer
              tt (λ j _. IsFresh-commit r claims (r.committed + 1) (producer j) (fresh j));
      }

  pub Inv-take :
      (d : EventData)
      → r.taken ≢ r.committed
      → get_elem? r.slots (r.taken % length r.slots) ≡ some d
      → Inv (record r { taken = r.taken + 1 }) producer claims (out ++ d.event ∷ [])
  Inv-take d ne at =
      let (e, f, claim_at, slot, same) = stored r.taken (omega arith) (omega arith) in
      record {
        behind = omega arith;
        pending = pending;
        counted = counted;
        window = omega arith;
        positive = positive;
        sized = sized;
        in_order =
            ap (λ o. o ++ d.event ∷ []) in_order
            ∙ ap (λ x. map some (take r.taken claims) ++ x ∷ []) (cc (at, slot, same))
            ∙ map-take_one r.taken claims e claim_at;
        stored = λ k p q. stored k (omega arith) q;
        owners = owners;
        fresh = λ j. IsFresh-take r claims (producer j) (fresh j);
      }
