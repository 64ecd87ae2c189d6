-- ===== src/Appender/Filters.antt =====
-- The filters of an appender as the list in which they were added, and what `doAppend` makes of it.
use logging_log4cxx.Prelude.{
  ℕ, zero, suc, ◌≤◌, ◌≡◌, refl, sym, subst, ◌∙◌, ap, Bool, true, false, not, ◌&&◌, Outcome,
  returned, ◌>>=◌, Option, none, some, List, [], ◌∷◌, ◌++◌, map, append-nil, append_assoc, length,
  if◌then◌else◌, inl, inr, ◌⊎◌, arith,
}
use logging_log4cxx.Filter.{Decision, deny, neutral, accept, LoggingEvent, Next, set_next, get_next}
use logging_log4cxx.Filter.Chains.{
  Chain, Outside, Apart, last, Chain-link, Outside-last, Outside-append, Apart-append,
}
use logging_log4cxx.Appender.{
  AppenderSkeleton, add_filter, is_as_severe_as_threshold, Effect, refused, returned_early,
  appended, consult, do_append, effect,
}

-- The appender's filters are the list: a chain from its head, whose last filter is its tail.
abbrev pub Held : Next → AppenderSkeleton → List ℕ → Type 0
Held next s [] = s.head_filter ≡ none
Held next s (f ∷ fs) = Chain next s.head_filter (f ∷ fs) × (s.tail_filter ≡ some (last f fs))

last-append : (f : ℕ) (fs : List ℕ) (g : ℕ) → last f (fs ++ (g ∷ [])) ≡ g
last-append f [] g = refl
last-append f (h ∷ fs) g = last-append h fs g

-- The filters of the list have no successor.
abbrev pub Unlinked : Next → List ℕ → Type 0
Unlinked next [] = Unit {0}
Unlinked next (f ∷ fs) = (next f ≡ none) × Unlinked next fs

-- What adding one filter gives.
abbrev Added : Next → AppenderSkeleton → List ℕ → ℕ → Type 0
Added next s fs g =
    (next' : Next) × (s' : AppenderSkeleton) × ((add_filter (some g) next s ≡ returned (next', s'))
      × (Held next' s' (fs ++ (g ∷ []))
          × (((h : ℕ) → Outside h fs → next' h ≡ next h)
              × ((s'.closed ≡ s.closed) × (s'.threshold ≡ s.threshold)))))

Added-first :
    (next : Next) (s : AppenderSkeleton) (g : ℕ)
    → s.head_filter ≡ none
    → next g ≡ none
    → Added next s [] g
unfolding add_filter
Added-first next s g e free = (
  next,
  record s { head_filter = some g; tail_filter = some g },
  (rw e refl, (((refl, free), refl), ((λ h o. refl), (refl, refl)))),
)

Added-next :
    (next : Next) (s : AppenderSkeleton) (f : ℕ) (fs : List ℕ) (g : ℕ)
    → Held next s (f ∷ fs)
    → Apart (f ∷ fs)
    → Outside g (f ∷ fs)
    → next g ≡ none
    → Added next s (f ∷ fs) g
unfolding add_filter set_next
Added-next next s f fs g ((e, c), t) apart out free = (
  set_next (last f fs) (some g) next,
  record s { tail_filter = some g },
  (
    rw (e, t) refl,
    (
      (
        Chain-link next s.head_filter f fs g apart out free (e, c),
        ap (λ r. some r) (sym (last-append f fs g)),
      ),
      ((λ h o. let far = Outside-last h f fs o in ground (arith, far)), (refl, refl)),
    ),
  ),
)

added :
    (next : Next) (s : AppenderSkeleton) (fs : List ℕ) (g : ℕ)
    → Held next s fs
    → Apart fs
    → Outside g fs
    → next g ≡ none
    → Added next s fs g
added next s [] g held apart out free = Added-first next s g held free
added next s (f ∷ fs) g held apart out free = Added-next next s f fs g held apart out free

-- Adding the filters of a list one after the other.
unfoldable pub add_all : List ℕ → Next → AppenderSkeleton → Outcome (Next × AppenderSkeleton)
unfolding add_filter
add_all [] next s = returned (next, s)
add_all (f ∷ fs) next s = add_filter (some f) next s >>= λ (next', s'). add_all fs next' s'

-- The first decision other than NEUTRAL settles it, and a list without one admits the event.
abbrev pub admits : List Decision → Bool
admits [] = true
admits (deny ∷ ds) = false
admits (accept ∷ ds) = true
admits (neutral ∷ ds) = admits ds

module _ (decide : ℕ → LoggingEvent → Decision) where
  abbrev pub promised : LoggingEvent → AppenderSkeleton → List ℕ → Effect
  promised event s fs =
      if s.closed
      then refused
      else if is_as_severe_as_threshold (some event.level) s
          && admits (map (λ f. decide f event) fs)
      then appended
      else returned_early

  Decision-cases : (d : Decision) → (d ≡ deny) ⊎ ((d ≡ accept) ⊎ (d ≡ neutral))
  Decision-cases deny = inl refl
  Decision-cases accept = inr (inl refl)
  Decision-cases neutral = inr (inr refl)

  consult-Chain :
      (n : ℕ) (p : Option ℕ) (next : Next) (event : LoggingEvent) (fs : List ℕ)
      → Chain next p fs
      → length fs ≤ n
      → consult decide n p next event ≡ some (admits (map (λ f. decide f event) fs))
  unfolding consult get_next
  consult-Chain zero p next event [] c le = rw c refl
  consult-Chain (suc n) p next event [] c le = rw c refl
  consult-Chain zero p next event (f ∷ fs) c le = absurd (omega arith)
  consult-Chain (suc n) p next event (f ∷ fs) (e, c) le = elim (Decision-cases (decide f event)) [
    | inl d ↦ rw (e, consult, d) refl
    | inr (inl d) ↦ rw (e, consult, d) refl
    | inr (inr d) ↦ rw (e, consult, d) (consult-Chain n (next f) next event fs c (omega arith))
  ]

  Held-Chain :
      (next : Next) (s : AppenderSkeleton) (fs : List ℕ)
      → Held next s fs
      → Chain next s.head_filter fs
  Held-Chain next s [] held = held
  Held-Chain next s (f ∷ fs) held = held.0

  settled :
      (closed severe admitted : Bool) (walked : Option Bool)
      → walked ≡ some admitted
      → (if closed
          then some refused
          else if not severe
          then some returned_early
          else effect decide walked)
        ≡ some (if closed then refused else if severe && admitted then appended else returned_early)
  settled true severe admitted walked e = refl
  settled false true true walked e = rw e refl
  settled false true false walked e = rw e refl
  settled false false admitted walked e = refl

  -- On enough fuel for its filters, `doAppend` gives what the list of the filters promises.
  pub do_append-list :
      (n : ℕ) (next : Next) (event : LoggingEvent) (s : AppenderSkeleton) (fs : List ℕ)
      → Held next s fs
      → length fs ≤ n
      → do_append decide n next event s ≡ some (promised event s fs)
  unfolding do_append
  do_append-list n next event s fs held le =
      settled s.closed (is_as_severe_as_threshold (some event.level) s)
        (admits (map (λ f. decide f event) fs)) (consult decide n s.head_filter next event)
        (consult-Chain n s.head_filter next event fs (Held-Chain next s fs held) le)

abbrev Disjoint : List ℕ → List ℕ → Type 0
Disjoint [] done = Unit {0}
Disjoint (f ∷ fs) done = Outside f done × Disjoint fs done

Disjoint-nil : (fs : List ℕ) → Disjoint fs []
Disjoint-nil [] = _
Disjoint-nil (f ∷ fs) = (_, Disjoint-nil fs)

Disjoint-append :
    (fs done : List ℕ) (f : ℕ) → Outside f fs → Disjoint fs done → Disjoint fs (done ++ (f ∷ []))
Disjoint-append [] done f out d = _
Disjoint-append (g ∷ fs) done f (ne, out) (o, d) =
    (Outside-append g f done o (λ e. ne (sym e)), Disjoint-append fs done f out d)

Unlinked-kept :
    (next next' : Next) (done fs : List ℕ)
    → ((h : ℕ) → Outside h done → next' h ≡ next h)
    → Disjoint fs done
    → Unlinked next fs
    → Unlinked next' fs
Unlinked-kept next next' done [] same d u = _
Unlinked-kept next next' done (f ∷ fs) same (o, d) (e, u) =
    (same f o ∙ e, Unlinked-kept next next' done fs same d u)

-- What adding a list of filters gives.
abbrev AddedAll : Next → AppenderSkeleton → List ℕ → List ℕ → Type 0
AddedAll next s done fs =
    (next' : Next) × (s' : AppenderSkeleton) × ((add_all fs next s ≡ returned (next', s'))
      × (Held next' s' (done ++ fs) × ((s'.closed ≡ s.closed) × (s'.threshold ≡ s.threshold))))

added_all :
    (next : Next) (s : AppenderSkeleton) (done fs : List ℕ)
    → Held next s done
    → Apart done
    → Apart fs
    → Disjoint fs done
    → Unlinked next fs
    → AddedAll next s done fs
unfolding add_all
added_all next s done [] held apart apart' d u =
    (next, s, (refl, (subst (λ l. Held next s l) (sym (append-nil done)) held, (refl, refl))))
added_all next s done (f ∷ fs) held apart (out, apart') (o, d) (e, u) =
    let (next1, s1, (eq1, (held1, (same, (c1, t1))))) = added next s done f held apart o e in
    let (next2, s2, (eq2, (held2, (c2, t2)))) =
      added_all next1 s1 (done ++ (f ∷ [])) fs held1 (Apart-append done f apart o) apart'
        (Disjoint-append fs done f out d) (Unlinked-kept next next1 done fs same d u) in
    (
      next2,
      s2,
      (
        ap (λ r. r >>= λ (n, t). add_all fs n t) eq1 ∙ eq2,
        (subst (λ l. Held next2 s2 l) (append_assoc done (f ∷ []) fs) held2, (c2 ∙ c1, t2 ∙ t1)),
      ),
    )

module _ (decide : ℕ → LoggingEvent → Decision) where
  promised-same :
      (event : LoggingEvent) (s s' : AppenderSkeleton) (fs : List ℕ)
      → s'.closed ≡ s.closed
      → s'.threshold ≡ s.threshold
      → promised decide event s' fs ≡ promised decide event s fs
  unfolding is_as_severe_as_threshold
  promised-same event s s' fs c t = rw (c, t) refl

  -- Let filters that are different objects and have no successor be added one after the other to an
  -- appender without filters. No addition fails, and on fuel for as many rounds as there are filters
  -- `doAppend` ends: it refuses the event where the appender is closed, calls `append` where the level
  -- reaches the threshold and the first filter, in the order of the additions, whose decision is not
  -- NEUTRAL accepts the event or there is none, and else returns.
  pub add_all-do_append :
      (next : Next) (event : LoggingEvent) (s : AppenderSkeleton) (fs : List ℕ)
      → s.head_filter ≡ none
      → Apart fs
      → Unlinked next fs
      → (next' : Next) × (s' : AppenderSkeleton) × ((add_all fs next s ≡ returned (next', s'))
          × ((n : ℕ)
              → length fs ≤ n
              → do_append decide n next' event s' ≡ some (promised decide event s fs)))
  add_all-do_append next event s fs empty apart u =
      let (next', s', (eq, (held, (c, t)))) =
        added_all next s [] fs empty _ apart (Disjoint-nil fs) u in
      (
        next',
        s',
        (
          eq,
          λ n le.
              do_append-list decide n next' event s' fs held le
              ∙ ap (λ r. some r) (promised-same event s s' fs c t),
        ),
      )
