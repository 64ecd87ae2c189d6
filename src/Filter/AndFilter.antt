-- ===== src/Filter/AndFilter.antt =====
-- src/main/cpp/andfilter.cpp. `decide_filter` is the virtual call of a filter of the chain.
use logging_log4cxx.Prelude.{
  ℕ, zero, suc, ◌≤◌, ◌≡◌, ◌≢◌, ◌++◌, refl, ap, ◌∙◌, Bool, true, false, ◌&&◌, Outcome, returned,
  undefined, ◌>>=◌, Option, none, some, List, [], ◌∷◌, length, if◌then◌else◌, arith,
}
use logging_log4cxx.Filter.{Decision, deny, neutral, accept, LoggingEvent, Next, get_next, set_next}
use logging_log4cxx.Filter.Chains.{Chain}

pub record AndFilter : Type 0 where
  pub head_filter : Option ℕ
  pub tail_filter : Option ℕ
  pub accept_on_match : Bool

unfoldable pub new : AndFilter
new = record { head_filter = none; tail_filter = none; accept_on_match = true }

-- `addFilter`, which leaves `tailFilter` where it is.
unfoldable pub add_filter : Option ℕ → Next → AndFilter → Outcome (Next × AndFilter)
unfolding set_next
add_filter filter next a = elim a.head_filter [
  | none ↦ returned (next, record a { head_filter = filter; tail_filter = filter })
  | some head ↦ elim a.tail_filter [
    | none ↦ undefined
    | some tail ↦ returned (set_next tail filter next, a)
  ]
]

unfoldable pub set_accept_on_match : Bool → AndFilter → AndFilter
set_accept_on_match value a = record a { accept_on_match = value }

abbrev pub is_accept : Decision → Bool
is_accept deny = false
is_accept neutral = false
is_accept accept = true

module _ (decide_filter : ℕ → LoggingEvent → Decision) where
  -- The loop, on fuel: `&&` asks no filter any more after one that did not accept.
  unfoldable pub all_accept : ℕ → Option ℕ → Bool → Next → LoggingEvent → Option Bool
  unfolding get_next
  all_accept n none accepted next event = some accepted
  all_accept zero (some f) accepted next event = none
  all_accept (suc n) (some f) accepted next event =
      all_accept n (get_next f next) (accepted && is_accept (decide_filter f event)) next event

  abbrev decision : Bool → Option Bool → Option Decision
  decision accept_on_match none = none
  decision accept_on_match (some accepted) =
      some (if accepted then (if accept_on_match then accept else deny) else neutral)

  unfoldable pub decide : ℕ → Next → LoggingEvent → AndFilter → Option Decision
  unfolding all_accept
  decide n next event a = decision a.accept_on_match (all_accept n a.head_filter true next event)

  -- Every filter of the list accepts.
  abbrev pub conjunction : LoggingEvent → List ℕ → Bool
  conjunction event [] = true
  conjunction event (f ∷ fs) = is_accept (decide_filter f event) && conjunction event fs

  all_accept-Chain :
      (n : ℕ) (p : Option ℕ) (accepted : Bool) (next : Next) (event : LoggingEvent) (fs : List ℕ)
      → Chain next p fs
      → length fs ≤ n
      → all_accept n p accepted next event ≡ some (accepted && conjunction event fs)
  unfolding all_accept get_next
  all_accept-Chain zero p accepted next event [] c le = rw c (ground arith)
  all_accept-Chain (suc n) p accepted next event [] c le = rw c (ground arith)
  all_accept-Chain zero p accepted next event (f ∷ fs) c le = absurd (omega arith)
  all_accept-Chain (suc n) p accepted next event (f ∷ fs) (e, c) le =
      rw (e, all_accept)
        (ground (
          arith,
          all_accept-Chain n (next f) (accepted && is_accept (decide_filter f event)) next event fs
              c (omega arith),
        ))

  -- An AND filter whose chain is the list ends on fuel for as many rounds, and answers as
  -- `acceptOnMatch` selects where every filter of the list accepts the event, and else NEUTRAL.
  pub decide-conjunction :
      (n : ℕ) (next : Next) (event : LoggingEvent) (a : AndFilter) (fs : List ℕ)
      → Chain next a.head_filter fs
      → length fs ≤ n
      → decide n next event a
        ≡ some
            (if conjunction event fs then (if a.accept_on_match then accept else deny) else neutral)
  unfolding decide
  decide-conjunction n next event a fs c le =
      rw (all_accept-Chain n a.head_filter true next event fs c le) refl

-- Adding the filters of a list one after the other.
unfoldable pub add_all : List ℕ → Next → AndFilter → Outcome (Next × AndFilter)
unfolding add_filter
add_all [] next a = returned (next, a)
add_all (f ∷ fs) next a = add_filter (some f) next a >>= λ (next', a'). add_all fs next' a'

linked :
    (next : Next) (a : AndFilter) (head tail : ℕ) (f : Option ℕ)
    → a.head_filter ≡ some head
    → a.tail_filter ≡ some tail
    → add_filter f next a ≡ returned (set_next tail f next, a)
unfolding add_filter
linked next a head tail f h t = ground (arith, h, t)

started :
    (next : Next) (a : AndFilter) (f : Option ℕ)
    → a.head_filter ≡ none
    → add_filter f next a ≡ returned (next, record a { head_filter = f; tail_filter = f })
unfolding add_filter
started next a f h = rw h refl

conjunction_two :
    (decide_filter : ℕ → LoggingEvent → Decision) (event : LoggingEvent) (f g : ℕ)
    → conjunction decide_filter event (f ∷ g ∷ [])
      ≡ (is_accept (decide_filter f event) && is_accept (decide_filter g event))
conjunction_two decide_filter event f g = ground arith

-- With a head that is its own tail, every addition links its filter behind the head, in place of the
-- one that stood there.
relinked :
    (next : Next) (a : AndFilter) (first : ℕ) (middle : List ℕ) (final : ℕ)
    → a.head_filter ≡ some first
    → a.tail_filter ≡ some first
    → first ≢ final
    → (next' : Next) × ((add_all (middle ++ (final ∷ [])) next a ≡ returned (next', a))
        × ((next' first ≡ some final) × (next' final ≡ next final)))
unfolding add_all add_filter set_next
relinked next a first [] final h t ne = (
  set_next first (some final) next,
  (
    ap (λ r. r >>= λ (n, b). returned (n, b)) (linked next a first first (some final) h t),
    (ground arith, ground (arith, ne)),
  ),
)
relinked next a first (m ∷ middle) final h t ne =
    let (next', (eq, (to, same))) =
      relinked (set_next first (some m) next) a first middle final h t ne in
    (
      next',
      (
        ap (λ r. r >>= λ (n, b). add_all (middle ++ (final ∷ [])) n b)
              (linked next a first first (some m) h t)
            ∙ eq,
        (to, same ∙ ground (arith, ne)),
      ),
    )

-- Let two filters or more be added one after the other to an AND filter that has none, the first and
-- the last of them different objects, and the last with no successor. Only these two are ever asked: the
-- AND filter answers as `acceptOnMatch` selects where these two accept the event, and else NEUTRAL,
-- whatever the filters between them decide.
pub add_all-decide :
    (decide_filter : ℕ → LoggingEvent → Decision) (next : Next) (event : LoggingEvent)
    (a : AndFilter) (first : ℕ) (middle : List ℕ) (final : ℕ)
    → a.head_filter ≡ none
    → first ≢ final
    → next final ≡ none
    → (next' : Next) × (a' : AndFilter) × ((add_all (first ∷ (middle ++ (final ∷ []))) next a
          ≡ returned (next', a'))
        × ((n : ℕ)
            → 2 ≤ n
            → decide decide_filter n next' event a'
              ≡ some (
                  if is_accept (decide_filter first event) && is_accept (decide_filter final event)
                  then (if a.accept_on_match then accept else deny)
                  else neutral)))
unfolding add_all add_filter
add_all-decide decide_filter next event a first middle final empty ne free =
    let a1 : AndFilter = record a { head_filter = some first; tail_filter = some first } in
    let (next', (eq, (to, same))) = relinked next a1 first middle final refl refl ne in
    (
      next',
      a1,
      (
        ap (λ r. r >>= λ (n, b). add_all (middle ++ (final ∷ [])) n b)
              (started next a (some first) empty)
            ∙ eq,
        λ n le.
            decide-conjunction decide_filter n next' event a1 (first ∷ final ∷ [])
              (refl, (to, same ∙ free)) le
            ∙ ap (λ r. some (if r then (if a.accept_on_match then accept else deny) else neutral))
                (conjunction_two decide_filter event first final),
      ),
    )
