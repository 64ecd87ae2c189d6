-- ===== src/Logger/Ancestors.antt =====
-- The loops of src/main/cpp/logger.cpp over the ancestors of a logger, as functions of their list.
use native.Mathlib.Nat.{zero-add}
use logging_log4cxx.Prelude.{
  ℕ, zero, suc, ◌+◌, ◌≤◌, ◌≡◌, refl, ap, ◌∙◌, Bool, true, false, Outcome, returned, thrown,
  null_pointer, Option, none, some, List, [], ◌∷◌, if◌then◌else◌, ◌==◌, ◌&&◌, not, length,
  Option-cases, Bool-cases, inl, inr, arith, ℤ, leb_ℤ, ◌≤ℤ◌, ◌↔◌,
}
use logging_log4cxx.Level.{Level}
use logging_log4cxx.Logger.{
  Loggers, get_effective_level, is_enabled, is_disabled, at_most, add_call, call_loop,
  call_appenders, called,
}

-- From a pointer on, the loggers of the list are the ancestors, up to the root.
abbrev pub Lineage : Loggers → Option ℕ → List ℕ → Type 0
Lineage ls p [] = p ≡ none
Lineage ls p (l ∷ rest) = (p ≡ some l) × Lineage ls (ls.parent l) rest

-- The level of the nearest logger of the list that has one.
abbrev pub nearest : Loggers → List ℕ → Outcome Level
nearest ls [] = thrown null_pointer
nearest ls (l ∷ rest) = elim (ls.level l) [ some v ↦ returned v | none ↦ nearest ls rest ]

-- The loggers of the list up to the first that is not additive.
abbrev pub up_to_additive : Loggers → List ℕ → List ℕ
up_to_additive ls [] = []
up_to_additive ls (l ∷ rest) = if ls.additive l then l ∷ up_to_additive ls rest else l ∷ []

abbrev pub sum : (ℕ → ℕ) → List ℕ → ℕ
sum f [] = 0
sum f (l ∷ rest) = f l + sum f rest

-- On fuel for as many loggers as the list has, `getEffectiveLevel` ends with the level of the nearest
-- of them, the logger itself first, that has a level, and throws where none has.
pub get_effective_level-nearest :
    (n : ℕ) (ls : Loggers) (p : Option ℕ) (lineage : List ℕ)
    → Lineage ls p lineage
    → length lineage ≤ n
    → get_effective_level n ls p ≡ some (nearest ls lineage)
unfolding get_effective_level
get_effective_level-nearest zero ls p [] c le = rw c refl
get_effective_level-nearest (suc n) ls p [] c le = rw c refl
get_effective_level-nearest zero ls p (l ∷ rest) c le = absurd (omega arith)
get_effective_level-nearest (suc n) ls p (l ∷ rest) (e, c) le = elim (Option-cases (ls.level l)) [
  | inl h ↦
      rw (e, get_effective_level, h, nearest)
        (get_effective_level-nearest n ls (ls.parent l) rest c (omega arith))
  | inr (v, h) ↦ rw (e, get_effective_level, h, nearest) refl
]

enabled_iff :
    (level threshold v : ℤ)
    → ◌≡◌ {A = Option (Outcome Bool)}
        (if is_disabled threshold level
          then some (returned false)
          else some (returned (leb_ℤ v level)))
        (some (returned true))
      ↔ ((threshold ≤ℤ level) × (v ≤ℤ level))
enabled_iff level threshold v = ground arith

-- On fuel for as many loggers as its lineage has, a level is enabled for a logger in a hierarchy exactly
-- where it is neither below the threshold of the hierarchy nor below the level of the nearest of the
-- logger and its ancestors that has one, provided that one of them has.
pub is_enabled-nearest :
    (level threshold : ℤ) (n : ℕ) (ls : Loggers) (l : ℕ) (rest : List ℕ) (v : Level)
    → Lineage ls (some l) (l ∷ rest)
    → nearest ls (l ∷ rest) ≡ returned v
    → length (l ∷ rest) ≤ n
    → (is_enabled level n ls (some threshold) l ≡ some (returned true))
      ↔ ((threshold ≤ℤ level) × (v.level ≤ℤ level))
unfolding is_enabled at_most
is_enabled-nearest level threshold n ls l rest v c near le =
    rw (get_effective_level-nearest n ls (some l) (l ∷ rest) c le, near, at_most)
      (enabled_iff level threshold v.level)

-- Below the nearest level, nothing is enabled.
pub is_enabled-below :
    (level : ℤ) (threshold_int : Option ℤ) (n : ℕ) (ls : Loggers) (l : ℕ) (rest : List ℕ)
    (v : Level)
    → Lineage ls (some l) (l ∷ rest)
    → nearest ls (l ∷ rest) ≡ returned v
    → length (l ∷ rest) ≤ n
    → leb_ℤ v.level level ≡ false
    → is_enabled level n ls threshold_int l ≡ some (returned false)
unfolding is_enabled at_most
is_enabled-below level none n ls l rest v c near le below = refl
is_enabled-below level (some threshold) n ls l rest v c near le below =
    rw (get_effective_level-nearest n ls (some l) (l ∷ rest) c le, near, at_most, below)
      (ground arith)

-- There is a hierarchy, and it has not warned yet.
abbrev pub is_unwarned : Option Bool → Bool
is_unwarned none = false
is_unwarned (some emitted) = not emitted

abbrev pub now_warned : Option Bool → Option Bool
now_warned none = none
now_warned (some emitted) = some true

module _ (append_loop : ℕ → ℕ) where
  call_loop-list :
      (n : ℕ) (ls : Loggers) (p : Option ℕ) (writes : ℕ) (lineage : List ℕ)
      → Lineage ls p lineage
      → length lineage ≤ n
      → call_loop append_loop n ls p writes
        ≡ some (up_to_additive ls lineage, writes + sum append_loop (up_to_additive ls lineage))
  unfolding call_loop add_call
  call_loop-list zero ls p writes [] c le = rw c (ground arith)
  call_loop-list (suc n) ls p writes [] c le = rw c (ground arith)
  call_loop-list zero ls p writes (l ∷ rest) c le = absurd (omega arith)
  call_loop-list (suc n) ls p writes (l ∷ rest) (e, c) le =
      let ih = call_loop-list n ls (ls.parent l) (writes + append_loop l) rest c (omega arith) in
      elim (Bool-cases (ls.additive l)) [
        | inl h ↦ rw (e, call_loop, h, ih) (ground arith)
        | inr h ↦ rw (e, call_loop, h) (ground arith)
      ]

  warning :
      (rep : Option Bool) (ls : List ℕ) (writes : ℕ)
      → called append_loop rep (some (ls, writes))
        ≡ some (record {
          loggers = ls;
          warned = writes == 0 && is_unwarned rep;
          hierarchy = if writes == 0 then now_warned rep else rep;
        })
  unfolding called
  warning none ls writes = ground arith
  warning (some emitted) ls writes = elim (Bool-cases (writes == 0)) [
    | inl e ↦ rw e (ground arith)
    | inr e ↦ rw e refl
  ]

  -- On fuel for as many loggers as its lineage has, `callAppenders` ends: it has called the appenders
  -- of the logger and of its ancestors up to the first logger that is not additive, that one
  -- included, in this order. Exactly where these have no appender, and there is a hierarchy that has not
  -- warned before, there is a warning; where they have none, the hierarchy then counts as having warned.
  pub call_appenders-additive :
      (n : ℕ) (ls : Loggers) (rep : Option Bool) (l : ℕ) (rest : List ℕ)
      → Lineage ls (some l) (l ∷ rest)
      → length (l ∷ rest) ≤ n
      → call_appenders append_loop n ls rep l
        ≡ some (record {
          loggers = up_to_additive ls (l ∷ rest);
          warned = sum append_loop (up_to_additive ls (l ∷ rest)) == 0 && is_unwarned rep;
          hierarchy =
              if sum append_loop (up_to_additive ls (l ∷ rest)) == 0 then now_warned rep else rep;
        })
  unfolding call_appenders
  call_appenders-additive n ls rep l rest c le =
      ap (called append_loop rep) (
        call_loop-list n ls (some l) 0 (l ∷ rest) c le
        ∙ ap (λ k. some (up_to_additive ls (l ∷ rest), k))
            (zero-add (sum append_loop (up_to_additive ls (l ∷ rest)))))
      ∙ warning rep (up_to_additive ls (l ∷ rest)) (sum append_loop (up_to_additive ls (l ∷ rest)))
