-- ===== src/Tests/Thresholds.antt =====
-- The kept levels of a root with a child and a grandchild.
use logging_log4cxx.Prelude.{
  ℕ, zero, suc, ◌≡◌, refl, true, Option, none, some, List, [], ◌∷◌, returned, arith, ℤ, ◌≤◌, length,
}
use logging_log4cxx.Level.{Level, debug, info, warn}
use logging_log4cxx.Logger.{is_enabled}
use logging_log4cxx.Logger.Ancestors.{Lineage}
use logging_log4cxx.Hierarchy.Children.{member}
use logging_log4cxx.Thresholds.{Repository, loggers_of, is_enabled_for_pointer}
use logging_log4cxx.Thresholds.Renewal.{IsRight}
use logging_log4cxx.Thresholds.Changes.{IsTree, Known}
use logging_log4cxx.Thresholds.Settings.{set_levels, last_level, set_levels-nearest}

abbrev at_address : ℕ → Level
at_address zero = debug
at_address (suc zero) = info
at_address (suc (suc a)) = warn

abbrev parent : ℕ → Option ℕ
parent zero = none
parent (suc l) = some l

abbrev family : Repository
family = record {
  parent = parent;
  level = λ l. elim l [ zero ↦ some 2 | suc _ ↦ none ];
  additive = λ l. true;
  threshold = λ l. warn.level;
  loggers = 1 ∷ 2 ∷ [];
  root = 0;
}

abbrev above : ℕ → List ℕ
above zero = []
above (suc l) = l ∷ above l

known-cases : (P : ℕ → Type 0) → P 0 → P 1 → P 2 → (x : ℕ) → Known family x → P x
known-cases P a b c zero k = a
known-cases P a b c (suc zero) k = b
known-cases P a b c (suc (suc zero)) k = c
known-cases P a b c (suc (suc (suc x))) k = absurd (ground arith)

family-IsTree : IsTree at_address 3 family above
family-IsTree = record {
  lineage =
      known-cases (λ x. Lineage (loggers_of at_address 3 family) (some x) (x ∷ above x))
        (refl, refl) (refl, (refl, refl)) (refl, (refl, (refl, refl)));
  short = known-cases (λ x. length (x ∷ above x) ≤ 3) (omega arith) (omega arith) (omega arith);
  rooted = known-cases (λ x. member 0 (x ∷ above x) ≡ true) refl refl refl;
  top = refl;
  root_level = (2, refl);
  right =
      known-cases (λ x. IsRight (loggers_of at_address 3 family) (λ l. warn.level) x (above x))
        (warn, refl, refl) (warn, refl, refl) (warn, refl, refl);
}

-- The child gets a level, the root is given another one and none, and the child loses its own again.
abbrev settings : List (ℕ × Option ℕ)
settings = (1, some 0) ∷ (0, some 1) ∷ (0, none) ∷ (1, none) ∷ []

set_levels-nearest_example :
    (r : Repository) × (set_levels at_address 3 settings family ≡ returned r)
    × ((x : ℕ) → r.level x ≡ last_level 0 x settings (family.level x))
    × ((x : ℕ) → Known family x → IsRight (loggers_of at_address 3 r) r.threshold x (above x))
    × ((x : ℕ) (level : ℤ) (threshold_int : Option ℤ)
        → Known family x
        → is_enabled_for_pointer at_address 3 level threshold_int r (some x)
          ≡ is_enabled level 3 (loggers_of at_address 3 r) threshold_int x)
set_levels-nearest_example =
    set_levels-nearest at_address 3 settings family above family-IsTree
      (refl, (refl, (refl, (refl, tt))))

last_of_child : last_level 0 1 settings none ≡ none
last_of_child = refl
