-- ===== src/Thresholds.antt =====
-- The levels that the loggers of src/main/cpp/logger.cpp keep in `m_threshold`, and the loop of
-- src/main/cpp/hierarchy.cpp that renews them. Levels and loggers are addresses; `pointee` is the
-- level at an address. A loop over ancestors is on the fuel `n`; without enough it is undefined.
pub mod Renewal
pub mod Changes
pub mod Settings
use logging_log4cxx.Prelude.{
  ℕ, zero, suc, Bool, true, false, not, ◌&&◌, Option, none, some, List, [], ◌∷◌, Outcome, returned,
  thrown, undefined, ◌>>=◌, if◌then◌else◌, ◌==◌, ℤ, leb_ℤ,
}
use logging_log4cxx.Level.{Level}
use logging_log4cxx.Logger.{Loggers, get_effective_level, is_enabled}

-- The fields of the loggers, the map of the hierarchy without its names, and the root.
pub record Repository : Type 0 where
  pub parent : ℕ → Option ℕ
  pub level : ℕ → Option ℕ
  pub additive : ℕ → Bool
  pub threshold : ℕ → ℤ
  pub loggers : List ℕ
  pub root : ℕ

abbrev write {ℓ} : {A : Type ℓ} → ℕ → A → (ℕ → A) → ℕ → A
write l a f x = if l == x then a else f x

-- Whether two level pointers are equal.
abbrev pub same_pointer : Option ℕ → Option ℕ → Bool
same_pointer none none = true
same_pointer none (some q) = false
same_pointer (some p) none = false
same_pointer (some p) (some q) = p == q

abbrev pub ended {ℓ} : {A : Type ℓ} → Option (Outcome A) → Outcome A
ended none = undefined
ended (some o) = o

module _ (pointee : ℕ → Level) (n : ℕ) where
  abbrev pub loggers_of : Repository → Loggers
  loggers_of r = record {
    parent = r.parent;
    level = λ l. elim (r.level l) [ none ↦ none | some p ↦ some (pointee p) ];
    additive = r.additive;
  }

  -- `Logger::updateThreshold`
  unfoldable pub update_threshold : ℕ → Repository → Outcome Repository
  update_threshold l r = do
    v ← ended (get_effective_level n (loggers_of r) (some l))
    returned (record r { threshold = write l v.level r.threshold })

  -- The inner loop of `Hierarchy::updateChildren`: whether it finds `parent` above a logger.
  unfoldable pub is_below : ℕ → Repository → ℕ → Option ℕ → Outcome Bool
  is_below m r parent none = returned false
  is_below zero r parent (some l) = undefined
  is_below (suc m) r parent (some l) =
      let rest = is_below m r parent (r.parent l) in
      if same_pointer (r.parent l) (some parent) then returned true else rest

  -- `Hierarchy::updateChildren(const Logger*)`, over the loggers of the map.
  unfoldable pub update_children : ℕ → List ℕ → Repository → Outcome Repository
  update_children parent [] r = returned r
  update_children parent (item ∷ items) r = do
    below ← is_below n r parent (some item)
    renewed ← if below then update_threshold item r else returned r
    update_children parent items renewed

  -- `Logger::setLevel`, in a hierarchy.
  unfoldable pub set_level : ℕ → Option ℕ → Repository → Outcome Repository
  set_level l level1 r =
      if not (same_pointer (r.level l) level1)
      then (update_threshold l (record r { level = write l level1 r.level }) >>= λ renewed.
          update_children l renewed.loggers renewed)
      else returned r

  -- The virtual call: `RootLogger::setLevel` refuses a null pointer and reports it.
  unfoldable pub request_level : ℕ → Option ℕ → Repository → Outcome Repository
  request_level l none r = if l == r.root then returned r else set_level l none r
  request_level l (some p) r = set_level l (some p) r

  -- The inline test of src/main/include/log4cxx/logger.h, such as `isDebugEnabledFor`: the kept level
  -- first, and then the walk.
  unfoldable pub is_enabled_for_pointer :
      ℤ → Option ℤ → Repository → Option ℕ → Option (Outcome Bool)
  is_enabled_for_pointer level threshold_int r none = some (returned false)
  is_enabled_for_pointer level threshold_int r (some l) =
      if leb_ℤ (r.threshold l) level
      then is_enabled level n (loggers_of r) threshold_int l
      else some (returned false)
