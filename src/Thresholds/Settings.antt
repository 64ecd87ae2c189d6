-- ===== src/Thresholds/Settings.antt =====
-- src/main/cpp/logger.cpp, setLevel: sequences of calls for the loggers of a hierarchy, and the
-- inline tests of src/main/include/log4cxx/logger.h.
use logging_log4cxx.Prelude.{
  ℕ, ◌≡◌, refl, sym, ap, ◌∙◌, inl, inr, Bool, true, false, not, ◌&&◌, ◌||◌, Bool-cases, Option,
  none, some, List, [], ◌∷◌, Outcome, returned, ◌>>=◌, arith, if◌then◌else◌, ◌==◌, ℤ, leb_ℤ,
}
use logging_log4cxx.Level.{Level}
use logging_log4cxx.Logger.{is_enabled}
use logging_log4cxx.Logger.Ancestors.{is_enabled-below}
use logging_log4cxx.Hierarchy.Children.{member}
use logging_log4cxx.Thresholds.{Repository, loggers_of, request_level, is_enabled_for_pointer}
use logging_log4cxx.Thresholds.Renewal.{IsRight}
use logging_log4cxx.Thresholds.Changes.{Known, IsTree, Sets, set_level-Sets}

-- The root keeps its level where it is given none.
abbrev pub accepted : ℕ → ℕ → Option ℕ → Bool
accepted root l none = not (l == root)
accepted root l (some p) = true

-- The last level that was given to `x` and accepted, behind the level `d`.
abbrev pub last_level : ℕ → ℕ → List (ℕ × Option ℕ) → Option ℕ → Option ℕ
last_level root x [] d = d
last_level root x ((l, p) ∷ settings) d =
    last_level root x settings (if l == x && accepted root l p then p else d)

-- The calls are for loggers of the map.
abbrev pub AllKnown : ℕ → List ℕ → List (ℕ × Option ℕ) → Type 0
AllKnown root loggers [] = Unit {0}
AllKnown root loggers ((l, p) ∷ settings) =
    ((l == root || member l loggers) ≡ true) × AllKnown root loggers settings

and_true : (b : Bool) → (b && true) ≡ b
and_true b = ground arith

and_false : (b : Bool) → (b && false) ≡ false
and_false b = ground arith

module _ (pointee : ℕ → Level) (n : ℕ) where
  -- Calls of `setLevel`, one after the other.
  unfoldable pub set_levels : List (ℕ × Option ℕ) → Repository → Outcome Repository
  set_levels [] r = returned r
  set_levels ((l, p) ∷ settings) r = request_level pointee n l p r >>= set_levels settings

  request_level-Sets :
      (r : Repository) (rest : ℕ → List ℕ) (l : ℕ) (p : Option ℕ)
      → IsTree pointee n r rest
      → Known r l
      → Sets pointee n r rest
          (request_level pointee n l p r)
          (λ x. if l == x && accepted r.root l p then p else r.level x)
  unfolding request_level Sets
  request_level-Sets r rest l (some p) tree known =
      let (f, t, e, tree', levels) =
        set_level-Sets pointee n r rest l (some p) tree known (λ e. absurd (cc e)) in
      (
        f,
        t,
        e,
        tree',
        λ x. levels x ∙ ap (λ b. if b then some p else r.level x) (sym (and_true (l == x))),
      )
  request_level-Sets r rest l none tree known = elim (Bool-cases (l == r.root)) [
    | inl e ↦ (
      r.level,
      r.threshold,
      rw e refl,
      tree,
      λ x. rw e (ap (λ b. if b then none else r.level x) (sym (and_false (l == x)))),
    )
    | inr ne ↦
        let (f, t, e, tree', levels) =
          set_level-Sets pointee n r rest l none tree known (λ e. ne) in
        (
          f,
          t,
          rw ne e,
          tree',
          λ x. levels x ∙ rw ne (ap (λ b. if b then none else r.level x) (sym (and_true (l == x)))),
        )
  ]

  set_levels-Sets :
      (settings : List (ℕ × Option ℕ)) (r : Repository) (rest : ℕ → List ℕ)
      → IsTree pointee n r rest
      → AllKnown r.root r.loggers settings
      → Sets pointee n r rest
          (set_levels settings r)
          (λ x. last_level r.root x settings (r.level x))
  unfolding set_levels Sets
  set_levels-Sets [] r rest tree known = (r.level, r.threshold, refl, tree, λ x. refl)
  set_levels-Sets ((l, p) ∷ settings) r rest tree (known, others) =
      let (f, t, e, tree', levels) = request_level-Sets r rest l p tree known in
      let (f', t', e', tree'', levels') =
        set_levels-Sets settings (record r { level = f; threshold = t }) rest tree' others in
      (f', t', rw e e', tree'', λ x. levels' x ∙ ap (last_level r.root x settings) (levels x))

  -- The kept level decides no test otherwise than the walk does.
  is_enabled_for_pointer-walk :
      (r : Repository) (rest : ℕ → List ℕ) (x : ℕ) (level : ℤ) (threshold_int : Option ℤ)
      → IsTree pointee n r rest
      → Known r x
      → is_enabled_for_pointer pointee n level threshold_int r (some x)
        ≡ is_enabled level n (loggers_of pointee n r) threshold_int x
  unfolding is_enabled_for_pointer
  is_enabled_for_pointer-walk r rest x level threshold_int tree known =
      let (v, near, kept) = tree.right x known in
      elim (Bool-cases (leb_ℤ (r.threshold x) level)) [
        | inl e ↦ rw e refl
        | inr e ↦ rw e (
            sym (
              is_enabled-below level threshold_int n (loggers_of pointee n r) x (rest x) v
                (tree.lineage x known) near (tree.short x known)
                (ap (λ k. leb_ℤ k level) (sym kept) ∙ e)))
      ]

  -- Let the loggers of a hierarchy be a tree below its root, which has a level, let every logger keep
  -- the number of its nearest level, and let the fuel be enough for the longest line of ancestors.
  -- Any sequence of calls of `setLevel` for these loggers returns. After it each logger has the last
  -- level that it was given, a null pointer included but for the root; each logger keeps the number
  -- of the level of the nearest of itself and its ancestors that has one; and every inline test of
  -- a level, which asks the kept number first, gives what the walk of the ancestors gives.
  pub set_levels-nearest :
      (settings : List (ℕ × Option ℕ)) (r : Repository) (rest : ℕ → List ℕ)
      → IsTree pointee n r rest
      → AllKnown r.root r.loggers settings
      → (r' : Repository) × (set_levels settings r ≡ returned r')
        × ((x : ℕ) → r'.level x ≡ last_level r.root x settings (r.level x))
        × ((x : ℕ) → Known r x → IsRight (loggers_of pointee n r') r'.threshold x (rest x))
        × ((x : ℕ) (level : ℤ) (threshold_int : Option ℤ)
            → Known r x
            → is_enabled_for_pointer pointee n level threshold_int r' (some x)
              ≡ is_enabled level n (loggers_of pointee n r') threshold_int x)
  unfolding Sets
  set_levels-nearest settings r rest tree known =
      let (f, t, e, tree', levels) = set_levels-Sets settings r rest tree known in
      (
        _,
        e,
        levels,
        tree'.right,
        λ x level threshold_int k. is_enabled_for_pointer-walk _ rest x level threshold_int tree' k,
      )
