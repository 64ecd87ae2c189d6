-- ===== src/Thresholds/Renewal.antt =====
-- src/main/cpp/hierarchy.cpp, updateChildren(const Logger*): which kept levels it renews.
use logging_log4cxx.Prelude.{
  ℕ, zero, suc, ◌≤◌, ◌≡◌, refl, ap, ◌∙◌, subst, ◌⊎◌, inl, inr, true, false, Bool-cases, some, List,
  [], ◌∷◌, returned, arith, if◌then◌else◌, ◌==◌, ==_iff, ==_self, ℤ, length,
}
use logging_log4cxx.Level.{Level}
use logging_log4cxx.Logger.{Loggers}
use logging_log4cxx.Logger.Ancestors.{Lineage, nearest, get_effective_level-nearest}
use logging_log4cxx.Hierarchy.Children.{member}
use logging_log4cxx.Thresholds.{Repository, loggers_of, update_threshold, is_below, update_children}

-- A logger above which the loggers of a list come, up to the root; one of these has a level.
pub record Placed (n : ℕ) (ls : Loggers) (l : ℕ) (rest : List ℕ) : Type 0 where
  pub lineage : Lineage ls (some l) (l ∷ rest)
  pub short : length (l ∷ rest) ≤ n
  pub value : Level
  pub effective : nearest ls (l ∷ rest) ≡ returned value

-- The kept level is the nearest one.
abbrev pub IsRight : Loggers → (ℕ → ℤ) → ℕ → List ℕ → Type 0
IsRight ls threshold l rest =
    (v : Level) × (nearest ls (l ∷ rest) ≡ returned v) × (threshold l ≡ v.level)

IsRight-kept :
    (ls : Loggers) (t t' : ℕ → ℤ) (x : ℕ) (rest : List ℕ)
    → t' x ≡ t x
    → IsRight ls t x rest
    → IsRight ls t' x rest
IsRight-kept ls t t' x rest same (v, e, f) = (v, e, same ∙ f)

member-later :
    (x i : ℕ) (items : List ℕ)
    → (i == x) ≡ false
    → member x (i ∷ items) ≡ true
    → member x items ≡ true
member-later x i items ne there = ground (arith, ne, there)

module _ (pointee : ℕ → Level) (n : ℕ) where
  pub update_threshold-Placed :
      (r : Repository) (l : ℕ) (rest : List ℕ)
      → Placed n (loggers_of pointee n r) l rest
      → (t : ℕ → ℤ) × (update_threshold pointee n l r ≡ returned (record r { threshold = t }))
        × IsRight (loggers_of pointee n r) t l rest
        × ((x : ℕ) → (l == x) ≡ false → t x ≡ r.threshold x)
  unfolding update_threshold
  update_threshold-Placed r l rest p =
      let t : ℕ → ℤ = λ x. if l == x then p.value.level else r.threshold x in
      let walk =
        get_effective_level-nearest n (loggers_of pointee n r) (some l) (l ∷ rest) p.lineage
          p.short in
      (
        t,
        rw (walk, p.effective) refl,
        (p.value, p.effective, rw (==_self l) refl),
        λ x ne. rw ne refl,
      )

  is_below-member :
      (m : ℕ) (r : Repository) (k l : ℕ) (rest : List ℕ)
      → Lineage (loggers_of pointee n r) (some l) (l ∷ rest)
      → length (l ∷ rest) ≤ m
      → is_below pointee n m r k (some l) ≡ returned (member k rest)
  unfolding is_below
  is_below-member zero r k l rest c le = absurd (omega arith)
  is_below-member (suc m) r k l [] (e, c) le = rw c refl
  is_below-member (suc m) r k l (p ∷ rest) (e, (c, c')) le =
      rw (c, is_below-member m r k p rest (refl, c') (omega arith)) (ground arith)

  -- The loop does not fail. It renews the loggers of the list that have the changed one above them,
  -- and keeps right what was right.
  abbrev pub Renews : ℕ → List ℕ → Repository → (ℕ → List ℕ) → Type 0
  Renews k items r rest =
      (t : ℕ → ℤ) × (update_children pointee n k items r ≡ returned (record r { threshold = t }))
      × ((x : ℕ)
          → IsRight (loggers_of pointee n r) r.threshold x (rest x)
            ⊎ ((member x items ≡ true) × (member k (rest x) ≡ true))
          → IsRight (loggers_of pointee n r) t x (rest x))

  module _ (k i : ℕ) (items : List ℕ) (r : Repository) (rest : ℕ → List ℕ)
      (below : is_below pointee n n r k (some i) ≡ returned (member k (rest i))) where
    Renews-skip : member k (rest i) ≡ false → Renews k items r rest → Renews k (i ∷ items) r rest
    unfolding update_children
    Renews-skip outside (t, e, right) = (
      t,
      rw (below, outside) e,
      λ x old. right x (elim old [
        | inl kept ↦ inl kept
        | inr (there, above) ↦ elim (Bool-cases (i == x)) [
          | inl same ↦
              absurd (cc (ap (λ y. member k (rest y)) ((==_iff i x).0 same), outside, above))
          | inr ne ↦ inr (member-later x i items ne there, above)
        ]
      ]),
    )

    Renews-renewed :
        member k (rest i) ≡ true
        → (t1 : ℕ → ℤ) → update_threshold pointee n i r ≡ returned (record r { threshold = t1 })
        → IsRight (loggers_of pointee n r) t1 i (rest i)
        → ((x : ℕ) → (i == x) ≡ false → t1 x ≡ r.threshold x)
        → Renews k items (record r { threshold = t1 }) rest
        → Renews k (i ∷ items) r rest
    unfolding update_children
    Renews-renewed inside t1 e1 own others (t, e, right) = (
      t,
      rw (below, inside, e1) e,
      λ x old. right x (elim (Bool-cases (i == x)) [
        | inl same ↦
            inl (
              subst (λ y. IsRight (loggers_of pointee n r) t1 y (rest y)) ((==_iff i x).0 same) own)
        | inr ne ↦ elim old [
          | inl kept ↦
              inl
                (IsRight-kept (loggers_of pointee n r) r.threshold t1 x (rest x) (others x ne) kept)
          | inr (there, above) ↦ inr (member-later x i items ne there, above)
        ]
      ]),
    )

  pub update_children-Renews :
      (k : ℕ) (items : List ℕ) (r : Repository) (rest : ℕ → List ℕ)
      → ((x : ℕ) → member x items ≡ true → Placed n (loggers_of pointee n r) x (rest x))
      → Renews k items r rest
  unfolding update_children
  update_children-Renews k [] r rest placed = (
    r.threshold,
    refl,
    λ x old. elim old [ inl kept ↦ kept | inr (there, above) ↦ absurd (cc there) ],
  )
  update_children-Renews k (i ∷ items) r rest placed =
      let p = placed i (ground arith) in
      let below = is_below-member n r k i (rest i) p.lineage p.short in
      let later : (x : ℕ) → member x items ≡ true → Placed n (loggers_of pointee n r) x (rest x) =
        λ x there. placed x (ground (arith, there)) in
      elim (Bool-cases (member k (rest i))) [
        | inr outside ↦
            Renews-skip k i items r rest below outside (update_children-Renews k items r rest later)
        | inl inside ↦
            let (t1, e1, own, others) = update_threshold-Placed r i (rest i) p in
            Renews-renewed k i items r rest below inside t1 e1 own others
              (update_children-Renews k items (record r { threshold = t1 }) rest later)
      ]
