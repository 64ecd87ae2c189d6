-- ===== src/Thresholds/Changes.antt =====
-- src/main/cpp/logger.cpp, setLevel: what one call changes.
use logging_log4cxx.Prelude.{
  ℕ, ◌≤◌, ◌≡◌, refl, sym, ap, ◌∙◌, subst, inl, inr, true, false, ◌||◌, Bool-cases, Option-cases,
  Option, none, some, List, [], ◌∷◌, Outcome, returned, ◌>>=◌, arith, if◌then◌else◌, ◌==◌, ==_iff,
  ℤ, length,
}
use logging_log4cxx.Level.{Level}
use logging_log4cxx.Logger.{Loggers}
use logging_log4cxx.Logger.Ancestors.{Lineage, nearest}
use logging_log4cxx.Hierarchy.Children.{member}
use logging_log4cxx.Thresholds.{
  Repository, same_pointer, loggers_of, update_threshold, update_children, set_level,
}
use logging_log4cxx.Thresholds.Renewal.{
  Placed, IsRight, update_threshold-Placed, update_children-Renews,
}

Lineage-kept :
    (ls ls' : Loggers) (p : Option ℕ) (lineage : List ℕ)
    → ((x : ℕ) → ls'.parent x ≡ ls.parent x)
    → Lineage ls p lineage
    → Lineage ls' p lineage
Lineage-kept ls ls' p [] same c = c
Lineage-kept ls ls' p (l ∷ rest) same (e, c) = (
  e,
  subst (λ q. Lineage ls' q rest) (sym (same l)) (Lineage-kept ls ls' (ls.parent l) rest same c),
)

-- Where a logger of the list has a level, there is a nearest one.
nearest-member :
    (ls : Loggers) (lineage : List ℕ) (k : ℕ) (v : Level)
    → member k lineage ≡ true
    → ls.level k ≡ some v
    → (w : Level) × (nearest ls lineage ≡ returned w)
nearest-member ls [] k v there e = absurd (cc there)
nearest-member ls (l ∷ rest) k v there e = elim (Option-cases (ls.level l)) [
  | inr (w, f) ↦ (w, ap (λ o. elim o [ some u ↦ returned u | none ↦ nearest ls rest ]) f)
  | inl f ↦ elim (Bool-cases (l == k)) [
    | inl same ↦ absurd (cc (ap ls.level ((==_iff l k).0 same), e, f))
    | inr ne ↦
        let (w, g) = nearest-member ls rest k v (ground (arith, there, ne)) e in
        (w, ap (λ o. elim o [ some u ↦ returned u | none ↦ nearest ls rest ]) f ∙ g)
  ]
]

same_pointer-eq : (p q : Option ℕ) → same_pointer p q ≡ true → p ≡ q
same_pointer-eq none none e = refl
same_pointer-eq none (some q) e = absurd (cc e)
same_pointer-eq (some p) none e = absurd (cc e)
same_pointer-eq (some p) (some q) e = ap (λ k. some k) ((==_iff p q).0 e)

unchanged :
    (l x : ℕ) (old p own : Option ℕ)
    → old ≡ p
    → (l ≡ x → old ≡ own)
    → own ≡ (if l == x then p else own)
unchanged l x old p own e f = elim (Bool-cases (l == x)) [
  | inl g ↦ rw g (sym (f ((==_iff l x).0 g)) ∙ e)
  | inr g ↦ rw g refl
]

-- The level of a logger outside of the list does not matter.
nearest-kept :
    (ls ls' : Loggers) (l : ℕ) (lineage : List ℕ)
    → ((x : ℕ) → (l == x) ≡ false → ls'.level x ≡ ls.level x)
    → member l lineage ≡ false
    → nearest ls' lineage ≡ nearest ls lineage
nearest-kept ls ls' l [] same outside = refl
nearest-kept ls ls' l (x ∷ rest) same outside =
    let ne : (l == x) ≡ false = ground arith in
    let later : member l rest ≡ false = ground (arith, outside) in
    ap (λ o. elim o [ some u ↦ returned u | none ↦ nearest ls' rest ]) (same x ne)
    ∙ ap (λ o. elim (ls.level x) [ some u ↦ returned u | none ↦ o ])
        (nearest-kept ls ls' l rest same later)

-- The root, or a logger of the map.
abbrev pub Known : Repository → ℕ → Type 0
Known r x = (x == r.root || member x r.loggers) ≡ true

module _ (pointee : ℕ → Level) (n : ℕ) where
  -- Every logger of the map has the root at the top of its ancestors, the root has none and has a
  -- level, and every kept level is right.
  pub record IsTree (r : Repository) (rest : ℕ → List ℕ) : Type 0 where
    pub lineage : (x : ℕ) → Known r x → Lineage (loggers_of pointee n r) (some x) (x ∷ rest x)
    pub short : (x : ℕ) → Known r x → length (x ∷ rest x) ≤ n
    pub rooted : (x : ℕ) → Known r x → member r.root (x ∷ rest x) ≡ true
    pub top : rest r.root ≡ []
    pub root_level : (p : ℕ) × (r.level r.root ≡ some p)
    pub right : (x : ℕ) → Known r x → IsRight (loggers_of pointee n r) r.threshold x (rest x)

  -- The repository with other levels and kept levels.
  abbrev pub changed : Repository → (ℕ → Option ℕ) → (ℕ → ℤ) → Repository
  changed r level t = record r { level = level; threshold = t }

  module _ (r : Repository) (rest : ℕ → List ℕ) (tree : IsTree r rest) (l : ℕ) (known : Known r l)
      (level : ℕ → Option ℕ) (rooted_level : (p : ℕ) × (level r.root ≡ some p))
      (others : (x : ℕ) → (l == x) ≡ false → level x ≡ r.level x) where
    ls' : Loggers
    ls' = loggers_of pointee n (changed r level r.threshold)

    placed : (x : ℕ) → Known r x → Placed n ls' x (rest x)
    unfolding ls'
    placed x k =
        let (p, e) = rooted_level in
        let (v, f) =
          nearest-member ls' (x ∷ rest x) r.root (pointee p) (tree.rooted x k) (rw e refl) in
        record {
          lineage =
              Lineage-kept (loggers_of pointee n r) ls' (some x) (x ∷ rest x) (λ y. refl)
                (tree.lineage x k);
          short = tree.short x k;
          value = v;
          effective = f;
        }

    -- A logger that is not below the changed one keeps what is right.
    kept :
        (t : ℕ → ℤ) (x : ℕ)
        → Known r x
        → member l (x ∷ rest x) ≡ false
        → t x ≡ r.threshold x
        → IsRight ls' t x (rest x)
    unfolding ls'
    kept t x k outside same =
        let (v, e, f) = tree.right x k in
        (
          v,
          nearest-kept (loggers_of pointee n r) ls' l (x ∷ rest x) (λ y ne. rw (others y ne) refl)
                outside
              ∙ e,
          same ∙ f,
        )

    in_map : (x : ℕ) → Known r x → member l (rest x) ≡ true → member x r.loggers ≡ true
    in_map x k above = elim (Bool-cases (x == r.root)) [
      | inl e ↦
          absurd (
            cc (ap (λ y. member l (rest y)) ((==_iff x r.root).0 e), ap (member l) tree.top, above))
      | inr e ↦ ground (arith, k, e)
    ]

    renewed :
        (t : ℕ → ℤ) × (update_threshold pointee n l (changed r level r.threshold)
            >>= (λ (s : Repository). update_children pointee n l s.loggers s)
          ≡ returned (changed r level t))
        × ((x : ℕ) → Known r x → IsRight ls' t x (rest x))
    unfolding ls'
    renewed =
        let (t1, e1, own, same) =
          update_threshold-Placed pointee n (changed r level r.threshold) l (rest l)
            (placed l known) in
        let (t, e, right) =
          update_children-Renews pointee n l r.loggers (changed r level t1) rest
            (λ x m. placed x (ground (arith, m))) in
        (
          t,
          rw e1 e,
          λ x k. right x (elim (Bool-cases (l == x)) [
            | inl f ↦ inl (subst (λ y. IsRight ls' t1 y (rest y)) ((==_iff l x).0 f) own)
            | inr ne ↦ elim (Bool-cases (member l (rest x))) [
              | inr outside ↦ inl (kept t1 x k (ground (arith, outside, ne)) (same x ne))
              | inl above ↦ inr (in_map x k above, above)
            ]
          ]),
        )

    changed-IsTree :
        (t : ℕ → ℤ)
        → ((x : ℕ) → Known r x → IsRight ls' t x (rest x))
        → IsTree (changed r level t) rest
    unfolding ls'
    changed-IsTree t right = record {
      lineage = λ x k.
          Lineage-kept (loggers_of pointee n r) ls' (some x) (x ∷ rest x) (λ y. refl)
            (tree.lineage x k);
      short = tree.short;
      rooted = tree.rooted;
      top = tree.top;
      root_level = rooted_level;
      right = right;
    }

  root_kept :
      (r : Repository) (l : ℕ) (p : Option ℕ)
      → (q : ℕ) × (r.level r.root ≡ some q)
      → (p ≡ none → (l == r.root) ≡ false)
      → (q : ℕ) × ((if l == r.root then p else r.level r.root) ≡ some q)
  root_kept r l (some p) (q, e) allowed = elim (Bool-cases (l == r.root)) [
    | inl f ↦ (p, rw f refl)
    | inr f ↦ (q, rw f e)
  ]
  root_kept r l none (q, e) allowed = (q, rw (allowed refl) e)

  -- What a call leaves.
  unfoldable pub Sets : Repository → (ℕ → List ℕ) → Outcome Repository → (ℕ → Option ℕ) → Type 0
  Sets r rest result level =
      (f : ℕ → Option ℕ) × (t : ℕ → ℤ) × (result ≡ returned (changed r f t))
      × IsTree (changed r f t) rest
      × ((x : ℕ) → f x ≡ level x)

  pub set_level-Sets :
      (r : Repository) (rest : ℕ → List ℕ) (l : ℕ) (p : Option ℕ)
      → IsTree r rest
      → Known r l
      → (p ≡ none → (l == r.root) ≡ false)
      → Sets r rest (set_level pointee n l p r) (λ x. if l == x then p else r.level x)
  unfolding set_level Sets
  set_level-Sets r rest l p tree known allowed = elim (Bool-cases (same_pointer (r.level l) p)) [
    | inl same ↦ (
      r.level,
      r.threshold,
      rw same refl,
      tree,
      λ x.
          unchanged l x (r.level l) p (r.level x) (same_pointer-eq (r.level l) p same)
            (λ e. ap r.level e),
    )
    | inr other ↦
        let level : ℕ → Option ℕ = λ x. if l == x then p else r.level x in
        let rooted = root_kept r l p tree.root_level allowed in
        let others : (x : ℕ) → (l == x) ≡ false → level x ≡ r.level x = λ x ne. rw ne refl in
        let (t, e, right) = renewed r rest tree l known level rooted others in
        (
          level,
          t,
          rw other e,
          changed-IsTree r rest tree l known level rooted others t right,
          λ x. refl,
        )
  ]
