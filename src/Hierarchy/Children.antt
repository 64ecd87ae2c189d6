-- ===== src/Hierarchy/Children.antt =====
-- `updateChildren` of src/main/cpp/hierarchy.cpp over a provision node.
use logging_log4cxx.Prelude.{
  ℕ, ◌≡◌, ◌≢◌, refl, sym, ap, ◌∙◌, inl, inr, Bool, true, false, not, ◌&&◌, ◌||◌, Bool-cases, Option,
  none, some, returned, List, [], ◌∷◌, append-nil, arith, ◌==◌, ==_iff, if◌then◌else◌, Text,
}
use logging_log4cxx.StringHelper.{starts_with}
use logging_log4cxx.StringHelper.Trim.{starts_with_iff}
use logging_log4cxx.Hierarchy.{Hierarchy, set_parent, update_children}

abbrev pub member : ℕ → List ℕ → Bool
member c [] = false
member c (d ∷ pn) = d == c || member c pn

-- The test of `updateChildren`, on a child with a parent.
abbrev pub inside : (ℕ → Text) → ℕ → Option ℕ → Bool
inside name_of l none = true
inside name_of l (some p) = starts_with (name_of p) (name_of l)

-- The new parent of `x`, for every `x` but `l`.
abbrev pub adopted : (ℕ → Text) → List ℕ → ℕ → ℕ → Option ℕ → Option ℕ
adopted name_of pn l x parent =
    if member x pn && not (inside name_of l parent) then some l else parent

-- What `updateChildren` leaves: only parents change.
pub record Adopts (pn : List ℕ) (l : ℕ) (h h' : Hierarchy) : Type 0 where
  pub result : update_children pn l h ≡ returned h'
  pub same : h' ≡ record h { parent_of = h'.parent_of }
  pub parents : (x : ℕ) → x ≢ l → h'.parent_of x ≡ adopted h.name_of pn l x (h.parent_of x)

abbrev pub HaveParents : List ℕ → ℕ → (ℕ → Option ℕ) → Type 0
HaveParents pn l parent_of =
    (c : ℕ) → member c pn ≡ true → (c ≢ l) × ((p : ℕ) × (parent_of c ≡ some p))

starts_with_self : (s : Text) → starts_with s s ≡ true
starts_with_self s = (starts_with_iff s s).1 ([], sym (append-nil s))

moved : ℕ → ℕ → ℕ → Hierarchy → Hierarchy
unfolding set_parent
moved c l p h = set_parent c (some l) (set_parent l (some p) h)

moved-parent :
    (c l p x : ℕ) (h : Hierarchy)
    → x ≢ l
    → (moved c l p h).parent_of x ≡ (if c == x then some l else h.parent_of x)
unfolding moved
moved-parent c l p x h ne = ground arith

HaveParents-moved :
    (c l p : ℕ) (pn : List ℕ) (h : Hierarchy)
    → HaveParents (c ∷ pn) l h.parent_of
    → HaveParents pn l (moved c l p h).parent_of
HaveParents-moved c l p pn h have d m =
    let (ne, (q, e)) = have d (ground (arith, m)) in
    elim (Bool-cases (c == d)) [
      | inl f ↦ (ne, (l, moved-parent c l p d h ne ∙ rw f refl))
      | inr f ↦ (ne, (q, moved-parent c l p d h ne ∙ rw f e))
    ]

settled :
    (a b t : Bool) (l : ℕ) (parent : Option ℕ)
    → t ≡ true
    → (if a && not t then some l else parent) ≡ (if b && not t then some l else parent)
settled a b t l parent e = ground (arith, e)

adopted_skip :
    (name_of : ℕ → Text) (c : ℕ) (pn : List ℕ) (l x : ℕ) (parent_of : ℕ → Option ℕ)
    → inside name_of l (parent_of c) ≡ true
    → adopted name_of pn l x (parent_of x) ≡ adopted name_of (c ∷ pn) l x (parent_of x)
adopted_skip name_of c pn l x parent_of t = elim (Bool-cases (c == x)) [
  | inl e ↦
      let same : c ≡ x = (==_iff c x).0 e in
      let t' = ap (λ y. inside name_of l (parent_of y)) (sym same) ∙ t in
      settled (member x pn) (c == x || member x pn) (inside name_of l (parent_of x)) l (parent_of x)
        t'
  | inr e ↦ rw e refl
]

adopted_moved :
    (name_of : ℕ → Text) (c : ℕ) (pn : List ℕ) (l x : ℕ) (parent_of : ℕ → Option ℕ)
    → inside name_of l (parent_of c) ≡ false
    → adopted name_of pn l x (if c == x then some l else parent_of x)
      ≡ adopted name_of (c ∷ pn) l x (parent_of x)
adopted_moved name_of c pn l x parent_of t = elim (Bool-cases (c == x)) [
  | inl e ↦
      let same : c ≡ x = (==_iff c x).0 e in
      let t' = ap (λ y. inside name_of l (parent_of y)) (sym same) ∙ t in ground (arith, e, t')
  | inr e ↦ rw e refl
]

module _ (c : ℕ) (pn : List ℕ) (l : ℕ) (h h' : Hierarchy) (p : ℕ) (e : h.parent_of c ≡ some p) where
  Adopts-skip :
      starts_with (h.name_of p) (h.name_of l) ≡ true → Adopts pn l h h' → Adopts (c ∷ pn) l h h'
  unfolding update_children
  Adopts-skip t a = record {
    result = rw (e, update_children, t) a.result;
    same = a.same;
    parents = λ x ne.
        a.parents x ne
        ∙ adopted_skip h.name_of c pn l x h.parent_of (ap (inside h.name_of l) e ∙ t);
  }

  Adopts-moved :
      starts_with (h.name_of p) (h.name_of l) ≡ false
      → Adopts pn l (moved c l p h) h'
      → Adopts (c ∷ pn) l h h'
  unfolding update_children moved
  Adopts-moved t a = record {
    result = rw (e, update_children, t) a.result;
    same = a.same;
    parents = λ x ne.
        a.parents x ne
        ∙ ap (adopted h.name_of pn l x) (moved-parent c l p x h ne)
        ∙ adopted_moved h.name_of c pn l x h.parent_of (ap (inside h.name_of l) e ∙ t);
  }

-- `updateChildren` does not fail on children with parents, and gives each of them the new logger for
-- its parent but those whose parent has a name that starts with the name of the new logger.
pub update_children-Adopts :
    (pn : List ℕ) (l : ℕ) (h : Hierarchy)
    → HaveParents pn l h.parent_of
    → (h' : Hierarchy) × Adopts pn l h h'
unfolding update_children
update_children-Adopts [] l h have =
    (h, record { result = refl; same = refl; parents = λ x ne. refl })
update_children-Adopts (c ∷ pn) l h have =
    let (ne, (p, e)) = have c (ground arith) in
    elim (Bool-cases (starts_with (h.name_of p) (h.name_of l))) [
      | inl t ↦
          let (h', a) = update_children-Adopts pn l h (λ d m. have d (ground (arith, m))) in
          (h', Adopts-skip c pn l h h' p e t a)
      | inr t ↦
          let (h', a) =
            update_children-Adopts pn l (moved c l p h) (HaveParents-moved c l p pn h have) in
          (h', Adopts-moved c pn l h h' p e t a)
    ]
