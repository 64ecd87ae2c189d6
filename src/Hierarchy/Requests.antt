-- ===== src/Hierarchy/Requests.antt =====
-- Requests for loggers: `getLogger` of src/main/cpp/hierarchy.cpp.
use logging_log4cxx.Prelude.{
  ℕ, ◌≡◌, refl, sym, ap, ◌∙◌, subst, ◌⊎◌, ◌↔◌, inl, inr, true, false, Bool-cases, Option-cases,
  none, some, Outcome, returned, thrown, undefined, ◌>>=◌, List, [], ◌∷◌, arith, Text, codes,
  text_eq, text_eq_iff,
}
use logging_log4cxx.Prelude.Maps.{find, insert, find-insert}
use logging_log4cxx.StringHelper.{starts_with}
use logging_log4cxx.Hierarchy.{Hierarchy, new, ancestors, made, get_logger}
use logging_log4cxx.Hierarchy.Names.{In}
use logging_log4cxx.Hierarchy.Nearest.{nearest}
use logging_log4cxx.Hierarchy.Link.{node}
use logging_log4cxx.Hierarchy.Created.{revised, adopt-Adopted, update_parents-Placed}
use logging_log4cxx.Hierarchy.Tree.{
  IsTree, l, own_name, old_ne, HaveParents-node, parent_kept, root_name, get_logger-grown, grown,
  grown-loggers, grown-IsTree,
}
use logging_log4cxx.Hierarchy.Children.{member, adopted}

module _ (name : Text) (h : Hierarchy) (tree : IsTree h) (free : find name h.loggers ≡ none) where
  -- A request for a name without a logger keeps the tree, where the name is not a start of "root".
  get_logger-new :
      starts_with (codes "root") name ≡ false
      → (h' : Hierarchy) × (get_logger name h ≡ returned (h.fresh, h'))
        × (h'.loggers ≡ insert name h.fresh h.loggers)
        × IsTree h'
  get_logger-new apart =
      let (f, ns, a) =
        adopt-Adopted name h.fresh (made name h.fresh h) (HaveParents-node name h tree free) in
      let (f', ns', d) =
        update_parents-Placed name h.fresh (revised (made name h.fresh h) f ns)
          (own_name name h tree free) in
      (
        grown name h tree free f f' ns ns' a d,
        get_logger-grown name h tree free f f' ns ns' a d,
        grown-loggers name h tree free f f' ns ns' a d,
        grown-IsTree name h tree free f f' ns ns' a d apart,
      )

adopted_kept :
    (name_of : ℕ → Text) (pn : List ℕ) (l k p : ℕ)
    → starts_with (name_of p) (name_of l) ≡ true
    → adopted name_of pn l k (some p) ≡ some p
adopted_kept name_of pn l k p e = elim (Bool-cases (member k pn)) [
  | inl m ↦ rw (m, e) refl
  | inr m ↦ rw m refl
]

root_stays :
    (name : Text) (h : Hierarchy) (n : Text) (k : ℕ)
    → IsTree h
    → find name h.loggers ≡ none
    → starts_with (codes "root") name ≡ true
    → find n h.loggers ≡ some k
    → h.parent_of k ≡ some h.root
    → (h' : Hierarchy) × (get_logger name h ≡ returned (h.fresh, h'))
      × (h'.parent_of k ≡ some h.root)
unfolding made
root_stays name h n k tree free start e parent =
    let (f, ns, a) =
      adopt-Adopted name h.fresh (made name h.fresh h) (HaveParents-node name h tree free) in
    let (f', ns', d) =
      update_parents-Placed name h.fresh (revised (made name h.fresh h) f ns)
        (own_name name h tree free) in
    let ne = old_ne name h tree free n k e in
    (
      grown name h tree free f f' ns ns' a d,
      get_logger-grown name h tree free f f' ns ns' a d,
      d.others k ne
          ∙ a.parents k ne
          ∙ ap
              (adopted (made name h.fresh h).name_of
                (node name (made name h.fresh h).provision_nodes) h.fresh k)
              (parent_kept name h tree free k ne ∙ parent)
          ∙ adopted_kept (made name h.fresh h).name_of
              (node name (made name h.fresh h).provision_nodes) h.fresh k h.root
              (ap (λ q. starts_with q ((made name h.fresh h).name_of h.fresh))
                  (root_name name h tree free)
                ∙ ap (starts_with (codes "root")) (own_name name h tree free)
                ∙ start),
    )

-- Requests one after the other.
unfoldable pub get_loggers : List Text → Hierarchy → Outcome Hierarchy
unfolding get_logger
get_loggers [] h = returned h
get_loggers (name ∷ names) h = get_logger name h >>= λ (l, h'). get_loggers names h'

abbrev pub AreApart : List Text → Type 0
AreApart [] = Unit {0}
AreApart (name ∷ names) = (starts_with (codes "root") name ≡ false) × AreApart names

-- The names of the loggers, before and after.
abbrev Known : Hierarchy → Text → Type 0
Known h name = (l : ℕ) × (find name h.loggers ≡ some l)

-- What one request gives.
abbrev Requested : Text → Hierarchy → Type 0
Requested name h =
    (l : ℕ) × (h' : Hierarchy) × (get_logger name h ≡ returned (l, h'))
    × IsTree h'
    × ((n : Text) → Known h' n ↔ (Known h n ⊎ (n ≡ name)))

requested_old :
    (name : Text) (h : Hierarchy) (l : ℕ)
    → IsTree h
    → find name h.loggers ≡ some l
    → Requested name h
unfolding get_logger
requested_old name h l tree e = (
  l,
  h,
  rw (e, get_logger) refl,
  tree,
  λ n. (
    λ k. inl k,
    λ k. elim k [ inl k' ↦ k' | inr same ↦ (l, ap (λ q. find q h.loggers) same ∙ e) ],
  ),
)

Known-insert :
    (name : Text) (h h' : Hierarchy) (n : Text)
    → find name h.loggers ≡ none
    → h'.loggers ≡ insert name h.fresh h.loggers
    → Known h' n ↔ (Known h n ⊎ (n ≡ name))
Known-insert name h h' n free grew =
    let found = ap (find n) grew ∙ find-insert n name h.fresh h.loggers in
    (
      λ (l, e). elim (Bool-cases (text_eq name n)) [
        | inl f ↦ inr (sym ((text_eq_iff name n).0 f))
        | inr f ↦ inl (l, ground (arith, found, f, e))
      ],
      λ k. elim (Bool-cases (text_eq name n)) [
        | inl f ↦ (h.fresh, ground (arith, found, f))
        | inr f ↦ elim k [
          | inl (l, e) ↦ (l, ground (arith, found, f, e))
          | inr same ↦ absurd (ground (arith, (text_eq_iff name n).1 (sym same), f))
        ]
      ],
    )

requested :
    (name : Text) (h : Hierarchy)
    → IsTree h
    → starts_with (codes "root") name ≡ false
    → Requested name h
requested name h tree apart = elim (Option-cases (find name h.loggers)) [
  | inr (l, e) ↦ requested_old name h l tree e
  | inl free ↦
      let (h', e, grew, tree') = get_logger-new name h tree free apart in
      (h.fresh, h', e, tree', λ n. Known-insert name h h' n free grew)
]

get_loggers-IsTree :
    (names : List Text) (h : Hierarchy)
    → IsTree h
    → AreApart names
    → (h' : Hierarchy) × (get_loggers names h ≡ returned h')
      × IsTree h'
      × ((n : Text) → Known h' n ↔ (Known h n ⊎ In n names))
unfolding get_loggers
get_loggers-IsTree [] h tree apart =
    (h, refl, tree, λ n. (λ k. inl k, λ k. elim k [ inl k' ↦ k' | inr i ↦ absurd i ]))
get_loggers-IsTree (name ∷ names) h tree (apart, others) =
    let (l, h1, e1, tree1, known1) = requested name h tree apart in
    let (h2, e2, tree2, known2) = get_loggers-IsTree names h1 tree1 others in
    (
      h2,
      ap (λ r. r >>= λ (l, h'). get_loggers names h') e1 ∙ e2,
      tree2,
      λ n. regroup (known1 n) (known2 n),
    )
  where
    regroup : {A B C D E : Type 0} → A ↔ (B ⊎ C) → D ↔ (A ⊎ E) → D ↔ (B ⊎ (C ⊎ E))
    regroup p q = (
      λ d. elim (q.0 d) [
        | inl a ↦ elim (p.0 a) [ inl b ↦ inl b | inr c ↦ inr (inl c) ]
        | inr e ↦ inr (inr e)
      ],
      λ x. elim x [
        | inl b ↦ q.1 (inl (p.1 (inl b)))
        | inr (inl c) ↦ q.1 (inl (p.1 (inr c)))
        | inr (inr e) ↦ q.1 (inr e)
      ],
    )

new-IsTree : IsTree new
unfolding new find
new-IsTree = record {
  root_named = refl;
  root_old = omega arith;
  named = λ name l e. cc;
  old = λ name l e. absurd (cc e);
  parents = λ name l e. cc;
  provided = λ name l p e o. cc;
  members = λ p l m. absurd (cc m);
}

-- Let any sequence of names, none of which is a start of "root", be asked of a new hierarchy. No
-- request fails; a name has a logger exactly where it was asked for; and the parent of each logger is
-- the logger of the longest of the proper prefixes of its name, cut at a dot, that was asked for, or
-- the root where none was, whatever the order of the requests.
pub get_loggers-parents :
    (names : List Text)
    → AreApart names
    → (h : Hierarchy) × (get_loggers names new ≡ returned h)
      × ((name : Text) → ((l : ℕ) × (find name h.loggers ≡ some l)) ↔ In name names)
      × ((name : Text) (l : ℕ)
          → find name h.loggers ≡ some l
          → (h.name_of l ≡ name)
            × (h.parent_of l ≡ some (nearest h.root h.loggers (ancestors name))))
unfolding new
get_loggers-parents names apart =
    let (h, e, tree, known) = get_loggers-IsTree names new new-IsTree apart in
    (
      h,
      e,
      λ n. (
        λ k. elim ((known n).0 k) [ inl (l, f) ↦ absurd (unfold find in cc f) | inr i ↦ i ],
        λ i. (known n).1 (inr i),
      ),
      λ n l f. (tree.named n l f, tree.parents n l f),
    )

returned_one : {A : Type 0} {a b : A} → returned a ≡ returned b → a ≡ b
returned_one {A} {a} e =
    ap (λ r. elim r as (λ x. A) [ returned x ↦ x | thrown x ↦ a | undefined ↦ a ]) e

-- After requests for names none of which is a start of "root", let a name be asked for that has no
-- logger and is a start of "root". The request does not fail, and every logger whose parent is the root
-- keeps the root for its parent, also one below the new logger.
pub get_logger-root_prefix :
    (names : List Text) (name : Text) (h : Hierarchy) (n : Text) (k : ℕ)
    → AreApart names
    → get_loggers names new ≡ returned h
    → find name h.loggers ≡ none
    → starts_with (codes "root") name ≡ true
    → find n h.loggers ≡ some k
    → h.parent_of k ≡ some h.root
    → (h' : Hierarchy) × (get_logger name h ≡ returned (h.fresh, h'))
      × (h'.parent_of k ≡ some h.root)
get_logger-root_prefix names name h n k apart reached free start e parent =
    let (h', reached', tree, _) = get_loggers-IsTree names new new-IsTree apart in
    root_stays name h n k (subst IsTree (returned_one (sym reached' ∙ reached)) tree) free start e
      parent
