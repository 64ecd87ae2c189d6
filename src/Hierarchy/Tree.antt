-- ===== src/Hierarchy/Tree.antt =====
-- The tree of loggers that `getLogger` of src/main/cpp/hierarchy.cpp keeps.
use logging_log4cxx.Prelude.{
  ℕ, ◌<◌, ◌≡◌, ◌≢◌, refl, sym, ap, ◌∙◌, subst, ◌⊎◌, inl, inr, Bool, true, false, Bool-cases, Option,
  none, some, returned, ◌>>=◌, List, [], ◌∷◌, arith, if◌then◌else◌, Text, codes, text_eq,
  text_eq_iff,
}
use logging_log4cxx.Prelude.Maps.{find, insert}
use logging_log4cxx.StringHelper.{starts_with}
use logging_log4cxx.Hierarchy.{Hierarchy, ancestors, update_parents, made, get_logger}
use logging_log4cxx.Hierarchy.Names.{In, ancestors-Descends}
use logging_log4cxx.Hierarchy.Nearest.{
  LoggerMap, nearest, Open, IsNamed, nearest-insert, open-by_name, same_or_not, insert_self,
  insert_other, named_other,
}
use logging_log4cxx.Hierarchy.Link.{node}
use logging_log4cxx.Hierarchy.Created.{revised, Adopted, Placed}
use logging_log4cxx.Hierarchy.Children.{member, HaveParents, adopted}

-- Each logger has the nearest of its ancestors with a logger for its parent, or else the root; the
-- node of a name has exactly loggers below the name, and at least those for which the name is open.
pub record IsTree (h : Hierarchy) : Type 0 where
  pub root_named : h.name_of h.root ≡ codes "root"
  pub root_old : h.root < h.fresh
  pub named : IsNamed h.name_of h.loggers
  pub old : (name : Text) (l : ℕ) → find name h.loggers ≡ some l → (l < h.fresh) × (l ≢ h.root)
  pub parents :
      (name : Text) (l : ℕ)
      → find name h.loggers ≡ some l
      → h.parent_of l ≡ some (nearest h.root h.loggers (ancestors name))
  pub provided :
      (name : Text) (l : ℕ) (p : Text)
      → find name h.loggers ≡ some l
      → Open h.loggers p (ancestors name)
      → member l (node p h.provision_nodes) ≡ true
  pub members :
      (p : Text) (l : ℕ)
      → member l (node p h.provision_nodes) ≡ true
      → (name : Text) × (find name h.loggers ≡ some l) × In p (ancestors name)

adopted_in :
    (name_of : ℕ → Text) (pn : List ℕ) (l k p : ℕ) (t : Bool)
    → member k pn ≡ true
    → starts_with (name_of p) (name_of l) ≡ t
    → adopted name_of pn l k (some p) ≡ some (if t then p else l)
adopted_in name_of pn l k p true m e = rw (m, e) refl
adopted_in name_of pn l k p false m e = rw (m, e) refl

adopted_out :
    (name_of : ℕ → Text) (pn : List ℕ) (l k : ℕ) (parent : Option ℕ)
    → member k pn ≡ false
    → adopted name_of pn l k parent ≡ parent
adopted_out name_of pn l k parent m = rw m refl

Open-none :
    (loggers : LoggerMap) (p : Text) (ps : List Text) → Open loggers p ps → find p loggers ≡ none
Open-none loggers p [] o = absurd o
Open-none loggers p (q ∷ ps) (e, inl same) = ap (λ n. find n loggers) same ∙ e
Open-none loggers p (q ∷ ps) (e, inr o) = Open-none loggers p ps o

module _ (name : Text) (h : Hierarchy) (tree : IsTree h) (free : find name h.loggers ≡ none) where
  -- No start of "root": `updateChildren` tells the root from other parents by its name.
  abbrev pub IsApart : Type 0
  IsApart = starts_with (codes "root") name ≡ false

  abbrev pub l : ℕ
  l = h.fresh

  abbrev pub more : LoggerMap
  more = insert name l h.loggers

  -- The loggers after the insertion are the new one and the old ones.
  found_more :
      (n : Text) (k : ℕ)
      → find n more ≡ some k
      → ((name ≡ n) × (k ≡ l)) ⊎ ((name ≢ n) × (find n h.loggers ≡ some k))
  found_more n k e = elim (same_or_not name l h.root h.loggers free n) [
    | inl same ↦ inl (same, ground (arith, insert_self name l h.root h.loggers free n same, e))
    | inr ne ↦ inr (ne, sym (insert_other name l h.root h.loggers free n ne) ∙ e)
  ]

  Open-more : (p : Text) (ps : List Text) → Open more p ps → Open h.loggers p ps
  Open-more p [] o = o
  Open-more p (q ∷ ps) (e, o) = (
    elim (same_or_not name l h.root h.loggers free q) [
      | inl same ↦ absurd (cc (insert_self name l h.root h.loggers free q same))
      | inr ne ↦ sym (insert_other name l h.root h.loggers free q ne) ∙ e
    ],
    elim o [ inl same ↦ inl same | inr o' ↦ inr (Open-more p ps o') ],
  )

  pub old_ne : (n : Text) (k : ℕ) → find n h.loggers ≡ some k → k ≢ l
  old_ne n k e = omega (arith, (tree.old n k e).0)

  IsNamed-old : IsNamed (made name l h).name_of h.loggers
  unfolding made
  IsNamed-old n k e = let ne = old_ne n k e in ground (arith, tree.named n k e)

  pub own_name : (made name l h).name_of l ≡ name
  unfolding made
  own_name = ground arith

  pub root_name : (made name l h).name_of h.root ≡ codes "root"
  unfolding made
  root_name = ground (arith, tree.root_old, tree.root_named)

  root_apart : IsApart → starts_with ((made name l h).name_of h.root) name ≡ false
  root_apart apart = ap (λ n. starts_with n name) root_name ∙ apart

  -- The parents of the old loggers after `update_children`.
  adopted-nearest :
      IsApart
      → (n : Text) (k : ℕ) → find n h.loggers ≡ some k
      → adopted (made name l h).name_of (node name h.provision_nodes) l k (h.parent_of k)
        ≡ some (nearest h.root more (ancestors n))
  unfolding made
  adopted-nearest apart n k e =
      ap (adopted (made name l h).name_of (node name h.provision_nodes) l k) (tree.parents n k e)
      ∙ elim (Bool-cases (member k (node name h.provision_nodes))) [
        | inl m ↦
            let (n', e', i) = tree.members name k m in
            let same : n' ≡ n = sym (tree.named n' k e') ∙ tree.named n k e in
            elim (open-by_name name l h.root h.loggers free (made name l h).name_of (ancestors n)
              IsNamed-old (root_apart apart) (ancestors-Descends n)
              (subst (λ q. In name (ancestors q)) same i)) [
                | inl (t, f) ↦
                    adopted_in (made name l h).name_of (node name h.provision_nodes) l k p false m
                      (by_name t)
                    ∙ ap (λ r. some r) (sym f)
                | inr (t, f) ↦
                    adopted_in (made name l h).name_of (node name h.provision_nodes) l k p true m
                      (by_name t)
                    ∙ ap (λ r. some r) (sym f)
              ]
        | inr m ↦
            adopted_out (made name l h).name_of (node name h.provision_nodes) l k (some p) m
            ∙ ap (λ r. some r)
                (sym (elim (nearest-insert name l h.root h.loggers free (ancestors n)) [
                  | inl (o, f) ↦ absurd (cc (tree.provided n k name e o))
                  | inr f ↦ f
                ]))
      ]
    where
      p : ℕ
      p = nearest h.root h.loggers (ancestors n)

      by_name :
          {t : Bool}
          → starts_with ((made name l h).name_of p) name ≡ t
          → starts_with ((made name l h).name_of p) ((made name l h).name_of l) ≡ t
      by_name t = ap (starts_with ((made name l h).name_of p)) own_name ∙ t

  pub parent_kept : (k : ℕ) → k ≢ l → (made name l h).parent_of k ≡ h.parent_of k
  unfolding made
  parent_kept k ne = ground arith

  module _ (f f' : ℕ → Option ℕ) (ns ns' : List (Text × List ℕ))
      (a : Adopted name l (made name l h) f ns)
      (d : Placed name l (revised (made name l h) f ns) f' ns') where
    abbrev pub grown : Hierarchy
    unfolding made
    grown = revised (made name l h) f' ns'

    node_kept : (p : Text) → find p more ≡ none → node p ns ≡ node p h.provision_nodes
    unfolding made
    node_kept p e = elim (same_or_not name l h.root h.loggers free p) [
      | inl same ↦ absurd (cc (insert_self name l h.root h.loggers free p same))
      | inr ne ↦ ground (arith, a.nodes p, text_eq_iff name p, ne)
    ]

    node_before :
        (p : Text) (c : ℕ)
        → member c (node p ns) ≡ true
        → member c (node p h.provision_nodes) ≡ true
    unfolding made
    node_before p c m = elim (Bool-cases (text_eq name p)) [
      | inl e ↦ absurd (ground (arith, a.nodes p, e, ap (member c) (a.nodes p)))
      | inr e ↦ ground (arith, a.nodes p, e, m, ap (member c) (a.nodes p))
    ]

    grown-parents :
        IsApart
        → (n : Text) (k : ℕ) → find n more ≡ some k
        → f' k ≡ some (nearest h.root more (ancestors n))
    unfolding made
    grown-parents apart n k e = elim (found_more n k e) [
      | inl (same, new_one) ↦
          ap f' new_one ∙ d.own ∙ ap (λ q. some (nearest h.root more (ancestors q))) same
      | inr (ne, e') ↦
          let other = old_ne n k e' in
          d.others k other
          ∙ a.parents k other
          ∙ ap (adopted (made name l h).name_of (node name h.provision_nodes) l k)
              (parent_kept k other)
          ∙ adopted-nearest apart n k e'
    ]

    grown-provided :
        (n : Text) (k : ℕ) (p : Text)
        → find n more ≡ some k
        → Open more p (ancestors n)
        → member k (node p ns') ≡ true
    unfolding made
    grown-provided n k p e o = elim (found_more n k e) [
      | inl (same, new_one) ↦
          subst (λ j. member j (node p ns') ≡ true) (sym new_one)
            (d.joins p (subst (λ q. Open more p (ancestors q)) (sym same) o))
      | inr (ne, e') ↦ d.stays p k (
          ap (member k) (node_kept p (Open-none more p (ancestors n) o))
          ∙ tree.provided n k p e' (Open-more p (ancestors n) o))
    ]

    grown-members :
        (p : Text) (c : ℕ)
        → member c (node p ns') ≡ true
        → (n : Text) × (find n more ≡ some c) × In p (ancestors n)
    unfolding made
    grown-members p c m = elim (d.only p c m) [
      | inr (same, i) ↦ (
        name,
        insert_self name l h.root h.loggers free name refl ∙ ap (λ j. some j) (sym same),
        i,
      )
      | inl there ↦
          let (n, e, i) = tree.members p c (node_before p c there) in
          (
            n,
            insert_other name l h.root h.loggers free n
                  (named_other name l h.root h.loggers free n c e)
                ∙ e,
            i,
          )
    ]

    pub get_logger-grown : get_logger name h ≡ returned (l, grown)
    unfolding get_logger made
    get_logger-grown =
        rw (free, get_logger)
          (ap (λ r. r >>= λ k. returned (l, update_parents l k)) a.result
            ∙ ap (λ k. returned (l, k)) d.result)

    pub grown-loggers : grown.loggers ≡ more
    unfolding made
    grown-loggers = refl

    pub grown-IsTree : IsApart → IsTree grown
    unfolding made
    grown-IsTree apart = record {
      root_named = root_name;
      root_old = omega (arith, tree.root_old);
      named = λ n k e. elim (found_more n k e) [
        | inl (same, new_one) ↦ ap (made name l h).name_of new_one ∙ own_name ∙ same
        | inr (ne, e') ↦ IsNamed-old n k e'
      ];
      old = λ n k e. elim (found_more n k e) [
        | inl (same, new_one) ↦ (omega (arith, new_one), omega (arith, new_one, tree.root_old))
        | inr (ne, e') ↦ (omega (arith, (tree.old n k e').0), (tree.old n k e').1)
      ];
      parents = grown-parents apart;
      provided = grown-provided;
      members = grown-members;
    }

  pub HaveParents-node :
      HaveParents (node name (made name l h).provision_nodes) l (made name l h).parent_of
  unfolding made
  HaveParents-node c m =
      let (n, e, i) = tree.members name c m in
      let ne = old_ne n c e in
      (ne, (nearest h.root h.loggers (ancestors n), ground (arith, ne, tree.parents n c e)))
