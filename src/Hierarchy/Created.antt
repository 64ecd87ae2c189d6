-- ===== src/Hierarchy/Created.antt =====
-- What `getLogger` of src/main/cpp/hierarchy.cpp changes for a name without a logger.
use logging_log4cxx.Prelude.{
  ℕ, ◌≡◌, ◌≢◌, refl, sym, ap, ◌∙◌, ◌⊎◌, inl, inr, Bool, true, false, Bool-cases, Option-cases,
  Option, none, some, returned, ◌>>=◌, List, [], arith, if◌then◌else◌, Text, text_eq, text_eq_iff,
}
use logging_log4cxx.Prelude.Maps.{find, erase, find-erase}
use logging_log4cxx.Hierarchy.{
  Hierarchy, set_parent, ancestors, link, update_parents, adopt, dropped, concluded,
}
use logging_log4cxx.Hierarchy.Names.{In}
use logging_log4cxx.Hierarchy.Nearest.{nearest, Open}
use logging_log4cxx.Hierarchy.Link.{node, Links, link-Links}
use logging_log4cxx.Hierarchy.Children.{
  member, HaveParents, adopted, Adopts, update_children-Adopts,
}

-- The hierarchy with the new logger, with other parents and provision nodes.
abbrev pub revised : Hierarchy → (ℕ → Option ℕ) → List (Text × List ℕ) → Hierarchy
revised h parent_of nodes = record h { parent_of = parent_of; provision_nodes = nodes }

-- What `adopt` leaves of the hierarchy `h`.
pub record Adopted (name : Text) (l : ℕ) (h : Hierarchy) (f : ℕ → Option ℕ)
    (ns : List (Text × List ℕ)) : Type 0 where
  pub result : adopt name l h ≡ returned (revised h f ns)
  pub parents :
      (x : ℕ) → x ≢ l → f x ≡ adopted h.name_of (node name h.provision_nodes) l x (h.parent_of x)
  pub nodes : (p : Text) → node p ns ≡ (if text_eq name p then [] else node p h.provision_nodes)

Adopted-none :
    (name : Text) (l : ℕ) (h : Hierarchy)
    → find name h.provision_nodes ≡ none
    → Adopted name l h h.parent_of h.provision_nodes
unfolding adopt
Adopted-none name l h e = record {
  result = rw (e, adopt) refl;
  parents = λ x ne. rw (e, node) refl;
  nodes = λ p. elim (Bool-cases (text_eq name p)) [
    | inl f ↦
        let same = (text_eq_iff name p).0 f in
        rw f (ap (λ q. node q h.provision_nodes) (sym same) ∙ rw (e, node) refl)
    | inr f ↦ rw f refl
  ];
}

Adopted-some :
    (name : Text) (l : ℕ) (h h' : Hierarchy) (pn : List ℕ)
    → find name h.provision_nodes ≡ some pn
    → Adopts pn l h h'
    → Adopted name l h h'.parent_of (erase name h.provision_nodes)
unfolding adopt
Adopted-some name l h h' pn e a = record {
  result =
      rw (e, adopt)
        (ap (λ r. r >>= λ k. returned (dropped name k)) a.result
          ∙ ap (λ k. returned (dropped name k)) a.same);
  parents = λ x ne. a.parents x ne ∙ rw (e, node) refl;
  nodes = λ p. ground (arith, find-erase p name h.provision_nodes);
}

pub adopt-Adopted :
    (name : Text) (l : ℕ) (h : Hierarchy)
    → HaveParents (node name h.provision_nodes) l h.parent_of
    → (f : ℕ → Option ℕ) × (ns : List (Text × List ℕ)) × Adopted name l h f ns
adopt-Adopted name l h have = elim (Option-cases (find name h.provision_nodes)) [
  | inl e ↦ (h.parent_of, h.provision_nodes, Adopted-none name l h e)
  | inr (pn, e) ↦
      let (h', a) = update_children-Adopts pn l h (rw (e, node) at have) in
      (h'.parent_of, erase name h.provision_nodes, Adopted-some name l h h' pn e a)
]

-- What `update_parents` leaves of the hierarchy `h`.
pub record Placed (name : Text) (l : ℕ) (h : Hierarchy) (f : ℕ → Option ℕ)
    (ns : List (Text × List ℕ)) : Type 0 where
  pub result : update_parents l h ≡ revised h f ns
  pub others : (x : ℕ) → x ≢ l → f x ≡ h.parent_of x
  pub own : f l ≡ some (nearest h.root h.loggers (ancestors name))
  pub stays :
      (p : Text) (c : ℕ) → member c (node p h.provision_nodes) ≡ true → member c (node p ns) ≡ true
  pub joins : (p : Text) → Open h.loggers p (ancestors name) → member l (node p ns) ≡ true
  pub only :
      (p : Text) (c : ℕ)
      → member c (node p ns) ≡ true
      → (member c (node p h.provision_nodes) ≡ true) ⊎ ((c ≡ l) × In p (ancestors name))

Placed-found :
    (name : Text) (l : ℕ) (h h' : Hierarchy)
    → h.name_of l ≡ name
    → link (ancestors name) l h ≡ (h', true)
    → Links (ancestors name) l h h' true
    → Placed name l h h'.parent_of h'.provision_nodes
unfolding update_parents
Placed-found name l h h' e r k =
    let walked : update_parents l h ≡ h' =
      ap (λ n. concluded l h.root (link (ancestors n) l h)) e ∙ ap (concluded l h.root) r in
    record {
      result = walked ∙ k.keeps;
      others = k.others;
      own = k.own refl;
      stays = k.stays;
      joins = k.joins;
      only = k.only;
    }

Placed-root :
    (name : Text) (l : ℕ) (h h' : Hierarchy)
    → h.name_of l ≡ name
    → link (ancestors name) l h ≡ (h', false)
    → Links (ancestors name) l h h' false
    → Placed name l h (set_parent l (some h.root) h').parent_of h'.provision_nodes
unfolding update_parents set_parent
Placed-root name l h h' e r k =
    let walked : update_parents l h ≡ set_parent l (some h.root) h' =
      ap (λ n. concluded l h.root (link (ancestors n) l h)) e ∙ ap (concluded l h.root) r in
    record {
      result = walked ∙ ap (set_parent l (some h.root)) k.keeps;
      others = λ x ne. ground (arith, k.others x ne);
      own = ground (arith, k.missing refl);
      stays = k.stays;
      joins = k.joins;
      only = k.only;
    }

pub update_parents-Placed :
    (name : Text) (l : ℕ) (h : Hierarchy)
    → h.name_of l ≡ name
    → (f : ℕ → Option ℕ) × (ns : List (Text × List ℕ)) × Placed name l h f ns
update_parents-Placed name l h e =
    let (h', found, r, k) = link-Links (ancestors name) l h in placed h' found r k
  where
    placed :
        (h' : Hierarchy) (found : Bool)
        → link (ancestors name) l h ≡ (h', found)
        → Links (ancestors name) l h h' found
        → (f : ℕ → Option ℕ) × (ns : List (Text × List ℕ)) × Placed name l h f ns
    placed h' true r k = (h'.parent_of, h'.provision_nodes, Placed-found name l h h' e r k)
    placed h' false r k = (
      (set_parent l (some h.root) h').parent_of,
      h'.provision_nodes,
      Placed-root name l h h' e r k,
    )
