-- ===== src/Hierarchy/Link.antt =====
-- The walk of `updateParents` of src/main/cpp/hierarchy.cpp up the names of the ancestors.
use logging_log4cxx.Prelude.{
  ℕ, ◌≡◌, ◌≢◌, refl, sym, ap, ◌∙◌, ◌⊎◌, inl, inr, Bool, true, false, ◌&&◌, ◌||◌, Bool-cases,
  Option-cases, none, some, List, [], ◌∷◌, ◌++◌, arith, ◌==◌, ==_iff, Text, text_eq, text_eq_iff,
}
use logging_log4cxx.Prelude.Maps.{find, find-insert}
use logging_log4cxx.Hierarchy.{Hierarchy, set_parent, provide, link}
use logging_log4cxx.Hierarchy.Names.{In}
use logging_log4cxx.Hierarchy.Nearest.{nearest, Open, nearest-skip}
use logging_log4cxx.Hierarchy.Children.{member}

abbrev pub node : Text → List (Text × List ℕ) → List ℕ
node p nodes = elim (find p nodes) [ none ↦ [] | some pn ↦ pn ]

member-append : (c l : ℕ) (pn : List ℕ) → member c (pn ++ l ∷ []) ≡ (l == c || member c pn)
member-append c l [] = ground arith
member-append c l (d ∷ pn) = ground (arith, member-append c l pn)

node-provide :
    (c l : ℕ) (p q : Text) (nodes : List (Text × List ℕ))
    → member c (node p (provide q l nodes)) ≡ ((text_eq q p && l == c) || member c (node p nodes))
unfolding provide
node-provide c l p q nodes = elim (Option-cases (find q nodes)) [
  | inl e ↦ rw (e, provide) (ground (arith, find-insert p q (l ∷ []) nodes, text_eq_iff q p, e))
  | inr (pn, e) ↦ elim (Bool-cases (text_eq q p)) [
    | inl f ↦
        let e' : find p nodes ≡ some pn =
          ap (λ r. find r nodes) (sym ((text_eq_iff q p).0 f)) ∙ e in
        rw (e, provide)
          (ground (arith, find-insert p q (pn ++ l ∷ []) nodes, f, e', member-append c l pn))
    | inr f ↦ rw (e, provide) (ground (arith, find-insert p q (pn ++ l ∷ []) nodes, f))
  ]
]

joined :
    (l : ℕ) (p q : Text) (nodes : List (Text × List ℕ))
    → q ≡ p
    → member l (node p (provide q l nodes)) ≡ true
joined l p q nodes same = ground (arith, node-provide l l p q nodes, (text_eq_iff q p).1 same)

provide-cases :
    (c l : ℕ) (p q : Text) (nodes : List (Text × List ℕ))
    → member c (node p (provide q l nodes)) ≡ true
    → (member c (node p nodes) ≡ true) ⊎ ((c ≡ l) × (p ≡ q))
provide-cases c l p q nodes m = elim (Bool-cases (text_eq q p && l == c)) [
  | inl e ↦
      inr (sym ((==_iff l c).0 (ground (arith, e))), sym ((text_eq_iff q p).0 (ground (arith, e))))
  | inr e ↦ inl (ground (arith, e, m, node-provide c l p q nodes))
]

-- What `link` leaves.
pub record Links (names : List Text) (l : ℕ) (h h' : Hierarchy) (found : Bool) : Type 0 where
  pub keeps : h' ≡ record h { parent_of = h'.parent_of; provision_nodes = h'.provision_nodes }
  pub others : (x : ℕ) → x ≢ l → h'.parent_of x ≡ h.parent_of x
  pub own : found ≡ true → h'.parent_of l ≡ some (nearest h.root h.loggers names)
  pub missing : found ≡ false → nearest h.root h.loggers names ≡ h.root
  pub stays :
      (p : Text) (c : ℕ)
      → member c (node p h.provision_nodes) ≡ true
      → member c (node p h'.provision_nodes) ≡ true
  pub joins : (p : Text) → Open h.loggers p names → member l (node p h'.provision_nodes) ≡ true
  pub only :
      (p : Text) (c : ℕ)
      → member c (node p h'.provision_nodes) ≡ true
      → (member c (node p h.provision_nodes) ≡ true) ⊎ ((c ≡ l) × In p names)

module _ (q : Text) (names : List Text) (l : ℕ) (h : Hierarchy) where
  Links-stop :
      (k : ℕ) → find q h.loggers ≡ some k → Links (q ∷ names) l h (set_parent l (some k) h) true
  unfolding set_parent
  Links-stop k e = record {
    keeps = refl;
    others = λ x ne. ground arith;
    own = λ f. ground (arith, e);
    missing = λ f. cc;
    stays = λ p c m. m;
    joins = λ p o. absurd (cc (o.0));
    only = λ p c m. inl m;
  }

  abbrev provided : Hierarchy
  provided = record h { provision_nodes = provide q l h.provision_nodes }

  Links-skip :
      (h' : Hierarchy) (found : Bool)
      → find q h.loggers ≡ none
      → Links names l provided h' found
      → Links (q ∷ names) l h h' found
  Links-skip h' found e k = record {
    keeps = k.keeps;
    others = k.others;
    own = λ f. k.own f ∙ ap (λ r. some r) (sym (nearest-skip h.root h.loggers q names e));
    missing = λ f. nearest-skip h.root h.loggers q names e ∙ k.missing f;
    stays = λ p c m. k.stays p c (ground (arith, node-provide c l p q h.provision_nodes, m));
    joins = λ p o. elim o.1 [
      | inl same ↦ k.stays p l (joined l p q h.provision_nodes (sym same))
      | inr rest ↦ k.joins p rest
    ];
    only = λ p c m. elim (k.only p c m) [
      | inl there ↦ elim (provide-cases c l p q h.provision_nodes there) [
        | inl there' ↦ inl there'
        | inr (same, name) ↦ inr (same, inl name)
      ]
      | inr (same, i) ↦ inr (same, inr i)
    ];
  }

pub link-Links :
    (names : List Text) (l : ℕ) (h : Hierarchy)
    → (h' : Hierarchy) × (found : Bool) × (link names l h ≡ (h', found)) × Links names l h h' found
unfolding link
link-Links [] l h = (
  h,
  false,
  refl,
  record {
    keeps = refl;
    others = λ x ne. refl;
    own = λ f. cc;
    missing = λ f. refl;
    stays = λ p c m. m;
    joins = λ p o. absurd o;
    only = λ p c m. inl m;
  },
)
link-Links (q ∷ names) l h = elim (Option-cases (find q h.loggers)) [
  | inl e ↦
      let (h', found, r, k) = link-Links names l (provided q names l h) in
      (h', found, rw (e, link) r, Links-skip q names l h h' found e k)
  | inr (k, e) ↦ (set_parent l (some k) h, true, rw (e, link) refl, Links-stop q names l h k e)
]
