-- ===== src/Hierarchy/Nearest.antt =====
-- The nearest of the ancestors of a logger that has a logger: src/main/cpp/hierarchy.cpp.
use logging_log4cxx.Prelude.{
  ℕ, ◌≤◌, ◌<◌, ◌≡◌, ◌≢◌, refl, sym, ap, ◌∙◌, subst, ◌⊎◌, inl, inr, true, false, Bool-cases,
  Option-cases, none, some, List, [], ◌∷◌, arith, Text, length, text_eq, text_eq_iff, length-append,
}
use logging_log4cxx.Prelude.Maps.{find, insert, find-insert}
use logging_log4cxx.StringHelper.{starts_with}
use logging_log4cxx.StringHelper.Trim.{starts_with_iff}
use logging_log4cxx.Hierarchy.Names.{In, Descends}

abbrev pub LoggerMap : Type 0
LoggerMap = List (Text × ℕ)

-- The logger of the first name of the list that has one, or else the root.
abbrev pub nearest : ℕ → LoggerMap → List Text → ℕ
nearest root loggers [] = root
nearest root loggers (name ∷ names) = elim (find name loggers) [
  | some l ↦ l
  | none ↦ nearest root loggers names
]

-- The name stands in the list, and neither it nor a name before it has a logger.
abbrev pub Open : LoggerMap → Text → List Text → Type 0
Open loggers p [] = ⊥
Open loggers p (q ∷ qs) = (find q loggers ≡ none) × ((p ≡ q) ⊎ Open loggers p qs)

-- Every logger of the map has the name under which it is found.
abbrev pub IsNamed : (ℕ → Text) → LoggerMap → Type 0
IsNamed name_of loggers = (name : Text) (l : ℕ) → find name loggers ≡ some l → name_of l ≡ name

pub starts_with_le : (s p : Text) → starts_with s p ≡ true → length p ≤ length s
starts_with_le s p h =
    let (r, e) = (starts_with_iff s p).0 h in
    omega (arith, ap (length {A = ℕ}) e, length-append p r)

shorter : (s p : Text) → length s < length p → starts_with s p ≡ false
shorter s p h = elim (Bool-cases (starts_with s p)) [
  | inl e ↦ absurd (omega (arith, starts_with_le s p e))
  | inr e ↦ e
]

module _ (root : ℕ) (loggers : LoggerMap) (q : Text) (ps : List Text) where
  pub nearest-skip : find q loggers ≡ none → nearest root loggers (q ∷ ps) ≡ nearest root loggers ps
  nearest-skip e = rw (e, nearest) refl

  pub nearest-stop : (l : ℕ) → find q loggers ≡ some l → nearest root loggers (q ∷ ps) ≡ l
  nearest-stop l e = rw (e, nearest) refl

-- The nearest is the root, or has a name of the list.
nearest-cases :
    (root : ℕ) (loggers : LoggerMap) (name_of : ℕ → Text) (ps : List Text)
    → IsNamed name_of loggers
    → (nearest root loggers ps ≡ root) ⊎ In (name_of (nearest root loggers ps)) ps
nearest-cases root loggers name_of [] named = inl refl
nearest-cases root loggers name_of (q ∷ ps) named = elim (Option-cases (find q loggers)) [
  | inl e ↦
      let skip = nearest-skip root loggers q ps e in
      elim (nearest-cases root loggers name_of ps named) [
        | inl f ↦ inl (skip ∙ f)
        | inr f ↦ inr (inr (subst (λ l. In (name_of l) ps) (sym skip) f))
      ]
  | inr (l, e) ↦ inr (inl (ap name_of (nearest-stop root loggers q ps l e) ∙ named q l e))
]

module _ (name : Text) (l root : ℕ) (loggers : LoggerMap) (free : find name loggers ≡ none) where
  pub insert_self : (q : Text) → name ≡ q → find q (insert name l loggers) ≡ some l
  insert_self q e = ground (arith, find-insert q name l loggers, text_eq_iff name q, e)

  pub insert_other : (q : Text) → name ≢ q → find q (insert name l loggers) ≡ find q loggers
  insert_other q ne = ground (arith, find-insert q name l loggers, text_eq_iff name q)

  pub named_other : (q : Text) (m : ℕ) → find q loggers ≡ some m → name ≢ q
  named_other q m e same = absurd (cc (ap (λ n. find n loggers) same))

  pub same_or_not : (q : Text) → (name ≡ q) ⊎ (name ≢ q)
  same_or_not q = elim (Bool-cases (text_eq name q)) [
    | inl e ↦ inl ((text_eq_iff name q).0 e)
    | inr e ↦ inr (λ same. cc ((text_eq_iff name q).1 same))
  ]

  kept_stop :
      (q : Text) (ps : List Text) (m : ℕ)
      → find q loggers ≡ some m
      → nearest root (insert name l loggers) (q ∷ ps) ≡ nearest root loggers (q ∷ ps)
  kept_stop q ps m e =
      nearest-stop root (insert name l loggers) q ps m (insert_other q (named_other q m e) ∙ e)
      ∙ sym (nearest-stop root loggers q ps m e)

  -- A new logger becomes the nearest exactly where its name is open.
  pub nearest-insert :
      (ps : List Text)
      → (Open loggers name ps × (nearest root (insert name l loggers) ps ≡ l))
        ⊎ (nearest root (insert name l loggers) ps ≡ nearest root loggers ps)
  nearest-insert [] = inr refl
  nearest-insert (q ∷ ps) = elim (Option-cases (find q loggers)) [
    | inr (m, e) ↦ inr (kept_stop q ps m e)
    | inl e ↦ elim (same_or_not q) [
      | inl same ↦
          inl ((e, inl same), nearest-stop root (insert name l loggers) q ps l (insert_self q same))
      | inr ne ↦
          let skip = nearest-skip root (insert name l loggers) q ps (insert_other q ne ∙ e) in
          elim (nearest-insert ps) [
            | inl (o, f) ↦ inl ((e, inr o), skip ∙ f)
            | inr f ↦ inr (skip ∙ f ∙ sym (nearest-skip root loggers q ps e))
          ]
    ]
  ]

  -- What `updateChildren` finds by the name of the parent, where the list has the new name.
  pub open-by_name :
      (name_of : ℕ → Text) (ps : List Text)
      → IsNamed name_of loggers
      → starts_with (name_of root) name ≡ false
      → Descends ps
      → In name ps
      → ((starts_with (name_of (nearest root loggers ps)) name ≡ false)
          × (nearest root (insert name l loggers) ps ≡ l))
        ⊎ ((starts_with (name_of (nearest root loggers ps)) name ≡ true)
            × (nearest root (insert name l loggers) ps ≡ nearest root loggers ps))
  open-by_name name_of [] named apart descends m = absurd m
  open-by_name name_of (q ∷ ps) named apart (inside, descends) m =
      elim (Option-cases (find q loggers)) [
        | inr (k, e) ↦ inr (
          ap (λ n. starts_with n name)
                (ap name_of (nearest-stop root loggers q ps k e) ∙ named q k e)
              ∙ (inside name (later m (named_other q k e))).0,
          kept_stop q ps k e,
        )
        | inl e ↦
            let skip = nearest-skip root loggers q ps e in
            elim (same_or_not q) [
              | inl same ↦ inl (
                ap (λ k. starts_with (name_of k) name) skip
                    ∙ below same (nearest-cases root loggers name_of ps named),
                nearest-stop root (insert name l loggers) q ps l (insert_self q same),
              )
              | inr ne ↦
                  let skip' =
                    nearest-skip root (insert name l loggers) q ps (insert_other q ne ∙ e) in
                  elim (open-by_name name_of ps named apart descends (later m ne)) [
                    | inl (t, f) ↦ inl (ap (λ k. starts_with (name_of k) name) skip ∙ t, skip' ∙ f)
                    | inr (t, f) ↦
                        inr (ap (λ k. starts_with (name_of k) name) skip ∙ t, skip' ∙ f ∙ sym skip)
                  ]
            ]
      ]
    where
      later : In name (q ∷ ps) → name ≢ q → In name ps
      later (inl same) ne = absurd (ne same)
      later (inr k) ne = k

      below :
          name ≡ q
          → (nearest root loggers ps ≡ root) ⊎ In (name_of (nearest root loggers ps)) ps
          → starts_with (name_of (nearest root loggers ps)) name ≡ false
      below same (inl f) = ap (λ k. starts_with (name_of k) name) f ∙ apart
      below same (inr k) =
          let less = (inside (name_of (nearest root loggers ps)) k).1 in
          shorter (name_of (nearest root loggers ps)) name (omega (arith, ap (length {A = ℕ}) same))
