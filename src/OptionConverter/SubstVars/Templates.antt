-- ===== src/OptionConverter/SubstVars/Templates.antt =====
-- `substVars` of src/main/cpp/optionconverter.cpp on texts made of literal pieces and variables.
use logging_log4cxx.Prelude.{
  ℕ, zero, suc, ◌+◌, ◌≤◌, ◌<◌, ◌≡◌, refl, sym, ap, ◌∙◌, ◌⊎◌, inl, inr, false, List, [], ◌∷◌, ◌++◌,
  none, Text, arith, ◌==◌, if◌then◌else◌, append_assoc, append-nil, length, length-append,
  Bool-cases, is_empty, is_empty-append, split_at-append, Free, Free-append,
}
use logging_log4cxx.Properties.{PropertyMap}
use logging_log4cxx.OptionConverter.SubstVars.{split_start-append, split_start-variable}
use logging_log4cxx.OptionConverter.{
  split_start, Subst, substituted, no_closing_brace, too_deep, replacement, expand_key, subst_loop,
  subst_vars,
}

pub data Piece : Type 0 where
  literal variable : Text → Piece

abbrev pub print : List Piece → Text
print [] = []
print (literal s ∷ ps) = s ++ print ps
print (variable key ∷ ps) = b'$' ∷ b'{' ∷ (key ++ (b'}' ∷ print ps))

-- Literals hold no "$", and the names of variables no "}".
abbrev pub IsTemplate : List Piece → Type 0
IsTemplate [] = Unit {0}
IsTemplate (literal s ∷ ps) = Free b'$' s × IsTemplate ps
IsTemplate (variable key ∷ ps) = Free b'}' key × IsTemplate ps

abbrev pub prefixed : Text → Subst → Subst
prefixed s (substituted t) = substituted (s ++ t)
prefixed s (no_closing_brace t j) = no_closing_brace t j
prefixed s too_deep = too_deep

abbrev pub followed_by : Subst → Subst → Subst
followed_by (substituted v) rest = prefixed v rest
followed_by (no_closing_brace t j) rest = no_closing_brace t j
followed_by too_deep rest = too_deep

-- A literal stands for itself, and a variable for its replacement, which `again` substitutes in
-- turn, or for nothing where it has none.
abbrev pub meaning : (Text → Text) → (Text → Subst) → List Piece → Subst
meaning value again [] = substituted []
meaning value again (literal s ∷ ps) = prefixed s (meaning value again ps)
meaning value again (variable key ∷ ps) =
    followed_by (if is_empty (value key) then substituted [] else again (value key))
      (meaning value again ps)

abbrev variables : List Piece → ℕ
variables [] = 0
variables (literal s ∷ ps) = variables ps
variables (variable key ∷ ps) = variables ps + 1

variables-le : (ps : List Piece) → variables ps ≤ length (print ps)
variables-le [] = omega arith
variables-le (literal s ∷ ps) = omega (arith, variables-le ps, length-append s (print ps))
variables-le (variable key ∷ ps) =
    omega (arith, variables-le ps, length-append key (b'}' ∷ print ps))

prefixed_append : (s t : Text) (r : Subst) → prefixed (s ++ t) r ≡ prefixed s (prefixed t r)
prefixed_append s t (substituted u) = ap substituted (append_assoc s t u)
prefixed_append s t (no_closing_brace u j) = refl
prefixed_append s t too_deep = refl

split_start-literal : (s : Text) → Free b'$' s → split_start (s ++ []) ≡ none
split_start-literal s f = split_start-append s [] f ∙ unfold split_start in refl

prefixed_nil : (r : Subst) → prefixed [] r ≡ r
prefixed_nil (substituted t) = refl
prefixed_nil (no_closing_brace t j) = refl
prefixed_nil too_deep = refl

ended :
    (i : ℕ) (val s sbuf : Text)
    → ((i == 0) ≡ false) ⊎ (sbuf ++ (s ++ []) ≡ val)
    → (if i == 0 then val else sbuf ++ (s ++ [])) ≡ sbuf ++ s
ended i val s sbuf (inl e) = rw (e, append-nil s) refl
ended i val s sbuf (inr e) = elim (Bool-cases (i == 0)) [
  | inl z ↦ rw z (sym e ∙ rw append-nil refl)
  | inr z ↦ rw (z, append-nil s) refl
]

module _ (system_property : Text → Text) (props : PropertyMap) (again : Text → Subst) where
  loop-print :
      (ps : List Piece) (n : ℕ) (val : Text) (i : ℕ) (s sbuf : Text)
      → IsTemplate ps
      → Free b'$' s
      → variables ps < n
      → ((i == 0) ≡ false) ⊎ (sbuf ++ (s ++ print ps) ≡ val)
      → subst_loop system_property props again n val i (s ++ print ps) sbuf
        ≡ prefixed (sbuf ++ s) (meaning (replacement system_property props) again ps)
  unfolding subst_loop
  loop-print ps zero val i s sbuf t f l w = absurd (omega arith)
  loop-print [] (suc n) val i s sbuf t f l w =
      rw (split_start-literal s f, subst_loop)
        (ap substituted (ended i val s sbuf w ∙ sym (append-nil (sbuf ++ s))))
  loop-print (literal u ∷ ps) (suc n) val i s sbuf t f l w = rw (← append_assoc s u (print ps)) (
      loop-print ps (suc n) val i (s ++ u) sbuf t.1 (Free-append b'$' s u f t.0) l
        (elim w [ inl e ↦ inl e | inr e ↦ inr (rw append_assoc e) ])
      ∙ rw (← append_assoc sbuf s u)
          (prefixed_append (sbuf ++ s) u (meaning (replacement system_property props) again ps)))
  loop-print (variable key ∷ ps) (suc n) val i s sbuf t f l w =
      rw
        (
          split_start-variable s (key ++ (b'}' ∷ print ps)) f,
          subst_loop,
          split_at-append b'}' key (print ps) t.0,
          subst_loop,
        )
        (round (expand_key system_property props again key) (λ v.
          loop-print ps n val (i + length s + 2 + length key + 1) [] ((sbuf ++ s) ++ v) t.1 tt
            (omega arith) (inl (ground arith))))
    where
      rest : Subst
      rest = meaning (replacement system_property props) again ps

      next : Text → Subst
      next v =
          subst_loop system_property props again n val (i + length s + 2 + length key + 1)
            (print ps) ((sbuf ++ s) ++ v)

      round :
          (o : Subst)
          → ((v : Text) → next v ≡ prefixed (((sbuf ++ s) ++ v) ++ []) rest)
          → (elim o as (λ x. Subst) [
            | substituted v ↦ next v
            | no_closing_brace u j ↦ no_closing_brace u j
            | too_deep ↦ too_deep
          ])
            ≡ prefixed (sbuf ++ s) (followed_by o rest)
      round (substituted v) ih = ih v ∙ rw append-nil (prefixed_append (sbuf ++ s) v rest)
      round (no_closing_brace u j) ih = refl
      round too_deep ih = refl

module _ (system_property : Text → Text) (props : PropertyMap) where
  -- On a text made of literals and variables, `substVars` gives each literal as it stands and, for
  -- each variable, the result of `substVars` on its replacement: the system property, or else the
  -- property, or else nothing.
  pub subst_vars-print :
      (depth : ℕ) (ps : List Piece)
      → IsTemplate ps
      → subst_vars system_property props (suc depth) (print ps)
        ≡ meaning (replacement system_property props) (subst_vars system_property props depth) ps
  unfolding subst_vars
  subst_vars-print depth ps t =
      let again = subst_vars system_property props depth in
      loop-print system_property props again ps (suc (length (print ps))) (print ps) 0 [] [] t tt
        (omega (arith, variables-le ps)) (inr refl)
      ∙ prefixed_nil (meaning (replacement system_property props) again ps)

  -- Let the replacement of a variable be a well-formed template whose first variable is this one, with
  -- text before it and further pieces behind it. On this template `substVars` goes into a recursion
  -- without end: no depth is enough.
  pub subst_vars_self :
      (key before : Text) (ps : List Piece)
      → IsTemplate (literal before ∷ variable key ∷ ps)
      → replacement system_property props key ≡ print (literal before ∷ variable key ∷ ps)
      → (depth : ℕ)
      → subst_vars system_property props depth (print (literal before ∷ variable key ∷ ps))
        ≡ too_deep
  subst_vars_self key before ps t e zero = unfold subst_vars in refl
  subst_vars_self key before ps t e (suc depth) =
      subst_vars-print depth (literal before ∷ variable key ∷ ps) t
      ∙ rw
          (
            e,
            is_empty-append before (b'{' ∷ (key ++ (b'}' ∷ print ps))) b'$',
            subst_vars_self key before ps t e depth,
          )
          refl
