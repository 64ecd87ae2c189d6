-- ===== src/OptionConverter/SubstVars/Depth.antt =====
-- How deep the recursion of `substVars` of src/main/cpp/optionconverter.cpp goes.
use logging_log4cxx.Prelude.{
  ℕ, zero, suc, ◌+◌, ◌<◌, ◌≡◌, ◌≢◌, refl, sym, ap, ◌∙◌, inl, inr, [], ◌∷◌, ◌++◌, Option-cases, Text,
  arith, append_assoc, length, length-append, split_at, split_at_sound,
}
use logging_log4cxx.Properties.{PropertyMap}
use logging_log4cxx.OptionConverter.SubstVars.{split_start_sound}
use logging_log4cxx.OptionConverter.{
  split_start, Subst, substituted, no_closing_brace, too_deep, replacement, expand_key, subst_loop,
  subst_vars,
}

-- The text refers to the variable somewhere.
abbrev pub Mentions : Text → Text → Type 0
Mentions val key =
    (before : Text) × (after : Text) × (val ≡ before ++ (b'$' ∷ b'{' ∷ (key ++ (b'}' ∷ after))))

round_ends :
    (o : Subst) (next : Text → Subst)
    → o ≢ too_deep
    → ((v : Text) → next v ≢ too_deep)
    → (elim o as (λ x. Subst) [
      | substituted v ↦ next v
      | no_closing_brace u j ↦ no_closing_brace u j
      | too_deep ↦ too_deep
    ])
      ≢ too_deep
round_ends (substituted v) next a b = b v
round_ends (no_closing_brace u j) next a b = λ h. cc
round_ends too_deep next a b = absurd (a refl)

module _ (system_property : Text → Text) (props : PropertyMap) where
  abbrev Answers : (Text → Subst) → Text → Type 0
  Answers again val =
      (key : Text)
      → Mentions val key
      → replacement system_property props key ≢ []
      → again (replacement system_property props key) ≢ too_deep

  expand_key-ne-too_deep :
      (again : Text → Subst) (val key : Text)
      → Answers again val
      → Mentions val key
      → expand_key system_property props again key ≢ too_deep
  unfolding expand_key
  expand_key-ne-too_deep again val key a m = ground (arith, a key m)

  loop-ne-too_deep :
      (again : Text → Subst) (n : ℕ) (val : Text) (i : ℕ) (done rest sbuf : Text)
      → Answers again val
      → val ≡ done ++ rest
      → length rest < n
      → subst_loop system_property props again n val i rest sbuf ≢ too_deep
  unfolding subst_loop
  loop-ne-too_deep again zero val i done rest sbuf a e l = absurd (omega arith)
  loop-ne-too_deep again (suc n) val i done rest sbuf a e l =
      elim (Option-cases (split_start rest)) [
        | inl p ↦ rw (p, subst_loop) (λ h. cc)
        | inr ((before, after), p) ↦ elim (Option-cases (split_at b'}' after)) [
          | inl q ↦ rw (p, subst_loop, q, subst_loop) (λ h. cc)
          | inr ((key, tail), q) ↦
              let start = split_start_sound rest before after p in
              let stop = split_at_sound b'}' after key tail q in
              let whole : val ≡ (done ++ before) ++ (b'$' ∷ b'{' ∷ (key ++ (b'}' ∷ tail))) =
                e ∙ rw (start, stop) (sym (append_assoc done before _)) in
              rw (p, subst_loop, q, subst_loop)
                (round_ends (expand_key system_property props again key)
                  (λ v.
                    subst_loop system_property props again n val
                      (i + length before + 2 + length key + 1) tail ((sbuf ++ before) ++ v))
                  (expand_key-ne-too_deep again val key a (done ++ before, tail, whole))
                  (λ v.
                    loop-ne-too_deep again n val (i + length before + 2 + length key + 1)
                      ((done ++ before) ++ (b'$' ∷ b'{' ∷ (key ++ (b'}' ∷ [])))) tail
                      ((sbuf ++ before) ++ v) a (whole ∙ simp append_assoc)
                      (omega (
                        arith,
                        l,
                        ap length start,
                        ap length stop,
                        length-append before (b'$' ∷ b'{' ∷ after),
                        length-append key (b'}' ∷ tail),
                      ))))
        ]
      ]

  -- If the variables that a text mentions have replacements of a smaller rank, then a depth above
  -- the rank of the text is enough: `substVars` returns or throws.
  pub subst_vars-ne-too_deep :
      (rank : Text → ℕ)
      → ((val key : Text)
          → Mentions val key
          → replacement system_property props key ≢ []
          → rank (replacement system_property props key) < rank val)
      → (depth : ℕ) (val : Text) → rank val < depth
      → subst_vars system_property props depth val ≢ too_deep
  unfolding subst_vars
  subst_vars-ne-too_deep rank falls zero val h = absurd (omega arith)
  subst_vars-ne-too_deep rank falls (suc depth) val h =
      loop-ne-too_deep (subst_vars system_property props depth) (suc (length val)) val 0 [] val []
        (λ key m ne.
          subst_vars-ne-too_deep rank falls depth (replacement system_property props key)
            (below (falls val key m ne)))
        refl (omega arith)
    where
      below : {k : ℕ} → k < rank val → k < depth
      below p = omega arith
