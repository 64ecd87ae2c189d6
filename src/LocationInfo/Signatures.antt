-- ===== src/LocationInfo/Signatures.antt =====
-- src/main/cpp/locationinfo.cpp, getMethodName and getClassName: the names of a signature.
use logging_log4cxx.Prelude.{
  ℕ, ◌≡◌, refl, sym, ap, ◌∙◌, none, some, [], ◌∷◌, ◌++◌, if◌then◌else◌, Text, codes, split_at,
  split_at-append, Free, Free-append, take, drop, text_eq, append_assoc, append-nil, arith,
}
use logging_log4cxx.LocationInfo.{
  LocationInfo, before_paren, last_colons, behind_last_space, get_method_name, get_class_name,
}

last_colons-none : (s : Text) → Free b':' s → last_colons s ≡ none
unfolding last_colons text_eq
last_colons-none [] f = refl
last_colons-none (c ∷ s) f = ground (arith, last_colons-none s f.1)

last_colons-step :
    (c : ℕ) (s : Text)
    → last_colons s ≡ none
    → last_colons (c ∷ s)
      ≡ (if text_eq (take 2 (c ∷ s)) (codes "::") then some ([], drop 1 s) else none)
unfolding last_colons
last_colons-step c s e =
    ap
      (λ o. elim o [
        | some (before, after) ↦ some (c ∷ before, after)
        | none ↦ if text_eq (take 2 (c ∷ s)) (codes "::") then some ([], drop 1 s) else none
      ])
      e

last_colons-one : (name : Text) → Free b':' name → last_colons (b':' ∷ name) ≡ none
unfolding text_eq
last_colons-one [] f = last_colons-step b':' [] (last_colons-none [] f)
last_colons-one (c ∷ s) f =
    last_colons-step b':' (c ∷ s) (last_colons-none (c ∷ s) f) ∙ ground (arith, f.0)

last_colons-front :
    (name : Text) → Free b':' name → last_colons (codes "::" ++ name) ≡ some ([], name)
unfolding text_eq
last_colons-front name f = last_colons-step b':' (b':' ∷ name) (last_colons-one name f)

last_colons-append :
    (s t before after : Text)
    → last_colons t ≡ some (before, after)
    → last_colons (s ++ t) ≡ some (s ++ before, after)
unfolding last_colons
last_colons-append [] t before after e = e
last_colons-append (c ∷ s) t before after e = rw (last_colons-append s t before after e) refl

behind_last_space-none : (s : Text) → Free b' ' s → behind_last_space s ≡ none
unfolding behind_last_space
behind_last_space-none [] f = refl
behind_last_space-none (c ∷ s) f = ground (arith, behind_last_space-none s f.1)

behind_last_space-append :
    (s name : Text) → Free b' ' name → behind_last_space (s ++ (b' ' ∷ name)) ≡ some name
unfolding behind_last_space
behind_last_space-append [] name f = rw (behind_last_space-none name f) refl
behind_last_space-append (c ∷ s) name f = rw (behind_last_space-append s name f) refl

before_paren-append : (s args : Text) → Free b'(' s → before_paren (s ++ (b'(' ∷ args)) ≡ s
unfolding before_paren
before_paren-append s args f = rw (before_paren, split_at-append b'(' s args f) refl

-- A signature: the result with its qualifiers, the class, the method, and the arguments.
abbrev pub signature : Text → Text → Text → Text → Text
signature result class_name method args =
    (result ++ (b' ' ∷ (class_name ++ (codes "::" ++ method)))) ++ (b'(' ∷ args)

abbrev pub Parenless : Text → Text → Text → Type 0
Parenless result class_name method = Free b'(' result × Free b'(' class_name × Free b'(' method

module _ (result class_name method : Text) (free : Parenless result class_name method)
    (one_word : Free b' ' class_name) (no_colon : Free b':' method) where
  head-Free : Free b'(' (result ++ (b' ' ∷ (class_name ++ (codes "::" ++ method))))
  head-Free = Free-append b'(' result (b' ' ∷ (class_name ++ (codes "::" ++ method))) free.0 (
    omega arith,
    Free-append b'(' class_name (codes "::" ++ method) free.1 (omega arith, (omega arith, free.2)),
  )

  head_split :
      last_colons (result ++ (b' ' ∷ (class_name ++ (codes "::" ++ method))))
      ≡ some (result ++ (b' ' ∷ class_name), method)
  head_split =
      ap last_colons (sym (append_assoc result (b' ' ∷ class_name) (codes "::" ++ method)))
      ∙ last_colons-append (result ++ (b' ' ∷ class_name)) (codes "::" ++ method) [] method
          (last_colons-front method no_colon)
      ∙ ap (λ b. some (b, method)) (append-nil (result ++ (b' ' ∷ class_name)))

  -- For a signature whose result, class and method have no parenthesis, whose class has no space and
  -- whose method has no colon, `getMethodName` and `getClassName` give the method and the class, with
  -- whatever arguments and qualifiers, also of a class within namespaces.
  pub get_names-signature :
      (info : LocationInfo) (args : Text)
      → info.method_name ≡ signature result class_name method args
      → (get_method_name info ≡ method) × (get_class_name info ≡ class_name)
  unfolding get_method_name get_class_name
  get_names-signature info args e =
      let cut = ap before_paren e ∙ before_paren-append _ args head-Free in
      (
        rw (get_method_name, cut, head_split) refl,
        rw (get_class_name, cut, head_split, behind_last_space-append result class_name one_word)
            refl,
      )

split_at-none : (c : ℕ) (s : Text) → Free c s → split_at c s ≡ none
unfolding split_at
split_at-none c [] f = refl
split_at-none c (x ∷ s) f = ground (arith, split_at-none c s f.1)

-- For a signature with a parenthesis right behind the result and its space, as in a function of an
-- anonymous namespace or with a result of one word, both names are empty, whatever follows.
pub get_names-anonymous :
    (info : LocationInfo) (result rest : Text)
    → info.method_name ≡ (result ++ (b' ' ∷ [])) ++ (b'(' ∷ rest)
    → Free b'(' result
    → Free b':' result
    → Free b' ' result
    → (get_method_name info ≡ []) × (get_class_name info ≡ [])
unfolding get_method_name get_class_name
get_names-anonymous info result rest e no_paren no_colon one_word =
    let cut =
      ap before_paren e
      ∙ before_paren-append (result ++ (b' ' ∷ [])) rest
          (Free-append b'(' result (b' ' ∷ []) no_paren (omega arith, tt)) in
    let none_found =
      last_colons-none (result ++ (b' ' ∷ []))
        (Free-append b':' result (b' ' ∷ []) no_colon (omega arith, tt)) in
    (
      rw (get_method_name, cut, none_found, cut, split_at-append b' ' result [] one_word) refl,
      rw (get_class_name, cut, none_found) refl,
    )
