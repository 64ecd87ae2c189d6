-- ===== src/AppenderAttachable/History.antt =====
-- Sequences of additions and removals on the list of appenders, as operations on a set.
use logging_log4cxx.Prelude.{
  ℕ, ◌+◌, ◌≡◌, refl, sym, ap, ◌∙◌, Bool, true, false, Option, none, some, List, [], ◌∷◌, ◌++◌, ◌==◌,
  if◌then◌else◌, length, arith, Bool-cases, inl, inr,
}
use logging_log4cxx.AppenderAttachable.{
  Attachable, found, get_all_appenders, add_appender, is_attached, erase, remove_appender,
  remove_all_appenders, append_loop_on_appenders, calls,
}

pub data Change : Type 0 where
  adds removes : Option ℕ → Change
  clears : Change

unfoldable pub change : Change → Attachable → Attachable
unfolding add_appender remove_appender remove_all_appenders
change (adds a) priv = add_appender a priv
change (removes a) priv = remove_appender a priv
change clears priv = (remove_all_appenders priv).1

unfoldable pub run : List Change → Attachable → Attachable
unfolding change
run [] priv = priv
run (c ∷ cs) priv = run cs (change c priv)

-- The set of the attached appenders, as its test.
abbrev pub changed : Change → (ℕ → Bool) → ℕ → Bool
changed (adds none) attached x = attached x
changed (adds (some a)) attached x = if a == x then true else attached x
changed (removes none) attached x = attached x
changed (removes (some a)) attached x = if a == x then false else attached x
changed clears attached x = false

abbrev pub run_set : List Change → (ℕ → Bool) → ℕ → Bool
run_set [] attached = attached
run_set (c ∷ cs) attached = run_set cs (changed c attached)

-- No appender stands twice in the list.
abbrev pub Distinct : List ℕ → Type 0
Distinct [] = Unit {0}
Distinct (a ∷ appenders) = (found a appenders ≡ false) × Distinct appenders

found-append :
    (x a : ℕ) (xs : List ℕ) → found x (xs ++ a ∷ []) ≡ (if a == x then true else found x xs)
unfolding found
found-append x a [] = refl
found-append x a (b ∷ xs) = ground (arith, found-append x a xs)

found-erase :
    (x a : ℕ) (xs : List ℕ)
    → Distinct xs
    → found x (erase a xs) ≡ (if a == x then false else found x xs)
unfolding found erase
found-erase x a [] d = ground arith
found-erase x a (b ∷ xs) (n, d) = ground (arith, n, found-erase x a xs d)

erase-Distinct : (a : ℕ) (xs : List ℕ) → Distinct xs → Distinct (erase a xs)
unfolding erase found
erase-Distinct a [] d = _
erase-Distinct a (b ∷ xs) (n, d) = elim (Bool-cases (b == a)) [
  | inl e ↦ rw e d
  | inr e ↦ rw e (found-erase b a xs d ∙ ground (arith, n), erase-Distinct a xs d)
]

append-Distinct : (a : ℕ) (xs : List ℕ) → found a xs ≡ false → Distinct xs → Distinct (xs ++ a ∷ [])
unfolding found
append-Distinct a [] n d = (refl, _)
append-Distinct a (b ∷ xs) n (m, d) =
    (found-append b a xs ∙ ground (arith, n, m), append-Distinct a xs (ground (arith, n)) d)

attached_list :
    (x : ℕ) (priv : Attachable) → is_attached (some x) priv ≡ found x (get_all_appenders priv)
unfolding is_attached get_all_appenders found
attached_list x none = refl
attached_list x (some xs) = refl

add-found :
    (x a : ℕ) (xs : List ℕ)
    → found x (if found a xs then xs else xs ++ a ∷ []) ≡ (if a == x then true else found x xs)
add-found x a xs = elim (Bool-cases (found a xs)) [
  | inl e ↦ elim (Bool-cases (a == x)) [
    | inl f ↦ let same : a ≡ x = ground arith in rw (e, f) (ap (λ y. found y xs) (sym same) ∙ e)
    | inr f ↦ rw (e, f) refl
  ]
  | inr e ↦ rw e (found-append x a xs)
]

-- One change acts on the list as it does on the set.
change-found :
    (c : Change) (x : ℕ) (priv : Attachable)
    → Distinct (get_all_appenders priv)
    → found x (get_all_appenders (change c priv))
      ≡ changed c (λ y. found y (get_all_appenders priv)) x
unfolding change add_appender remove_appender remove_all_appenders get_all_appenders found
change-found (adds none) x priv d = refl
change-found (adds (some a)) x priv d = add-found x a (get_all_appenders priv)
change-found (removes none) x priv d = refl
change-found (removes (some a)) x none d = ground arith
change-found (removes (some a)) x (some xs) d = found-erase x a xs d
change-found clears x none d = refl
change-found clears x (some xs) d = refl

change-Distinct :
    (c : Change) (priv : Attachable)
    → Distinct (get_all_appenders priv)
    → Distinct (get_all_appenders (change c priv))
unfolding change add_appender remove_appender remove_all_appenders get_all_appenders
change-Distinct (adds none) priv d = d
change-Distinct (adds (some a)) priv d = elim (Bool-cases (found a (get_all_appenders priv))) [
  | inl e ↦ rw e d
  | inr e ↦ rw e (append-Distinct a (get_all_appenders priv) e d)
]
change-Distinct (removes none) priv d = d
change-Distinct (removes (some a)) none d = d
change-Distinct (removes (some a)) (some xs) d = erase-Distinct a xs d
change-Distinct clears none d = d
change-Distinct clears (some xs) d = _

run-found :
    (cs : List Change) (x : ℕ) (priv : Attachable)
    → Distinct (get_all_appenders priv)
    → (found x (get_all_appenders (run cs priv))
        ≡ run_set cs (λ y. found y (get_all_appenders priv)) x)
      × Distinct (get_all_appenders (run cs priv))
unfolding run
run-found [] x priv d = (refl, d)
run-found (c ∷ cs) x priv d =
    let (e, d') = run-found cs x (change c priv) (change-Distinct c priv d) in
    (e ∙ (λ i. run_set cs (λ y. change-found c y priv d i) x), d')

calls-length : (xs : List ℕ) (n : ℕ) → calls xs n ≡ (xs, n + length xs)
unfolding calls
calls-length [] n = ground arith
calls-length (a ∷ xs) n = rw (calls-length xs (n + 1)) (ground arith)

append_all :
    (priv : Attachable)
    → append_loop_on_appenders priv ≡ (get_all_appenders priv, length (get_all_appenders priv))
unfolding append_loop_on_appenders get_all_appenders
append_all none = refl
append_all (some xs) = rw (calls-length xs 0) (ground arith)

-- After every sequence of additions, removals and clearings, null pointers included, exactly the
-- appenders of the set that the sequence makes are attached, none of them stands twice in the list,
-- and the append loop calls the appenders of the list in order and returns their number.
pub run-run_set :
    (cs : List Change) (x : ℕ)
    → (is_attached (some x) (run cs none) ≡ run_set cs (λ y. false) x)
      × Distinct (get_all_appenders (run cs none))
      × (append_loop_on_appenders (run cs none)
          ≡ (get_all_appenders (run cs none), length (get_all_appenders (run cs none))))
unfolding get_all_appenders found
run-run_set cs x =
    let (e, d) = run-found cs x none _ in
    (attached_list x (run cs none) ∙ e, d, append_all (run cs none))
