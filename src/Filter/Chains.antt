-- ===== src/Filter/Chains.antt =====
-- The chains of filters on the heap, which `AppenderSkeleton` and `AndFilter` build and walk: their
-- abstract view is the list of the filters.
use logging_log4cxx.Prelude.{
  ℕ, ◌≡◌, ◌≢◌, sym, subst, List, [], ◌∷◌, ◌++◌, Option, none, some, arith,
}
use logging_log4cxx.Filter.{Next, set_next}

-- The chain from a pointer on is the list, and ends with a null pointer.
abbrev pub Chain : Next → Option ℕ → List ℕ → Type 0
Chain next p [] = p ≡ none
Chain next p (f ∷ fs) = (p ≡ some f) × Chain next (next f) fs

abbrev pub Outside : ℕ → List ℕ → Type 0
Outside f [] = Unit {0}
Outside f (g ∷ fs) = (f ≢ g) × Outside f fs

-- Every filter of the list is another object.
abbrev pub Apart : List ℕ → Type 0
Apart [] = Unit {0}
Apart (f ∷ fs) = Outside f fs × Apart fs

-- A chain that does not hold `f` does not see a write to the next of `f`.
pub Chain-set_next :
    (next : Next) (p : Option ℕ) (fs : List ℕ) (f : ℕ) (q : Option ℕ)
    → Outside f fs
    → Chain next p fs
    → Chain (set_next f q next) p fs
unfolding set_next
Chain-set_next next p [] f q out c = c
Chain-set_next next p (g ∷ fs) f q (ne, out) (e, c) =
    let same : set_next f q next g ≡ next g = ground arith in
    (
      e,
      subst (λ r. Chain (set_next f q next) r fs) (sym same)
          (Chain-set_next next (next g) fs f q out c),
    )

abbrev pub last : ℕ → List ℕ → ℕ
last f [] = f
last f (g ∷ fs) = last g fs

pub Outside-last : (f g : ℕ) (fs : List ℕ) → Outside f (g ∷ fs) → f ≢ last g fs
Outside-last f g [] (ne, out) = ne
Outside-last f g (h ∷ fs) (ne, out) = Outside-last f h fs out

pub Outside-append : (f g : ℕ) (fs : List ℕ) → Outside f fs → f ≢ g → Outside f (fs ++ (g ∷ []))
Outside-append f g [] out ne = (ne, _)
Outside-append f g (h ∷ fs) (e, out) ne = (e, Outside-append f g fs out ne)

pub Apart-append : (fs : List ℕ) (g : ℕ) → Apart fs → Outside g fs → Apart (fs ++ (g ∷ []))
Apart-append [] g apart out = (_, _)
Apart-append (f ∷ fs) g (o, apart) (ne, out) =
    (Outside-append f g fs o (λ e. ne (sym e)), Apart-append fs g apart out)

-- Linking a filter without a successor behind the last filter of a chain.
pub Chain-link :
    (next : Next) (p : Option ℕ) (f : ℕ) (fs : List ℕ) (g : ℕ)
    → Apart (f ∷ fs)
    → Outside g (f ∷ fs)
    → next g ≡ none
    → Chain next p (f ∷ fs)
    → Chain (set_next (last f fs) (some g) next) p ((f ∷ fs) ++ (g ∷ []))
unfolding set_next
Chain-link next p f [] g apart (ne, out) free (e, c) = (e, (ground arith, ground arith))
Chain-link next p f (h ∷ fs) g (o, apart) (ne, out) free (e, c) =
    let far : f ≢ last h fs = Outside-last f h fs o in
    let same : set_next (last h fs) (some g) next f ≡ next f = ground (arith, far) in
    (
      e,
      subst (λ r. Chain (set_next (last h fs) (some g) next) r ((h ∷ fs) ++ (g ∷ []))) (sym same)
          (Chain-link next (next f) h fs g apart out free c),
    )
