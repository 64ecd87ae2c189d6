-- ===== src/StringHelper/Trim.antt =====
-- What `trim` and `startsWith` of src/main/cpp/stringhelper.cpp promise.
use logging_log4cxx.Prelude.{
  ℕ, zero, suc, ◌+◌, ◌-◌, ◌≡◌, ◌≢◌, ◌↔◌, refl, sym, ap, ◌∙◌, true, [], ◌∷◌, ◌++◌, none, some, Text,
  text_eq_iff, text_eq_self, length, take, drop, replicate, arith, length-append, take-append-drop,
  take-length_append, length-replicate, append_assoc,
}
use logging_log4cxx.StringHelper.{trim, starts_with, find_first_not_space, find_last_not_space}

-- `startsWith` holds exactly where the text is the prefix and something more.
pub starts_with_iff :
    (s prefix : Text) → (starts_with s prefix ≡ true) ↔ ((r : Text) × (s ≡ prefix ++ r))
unfolding starts_with
starts_with_iff s prefix = (found, λ h. within h.0 h.1)
  where
    found : starts_with s prefix ≡ true → (r : Text) × (s ≡ prefix ++ r)
    found h = (
      drop (length prefix) s,
      sym (take-append-drop (length prefix) s)
          ∙ ap (λ t. t ++ drop (length prefix) s)
              ((text_eq_iff (take (length prefix) s) prefix).0 (ground arith)),
    )

    within : (r : Text) → s ≡ prefix ++ r → starts_with s prefix ≡ true
    within r e =
        rw e
          (ground (arith, take-length_append prefix r, text_eq_self prefix, length-append prefix r))

-- A text with no space at its two ends.
pub data IsBare : Text → Type 0 where
  empty : IsBare []
  one : (c : ℕ) → c ≢ b' ' → IsBare (c ∷ [])
  more : (c d : ℕ) (s : Text) → c ≢ b' ' → d ≢ b' ' → IsBare (c ∷ (s ++ d ∷ []))

abbrev pub spaces : ℕ → Text
spaces n = replicate n b' '

last-spaces : (n : ℕ) → find_last_not_space (spaces n) ≡ none
unfolding find_last_not_space
last-spaces zero = refl
last-spaces (suc n) = rw (last-spaces n, find_last_not_space) refl

first-spaces : (n : ℕ) → find_first_not_space (spaces n) ≡ none
unfolding find_first_not_space
first-spaces zero = refl
first-spaces (suc n) = rw (first-spaces n, find_first_not_space) refl

first-padded : (n c : ℕ) (s : Text) → c ≢ b' ' → find_first_not_space (spaces n ++ (c ∷ s)) ≡ some n
unfolding find_first_not_space
first-padded zero c s h = ground arith
first-padded (suc n) c s h = ground (arith, first-padded n c s h)

last-append :
    (s t : Text) (k : ℕ)
    → find_last_not_space t ≡ some k
    → find_last_not_space (s ++ t) ≡ some (length s + k)
unfolding find_last_not_space
last-append [] t k h = rw h (ground arith)
last-append (c ∷ s) t k h = rw (last-append s t k h, find_last_not_space) (ground arith)

last-padded : (d n : ℕ) → d ≢ b' ' → find_last_not_space (d ∷ spaces n) ≡ some 0
unfolding find_last_not_space
last-padded d n h = rw (last-spaces n, find_last_not_space) (ground arith)

drop-spaces : (n : ℕ) (s : Text) → drop n (spaces n ++ s) ≡ s
drop-spaces zero s = refl
drop-spaces (suc n) s = drop-spaces n s

trim-middle :
    (m n : ℕ) (core : Text) (k : ℕ)
    → find_first_not_space (spaces m ++ (core ++ spaces n)) ≡ some m
    → find_last_not_space (spaces m ++ (core ++ spaces n)) ≡ some k
    → k + 1 ≡ m + length core
    → trim (spaces m ++ (core ++ spaces n)) ≡ core
unfolding trim
trim-middle m n core k f l e =
    let width : k + 1 - m ≡ length core = omega arith in
    rw (f, l, trim, drop-spaces m (core ++ spaces n), width) (take-length_append core (spaces n))

first-both : (m n : ℕ) → find_first_not_space (spaces m ++ spaces n) ≡ none
unfolding find_first_not_space
first-both zero n = first-spaces n
first-both (suc m) n = rw (first-both m n, find_first_not_space) refl

-- `trim` takes off exactly the spaces at the two ends of a text, whatever stands between them.
pub trim-spaces :
    {core : Text} (m n : ℕ) → IsBare core → trim (spaces m ++ (core ++ spaces n)) ≡ core
trim-spaces m n empty = unfold trim in rw (first-both m n, trim) refl
trim-spaces m n (one c h) =
    trim-middle m n (c ∷ []) (length (spaces m) + 0) (first-padded m c (spaces n) h)
      (last-append (spaces m) (c ∷ spaces n) 0 (last-padded c n h))
      (omega (arith, length-replicate {A = ℕ} m b' '))
trim-spaces m n (more c d s h k) =
    trim-middle m n (c ∷ (s ++ d ∷ [])) (length (spaces m) + (length (c ∷ s) + 0))
      (first-padded m c ((s ++ d ∷ []) ++ spaces n) h)
      (rw (append_assoc s (d ∷ []) (spaces n)) (
        last-append (spaces m) ((c ∷ s) ++ (d ∷ spaces n)) (length (c ∷ s) + 0)
          (last-append (c ∷ s) (d ∷ spaces n) 0 (last-padded d n k))))
      (omega (arith, length-replicate {A = ℕ} m b' ', length-append s (d ∷ [])))
