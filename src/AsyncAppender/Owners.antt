-- ===== src/AsyncAppender/Owners.antt =====
-- Counts that are claimed and not committed, in src/main/cpp/asyncappender.cpp: each has one thread.
use logging_log4cxx.Prelude.{
  ℕ, ◌+◌, ◌-◌, ◌*◌, ◌/◌, ◌%◌, ◌≤◌, ◌<◌, ◌≡◌, ◌≢◌, refl, sym, ap, ◌∙◌, ◌⊎◌, inl, inr, Bool-cases,
  Option, none, some, if◌then◌else◌, ◌==◌, ltb, ==_iff, ==_self, arith,
}
use native.Mathlib.Nat.{div-add-mod}

-- `held i` is the count of thread `i`; the counts go from `lo` up to `hi`.
pub record Owners (held : ℕ → Option ℕ) (lo hi : ℕ) : Type 0 where
  pub owned : (i c : ℕ) → held i ≡ some c → (lo ≤ c) × (c < hi)
  pub unique : (i j c : ℕ) → held i ≡ some c → held j ≡ some c → i ≡ j
  pub covered : (c : ℕ) → lo ≤ c → c < hi → (i : ℕ) × (held i ≡ some c)

abbrev pub hold : ℕ → Option ℕ → (ℕ → Option ℕ) → ℕ → Option ℕ
hold i c held j = if i == j then c else held j

hold-cases :
    (held : ℕ → Option ℕ) (i : ℕ) (c : Option ℕ) (j x : ℕ)
    → hold i c held j ≡ some x
    → ((i ≡ j) × (c ≡ some x)) ⊎ ((i ≢ j) × (held j ≡ some x))
hold-cases held i c j x e = ground arith

pub hold_self : (held : ℕ → Option ℕ) (i : ℕ) (c : Option ℕ) → hold i c held i ≡ c
hold_self held i c = rw (==_self i) refl

pub hold_other :
    (held : ℕ → Option ℕ) (i : ℕ) (c : Option ℕ) (j : ℕ) → i ≢ j → hold i c held j ≡ held j
hold_other held i c j ne = ground arith

-- A thread without a count takes the next one.
pub Owners-claim :
    (held : ℕ → Option ℕ) (lo hi i : ℕ)
    → lo ≤ hi
    → held i ≡ none
    → Owners held lo hi
    → Owners (hold i (some hi) held) lo (hi + 1)
Owners-claim held lo hi i le free o = record {
  owned = λ j c e. elim (hold-cases held i (some hi) j c e) [
    | inl (_, f) ↦ (ground arith, ground arith)
    | inr (_, f) ↦ let (p, q) = o.owned j c f in (p, omega arith)
  ];
  unique = λ j k c e e'. elim (hold-cases held i (some hi) j c e) [
    | inl (same, f) ↦ elim (hold-cases held i (some hi) k c e') [
      | inl (same', _) ↦ omega arith
      | inr (_, f') ↦ let (_, q) = o.owned k c f' in absurd (ground arith)
    ]
    | inr (_, f) ↦ elim (hold-cases held i (some hi) k c e') [
      | inl (_, f') ↦ let (_, q) = o.owned j c f in absurd (ground arith)
      | inr (_, f') ↦ o.unique j k c f f'
    ]
  ];
  covered = λ c p q. elim (Bool-cases (c == hi)) [
    | inl f ↦ (i, hold_self held i (some hi) ∙ ap some (sym ((==_iff c hi).0 f)))
    | inr f ↦
        let (j, e) = o.covered c p (ground arith) in
        (j, hold_other held i (some hi) j (λ same. cc) ∙ e)
  ];
}

-- The thread that has the first count gives it up.
pub Owners-commit :
    (held : ℕ → Option ℕ) (lo hi i : ℕ)
    → held i ≡ some lo
    → Owners held lo hi
    → Owners (hold i none held) (lo + 1) hi
Owners-commit held lo hi i first o = record {
  owned = λ j c e. elim (hold-cases held i none j c e) [
    | inl (_, f) ↦ absurd (cc f)
    | inr (ne, f) ↦
        let (p, q) = o.owned j c f in
        (
          elim (Bool-cases (c == lo)) [
            | inl same ↦ absurd (ne (o.unique i j lo first (f ∙ ap some ((==_iff c lo).0 same))))
            | inr other ↦ ground arith
          ],
          q,
        )
  ];
  unique = λ j k c e e'. elim (hold-cases held i none j c e) [
    | inl (_, f) ↦ absurd (cc f)
    | inr (_, f) ↦ elim (hold-cases held i none k c e') [
      | inl (_, f') ↦ absurd (cc f')
      | inr (_, f') ↦ o.unique j k c f f'
    ]
  ];
  covered = λ c p q.
      let (j, e) = o.covered c (omega arith) q in
      (j, hold_other held i none j (λ same. clash j c e p same) ∙ e);
}
  where
    clash : (j c : ℕ) → held j ≡ some c → lo + 1 ≤ c → i ≡ j → ⊥
    clash j c e p same = ground (arith, first, e, same)

products_apart : (size q m r a b : ℕ) → size * q + r ≡ a → size * (q + 1 + m) + r ≡ b → a + size ≤ b
products_apart size q m r a b e f = omega arith

products_ordered : (size q m r a b : ℕ) → size * q + r ≡ b → size * (q + m) + r ≡ a → b ≤ a
products_ordered size q m r a b e f = omega arith

-- Counts less than `size` apart have slots of their own.
pub slots_apart : (a b size : ℕ) → a < b → b < a + size → a % size ≢ b % size
slots_apart a b size lt near same = elim (Bool-cases (ltb (a / size) (b / size))) [
  | inl less ↦
      let more : b / size ≡ a / size + 1 + (b / size - a / size - 1) = ground arith in
      omega (
        arith,
        products_apart size (a / size) (b / size - a / size - 1) (a % size) a b (div-add-mod a size)
            (ap (λ q. size * q + a % size) (sym more)
              ∙ ap (λ r. size * (b / size) + r) same
              ∙ div-add-mod b size),
      )
  | inr not_less ↦
      let more : a / size ≡ b / size + (a / size - b / size) = ground arith in
      omega (
        arith,
        products_ordered size (b / size) (a / size - b / size) (b % size) a b (div-add-mod b size) (
            ap (λ q. size * q + b % size) (sym more)
            ∙ ap (λ r. size * (a / size) + r) (sym same)
            ∙ div-add-mod a size),
      )
]
