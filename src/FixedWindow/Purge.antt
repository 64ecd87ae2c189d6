-- ===== src/FixedWindow/Purge.antt =====
-- `purge` of src/main/cpp/fixedwindowrollingpolicy.cpp for names without a suffix of a compressed file.
use logging_log4cxx.Prelude.{
  ℕ, zero, suc, ◌+◌, ◌-◌, ◌≤◌, ◌<◌, ◌≡◌, ◌≢◌, refl, sym, ap, ◌∙◌, subst, Bool, true, false,
  Bool-cases, inl, inr, Option, none, some, returned, ◌>>=◌, [], if◌then◌else◌, ltb, ◌==◌, ==_iff,
  Text, text_eq, text_eq_iff, text_eq_self, arith,
}
use logging_log4cxx.FixedWindow.{
  FileSystem, Plan, abandoned, planned, choose, plan, with_rename, deleted, execute, carried_out,
  suffix_length, purge,
}
use logging_log4cxx.FixedWindow.Files.{is_there, Works}

-- What the files of the indices have before and after.
module _ {D : Type 0} (content : Text → D → Option Text) (format : ℕ → Text) where
  -- All files from one index to another are there.
  abbrev pub AllThere : ℕ → ℕ → D → Type 0
  AllThere i j d = (k : ℕ) → i ≤ k → k ≤ j → content (format k) d ≢ none

  pub record Shifted (i high : ℕ) (d d' : D) : Type 0 where
    pub freed : content (format i) d' ≡ none
    pub moved :
        (j : ℕ)
        → i ≤ j
        → j < high
        → AllThere i j d
        → content (format (j + 1)) d' ≡ content (format j) d
    pub others :
        (x : Text) → ((k : ℕ) → i ≤ k → k ≤ high → format k ≢ x) → content x d' ≡ content x d

module _ {D : Type 0} (fs : FileSystem D) (content : Text → D → Option Text) (format : ℕ → Text)
    (works : Works fs content) (distinct : (a b : ℕ) → format a ≡ format b → a ≡ b) where
  text_ne : (s t : Text) → s ≢ t → text_eq s t ≡ false
  text_ne s t ne = elim (Bool-cases (text_eq s t)) [
    | inl e ↦ absurd (ne ((text_eq_iff s t).0 e))
    | inr e ↦ e
  ]

  missing : (o : Option Text) → is_there o ≡ false → o ≡ none
  missing none e = refl
  missing (some a) e = absurd (cc e)

  -- What the plan from one index on does, where it is carried out.
  abbrev Done : ℕ → ℕ → D → Bool × D → Type 0
  Done i high d (ok, d') = (ok ≡ true) × Shifted content format i high d d'

  stays : (i high : ℕ) (d : D) → fs.exists (format i) d ≡ false → Done i high d (true, d)
  stays i high d e =
      let gone = missing (content (format i) d) (sym (works.existing (format i) d) ∙ e) in
      (
        refl,
        record {
          freed = gone;
          moved = λ j p q all. absurd (all i (omega arith) p gone);
          others = λ x ne. refl;
        },
      )

  delete_last :
      (i : ℕ) (d : D)
      → fs.exists (format i) d ≡ true
      → Done i i d (carried_out fs (deleted fs (fs.delete_file (format i) d)))
  unfolding carried_out execute
  delete_last i d e =
      let ok = works.delete_done (format i) d e in
      rw ok (
        refl,
        record {
          freed =
              works.delete_content (format i) d (format i) e ∙ rw (text_eq_self (format i)) refl;
          moved = λ j p q all. absurd (omega arith);
          others = λ x ne.
              works.delete_content (format i) d x e
              ∙ rw (text_ne (format i) x (ne i (omega arith) (omega arith))) refl;
        },
      )

  -- A rename after the files above have moved.
  rename_one :
      (i high : ℕ) (d d1 : D)
      → i < high
      → fs.exists (format i) d ≡ true
      → Shifted content format (i + 1) high d d1
      → Done i high d (fs.rename_to (format i) (format (i + 1)) d1)
  rename_one i high d d1 lt e s =
      let kept : content (format i) d1 ≡ content (format i) d =
        s.others (format i) (λ k p q same. omega (arith, distinct k i same)) in
      let there : fs.exists (format i) d1 ≡ true =
        works.existing (format i) d1 ∙ ap is_there kept ∙ sym (works.existing (format i) d) ∙ e in
      let renamed = λ (x : Text). works.rename_content (format i) (format (i + 1)) d1 x there in
      (
        works.rename_done (format i) (format (i + 1)) d1 there,
        record {
          freed =
              renamed (format i) ∙ rw (other (i + 1) i (omega arith), text_eq_self (format i)) refl;
          moved = λ j p q all. elim (Bool-cases (j == i)) [
            | inl same ↦
                subst
                  (λ k.
                    content (format (k + 1)) (fs.rename_to (format i) (format (i + 1)) d1).1
                    ≡ content (format k) d)
                  (sym ((==_iff j i).0 same))
                  (renamed (format (i + 1)) ∙ rw (text_eq_self (format (i + 1))) kept)
            | inr apart ↦
                let later : i + 1 ≤ j = beyond i j p apart in
                renamed (format (j + 1))
                ∙ rw (other (i + 1) (j + 1) (omega arith), other i (j + 1) (omega arith))
                    (s.moved j later q (λ k p' q'. all k (omega arith) q'))
          ];
          others = λ x ne.
              renamed x
              ∙ rw
                  (
                    text_ne (format (i + 1)) x (ne (i + 1) (omega arith) (omega arith)),
                    text_ne (format i) x (ne i (omega arith) (omega arith)),
                  )
                  (s.others x (λ k p q. ne k (omega arith) q));
        },
      )
    where
      other : (a b : ℕ) → a ≢ b → text_eq (format a) (format b) ≡ false
      other a b ne = text_ne (format a) (format b) (λ same. ne (distinct a b same))

      beyond : (a b : ℕ) → a ≤ b → (b == a) ≡ false → a + 1 ≤ b
      beyond a b le ne = ground arith

  with_rename-Done :
      (i high : ℕ) (d : D) (p : Plan D)
      → i < high
      → fs.exists (format i) d ≡ true
      → Done (i + 1) high d (carried_out fs p)
      → Done i high d (carried_out fs (with_rename fs (format i) (format (i + 1)) p))
  unfolding carried_out execute
  with_rename-Done i high d (abandoned d1) lt e (ok, s) = absurd (cc ok)
  with_rename-Done i high d (planned renames d1) lt e (ok, s) =
      rw ok (rename_one i high d (execute fs renames d1).1 lt e s)

  planned_none :
      (i high : ℕ) (d : D)
      → fs.exists (format i) d ≡ false
      → Done i high d (carried_out fs (planned [] d))
  unfolding carried_out execute
  planned_none i high d e = stays i high d e

  plan-Shifted :
      (left i high : ℕ) (d : D)
      → i + left ≡ high
      → Done i high d (carried_out fs (plan fs format 0 left i (format i) d))
  unfolding plan choose
  plan-Shifted zero i high d e = elim (Bool-cases (fs.exists (format i) d)) [
    | inl there ↦
        let same : i ≡ high = omega arith in
        rw there (
          subst (λ h. Done i h d (carried_out fs (deleted fs (fs.delete_file (format i) d)))) same
            (delete_last i d there))
    | inr gone ↦ rw gone (planned_none i high d gone)
  ]
  plan-Shifted (suc left) i high d e = elim (Bool-cases (fs.exists (format i) d)) [
    | inl there ↦ rw there (
        with_rename-Done i high d (plan fs format 0 left (i + 1) (format (i + 1)) d) (omega arith)
          there (plan-Shifted left (i + 1) high d (omega arith)))
    | inr gone ↦ rw gone (planned_none i high d gone)
  ]

  -- Let every removal and renaming succeed, let different indices have different names, and let the name
  -- of the lowest index have four characters or more and no suffix of a compressed file. `purge`
  -- succeeds and frees that name; a file that no missing index stands before, below the highest index,
  -- moves to the name of the next index, whose file it replaces; and files that have none of the names
  -- keep what they have.
  pub purge-Shifted :
      (low high : ℕ) (d : D)
      → suffix_length (format low) ≡ returned 0
      → low ≤ high
      → (d' : D) × (purge fs format low high d ≡ returned (true, d'))
        × Shifted content format low high d d'
  unfolding purge
  purge-Shifted low high d none_there le =
      let range : ltb high low ≡ false = ground arith in
      let steps = plan fs format 0 (high - low) low (format low) d in
      let (ok, s) = plan-Shifted (high - low) low high d (omega arith) in
      (
        (carried_out fs steps).1,
        ap
              (λ o. o >>= λ suffix. returned (
                if ltb high low
                then (true, d)
                else carried_out fs (plan fs format suffix (high - low) low (format low) d)))
              none_there
            ∙ rw range (λ t. returned (ok t, (carried_out fs steps).1)),
        s,
      )
