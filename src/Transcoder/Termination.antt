-- ===== src/Transcoder/Termination.antt =====
-- The loop of `decodeUTF8` in src/main/cpp/transcoder.cpp on any bytes.
use logging_log4cxx.Prelude.{
  ℕ, zero, suc, ◌≤◌, ◌≡◌, refl, ap, ◌⊎◌, inl, inr, false, Bool-cases, Option, none, some, Outcome,
  returned, thrown, undefined, [], ◌∷◌, ◌==◌, length, arith,
}
use logging_log4cxx.Transcoder.{
  Bytes, no_char, loss_char, encode_utf8, decode, decode_second, decode_third, decode_fourth,
  decode_utf8, appended, step_over,
}

-- A call either refuses and stays at `start`, or ends behind it.
abbrev Moved : Bytes → ℕ → ℕ × Bytes → Type 0
Moved start n (sv, rest) = ((sv ≡ no_char) × (rest ≡ start)) ⊎ (length rest ≤ n)

decode_fourth-Moved :
    (start : Bytes) (ch1 ch2 ch3 : ℕ) (s : Bytes)
    → Moved start (length s) (decode_fourth start ch1 ch2 ch3 s)
unfolding decode_fourth
decode_fourth-Moved start ch1 ch2 ch3 [] = inl (refl, refl)
decode_fourth-Moved start ch1 ch2 ch3 (ch4 ∷ s) = ground arith

decode_third-Moved :
    (start : Bytes) (ch1 ch2 : ℕ) (s : Bytes)
    → Moved start (length s) (decode_third start ch1 ch2 s)
unfolding decode_third
decode_third-Moved start ch1 ch2 [] = inl (refl, refl)
decode_third-Moved start ch1 ch2 (ch3 ∷ s) = ground (arith, decode_fourth-Moved start ch1 ch2 ch3 s)

decode_second-Moved :
    (start : Bytes) (ch1 : ℕ) (s : Bytes) → Moved start (length s) (decode_second start ch1 s)
unfolding decode_second
decode_second-Moved start ch1 [] = inl (refl, refl)
decode_second-Moved start ch1 (ch2 ∷ s) = ground (arith, decode_third-Moved start ch1 ch2 s)

decode-Moved : (c : ℕ) (s : Bytes) → Moved (c ∷ s) (length s) (decode c s)
unfolding decode
decode-Moved c s = ground (arith, decode_second-Moved (c ∷ s) c s)

outcome_kept :
    (bytes : Bytes) (r : Option (Outcome Bytes))
    → (out : Outcome Bytes) × (r ≡ some out)
    → (out : Outcome Bytes) × (appended bytes r ≡ some out)
unfolding appended
outcome_kept bytes none (out, e) = absurd (cc e)
outcome_kept bytes (some (returned s)) h = (_, refl)
outcome_kept bytes (some (thrown x)) h = (_, refl)
outcome_kept bytes (some undefined) h = (_, refl)

-- What stands behind the byte that is stepped over.
step_over_shorter :
    (c : ℕ) (s : Bytes) (sv : ℕ) (rest : Bytes)
    → Moved (c ∷ s) (length s) (sv, rest)
    → (step_over rest ≡ undefined)
      ⊎ ((rest' : Bytes) × (step_over rest ≡ returned rest') × (length rest' ≤ length s))
step_over_shorter c s sv [] m = inl refl
step_over_shorter c s sv (d ∷ rest) (inl (_, e)) = inr (rest, refl, omega (arith, ap length e))
step_over_shorter c s sv (d ∷ rest) (inr shorter) = inr (rest, refl, omega arith)

read_shorter :
    (c : ℕ) (s : Bytes) (sv : ℕ) (rest : Bytes)
    → Moved (c ∷ s) (length s) (sv, rest)
    → (sv == no_char) ≡ false
    → length rest ≤ length s
read_shorter c s sv rest (inl (e, _)) ne = absurd (ground arith)
read_shorter c s sv rest (inr shorter) ne = shorter

-- `decode_utf8` ends on every sequence of bytes, after at most one round for each byte: it returns a
-- text or steps over the end.
pub decode_utf8-ends :
    (n : ℕ) (s : Bytes) → length s ≤ n → (out : Outcome Bytes) × (decode_utf8 n s ≡ some out)
unfolding decode_utf8
decode_utf8-ends n [] h = (_, refl)
decode_utf8-ends zero (c ∷ s) h = absurd (omega arith)
decode_utf8-ends (suc n) (c ∷ s) h = elim (Bool-cases ((decode c s).0 == no_char)) [
  | inr read ↦
      let shorter = read_shorter c s (decode c s).0 (decode c s).1 (decode-Moved c s) read in
      rw (decode_utf8, read)
        (outcome_kept (encode_utf8 (decode c s).0) (decode_utf8 n (decode c s).1)
          (decode_utf8-ends n (decode c s).1 (omega arith)))
  | inl refused ↦ elim (step_over_shorter c s (decode c s).0 (decode c s).1 (decode-Moved c s)) [
    | inl e ↦ rw (decode_utf8, refused, e) (_, refl)
    | inr (rest, e, shorter) ↦
        rw (decode_utf8, refused, e)
          (outcome_kept (loss_char ∷ []) (decode_utf8 n rest)
            (decode_utf8-ends n rest (omega arith)))
  ]
]
