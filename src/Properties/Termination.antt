-- ===== src/Properties/Termination.antt =====
-- The loop of the parser of src/main/cpp/properties.cpp ends.
use logging_log4cxx.Prelude.{
  ℕ, zero, suc, ◌≤◌, ◌<◌, ◌≡◌, refl, sym, ◌∙◌, true, false, [], ◌∷◌, Text, arith, Bool-cases, inl,
  inr,
}
use logging_log4cxx.Properties.Parser.{
  step_in, Parser, LexemType, begin, step, step_in, loop, measure, run,
}

step_in-measure :
    (l : LexemType) (t : Text) (p : Parser)
    → p.lexem_type ≡ l
    → p.input ≡ t
    → p.finished ≡ false
    → measure (step_in l p) < measure p
unfolding step_in
step_in-measure begin [] p a b f = ground arith
step_in-measure _ [] p a b f = ground arith
step_in-measure _ (x ∷ t) p a b f = ground arith

step-measure : (p : Parser) → p.finished ≡ false → measure (step p) < measure p
step-measure p f = step_in-measure p.lexem_type p.input p refl refl f

finished-measure : (p : Parser) → measure p ≤ 0 → p.finished ≡ true
finished-measure p h = ground arith

loop-stop : (n : ℕ) (p : Parser) → p.finished ≡ true → loop n p ≡ p
unfolding loop
loop-stop zero p f = refl
loop-stop (suc n) p f = ground arith

loop-step : (n : ℕ) (p : Parser) → p.finished ≡ false → loop (suc n) p ≡ loop n (step p)
unfolding loop
loop-step n p f = ground arith

pub loop-finished : (n : ℕ) (p : Parser) → measure p ≤ n → (loop n p).finished ≡ true
unfolding loop
loop-finished zero p h = finished-measure p h
loop-finished (suc n) p h = elim (Bool-cases p.finished) [
  | inl f ↦ rw (loop-stop (suc n) p f) f
  | inr f ↦ rw (loop-step n p f) (loop-finished n (step p) (omega (arith, step-measure p f)))
]

loop-loop : (n m : ℕ) (p : Parser) → measure p ≤ n → measure p ≤ m → loop n p ≡ loop m p
unfolding loop
loop-loop zero m p h k = sym (loop-stop m p (finished-measure p h))
loop-loop (suc n) zero p h k = loop-stop (suc n) p (finished-measure p k)
loop-loop (suc n) (suc m) p h k = elim (Bool-cases p.finished) [
  | inl f ↦ loop-stop (suc n) p f ∙ sym (loop-stop (suc m) p f)
  | inr f ↦
      let less = step-measure p f in
      loop-step n p f ∙ loop-loop n m (step p) (omega arith) (omega arith) ∙ sym (loop-step m p f)
]

-- With its fuel the loop always ends by `finished`, from every state of the parser, and more fuel
-- gives the same result.
pub run-finished :
    (p : Parser) → ((run p).finished ≡ true) × ((n : ℕ) → measure p ≤ n → loop n p ≡ run p)
unfolding run
run-finished p =
    (loop-finished (measure p) p (omega arith), λ n h. loop-loop n (measure p) p h (omega arith))

pub run-step : (p : Parser) → p.finished ≡ false → run p ≡ run (step p)
unfolding run
run-step p f =
    let less = step-measure p f in
    loop-loop (measure p) (suc (measure p)) p (omega arith) (omega arith)
    ∙ loop-step (measure p) p f
    ∙ loop-loop (measure p) (measure (step p)) (step p) (omega arith) (omega arith)
