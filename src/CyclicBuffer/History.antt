-- ===== src/CyclicBuffer/History.antt =====
-- Whole histories of calls on the ring of src/main/cpp/cyclicbuffer.cpp.
use logging_log4cxx.Prelude.{
  ℕ, suc, ◌≡◌, refl, subst, List, [], ◌∷◌, Outcome, returned, thrown, undefined, ℤ, pos, negsuc,
}
use logging_log4cxx.CyclicBuffer.{CyclicBuffer, add, get, get_at, new}
use logging_log4cxx.CyclicBuffer.Refinement.{
  Holds, pushed, nth, oldest, add-Holds, get_at-nth, get-oldest, new-Holds,
}

-- `adds` is `add(event)`, `takes` is `get()`, `reads` is `get(i)`.
pub data Call (A : Type 0) : Type 0 where
  adds : A → Call A
  takes : Call A
  reads : ℤ → Call A

emit : {A : Type 0} → A → Outcome (List A) → Outcome (List A)
emit r (returned rs) = returned (r ∷ rs)
emit r (thrown x) = thrown x
emit r undefined = undefined

module _ {A : Type 0} (null : A) where
  -- The events that a sequence of calls returns (an `add` returns none), run on the ring.
  pub run : List (Call A) → CyclicBuffer A → Outcome (List A)
  run [] b = returned []
  run (adds e ∷ cs) b = elim (add e b) [
    | returned c ↦ run cs c
    | thrown x ↦ thrown x
    | undefined ↦ undefined
  ]
  run (takes ∷ cs) b = elim (get null b) [
    | returned (r, c) ↦ emit r (run cs c)
    | thrown x ↦ thrown x
    | undefined ↦ undefined
  ]
  run (reads i ∷ cs) b = elim (get_at null i b) [
    | returned r ↦ emit r (run cs b)
    | thrown x ↦ thrown x
    | undefined ↦ undefined
  ]

  abbrev read : ℤ → List A → A
  read (pos i) xs = nth null xs i
  read (negsuc i) xs = null

  -- The same on a list of at most `size` events.
  unfoldable pub run_list : ℕ → List (Call A) → List A → List A
  run_list size [] xs = []
  run_list size (adds e ∷ cs) xs = run_list size cs (pushed size xs e)
  run_list size (takes ∷ cs) xs = (oldest null xs).0 ∷ run_list size cs (oldest null xs).1
  run_list size (reads i ∷ cs) xs = read i xs ∷ run_list size cs xs

  run-run_list :
      (cs : List (Call A)) (b : CyclicBuffer A) (xs : List A)
      → Holds b xs
      → run cs b ≡ returned (run_list b.max_size cs xs)
  unfolding run run_list emit get_at
  run-run_list [] b xs h = refl
  run-run_list (adds e ∷ cs) b xs h =
      let (c, added, m, k) = add-Holds b xs e h in
      let ys = pushed b.max_size xs e in
      rw (added, run)
        (subst (λ n. run cs c ≡ returned (run_list n cs ys)) m (run-run_list cs c ys k))
  run-run_list (takes ∷ cs) b xs h =
      let (c, taken, m, k) = get-oldest null b xs h in
      let rest = (oldest null xs).1 in
      rw
        (
          taken,
          run,
          subst (λ n. run cs c ≡ returned (run_list n cs rest)) m (run-run_list cs c rest k),
        )
        refl
  run-run_list (reads (pos i) ∷ cs) b xs h =
      rw (get_at-nth null b xs i h, run, run-run_list cs b xs h) refl
  run-run_list (reads (negsuc i) ∷ cs) b xs h = rw (run-run_list cs b xs h)

  abbrev pub start : Outcome (CyclicBuffer A) → List (Call A) → Outcome (List A)
  start (returned b) cs = run cs b
  start (thrown x) cs = thrown x
  start undefined cs = undefined

  -- A buffer made with a positive size answers every sequence of `add`, `get()` and `get(i)` as the list of the
  -- newest `size` events that were not taken yet does, and no call has undefined behaviour.
  pub start-run_list :
      (n : ℕ) (cs : List (Call A))
      → start (new null (pos (suc n))) cs ≡ returned (run_list (suc n) cs [])
  start-run_list n cs =
      let (b, made, m, h) = new-Holds null n in
      rw made (subst (λ k. run cs b ≡ returned (run_list k cs [])) m (run-run_list cs b [] h))
