-- ===== src/Tests/Ndcs.antt =====
-- Runs of the diagnostic contexts of two threads.
use logging_log4cxx.Prelude.{◌≡◌, refl, List, [], ◌∷◌, some, true, returned, undefined, codes}
use logging_log4cxx.Ndc.{no_contexts, push, pop, get, get_depth, clone_stack, inherit, pushed}
use logging_log4cxx.Ndc.Messages.{
  Call, push_of, get_of, pop_of, depth_of, clone_of, inherit_of, text, appended, number, nothing,
  run, ideal_run, no_messages, step,
}
use logging_log4cxx.Ndc.Calls.{run-ideal_run}

abbrev calls : List Call
calls =
    push_of 1 (codes "a")
    ∷ push_of 1 (codes "b")
    ∷ get_of 1 (codes ">")
    ∷ clone_of 1
    ∷ pop_of 1
    ∷ inherit_of 2 (some 0)
    ∷ get_of 2 []
    ∷ depth_of 1
    ∷ []

run-ideal_run_example : run calls no_contexts ≡ ideal_run calls no_messages
run-ideal_run_example = run-ideal_run calls

answers :
    run calls no_contexts
    ≡ returned (
        nothing
        ∷ nothing
        ∷ appended (codes ">a b") true
        ∷ number 0
        ∷ text (codes "b")
        ∷ nothing
        ∷ appended (codes "a b") true
        ∷ number 1
        ∷ [])
unfolding run step no_contexts push pop get get_depth clone_stack inherit pushed
answers = refl

inherited_twice :
    run (clone_of 1 ∷ inherit_of 2 (some 0) ∷ inherit_of 3 (some 0) ∷ []) no_contexts ≡ undefined
unfolding run step no_contexts clone_stack inherit
inherited_twice = refl
