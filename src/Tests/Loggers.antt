-- ===== src/Tests/Loggers.antt =====
-- Tests of Logger and AppenderAttachable. Logger 0 is the root, 1 its child and 2 the child of 1.
use logging_log4cxx.Prelude.{
  ℕ, ◌≡◌, ◌↔◌, ◌≤ℤ◌, refl, true, false, none, some, List, [], ◌∷◌, returned, Text, codes,
  if◌then◌else◌, ◌==◌, ◌&&◌, length, arith,
}
use logging_log4cxx.Level.{warn, info_int, all_int}
use logging_log4cxx.AppenderAttachable.{
  is_attached, get_all_appenders, append_loop_on_appenders, get_appender, remove_appender_named,
}
use logging_log4cxx.AppenderAttachable.History.{
  Change, adds, removes, run, run_set, Distinct, run-run_set,
}
use logging_log4cxx.Logger.{
  Loggers, is_enabled, is_trace_enabled, is_debug_enabled, is_info_enabled, is_warn_enabled,
  is_error_enabled, is_fatal_enabled, call_appenders,
}
use logging_log4cxx.Logger.Ancestors.{
  up_to_additive, sum, is_unwarned, now_warned, is_enabled-nearest, call_appenders-additive,
}

abbrev family : Loggers
family = record {
  parent = λ l. if l == 2 then some 1 else if l == 1 then some 0 else none;
  level = λ l. if l == 0 then some warn else none;
  additive = λ l. if l == 1 then false else true;
}

is_enabled-nearest_example :
    (is_enabled info_int 3 family (some all_int) 2 ≡ some (returned true))
    ↔ ((all_int ≤ℤ info_int) × (warn.level ≤ℤ info_int))
is_enabled-nearest_example =
    is_enabled-nearest info_int all_int 3 family 2 (1 ∷ 0 ∷ []) warn (refl, (refl, (refl, refl)))
      refl (omega arith)

-- Logger 1 is not additive, so the root is not called.
call_appenders-additive_example :
    call_appenders (λ l. 0) 3 family (some false) 2
    ≡ some (record {
      loggers = up_to_additive family (2 ∷ 1 ∷ 0 ∷ []);
      warned =
          sum (λ l. 0) (up_to_additive family (2 ∷ 1 ∷ 0 ∷ [])) == 0 && is_unwarned (some false);
      hierarchy =
          if sum (λ l. 0) (up_to_additive family (2 ∷ 1 ∷ 0 ∷ [])) == 0
          then now_warned (some false)
          else some false;
    })
call_appenders-additive_example =
    call_appenders-additive (λ l. 0) 3 family (some false) 2 (1 ∷ 0 ∷ [])
      (refl, (refl, (refl, refl))) (omega arith)

called_two : up_to_additive family (2 ∷ 1 ∷ 0 ∷ []) ≡ 2 ∷ 1 ∷ []
called_two = refl

only_from_warn :
    (is_trace_enabled 3 family (some all_int) 2 ≡ some (returned false))
    × (is_debug_enabled 3 family (some all_int) 2 ≡ some (returned false))
    × (is_info_enabled 3 family (some all_int) 2 ≡ some (returned false))
    × (is_warn_enabled 3 family (some all_int) 2 ≡ some (returned true))
    × (is_error_enabled 3 family (some all_int) 2 ≡ some (returned true))
    × (is_fatal_enabled 3 family (some all_int) 2 ≡ some (returned true))
unfolding is_trace_enabled is_debug_enabled is_info_enabled is_warn_enabled is_error_enabled
    is_fatal_enabled
only_from_warn = (refl, refl, refl, refl, refl, refl)

abbrev changes : List Change
changes = adds (some 4) ∷ adds (some 5) ∷ adds (some 4) ∷ removes (some 4) ∷ adds none ∷ []

run-run_set_example :
    (is_attached (some 5) (run changes none) ≡ run_set changes (λ y. false) 5)
    × Distinct (get_all_appenders (run changes none))
    × (append_loop_on_appenders (run changes none)
        ≡ (get_all_appenders (run changes none), length (get_all_appenders (run changes none))))
run-run_set_example = run-run_set changes 5

abbrev name_of : ℕ → Text
name_of a = if a == 4 then codes "A" else codes "B"

named_second : get_appender name_of (codes "B") (some (4 ∷ 5 ∷ [])) ≡ some 5
unfolding get_appender
named_second = refl

removed_second : remove_appender_named name_of (codes "B") (some (4 ∷ 5 ∷ [])) ≡ some (4 ∷ [])
unfolding remove_appender_named
removed_second = refl
