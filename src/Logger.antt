-- ===== src/Logger.antt =====
-- src/main/cpp/logger.cpp: what a logger reads from its ancestors. A logger is its address; the
-- fields of all loggers are a record of functions, a null pointer is `none`. `append_loop`, a
-- parameter, is the call of `appendLoopOnAppenders` on the appenders of a logger: how many it calls.
pub mod Ancestors
use logging_log4cxx.Prelude.{
  ℕ, zero, suc, ◌+◌, Bool, true, false, not, ◌||◌, Outcome, returned, thrown, undefined,
  null_pointer, Option, none, some, List, [], ◌∷◌, if◌then◌else◌, ◌==◌, ℤ, leb_ℤ, ltb_ℤ,
}
use logging_log4cxx.Level.{
  Level, trace_int, debug_int, info_int, warn_int, error_int, fatal_int, is_greater_or_equal,
}

pub record Loggers : Type 0 where
  pub parent : ℕ → Option ℕ
  pub level : ℕ → Option Level
  pub additive : ℕ → Bool

-- `getEffectiveLevel`, on fuel for the loggers of the loop; `none` where the fuel is out.
unfoldable pub get_effective_level : ℕ → Loggers → Option ℕ → Option (Outcome Level)
get_effective_level n ls none = some (thrown null_pointer)
get_effective_level zero ls (some l) = none
get_effective_level (suc n) ls (some l) = elim (ls.level l) [
  | some v ↦ some (returned v)
  | none ↦ get_effective_level n ls (ls.parent l)
]

-- The hierarchy of a logger: its threshold, or none where the logger has none.
abbrev pub is_disabled : ℤ → ℤ → Bool
is_disabled threshold_int level = ltb_ℤ level threshold_int

at_most : ℤ → Option (Outcome Level) → Option (Outcome Bool)
at_most level none = none
at_most level (some (returned v)) = some (returned (leb_ℤ v.level level))
at_most level (some (thrown x)) = some (thrown x)
at_most level (some undefined) = some undefined

-- `isTraceEnabled` to `isFatalEnabled`, which are this with their own level.
unfoldable pub is_enabled : ℤ → ℕ → Loggers → Option ℤ → ℕ → Option (Outcome Bool)
unfolding get_effective_level at_most
is_enabled level n ls none l = some (returned false)
is_enabled level n ls (some threshold_int) l =
    if is_disabled threshold_int level
    then some (returned false)
    else at_most level (get_effective_level n ls (some l))

-- `isEnabledFor`, whose `isGreaterOrEqual` compares the same numbers.
unfoldable pub is_enabled_for : Level → ℕ → Loggers → Option ℤ → ℕ → Option (Outcome Bool)
unfolding is_enabled
is_enabled_for level1 = is_enabled level1.level

unfoldable pub is_trace_enabled : ℕ → Loggers → Option ℤ → ℕ → Option (Outcome Bool)
unfolding is_enabled
is_trace_enabled = is_enabled trace_int

unfoldable pub is_debug_enabled : ℕ → Loggers → Option ℤ → ℕ → Option (Outcome Bool)
unfolding is_enabled
is_debug_enabled = is_enabled debug_int

unfoldable pub is_info_enabled : ℕ → Loggers → Option ℤ → ℕ → Option (Outcome Bool)
unfolding is_enabled
is_info_enabled = is_enabled info_int

unfoldable pub is_warn_enabled : ℕ → Loggers → Option ℤ → ℕ → Option (Outcome Bool)
unfolding is_enabled
is_warn_enabled = is_enabled warn_int

unfoldable pub is_error_enabled : ℕ → Loggers → Option ℤ → ℕ → Option (Outcome Bool)
unfolding is_enabled
is_error_enabled = is_enabled error_int

unfoldable pub is_fatal_enabled : ℕ → Loggers → Option ℤ → ℕ → Option (Outcome Bool)
unfolding is_enabled
is_fatal_enabled = is_enabled fatal_int

-- `Hierarchy::emitNoAppenderWarning`: whether it warns, and the new `emittedNoAppenderWarning`.
abbrev pub emit_no_appender_warning : Bool → Bool × Bool
emit_no_appender_warning emitted = (not emitted, true)

-- What `callAppenders` does: the loggers whose appenders it calls, in order, whether there is a warning
-- that there were none, and `emittedNoAppenderWarning` of the hierarchy, if there is one.
pub record Called : Type 0 where
  pub loggers : List ℕ
  pub warned : Bool
  pub hierarchy : Option Bool

module _ (append_loop : ℕ → ℕ) where
  add_call : ℕ → Option (List ℕ × ℕ) → Option (List ℕ × ℕ)
  add_call l none = none
  add_call l (some (ls, writes)) = some (l ∷ ls, writes)

  -- The loop, on fuel, with the writes so far.
  unfoldable pub call_loop : ℕ → Loggers → Option ℕ → ℕ → Option (List ℕ × ℕ)
  unfolding add_call
  call_loop n ls none writes = some ([], writes)
  call_loop zero ls (some l) writes = none
  call_loop (suc n) ls (some l) writes =
      let rest = call_loop n ls (ls.parent l) (writes + append_loop l) in
      if not (ls.additive l) then some (l ∷ [], writes + append_loop l) else add_call l rest

  called : Option Bool → Option (List ℕ × ℕ) → Option Called
  called rep none = none
  called none (some (ls, writes)) = some (record { loggers = ls; warned = false; hierarchy = none })
  called (some emitted) (some (ls, writes)) =
      let (warns, emitted') : Bool × Bool = emit_no_appender_warning emitted in
      if writes == 0
      then some (record { loggers = ls; warned = warns; hierarchy = some emitted' })
      else some (record { loggers = ls; warned = false; hierarchy = some emitted })

  unfoldable pub call_appenders : ℕ → Loggers → Option Bool → ℕ → Option Called
  unfolding call_loop called
  call_appenders n ls rep l = called rep (call_loop n ls (some l) 0)
