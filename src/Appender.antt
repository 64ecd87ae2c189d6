-- ===== src/Appender.antt =====
-- src/main/cpp/appenderskeleton.cpp and src/main/include/log4cxx/private/appenderskeleton_priv.h. Layouts and
-- error handlers are addresses, as filters are. `decide`, a parameter, is the virtual call of a
-- filter. What the calls send to `LogLog`, to the error handler and to `append` is returned.
pub mod Filters
pub mod Cycle
use logging_log4cxx.Prelude.{
  ℕ, zero, suc, Bool, true, false, not, Outcome, returned, undefined, Option, none, some, List, [],
  ◌∷◌, if◌then◌else◌, Text, codes,
}
use logging_log4cxx.Level.{Level, is_greater_or_equal, all, debug, to_level_ls}
use logging_log4cxx.StringHelper.{equals_ignore_case}
use logging_log4cxx.Filter.{Decision, deny, neutral, accept, LoggingEvent, Next, get_next, set_next}

pub record AppenderSkeleton : Type 0 where
  pub layout : Option ℕ
  pub name : Text
  pub threshold : Option Level
  pub error_handler : ℕ
  pub head_filter : Option ℕ
  pub tail_filter : Option ℕ
  pub closed : Bool
  pub warned_closed : Bool
  pub warned_no_layout : Bool

-- `OnlyOnceErrorHandler` is the object that `handler` is the address of.
unfoldable pub new : Option ℕ → ℕ → AppenderSkeleton
new layout handler = record {
  layout = layout;
  name = [];
  threshold = some all;
  error_handler = handler;
  head_filter = none;
  tail_filter = none;
  closed = false;
  warned_closed = false;
  warned_no_layout = false;
}

-- `close`, a virtual function, is a parameter.
unfoldable pub finalize :
    (AppenderSkeleton → AppenderSkeleton) → AppenderSkeleton → AppenderSkeleton
finalize close s = if s.closed then s else close s

-- A null `tailFilter` behind a head is dereferenced.
unfoldable pub add_filter : Option ℕ → Next → AppenderSkeleton → Outcome (Next × AppenderSkeleton)
unfolding set_next
add_filter new_filter next s = elim s.head_filter [
  | none ↦ returned (next, record s { head_filter = new_filter; tail_filter = new_filter })
  | some head ↦ elim s.tail_filter [
    | none ↦ undefined
    | some tail ↦ returned (set_next tail new_filter next, record s { tail_filter = new_filter })
  ]
]

unfoldable pub clear_filters : AppenderSkeleton → AppenderSkeleton
clear_filters s = record s { head_filter = none; tail_filter = none }

unfoldable pub is_as_severe_as_threshold : Option Level → AppenderSkeleton → Bool
unfolding is_greater_or_equal
is_as_severe_as_threshold none s = true
is_as_severe_as_threshold (some level) s = is_greater_or_equal level s.threshold

-- What `doAppend` does: report an append to a closed appender, return, or call `append`.
pub data Effect : Type 0 where
  refused returned_early appended : Effect

module _ (decide : ℕ → LoggingEvent → Decision) where
  -- The loop over the filters, on fuel: whether it falls through to `append`.
  unfoldable pub consult : ℕ → Option ℕ → Next → LoggingEvent → Option Bool
  unfolding get_next
  consult n none next event = some true
  consult zero (some f) next event = none
  consult (suc n) (some f) next event = elim (decide f event) [
    | deny ↦ some false
    | accept ↦ some true
    | neutral ↦ consult n (get_next f next) next event
  ]

  abbrev pub effect : Option Bool → Option Effect
  effect none = none
  effect (some true) = some appended
  effect (some false) = some returned_early

  -- `doAppend` and `doAppendImpl`
  unfoldable pub do_append : ℕ → Next → LoggingEvent → AppenderSkeleton → Option Effect
  unfolding consult is_as_severe_as_threshold
  do_append n next event s =
      if s.closed
      then some refused
      else if not (is_as_severe_as_threshold (some event.level) s)
      then some returned_early
      else effect (consult n s.head_filter next event)

-- `checkNotClosed` and `checkLayout`: the result, whether a message is sent, and the new state.
unfoldable pub check_not_closed : AppenderSkeleton → Bool × (Bool × AppenderSkeleton)
check_not_closed s =
    if s.closed
    then (false, (not s.warned_closed, record s { warned_closed = true }))
    else (true, (false, s))

unfoldable pub check_layout : AppenderSkeleton → Bool × (Bool × AppenderSkeleton)
check_layout s = elim s.layout [
  | none ↦ (false, (not s.warned_no_layout, record s { warned_no_layout = true }))
  | some l ↦ (true, (false, s))
]

-- `setErrorHandler`: a null pointer is refused with a warning.
unfoldable pub set_error_handler : Option ℕ → AppenderSkeleton → AppenderSkeleton
set_error_handler none s = s
set_error_handler (some handler) s = record s { error_handler = handler }

unfoldable pub set_threshold : Option Level → AppenderSkeleton → AppenderSkeleton
set_threshold threshold s = record s { threshold = threshold }

-- `toLevelLS(value)` has DEBUG as its default.
unfoldable pub set_option : Text → Text → AppenderSkeleton → AppenderSkeleton
unfolding equals_ignore_case to_level_ls set_threshold
set_option option value s =
    if equals_ignore_case option (codes "THRESHOLD") (codes "threshold")
    then set_threshold (to_level_ls value (some debug)) s
    else s
