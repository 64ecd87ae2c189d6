-- ===== src/AppenderAttachable.antt =====
-- src/main/cpp/appenderattachableimpl.cpp: the appenders of a logger. An appender is its address, and
-- the null pointer is `none`; `name_of` is the virtual call `getName` of an appender. Before the
-- first addition `m_priv` is null, which is `none` here.
pub mod History
use logging_log4cxx.Prelude.{
  ℕ, ◌+◌, Bool, true, false, Option, none, some, List, [], ◌∷◌, ◌++◌, ◌==◌, if◌then◌else◌, Text,
  text_eq, is_empty, length,
}

abbrev pub Attachable : Type 0
Attachable = Option (List ℕ)

-- `std::find(begin, end, appender) != end`
unfoldable pub found : ℕ → List ℕ → Bool
found a [] = false
found a (b ∷ appenders) = if b == a then true else found a appenders

-- `getAllAppenders`
unfoldable pub get_all_appenders : Attachable → List ℕ
get_all_appenders none = []
get_all_appenders (some appenders) = appenders

unfoldable pub add_appender : Option ℕ → Attachable → Attachable
unfolding get_all_appenders found
add_appender none priv = priv
add_appender (some a) priv =
    let appenders = get_all_appenders priv in
    some (if found a appenders then appenders else appenders ++ a ∷ [])

-- `isAttached`
unfoldable pub is_attached : Option ℕ → Attachable → Bool
unfolding found
is_attached none priv = false
is_attached (some a) none = false
is_attached (some a) (some appenders) = found a appenders

-- `erase(find(appender))`
unfoldable pub erase : ℕ → List ℕ → List ℕ
erase a [] = []
erase a (b ∷ appenders) = if b == a then appenders else b ∷ erase a appenders

-- `removeAppender(const AppenderPtr)`
unfoldable pub remove_appender : Option ℕ → Attachable → Attachable
unfolding erase
remove_appender none priv = priv
remove_appender (some a) none = none
remove_appender (some a) (some appenders) = some (erase a appenders)

-- `removeAllAppenders`: the appenders that it closes, in order, and the new state.
unfoldable pub remove_all_appenders : Attachable → List ℕ × Attachable
remove_all_appenders none = ([], none)
remove_all_appenders (some appenders) = (appenders, some [])

-- `appendLoopOnAppenders`: the appenders that it calls, in order, and the number that it returns.
calls : List ℕ → ℕ → List ℕ × ℕ
calls [] number_appended = ([], number_appended)
calls (a ∷ appenders) number_appended =
    let (called, number) = calls appenders (number_appended + 1) in (a ∷ called, number)

unfoldable pub append_loop_on_appenders : Attachable → List ℕ × ℕ
unfolding calls get_all_appenders
append_loop_on_appenders none = ([], 0)
append_loop_on_appenders (some appenders) = calls (get_all_appenders (some appenders)) 0

module _ (name_of : ℕ → Text) where
  unfoldable pub first_named : Text → List ℕ → Option ℕ
  unfolding text_eq
  first_named name [] = none
  first_named name (a ∷ appenders) =
      if text_eq name (name_of a) then some a else first_named name appenders

  -- `getAppender`
  unfoldable pub get_appender : Text → Attachable → Option ℕ
  unfolding first_named
  get_appender name none = none
  get_appender name (some appenders) = if is_empty name then none else first_named name appenders

  unfoldable pub erase_named : Text → List ℕ → List ℕ
  unfolding text_eq
  erase_named name [] = []
  erase_named name (a ∷ appenders) =
      if text_eq name (name_of a) then appenders else a ∷ erase_named name appenders

  -- `removeAppender(const LogString&)`
  unfoldable pub remove_appender_named : Text → Attachable → Attachable
  unfolding erase_named
  remove_appender_named name none = none
  remove_appender_named name (some appenders) =
      some (if is_empty name then appenders else erase_named name appenders)
