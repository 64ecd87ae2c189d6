-- ===== src/Ndc.antt =====
-- src/main/cpp/ndc.cpp and the parts of src/main/cpp/threadspecificdata.cpp that it calls: the nested
-- diagnostic contexts of the threads. The data of a thread is thread-local and there for every
-- thread that runs, so `recycle` does nothing. A stack has its top in front; a copy that `cloneStack`
-- gives is at an address, where `none` is a copy that has been deleted.
pub mod Messages
pub mod Annotated
pub mod Calls
use logging_log4cxx.Prelude.{
  ℕ, zero, suc, Bool, true, false, Option, none, some, List, [], ◌∷◌, ◌++◌, Outcome, returned,
  undefined, ◌>>=◌, if◌then◌else◌, ◌==◌, Text, is_empty, length, get_elem?, set,
}

-- `NDC::DiagnosticContext`: the message, and the full message.
abbrev pub DiagnosticContext : Type 0
DiagnosticContext = Text × Text

abbrev pub Stack : Type 0
Stack = List DiagnosticContext

pub record Contexts : Type 0 where
  pub stack_of : ℕ → Stack
  pub clones : List (Option Stack)

unfoldable pub no_contexts : Contexts
no_contexts = record { stack_of = λ t. []; clones = [] }

abbrev pub write {ℓ} : {A : Type ℓ} → ℕ → A → (ℕ → A) → ℕ → A
write t a f x = if t == x then a else f x

abbrev pub with_stack : ℕ → Stack → Contexts → Contexts
with_stack t stack c = record c { stack_of = write t stack c.stack_of }

-- `ThreadSpecificData::push`, on the stack.
unfoldable pub pushed : Text → Stack → Stack
pushed val [] = (val, val) ∷ []
pushed val ((message, full_message) ∷ stack) =
    (val, full_message ++ (b' ' ∷ []) ++ val) ∷ (message, full_message) ∷ stack

-- `NDC::pushLS`, by the thread `t`, as every operation.
unfoldable pub push : ℕ → Text → Contexts → Contexts
push t message c = with_stack t (pushed message (c.stack_of t)) c

abbrev popped : Stack → Text × Stack
popped [] = ([], [])
popped ((message, full_message) ∷ stack) = (message, stack)

-- `pop()`
unfoldable pub pop : ℕ → Contexts → Text × Contexts
pop t c = let (value, stack) = popped (c.stack_of t) in (value, with_stack t stack c)

abbrev pub top_message : Stack → Text
top_message [] = []
top_message ((message, full_message) ∷ stack) = message

-- `peek()`
unfoldable pub peek : ℕ → Contexts → Text
peek t c = top_message (c.stack_of t)

abbrev pub got : Text → Stack → Text × Bool
got dest [] = (dest, false)
got dest ((message, full_message) ∷ stack) = (dest ++ full_message, true)

-- `get(LogString& dest)`: the text behind the call, and the result.
unfoldable pub get : ℕ → Text → Contexts → Text × Bool
get t dest c = got dest (c.stack_of t)

unfoldable pub get_depth : ℕ → Contexts → ℕ
get_depth t c = length (c.stack_of t)

unfoldable pub empty : ℕ → Contexts → Bool
empty t c = is_empty (c.stack_of t)

-- The loop of `clear`.
unfoldable pub pop_all : Stack → Stack
pop_all [] = []
pop_all (context ∷ stack) = pop_all stack

unfoldable pub clear : ℕ → Contexts → Contexts
clear t c = with_stack t (pop_all (c.stack_of t)) c

-- `cloneStack`: the address of the copy.
unfoldable pub clone_stack : ℕ → Contexts → ℕ × Contexts
clone_stack t c = (length c.clones, record c { clones = c.clones ++ some (c.stack_of t) ∷ [] })

-- `inherit`: the copy becomes the thread's stack and is deleted. A null pointer is ignored.
unfoldable pub inherit : ℕ → Option ℕ → Contexts → Outcome Contexts
inherit t none c = returned c
inherit t (some a) c = elim (get_elem? c.clones a) [
  | some (some stack) ↦
      returned (record c { stack_of = write t stack c.stack_of; clones = set c.clones a none })
  | some none ↦ undefined
  | none ↦ undefined
]
