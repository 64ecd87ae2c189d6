-- ===== src/Ndc/Messages.antt =====
-- src/main/cpp/ndc.cpp against lists of messages, for any calls of any threads.
use logging_log4cxx.Prelude.{
  ℕ, Bool, not, Option, none, some, List, [], ◌∷◌, ◌++◌, Outcome, returned, undefined, ◌>>=◌, Text,
  is_empty, length, get_elem?, set,
}
use logging_log4cxx.Ndc.{
  Contexts, write, push, pop, peek, get, get_depth, empty, clear, clone_stack, inherit,
}

pub data Call : Type 0 where
  push_of : ℕ → Text → Call
  get_of : ℕ → Text → Call
  pop_of peek_of depth_of empty_of clear_of clone_of : ℕ → Call
  inherit_of : ℕ → Option ℕ → Call

pub data Answer : Type 0 where
  nothing : Answer
  text : Text → Answer
  appended : Text → Bool → Answer
  number : ℕ → Answer
  flag : Bool → Answer

unfoldable pub step : Call → Contexts → Outcome (Answer × Contexts)
step (push_of t message) c = returned (nothing, push t message c)
step (pop_of t) c = let (value, c') = pop t c in returned (text value, c')
step (peek_of t) c = returned (text (peek t c), c)
step (get_of t dest) c = let (value, found) = get t dest c in returned (appended value found, c)
step (depth_of t) c = returned (number (get_depth t c), c)
step (empty_of t) c = returned (flag (empty t c), c)
step (clear_of t) c = returned (nothing, clear t c)
step (clone_of t) c = let (address, c') = clone_stack t c in returned (number address, c')
step (inherit_of t source) c = inherit t source c >>= λ c'. returned (nothing, c')

unfoldable pub run : List Call → Contexts → Outcome (List Answer)
run [] c = returned []
run (call ∷ calls) c =
    step call c >>= λ (answer, c'). run calls c' >>= λ answers. returned (answer ∷ answers)

-- Messages only, the last one first: those of the threads, and those of the copies.
pub record Messages : Type 0 where
  pub messages_of : ℕ → List Text
  pub copies : List (Option (List Text))

abbrev pub no_messages : Messages
no_messages = record { messages_of = λ t. []; copies = [] }

-- The messages with spaces between them, the oldest first.
abbrev pub joined : List Text → Text
joined [] = []
joined (m ∷ []) = m
joined (m ∷ n ∷ ms) = joined (n ∷ ms) ++ ((b' ' ∷ []) ++ m)

abbrev pub first : List Text → Text
first [] = []
first (m ∷ ms) = m

abbrev pub others : List Text → List Text
others [] = []
others (m ∷ ms) = ms

unfoldable pub ideal_step : Call → Messages → Outcome (Answer × Messages)
ideal_step (push_of t m) i =
    returned (nothing, record i { messages_of = write t (m ∷ i.messages_of t) i.messages_of })
ideal_step (pop_of t) i = returned (
  text (first (i.messages_of t)),
  record i { messages_of = write t (others (i.messages_of t)) i.messages_of },
)
ideal_step (peek_of t) i = returned (text (first (i.messages_of t)), i)
ideal_step (get_of t dest) i =
    returned (appended (dest ++ joined (i.messages_of t)) (not (is_empty (i.messages_of t))), i)
ideal_step (depth_of t) i = returned (number (length (i.messages_of t)), i)
ideal_step (empty_of t) i = returned (flag (is_empty (i.messages_of t)), i)
ideal_step (clear_of t) i = returned (nothing, record i { messages_of = write t [] i.messages_of })
ideal_step (clone_of t) i =
    returned
      (number (length i.copies), record i { copies = i.copies ++ some (i.messages_of t) ∷ [] })
ideal_step (inherit_of t none) i = returned (nothing, i)
ideal_step (inherit_of t (some a)) i = elim (get_elem? i.copies a) [
  | some (some ms) ↦
      returned
        (nothing, record { messages_of = write t ms i.messages_of; copies = set i.copies a none })
  | some none ↦ undefined
  | none ↦ undefined
]

unfoldable pub ideal_run : List Call → Messages → Outcome (List Answer)
ideal_run [] i = returned []
ideal_run (call ∷ calls) i = ideal_step call i >>= λ (answer, i').
    ideal_run calls i' >>= λ answers. returned (answer ∷ answers)
