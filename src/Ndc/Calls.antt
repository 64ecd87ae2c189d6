-- ===== src/Ndc/Calls.antt =====
-- src/main/cpp/ndc.cpp: each call against its counterpart on lists of messages.
use logging_log4cxx.Prelude.{
  ℕ, ◌≡◌, refl, ap, ◌∙◌, Bool, not, ◌⊎◌, Bool-cases, Option-cases, inl, inr, Option, none, some,
  List, [], ◌∷◌, ◌++◌, map, returned, undefined, ◌==◌, Text, is_empty, length, get_elem?, set,
}
use logging_log4cxx.Ndc.{
  Contexts, no_contexts, Stack, write, with_stack, pushed, push, popped, pop, top_message, peek,
  got, get, get_depth, empty, pop_all, clear, clone_stack, inherit,
}
use logging_log4cxx.Ndc.Messages.{
  Call, push_of, get_of, pop_of, peek_of, depth_of, empty_of, clear_of, clone_of, inherit_of,
  Answer, nothing, text, appended, number, flag, step, run, Messages, no_messages, joined, first,
  others, ideal_step, ideal_run,
}
use logging_log4cxx.Ndc.Annotated.{
  annotated, annotated_copy, pushed-annotated, popped-annotated, top_message-annotated,
  got-annotated, length-annotated, is_empty-annotated, pop_all-nil, length-map_copies,
  get_elem?-map_copies, set-map_copies, map-append_copy,
}

record Agrees (c : Contexts) (i : Messages) : Type 0 where
  stacks : (t : ℕ) → c.stack_of t ≡ annotated (i.messages_of t)
  copied : c.clones ≡ map annotated_copy i.copies

-- A stack and a list of messages are replaced.
replaced :
    (stacks : ℕ → Stack) (messages : ℕ → List Text) (t : ℕ) (stack : Stack) (ms : List Text)
    → ((x : ℕ) → stacks x ≡ annotated (messages x))
    → stack ≡ annotated ms
    → (x : ℕ) → write t stack stacks x ≡ annotated (write t ms messages x)
replaced stacks messages t stack ms same e x = elim (Bool-cases (t == x)) [
  | inl f ↦ rw f e
  | inr f ↦ rw f (same x)
]

-- The same answer of a call, and states that agree again; or undefined behaviour of both.
Matches : Call → Contexts → Messages → Type 0
Matches call c i =
    ((a : Answer) × (c' : Contexts) × (i' : Messages) × (step call c ≡ returned (a, c'))
      × (ideal_step call i ≡ returned (a, i'))
      × Agrees c' i')
    ⊎ ((step call c ≡ undefined) × (ideal_step call i ≡ undefined))

module _ (c : Contexts) (i : Messages) (agrees : Agrees c i) (t : ℕ) where
  written :
      (stack : Stack) (ms : List Text)
      → stack ≡ annotated ms
      → Agrees (with_stack t stack c) (record i { messages_of = write t ms i.messages_of })
  written stack ms e = record {
    stacks = replaced c.stack_of i.messages_of t stack ms agrees.stacks e;
    copied = agrees.copied;
  }

  Matches-push : (m : Text) → Matches (push_of t m) c i
  unfolding Matches step ideal_step push
  Matches-push m = inl (
    nothing,
    _,
    _,
    refl,
    refl,
    written (pushed m (c.stack_of t)) (m ∷ i.messages_of t)
        (ap (pushed m) (agrees.stacks t) ∙ pushed-annotated m (i.messages_of t)),
  )

  Matches-pop : Matches (pop_of t) c i
  unfolding Matches step ideal_step pop
  Matches-pop =
      let e = ap popped (agrees.stacks t) ∙ popped-annotated (i.messages_of t) in
      inl (
        text (first (i.messages_of t)),
        with_stack t (popped (c.stack_of t)).1 c,
        _,
        ap (λ (r : Text × Stack). returned (text r.0, with_stack t (popped (c.stack_of t)).1 c)) e,
        refl,
        written (popped (c.stack_of t)).1 (others (i.messages_of t))
            (ap (λ (r : Text × Stack). r.1) e),
      )

  Matches-peek : Matches (peek_of t) c i
  unfolding Matches step ideal_step peek
  Matches-peek = inl (
    text (first (i.messages_of t)),
    c,
    i,
    ap (λ s. returned (text (top_message s), c)) (agrees.stacks t)
        ∙ ap (λ s. returned (text s, c)) (top_message-annotated (i.messages_of t)),
    refl,
    agrees,
  )

  Matches-get : (dest : Text) → Matches (get_of t dest) c i
  unfolding Matches step ideal_step get
  Matches-get dest = inl (
    appended (dest ++ joined (i.messages_of t)) (not (is_empty (i.messages_of t))),
    c,
    i,
    ap (λ (r : Text × Bool). returned (appended r.0 r.1, c))
        (ap (got dest) (agrees.stacks t) ∙ got-annotated dest (i.messages_of t)),
    refl,
    agrees,
  )

  Matches-depth : Matches (depth_of t) c i
  unfolding Matches step ideal_step get_depth
  Matches-depth = inl (
    number (length (i.messages_of t)),
    c,
    i,
    ap (λ k. returned (number k, c))
        (ap length (agrees.stacks t) ∙ length-annotated (i.messages_of t)),
    refl,
    agrees,
  )

  Matches-empty : Matches (empty_of t) c i
  unfolding Matches step ideal_step empty
  Matches-empty = inl (
    flag (is_empty (i.messages_of t)),
    c,
    i,
    ap (λ b. returned (flag b, c))
        (ap is_empty (agrees.stacks t) ∙ is_empty-annotated (i.messages_of t)),
    refl,
    agrees,
  )

  Matches-clear : Matches (clear_of t) c i
  unfolding Matches step ideal_step clear
  Matches-clear =
      inl (
        nothing,
        _,
        _,
        refl,
        refl,
        written (pop_all (c.stack_of t)) [] (pop_all-nil (c.stack_of t)),
      )

  Matches-clone : Matches (clone_of t) c i
  unfolding Matches step ideal_step clone_stack
  Matches-clone = inl (
    number (length i.copies),
    _,
    _,
    ap (λ k. returned (number k, record c { clones = c.clones ++ some (c.stack_of t) ∷ [] }))
        (ap length agrees.copied ∙ length-map_copies i.copies),
    refl,
    record {
      stacks = agrees.stacks;
      copied = rw (agrees.copied, agrees.stacks t) (map-append_copy i.copies (i.messages_of t));
    },
  )

  Matches-inherit : (source : Option ℕ) → Matches (inherit_of t source) c i
  unfolding Matches step ideal_step inherit
  Matches-inherit none = inl (nothing, c, i, refl, refl, agrees)
  Matches-inherit (some a) =
      let e : get_elem? c.clones a
          ≡ elim (get_elem? i.copies a) [ none ↦ none | some copy ↦ some (annotated_copy copy) ] =
        ap (λ l. get_elem? l a) agrees.copied ∙ get_elem?-map_copies i.copies a in
      elim (Option-cases (get_elem? i.copies a)) [
        | inl f ↦
            let e' : get_elem? c.clones a ≡ none = e ∙ rw f refl in
            inr (rw (step, inherit, e') refl, rw (ideal_step, f) refl)
        | inr (none, f) ↦
            let e' : get_elem? c.clones a ≡ some none = e ∙ rw f refl in
            inr (rw (step, inherit, e') refl, rw (ideal_step, f) refl)
        | inr (some ms, f) ↦
            let e' : get_elem? c.clones a ≡ some (some (annotated ms)) = e ∙ rw f refl in
            inl (
              nothing,
              record { stack_of = write t (annotated ms) c.stack_of; clones = set c.clones a none },
              record { messages_of = write t ms i.messages_of; copies = set i.copies a none },
              rw (step, inherit, e') refl,
              rw (ideal_step, f) refl,
              record {
                stacks = replaced c.stack_of i.messages_of t (annotated ms) ms agrees.stacks refl;
                copied = ap (λ l. set l a none) agrees.copied ∙ set-map_copies i.copies a;
              },
            )
      ]

step-Matches : (call : Call) (c : Contexts) (i : Messages) → Agrees c i → Matches call c i
step-Matches (push_of t m) c i g = Matches-push c i g t m
step-Matches (pop_of t) c i g = Matches-pop c i g t
step-Matches (peek_of t) c i g = Matches-peek c i g t
step-Matches (get_of t dest) c i g = Matches-get c i g t dest
step-Matches (depth_of t) c i g = Matches-depth c i g t
step-Matches (empty_of t) c i g = Matches-empty c i g t
step-Matches (clear_of t) c i g = Matches-clear c i g t
step-Matches (clone_of t) c i g = Matches-clone c i g t
step-Matches (inherit_of t source) c i g = Matches-inherit c i g t source

run-Agrees :
    (calls : List Call) (c : Contexts) (i : Messages) → Agrees c i → run calls c ≡ ideal_run calls i
unfolding run ideal_run Matches
run-Agrees [] c i g = refl
run-Agrees (call ∷ calls) c i g = elim (step-Matches call c i g) [
  | inl (a, c', i', e, f, g') ↦ rw (e, f, run-Agrees calls c' i' g') refl
  | inr (e, f) ↦ rw (e, f) refl
]

-- The calls of any threads, in any order, from empty stacks on give the answers of lists of messages:
-- `pop` and `peek` give the last message that is left, or an empty text; `get` appends the messages that
-- are left, the oldest first, with a space between two, and says whether there are any; `clear` drops
-- them; a call changes its own thread's messages only; `inherit` replaces them by those of the copy
-- as they were when `cloneStack` made it. The two are undefined for the same calls, those that inherit
-- a copy a second time or one that was never made.
pub run-ideal_run : (calls : List Call) → run calls no_contexts ≡ ideal_run calls no_messages
unfolding no_contexts
run-ideal_run calls =
    run-Agrees calls no_contexts no_messages (record { stacks = λ t. refl; copied = refl })
