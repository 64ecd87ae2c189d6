-- ===== src/Ndc/Annotated.antt =====
-- The stacks of src/main/cpp/ndc.cpp for lists of messages.
use logging_log4cxx.Prelude.{
  ℕ, zero, suc, ◌≡◌, refl, sym, ap, false, not, append-nil, append_assoc, Option, none, some, List,
  [], ◌∷◌, ◌++◌, map, Text, is_empty, length, get_elem?, set,
}
use logging_log4cxx.Ndc.{Stack, pushed, popped, top_message, got, pop_all}
use logging_log4cxx.Ndc.Messages.{joined, first, others}

-- The stack for a list of messages.
abbrev pub annotated : List Text → Stack
annotated [] = []
annotated (m ∷ ms) = (m, joined (m ∷ ms)) ∷ annotated ms

abbrev pub annotated_copy : Option (List Text) → Option Stack
annotated_copy none = none
annotated_copy (some ms) = some (annotated ms)

pub pushed-annotated : (m : Text) (ms : List Text) → pushed m (annotated ms) ≡ annotated (m ∷ ms)
unfolding pushed
pushed-annotated m [] = refl
pushed-annotated m (n ∷ ms) =
    ap (λ s. (m, s) ∷ annotated (n ∷ ms)) (append_assoc (joined (n ∷ ms)) (b' ' ∷ []) m)

pub popped-annotated : (ms : List Text) → popped (annotated ms) ≡ (first ms, annotated (others ms))
popped-annotated [] = refl
popped-annotated (m ∷ ms) = refl

pub top_message-annotated : (ms : List Text) → top_message (annotated ms) ≡ first ms
top_message-annotated [] = refl
top_message-annotated (m ∷ ms) = refl

pub got-annotated :
    (dest : Text) (ms : List Text)
    → got dest (annotated ms) ≡ (dest ++ joined ms, not (is_empty ms))
got-annotated dest [] = ap (λ s. (s, false)) (sym (append-nil dest))
got-annotated dest (m ∷ ms) = refl

pub length-annotated : (ms : List Text) → length (annotated ms) ≡ length ms
length-annotated [] = refl
length-annotated (m ∷ ms) = ap suc (length-annotated ms)

pub is_empty-annotated : (ms : List Text) → is_empty (annotated ms) ≡ is_empty ms
is_empty-annotated [] = refl
is_empty-annotated (m ∷ ms) = refl

pub pop_all-nil : (stack : Stack) → pop_all stack ≡ []
unfolding pop_all
pop_all-nil [] = refl
pop_all-nil (context ∷ stack) = pop_all-nil stack

pub length-map_copies :
    (copies : List (Option (List Text))) → length (map annotated_copy copies) ≡ length copies
length-map_copies [] = refl
length-map_copies (c ∷ copies) = ap suc (length-map_copies copies)

pub get_elem?-map_copies :
    (copies : List (Option (List Text))) (a : ℕ)
    → get_elem? (map annotated_copy copies) a
      ≡ elim (get_elem? copies a) [ none ↦ none | some copy ↦ some (annotated_copy copy) ]
get_elem?-map_copies [] a = refl
get_elem?-map_copies (c ∷ copies) zero = refl
get_elem?-map_copies (c ∷ copies) (suc a) = get_elem?-map_copies copies a

pub set-map_copies :
    (copies : List (Option (List Text))) (a : ℕ)
    → set (map annotated_copy copies) a none ≡ map annotated_copy (set copies a none)
set-map_copies [] a = refl
set-map_copies (c ∷ copies) zero = refl
set-map_copies (c ∷ copies) (suc a) = ap (annotated_copy c ∷◌) (set-map_copies copies a)

pub map-append_copy :
    (copies : List (Option (List Text))) (ms : List Text)
    → map annotated_copy copies ++ some (annotated ms) ∷ []
      ≡ map annotated_copy (copies ++ some ms ∷ [])
map-append_copy [] ms = refl
map-append_copy (c ∷ copies) ms = ap (annotated_copy c ∷◌) (map-append_copy copies ms)
