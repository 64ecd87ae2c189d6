-- ===== src/Properties/Parser.antt =====
-- The class `PropertyParser` of src/main/cpp/properties.cpp: a state machine with one character of
-- lookahead. `finished` and `c` are the local variables of `parse`; each function below is one case
-- of its switch.
use logging_log4cxx.Prelude.{
  ℕ, zero, suc, ◌+◌, ◌*◌, Bool, true, false, ◌||◌, [], ◌∷◌, ◌++◌, ◌==◌, if◌then◌else◌, Text, length,
  is_empty,
}
use logging_log4cxx.Properties.{PropertyMap, put}

pub data LexemType : Type 0 where
  begin key_text key_escape key_continue key_continue2 delimiter : LexemType
  element_text element_escape element_continue element_continue2 comment : LexemType

pub record Parser : Type 0 where
  pub lexem_type : LexemType
  pub c : ℕ
  pub input : Text
  pub key : Text
  pub element : Text
  pub properties : PropertyMap
  pub finished : Bool

-- `if (!get(in, c)) finished = true;`
abbrev pub get_from : Text → Parser → Parser
get_from [] p = record p { c = 0; input = []; finished = true }
get_from (x ∷ rest) p = record p { c = x; input = rest; finished = false }

abbrev pub next : Parser → Parser
next p = get_from p.input p

abbrev pub set_property : Text → Text → Parser → Parser
set_property key element p = record p { properties = (put key element p.properties).0 }

abbrev is_blank : ℕ → Bool
is_blank c = c == 0x20 || c == 0x09

abbrev is_newline : ℕ → Bool
is_newline c = c == 0x0A || c == 0x0D

abbrev is_delimiter : ℕ → Bool
is_delimiter c = is_blank c || c == 0x3A || c == 0x3D

step_begin : Parser → Parser
step_begin p =
    if is_blank p.c || is_newline p.c
    then next p
    else if p.c == 0x23 || p.c == 0x21
    then next (record p { lexem_type = comment })
    else record p { lexem_type = key_text }

step_key : Parser → Parser
step_key p =
    if p.c == 0x5C
    then next (record p { lexem_type = key_escape })
    else if is_delimiter p.c
    then next (record p { lexem_type = delimiter })
    else if is_newline p.c
    then next (record (set_property p.key [] p) { key = []; lexem_type = begin })
    else next (record p { key = p.key ++ p.c ∷ [] })

step_key_escape : Parser → Parser
step_key_escape p = next (
    if p.c == 0x74
    then record p { key = p.key ++ 0x09 ∷ []; lexem_type = key_text }
    else if p.c == 0x6E
    then record p { key = p.key ++ 0x0A ∷ []; lexem_type = key_text }
    else if p.c == 0x72
    then record p { key = p.key ++ 0x0D ∷ []; lexem_type = key_text }
    else if p.c == 0x0A
    then record p { lexem_type = key_continue }
    else if p.c == 0x0D
    then record p { lexem_type = key_continue2 }
    else record p { key = p.key ++ p.c ∷ []; lexem_type = key_text })

step_key_continue : Parser → Parser
step_key_continue p = if is_blank p.c then next p else record p { lexem_type = key_text }

step_key_continue2 : Parser → Parser
step_key_continue2 p =
    if p.c == 0x0A
    then next (record p { lexem_type = key_continue })
    else record p { lexem_type = key_continue }

step_delimiter : Parser → Parser
step_delimiter p = if is_delimiter p.c then next p else record p { lexem_type = element_text }

step_element : Parser → Parser
step_element p =
    if p.c == 0x5C
    then next (record p { lexem_type = element_escape })
    else if is_newline p.c
    then next
        (record (set_property p.key p.element p) { key = []; element = []; lexem_type = begin })
    else next (record p { element = p.element ++ p.c ∷ [] })

step_element_escape : Parser → Parser
step_element_escape p = next (
    if p.c == 0x74
    then record p { element = p.element ++ 0x09 ∷ []; lexem_type = element_text }
    else if p.c == 0x6E
    then record p { element = p.element ++ 0x0A ∷ []; lexem_type = element_text }
    else if p.c == 0x72
    then record p { element = p.element ++ 0x0D ∷ []; lexem_type = element_text }
    else if p.c == 0x0A
    then record p { lexem_type = element_continue }
    else if p.c == 0x0D
    then record p { lexem_type = element_continue2 }
    else record p { element = p.element ++ p.c ∷ []; lexem_type = element_text })

step_element_continue : Parser → Parser
step_element_continue p = if is_blank p.c then next p else record p { lexem_type = element_text }

step_element_continue2 : Parser → Parser
step_element_continue2 p =
    if p.c == 0x0A
    then next (record p { lexem_type = element_continue })
    else record p { lexem_type = element_continue }

step_comment : Parser → Parser
step_comment p = next (if is_newline p.c then record p { lexem_type = begin } else p)

unfoldable pub step_in : LexemType → Parser → Parser
unfolding step_begin step_key step_key_escape step_key_continue step_key_continue2 step_delimiter
    step_element step_element_escape step_element_continue step_element_continue2 step_comment
step_in begin p = step_begin p
step_in key_text p = step_key p
step_in key_escape p = step_key_escape p
step_in key_continue p = step_key_continue p
step_in key_continue2 p = step_key_continue2 p
step_in delimiter p = step_delimiter p
step_in element_text p = step_element p
step_in element_escape p = step_element_escape p
step_in element_continue p = step_element_continue p
step_in element_continue2 p = step_element_continue2 p
step_in comment p = step_comment p

-- One round of the loop.
abbrev pub step : Parser → Parser
step p = step_in p.lexem_type p

-- The loop, on fuel.
unfoldable pub loop : ℕ → Parser → Parser
loop zero p = p
loop (suc n) p = elim p.finished [ true ↦ p | false ↦ loop n (step p) ]

-- Rounds that may pass before a character is read.
abbrev pub waiting : LexemType → ℕ
waiting begin = 1
waiting key_continue = 1
waiting key_continue2 = 2
waiting delimiter = 1
waiting element_continue = 1
waiting element_continue2 = 2
waiting _ = 0

-- The fuel: at most three rounds for each character.
abbrev pub measure : Parser → ℕ
measure p = if p.finished then 0 else 3 * length p.input + waiting p.lexem_type + 1

unfoldable pub run : Parser → Parser
unfolding loop
run p = loop (measure p) p

abbrev pub initial : PropertyMap → Parser
initial m = record {
  lexem_type = begin;
  c = 0;
  input = [];
  key = [];
  element = [];
  properties = m;
  finished = false;
}

-- The test behind the loop.
unfoldable pub finish : Parser → PropertyMap
finish p = if is_empty p.key then p.properties else (put p.key p.element p.properties).0

unfoldable pub parse : Text → PropertyMap → PropertyMap
unfolding run finish
parse [] m = m
parse (c ∷ text) m = finish (run (get_from (c ∷ text) (initial m)))

-- `load`: the map is cleared, and then filled from the decoded contents of the stream.
unfoldable pub load : Text → PropertyMap → PropertyMap
unfolding parse
load contents old = parse contents []
