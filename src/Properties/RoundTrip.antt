-- ===== src/Properties/RoundTrip.antt =====
-- Printing a map as the lines that the parser of src/main/cpp/properties.cpp reads, and reading it back.
use logging_log4cxx.Prelude.{
  ℕ, ◌≡◌, refl, ap, ◌∙◌, false, ◌||◌, List, [], ◌∷◌, ◌++◌, Text, arith, if◌then◌else◌, ◌==◌,
  append_assoc, append-nil,
}
use logging_log4cxx.Properties.{PropertyMap, put}
use logging_log4cxx.Properties.Parser.{
  Parser, LexemType, begin, key_text, key_escape, delimiter, element_text, element_escape, step_in,
  run, get_from, parse, finish,
}
use logging_log4cxx.Properties.Termination.{run-step}

-- One character of a key or of an element, as a file writes it.
abbrev pub escaped : ℕ → Text
escaped c =
    if c == b'\t'
    then b'\\' ∷ b't' ∷ []
    else if c == b'\n'
    then b'\\' ∷ b'n' ∷ []
    else if c == b'\r'
    then b'\\' ∷ b'r' ∷ []
    else if c == b' ' || c == b':' || c == b'=' || c == b'#' || c == b'!' || c == b'\\'
    then b'\\' ∷ c ∷ []
    else c ∷ []

abbrev pub escape : Text → Text
escape [] = []
escape (c ∷ s) = escaped c ++ escape s

abbrev pub line : Text × Text → Text → Text
line (key, value) rest = escape key ++ (b'=' ∷ (escape value ++ (b'\n' ∷ rest)))

-- The file that lists the pairs, one to a line.
abbrev pub print : List (Text × Text) → Text
print [] = []
print (e ∷ es) = line e (print es)

-- `put` of each pair in turn.
abbrev pub put_all : List (Text × Text) → PropertyMap → PropertyMap
put_all [] m = m
put_all ((key, value) ∷ es) m = put_all es (put key value m).0

abbrev pub at : LexemType → Text → Text → Text → PropertyMap → Parser
at l text key element m = get_from text (record {
  lexem_type = l;
  c = 0;
  input = [];
  key = key;
  element = element;
  properties = m;
  finished = false;
})

-- One round at a state that has read the first character of its text.
run-at :
    (l : LexemType) (c : ℕ) (rest key element : Text) (m : PropertyMap)
    → run (at l (c ∷ rest) key element m) ≡ run (step_in l (at l (c ∷ rest) key element m))
run-at l c rest key element m = run-step (at l (c ∷ rest) key element m) refl

module _ (key element : Text) (m : PropertyMap) where
  run_key-escaped :
      (c : ℕ) (rest : Text)
      → run (at key_text (escaped c ++ rest) key element m)
        ≡ run (at key_text rest (key ++ c ∷ []) element m)
  unfolding step_in
  run_key-escaped c rest = ground (
    arith,
    run-at key_text c rest key element m,
    run-at key_text b'\\' (b't' ∷ rest) key element m,
    run-at key_escape b't' rest key element m,
    run-at key_text b'\\' (b'n' ∷ rest) key element m,
    run-at key_escape b'n' rest key element m,
    run-at key_text b'\\' (b'r' ∷ rest) key element m,
    run-at key_escape b'r' rest key element m,
    run-at key_text b'\\' (c ∷ rest) key element m,
    run-at key_escape c rest key element m,
  )

  run_element-escaped :
      (c : ℕ) (rest : Text)
      → run (at element_text (escaped c ++ rest) key element m)
        ≡ run (at element_text rest key (element ++ c ∷ []) m)
  unfolding step_in
  run_element-escaped c rest = ground (
    arith,
    run-at element_text c rest key element m,
    run-at element_text b'\\' (b't' ∷ rest) key element m,
    run-at element_escape b't' rest key element m,
    run-at element_text b'\\' (b'n' ∷ rest) key element m,
    run-at element_escape b'n' rest key element m,
    run-at element_text b'\\' (b'r' ∷ rest) key element m,
    run-at element_escape b'r' rest key element m,
    run-at element_text b'\\' (c ∷ rest) key element m,
    run-at element_escape c rest key element m,
  )

  -- The first character of an escaped text starts a key, or an element after its delimiter.
  run-begin :
      (c : ℕ) (rest : Text)
      → run (at begin (escaped c ++ rest) key element m)
        ≡ run (at key_text (escaped c ++ rest) key element m)
  unfolding step_in
  run-begin c rest = ground (
    arith,
    run-at begin c rest key element m,
    run-at begin b'\\' (b't' ∷ rest) key element m,
    run-at begin b'\\' (b'n' ∷ rest) key element m,
    run-at begin b'\\' (b'r' ∷ rest) key element m,
    run-at begin b'\\' (c ∷ rest) key element m,
  )

  run-delimiter :
      (c : ℕ) (rest : Text)
      → run (at delimiter (escaped c ++ rest) key element m)
        ≡ run (at element_text (escaped c ++ rest) key element m)
  unfolding step_in
  run-delimiter c rest = ground (
    arith,
    run-at delimiter c rest key element m,
    run-at delimiter b'\\' (b't' ∷ rest) key element m,
    run-at delimiter b'\\' (b'n' ∷ rest) key element m,
    run-at delimiter b'\\' (b'r' ∷ rest) key element m,
    run-at delimiter b'\\' (c ∷ rest) key element m,
  )

run_key-escape :
    (s rest key : Text) (m : PropertyMap)
    → run (at key_text (escape s ++ rest) key [] m) ≡ run (at key_text rest (key ++ s) [] m)
run_key-escape [] rest key m = rw append-nil refl
run_key-escape (c ∷ s) rest key m = rw (append_assoc (escaped c) (escape s) rest) (
    run_key-escaped key [] m c (escape s ++ rest)
    ∙ run_key-escape s rest (key ++ c ∷ []) m
    ∙ rw (append_assoc key (c ∷ []) s) refl)

run_element-escape :
    (s rest key element : Text) (m : PropertyMap)
    → run (at element_text (escape s ++ rest) key element m)
      ≡ run (at element_text rest key (element ++ s) m)
run_element-escape [] rest key element m = rw append-nil refl
run_element-escape (c ∷ s) rest key element m = rw (append_assoc (escaped c) (escape s) rest) (
    run_element-escaped key element m c (escape s ++ rest)
    ∙ run_element-escape s rest key (element ++ c ∷ []) m
    ∙ rw (append_assoc element (c ∷ []) s) refl)

run_start :
    (s rest : Text) (m : PropertyMap)
    → run (at begin (escape s ++ (b'=' ∷ rest)) [] [] m)
      ≡ run (at key_text (escape s ++ (b'=' ∷ rest)) [] [] m)
run_start [] rest m = unfold step_in in run-at begin b'=' rest [] [] m
run_start (c ∷ s) rest m =
    rw (append_assoc (escaped c) (escape s) (b'=' ∷ rest))
      (run-begin [] [] m c (escape s ++ (b'=' ∷ rest)))

run_value :
    (s rest key : Text) (m : PropertyMap)
    → run (at delimiter (escape s ++ (b'\n' ∷ rest)) key [] m)
      ≡ run (at element_text (escape s ++ (b'\n' ∷ rest)) key [] m)
run_value [] rest key m = unfold step_in in run-at delimiter b'\n' rest key [] m
run_value (c ∷ s) rest key m =
    rw (append_assoc (escaped c) (escape s) (b'\n' ∷ rest))
      (run-delimiter key [] m c (escape s ++ (b'\n' ∷ rest)))

-- Reading the next character forgets the one before.
get_from-at :
    (text : Text) (l : LexemType) (c : ℕ) (input key element : Text) (m : PropertyMap)
    → get_from text (record {
      lexem_type = l;
      c = c;
      input = input;
      key = key;
      element = element;
      properties = m;
      finished = false;
    })
      ≡ at l text key element m
get_from-at [] l c input key element m = refl
get_from-at (x ∷ text) l c input key element m = refl

run-line :
    (key value rest : Text) (m : PropertyMap)
    → run (at begin (line (key, value) rest) [] [] m)
      ≡ run (at begin rest [] [] (put key value m).0)
unfolding step_in
run-line key value rest m =
    let values = escape value ++ (b'\n' ∷ rest) in
    run_start key values m
    ∙ run_key-escape key (b'=' ∷ values) [] m
    ∙ run-at key_text b'=' values key [] m
    ∙ ap run (get_from-at values delimiter b'=' values key [] m)
    ∙ run_value value rest key m
    ∙ run_element-escape value (b'\n' ∷ rest) key [] m
    ∙ run-at element_text b'\n' rest key value m
    ∙ ap run (get_from-at rest begin b'\n' rest [] [] (put key value m).0)

run-print :
    (es : List (Text × Text)) (m : PropertyMap)
    → finish (run (at begin (print es) [] [] m)) ≡ put_all es m
unfolding finish run
run-print [] m = refl
run-print ((key, value) ∷ es) m =
    ap finish (run-line key value (print es) m) ∙ run-print es (put key value m).0

parse-at : (text : Text) (m : PropertyMap) → parse text m ≡ finish (run (at begin text [] [] m))
unfolding parse finish run
parse-at [] m = refl
parse-at (c ∷ text) m = refl

-- The parser reads back every list of pairs, whatever characters the keys and the elements hold:
-- parsing the printed file puts the pairs in order, and nothing else, into the map.
pub parse-print : (es : List (Text × Text)) (m : PropertyMap) → parse (print es) m ≡ put_all es m
parse-print es m = parse-at (print es) m ∙ run-print es m
