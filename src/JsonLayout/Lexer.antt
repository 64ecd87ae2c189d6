-- ===== src/JsonLayout/Lexer.antt =====
-- A reader of the tokens of JSON, for the output of src/main/cpp/jsonlayout.cpp. Strings are read
-- without the form \u, and control characters in them are not refused.
use logging_log4cxx.Prelude.{
  ℕ, ◌≡◌, refl, sym, ap, ◌∙◌, Bool, ◌||◌, Option, none, some, List, [], ◌∷◌, ◌++◌, append_assoc,
  if◌then◌else◌, ◌==◌, Text,
}

pub data Token : Type 0 where
  mark : ℕ → Token
  string : Text → Token

-- Between tokens, inside of a string, and behind a backslash in one.
pub data Mode : Type 0 where
  outside : Mode
  inside escaped : Text → Mode

abbrev pub is_space : ℕ → Bool
is_space c = c == 0x20 || c == 9 || c == 10 || c == 13

abbrev pub is_mark : ℕ → Bool
is_mark c = c == b'{' || c == b'}' || c == b'[' || c == b']' || c == b':' || c == b','

-- The character behind a backslash.
abbrev pub unescaped : ℕ → Option ℕ
unescaped c =
    if c == b'b'
    then some 8
    else if c == b't'
    then some 9
    else if c == b'n'
    then some 10
    else if c == b'f'
    then some 12
    else if c == b'r'
    then some 13
    else if c == 0x22 || c == 0x5C || c == b'/'
    then some c
    else none

unfoldable pub next : Mode → ℕ → Option (Mode × List Token)
next outside c =
    if c == 0x22
    then some (inside [], [])
    else if is_space c
    then some (outside, [])
    else if is_mark c
    then some (outside, mark c ∷ [])
    else none
next (inside s) c =
    if c == 0x22
    then some (outside, string s ∷ [])
    else if c == 0x5C
    then some (escaped s, [])
    else some (inside (s ++ (c ∷ [])), [])
next (escaped s) c = elim (unescaped c) [ none ↦ none | some d ↦ some (inside (s ++ (d ∷ [])), []) ]

abbrev pub prepend : List Token → Option (List Token) → Option (List Token)
prepend ts none = none
prepend ts (some us) = some (ts ++ us)

-- The tokens of a text from a mode on.
unfoldable pub tokens : Mode → Text → Option (List Token)
tokens outside [] = some []
tokens (inside s) [] = none
tokens (escaped s) [] = none
tokens m (c ∷ t) = elim (next m c) [ none ↦ none | some (m', ts) ↦ prepend ts (tokens m' t) ]

pub prepend-append :
    (ts us : List Token) (o : Option (List Token))
    → prepend ts (prepend us o) ≡ prepend (ts ++ us) o
prepend-append ts us none = refl
prepend-append ts us (some vs) = ap (λ l. some l) (sym (append_assoc ts us vs))

pub prepend-nil : (o : Option (List Token)) → prepend [] o ≡ o
prepend-nil none = refl
prepend-nil (some ts) = refl

-- Between tokens, the text is read as the tokens, whatever follows.
abbrev pub Reads : Text → List Token → Type 0
Reads t ts = (rest : Text) → tokens outside (t ++ rest) ≡ prepend ts (tokens outside rest)

pub Reads-nil : Reads [] []
Reads-nil rest = sym (prepend-nil (tokens outside rest))

pub Reads-append :
    (t u : Text) (ts us : List Token) → Reads t ts → Reads u us → Reads (t ++ u) (ts ++ us)
Reads-append t u ts us r q rest =
    ap (tokens outside) (append_assoc t u rest)
    ∙ r (u ++ rest)
    ∙ ap (prepend ts) (q rest)
    ∙ prepend-append ts us (tokens outside rest)
