-- ===== src/JsonLayout/Writes.antt =====
-- src/main/cpp/jsonlayout.cpp: the calls that append to the buffer, as writers of tokens.
use logging_log4cxx.Prelude.{
  ◌≡◌, refl, sym, ap, ◌∙◌, Bool, true, false, List, [], ◌∷◌, ◌++◌, append_assoc, append-nil,
  if◌then◌else◌, Text, codes,
}
use logging_log4cxx.JsonLayout.{append_item, ◌then◌, put, when}
use logging_log4cxx.JsonLayout.Lexer.{
  Token, string, mark, outside, next, tokens, prepend, prepend-nil, Reads, Reads-nil, Reads-append,
}
use logging_log4cxx.JsonLayout.Quoted.{append_item-quoted, quoted-Reads, quoted}

-- Whatever the buffer, the call appends a text that is read as the tokens.
pub record Writes (f : Text → Text) (ts : List Token) : Type 0 where
  pub writes : (buf : Text) → (t : Text) × (f buf ≡ buf ++ t) × Reads t ts

infixr 5 ◌and◌
pub ◌and◌ :
    {f g : Text → Text} {ts us : List Token}
    → Writes f ts
    → Writes g us
    → Writes (f then g) (ts ++ us)
◌and◌ {f} {g} {ts} {us} w v = record {
  writes = λ buf.
      let (t, e, r) = w.writes buf in
      let (u, e', r') = v.writes (f buf) in
      (t ++ u, e' ∙ ap (λ b. b ++ u) e ∙ append_assoc buf t u, Reads-append t u ts us r r');
}

pub Writes-none : Writes (λ buf. buf) []
Writes-none = record { writes = λ buf. ([], sym (append-nil buf), Reads-nil) }

pub Writes-put : (s : Text) (ts : List Token) → Reads s ts → Writes (put s) ts
Writes-put s ts r = record { writes = λ buf. (s, refl, r) }

pub Writes-when :
    (b : Bool) {f : Text → Text} {ts : List Token}
    → Writes f ts
    → Writes (when b f) (if b then ts else [])
Writes-when true w = w
Writes-when false w = Writes-none

pub Writes-item : (s : Text) → Writes (append_item s) (string s ∷ [])
Writes-item s = record { writes = λ buf. (quoted s, append_item-quoted s buf, quoted-Reads s) }

pub space-Reads : Reads (codes " ") []
unfolding tokens next
space-Reads rest = refl

pub newline-Reads : Reads (codes "\n") []
unfolding tokens next
newline-Reads rest = refl

pub newline : Writes (put (codes "\n")) []
newline = Writes-put (codes "\n") [] newline-Reads

pub comma : Writes (put (codes ",")) (mark b',' ∷ [])
unfolding tokens next
comma = Writes-put (codes ",") (mark b',' ∷ []) (λ rest. refl)

pub opening : Writes (put (codes "{")) (mark b'{' ∷ [])
unfolding tokens next
opening = Writes-put (codes "{") (mark b'{' ∷ []) (λ rest. refl)

pub closing : Writes (put (codes "}")) (mark b'}' ∷ [])
unfolding tokens next
closing = Writes-put (codes "}") (mark b'}' ∷ []) (λ rest. refl)

pub bracket : Writes (put (codes "]")) (mark b']' ∷ [])
unfolding tokens next
bracket = Writes-put (codes "]") (mark b']' ∷ []) (λ rest. refl)

pub colon-Reads : Reads (codes ": ") (mark b':' ∷ [])
unfolding tokens next
colon-Reads rest = ap (prepend (mark b':' ∷ [])) (prepend-nil (tokens outside rest))

pub colon : Writes (put (codes ": ")) (mark b':' ∷ [])
colon = Writes-put (codes ": ") (mark b':' ∷ []) colon-Reads

pub colon_opening : Writes (put (codes ": {")) (mark b':' ∷ mark b'{' ∷ [])
unfolding tokens next
colon_opening = Writes-put (codes ": {") (mark b':' ∷ mark b'{' ∷ []) (
    Reads-append (codes ": ") (codes "{") (mark b':' ∷ []) (mark b'{' ∷ []) colon-Reads
      (λ rest. refl))

pub colon_bracket : Writes (put (codes ": [")) (mark b':' ∷ mark b'[' ∷ [])
unfolding tokens next
colon_bracket = Writes-put (codes ": [") (mark b':' ∷ mark b'[' ∷ []) (
    Reads-append (codes ": ") (codes "[") (mark b':' ∷ []) (mark b'[' ∷ []) colon-Reads
      (λ rest. refl))

pub two-Reads : Reads (codes "  ") []
two-Reads = Reads-append (codes " ") (codes " ") [] [] space-Reads space-Reads

pub four-Reads : Reads (codes "    ") []
four-Reads = Reads-append (codes "  ") (codes "  ") [] [] two-Reads two-Reads

-- Space, or nothing.
pub Writes-blank : (b : Bool) (s : Text) → Reads s [] → Writes (when b (put s)) []
Writes-blank true s r = Writes-put s [] r
Writes-blank false s r = Writes-none

pub Writes-end : (b : Bool) → Writes (put (if b then codes "\n" else codes " ")) []
Writes-end true = newline
Writes-end false = Writes-put (codes " ") [] space-Reads
