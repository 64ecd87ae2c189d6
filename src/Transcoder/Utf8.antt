-- ===== src/Transcoder/Utf8.antt =====
-- UTF-8 in src/main/cpp/transcoder.cpp: writing and reading back.
use logging_log4cxx.Prelude.{
  ℕ, zero, suc, ◌+◌, ◌-◌, ◌/◌, ◌%◌, ◌≤◌, ◌<◌, ◌≡◌, ◌≢◌, refl, sym, ap, ◌∙◌, inl, inr, false,
  Bool-cases, Option, none, some, Outcome, returned, thrown, undefined, List, [], ◌∷◌, ◌++◌, ◌==◌,
  ==_iff, if◌then◌else◌, length, length-append, arith, append_assoc, append-nil, subst,
}
use logging_log4cxx.Transcoder.{
  Bytes, no_char, loss_char, encode_utf8, decode, decode_second, decode_third, decode_utf8,
  appended,
}

decode-one : (ch : ℕ) (s : Bytes) → ch < 0x80 → decode ch s ≡ (ch, s)
unfolding decode
decode-one ch s h = ground arith

decode-two :
    (ch : ℕ) (s : Bytes)
    → 0x80 ≤ ch
    → ch < 0x800
    → decode (0xC0 + ch / 64) ((0x80 + ch % 64) ∷ s) ≡ (ch, s)
unfolding decode
decode-two ch s p q = ground arith

decode-three :
    (ch : ℕ) (s : Bytes)
    → 0x800 < ch
    → ch < 0x10000
    → decode (0xE0 + ch / 4096) ((0x80 + ch / 64 % 64) ∷ (0x80 + ch % 64) ∷ s) ≡ (ch, s)
unfolding decode
decode-three ch s p q = ground arith

decode-four :
    (ch : ℕ) (s : Bytes)
    → 0x10000 ≤ ch
    → ch ≤ 0x10FFFF
    → decode
        (0xF0 + ch / 262144)
        ((0x80 + ch / 4096 % 64) ∷ (0x80 + ch / 64 % 64) ∷ (0x80 + ch % 64) ∷ s)
      ≡ (ch, s)
unfolding decode
decode-four ch s p q = ground arith

-- `decode` at the start of a text.
abbrev pub decode_at : Bytes → Option (ℕ × Bytes)
decode_at [] = none
decode_at (c ∷ s) = some (decode c s)

decode_at-encode_utf8 :
    (ch : ℕ) (s : Bytes)
    → ch ≤ 0x10FFFF
    → ch ≢ 0x800
    → decode_at (encode_utf8 ch ++ s) ≡ some (ch, s)
unfolding encode_utf8
decode_at-encode_utf8 ch s bound ne =
    ground (arith, decode-one ch s, decode-two ch s, decode-three ch s, decode-four ch s)

-- One round of the loop, on a character that is read and on a byte that is refused.
read_one :
    (n : ℕ) (t : Bytes) (ch : ℕ) (s : Bytes)
    → decode_at t ≡ some (ch, s)
    → ch ≢ no_char
    → decode_utf8 (suc n) t ≡ appended (encode_utf8 ch) (decode_utf8 n s)
unfolding decode_utf8
read_one n [] ch s e ne = cc
read_one n (c ∷ t) ch s e ne =
    let e' : decode c t ≡ (ch, s) = cc in
    let ne' : (ch == no_char) ≡ false = ground arith in
    rw (decode_utf8, ap (λ d. d.0) e', ne')
      (ap (λ d. appended (encode_utf8 d.0) (decode_utf8 n d.1)) e')

refuse_one :
    (n c : ℕ) (s : Bytes)
    → decode c s ≡ (no_char, c ∷ s)
    → decode_utf8 (suc n) (c ∷ s) ≡ appended (loss_char ∷ []) (decode_utf8 n s)
unfolding decode_utf8
refuse_one n c s e = ground (arith, e)

-- The character U+0800 is refused, one byte after the other.
refuse_0x800 :
    (n : ℕ) (s : Bytes)
    → decode_utf8 (suc (suc (suc n))) (encode_utf8 0x800 ++ s)
      ≡ appended
          (loss_char ∷ [])
          (appended (loss_char ∷ []) (appended (loss_char ∷ []) (decode_utf8 n s)))
unfolding encode_utf8 decode decode_second decode_third
refuse_0x800 n s =
    refuse_one (suc (suc n)) 0xE0 (0xA0 ∷ 0x80 ∷ s) refl
    ∙ ap (appended (loss_char ∷ [])) (
        refuse_one (suc n) 0xA0 (0x80 ∷ s) refl
        ∙ ap (appended (loss_char ∷ [])) (refuse_one n 0x80 s refl))

-- What `decode_utf8` makes of one character.
abbrev pub shown : ℕ → Bytes
shown ch = if ch == 0x800 then 0x3F ∷ 0x3F ∷ 0x3F ∷ [] else encode_utf8 ch

abbrev pub encoded : List ℕ → Bytes
encoded [] = []
encoded (ch ∷ chs) = encode_utf8 ch ++ encoded chs

abbrev pub all_shown : List ℕ → Bytes
all_shown [] = []
all_shown (ch ∷ chs) = shown ch ++ all_shown chs

abbrev pub AreCharacters : List ℕ → Type 0
AreCharacters [] = Unit {0}
AreCharacters (ch ∷ chs) = (ch ≤ 0x10FFFF) × (ch ≢ no_char) × AreCharacters chs

appended_twice :
    (a b : Bytes) (r : Option (Outcome Bytes)) → appended a (appended b r) ≡ appended (a ++ b) r
unfolding appended
appended_twice a b none = refl
appended_twice a b (some (returned s)) = rw append_assoc
appended_twice a b (some (thrown x)) = refl
appended_twice a b (some undefined) = refl

length-encode_utf8 :
    (ch : ℕ) → (0 < length (encode_utf8 ch)) × (encode_utf8 0x800 ≡ 0xE0 ∷ 0xA0 ∷ 0x80 ∷ [])
unfolding encode_utf8
length-encode_utf8 ch = (ground arith, refl)

at_0x800 :
    (n : ℕ) (s : Bytes)
    → decode_utf8 (length (encode_utf8 0x800) + n) (encode_utf8 0x800 ++ s)
      ≡ appended (shown 0x800) (decode_utf8 n s)
at_0x800 n s =
    let fuel : length (encode_utf8 0x800) + n ≡ suc (suc (suc n)) =
      unfold encode_utf8 in omega arith in
    ap (λ m. decode_utf8 m (encode_utf8 0x800 ++ s)) fuel
    ∙ refuse_0x800 n s
    ∙ ap (appended (loss_char ∷ []))
        (appended_twice (loss_char ∷ []) (loss_char ∷ []) (decode_utf8 n s))
    ∙ appended_twice (loss_char ∷ []) (loss_char ∷ loss_char ∷ []) (decode_utf8 n s)

appended_nothing : (r : Option (Outcome Bytes)) → appended [] r ≡ r
unfolding appended
appended_nothing none = refl
appended_nothing (some (returned s)) = refl
appended_nothing (some (thrown x)) = refl
appended_nothing (some undefined) = refl

-- One character in front of bytes, on enough fuel for both.
decode_utf8-character :
    (n ch : ℕ) (s : Bytes)
    → ch ≤ 0x10FFFF
    → ch ≢ no_char
    → (m : ℕ) × (n ≤ m)
      × (decode_utf8 (length (encode_utf8 ch) + n) (encode_utf8 ch ++ s)
          ≡ appended (shown ch) (decode_utf8 m s))
decode_utf8-character n ch s bound ne = elim (Bool-cases (ch == 0x800)) [
  | inl e ↦
      let same : ch ≡ 0x800 = (==_iff ch 0x800).0 e in
      (
        n,
        omega arith,
        subst
            (λ c.
              decode_utf8 (length (encode_utf8 c) + n) (encode_utf8 c ++ s)
              ≡ appended (shown c) (decode_utf8 n s))
            (sym same) (at_0x800 n s),
      )
  | inr other ↦
      let positive = (length-encode_utf8 ch).0 in
      let last : ℕ = length (encode_utf8 ch) - 1 in
      let fuel : length (encode_utf8 ch) + n ≡ suc (last + n) = omega arith in
      (
        last + n,
        omega arith,
        ap (λ m. decode_utf8 m (encode_utf8 ch ++ s)) fuel
            ∙ read_one (last + n) (encode_utf8 ch ++ s) ch s
                (decode_at-encode_utf8 ch s bound (λ q. cc ((==_iff ch 0x800).1 q, other))) ne
            ∙ ap (λ b. appended b (decode_utf8 (last + n) s)) (rw other refl),
      )
]

-- Characters in front of bytes.
decode_utf8-characters :
    (chs : List ℕ) (n : ℕ) (s : Bytes)
    → AreCharacters chs
    → (m : ℕ) × (n ≤ m)
      × (decode_utf8 (length (encoded chs) + n) (encoded chs ++ s)
          ≡ appended (all_shown chs) (decode_utf8 m s))
decode_utf8-characters [] n s all = (
  n,
  omega arith,
  ap (λ m. decode_utf8 m s) (omega arith) ∙ sym (appended_nothing (decode_utf8 n s)),
)
decode_utf8-characters (ch ∷ chs) n s (bound, ne, all) =
    let (m, more, e) =
      decode_utf8-character (length (encoded chs) + n) ch (encoded chs ++ s) bound ne in
    let (k, enough, e') = decode_utf8-characters chs (m - length (encoded chs)) s all in
    let fuel : length (encoded chs) + (m - length (encoded chs)) ≡ m = omega arith in
    (
      k,
      omega arith,
      ap (λ b. decode_utf8 b (encoded (ch ∷ chs) ++ s))
            (ap (λ b. b + n) (length-append (encode_utf8 ch) (encoded chs)) ∙ omega arith)
          ∙ ap (decode_utf8 (length (encode_utf8 ch) + (length (encoded chs) + n)))
              (append_assoc (encode_utf8 ch) (encoded chs) s)
          ∙ e
          ∙ ap (appended (shown ch)) (ap (λ b. decode_utf8 b (encoded chs ++ s)) (sym fuel) ∙ e')
          ∙ appended_twice (shown ch) (all_shown chs) (decode_utf8 k s),
    )

overrun : (m : ℕ) → 1 ≤ m → decode_utf8 m (encode_utf8 0xFFFF) ≡ some undefined
unfolding decode_utf8 encode_utf8 decode decode_second decode_third
overrun zero h = absurd (omega arith)
overrun (suc m) h = refl

lost : (bytes : Bytes) → appended bytes (some undefined) ≡ some undefined
unfolding appended
lost bytes = refl

-- Let every character be at most U+10FFFF and not U+FFFF. `decode_utf8` copies their UTF-8 encoding,
-- with one `?` for each byte of the encoding of U+0800, on fuel for every byte.
pub decode_utf8-encoded :
    (chs : List ℕ)
    → AreCharacters chs
    → decode_utf8 (length (encoded chs)) (encoded chs) ≡ some (returned (all_shown chs))
unfolding decode_utf8 appended
decode_utf8-encoded chs all =
    let (m, _, e) = decode_utf8-characters chs 0 [] all in
    ap (λ f. decode_utf8 f (encoded chs)) (omega arith)
    ∙ ap (decode_utf8 (length (encoded chs) + 0)) (sym (append-nil (encoded chs)))
    ∙ e
    ∙ ap (λ t. some (returned t)) (append-nil (all_shown chs))

-- Let the same characters be followed by the encoding of U+FFFF (EF BF BF), and nothing behind it.
-- `decode` reads it whole and gives the number that means an error, so the loop steps over the end.
pub decode_utf8-overrun :
    (chs : List ℕ)
    → AreCharacters chs
    → decode_utf8 (length (encoded chs) + 1) (encoded chs ++ encode_utf8 0xFFFF) ≡ some undefined
decode_utf8-overrun chs all =
    let (m, enough, e) = decode_utf8-characters chs 1 (encode_utf8 0xFFFF) all in
    e ∙ ap (appended (all_shown chs)) (overrun m enough) ∙ lost (all_shown chs)
