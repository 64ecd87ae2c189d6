-- ===== src/Transcoder.antt =====
-- src/main/cpp/transcoder.cpp, where a `logchar` is a byte (LOG4CXX_LOGCHAR_IS_UTF8). A byte is a
-- number below 256; `x >> k` is `x / 2 ^ k`, and a mask of low bits is a remainder. The masks of high
-- bits are written for bytes: `(c & 0xC0) == 0x80` is `c / 64 == 2`.
pub mod Utf8
pub mod Utf16
pub mod Termination
use logging_log4cxx.Prelude.{
  ℕ, zero, suc, ◌+◌, ◌-◌, ◌*◌, ◌/◌, ◌%◌, Bool, not, Option, none, some, Outcome, returned, thrown,
  undefined, List, [], ◌∷◌, ◌++◌, true, false, ltb, leb, ◌==◌, if◌then◌else◌, length,
}

abbrev pub Bytes : Type 0
Bytes = List ℕ

abbrev pub no_char : ℕ
no_char = 0xFFFF

abbrev pub loss_char : ℕ
loss_char = 0x3F

-- `encodeUTF8(unsigned int ch, char* dst)`
unfoldable pub encode_utf8 : ℕ → Bytes
encode_utf8 ch =
    if ltb ch 0x80
    then ch ∷ []
    else if ltb ch 0x800
    then (0xC0 + ch / 64) ∷ (0x80 + ch % 64) ∷ []
    else if ltb ch 0x10000
    then (0xE0 + ch / 4096) ∷ (0x80 + ch / 64 % 64) ∷ (0x80 + ch % 64) ∷ []
    else if leb ch 0x10FFFF
    then (0xF0 + ch / 262144)
      ∷ (0x80 + ch / 4096 % 64)
      ∷ (0x80 + ch / 64 % 64)
      ∷ (0x80 + ch % 64)
      ∷ []
    else 0xEF ∷ 0xBF ∷ 0xBF ∷ []

abbrev pub is_continuation : ℕ → Bool
is_continuation c = c / 64 == 2

abbrev in_four : ℕ → ℕ → ℕ → ℕ → ℕ
in_four ch1 ch2 ch3 ch4 = ch1 % 8 * 262144 + ch2 % 64 * 4096 + ch3 % 64 * 64 + ch4 % 64

abbrev in_three : ℕ → ℕ → ℕ → ℕ
in_three ch1 ch2 ch3 = ch1 % 16 * 4096 + ch2 % 64 * 64 + ch3 % 64

abbrev in_two : ℕ → ℕ → ℕ
in_two ch1 ch2 = ch1 % 32 * 64 + ch2 % 64

-- `decode`: the value, and the bytes from `iter` on. `start` is what stands from the old `iter` on.
unfoldable pub decode_fourth : Bytes → ℕ → ℕ → ℕ → Bytes → ℕ × Bytes
decode_fourth start ch1 ch2 ch3 [] = (no_char, start)
decode_fourth start ch1 ch2 ch3 (ch4 ∷ s) =
    if not (is_continuation ch4)
    then (no_char, start)
    else if ltb 0xFFFF (in_four ch1 ch2 ch3 ch4)
    then (in_four ch1 ch2 ch3 ch4, s)
    else (no_char, start)

unfoldable pub decode_third : Bytes → ℕ → ℕ → Bytes → ℕ × Bytes
unfolding decode_fourth
decode_third start ch1 ch2 [] = (no_char, start)
decode_third start ch1 ch2 (ch3 ∷ s) =
    if not (is_continuation ch3)
    then (no_char, start)
    else if ch1 / 16 == 14
    then (if leb (in_three ch1 ch2 ch3) 0x800 then (no_char, start) else (in_three ch1 ch2 ch3, s))
    else decode_fourth start ch1 ch2 ch3 s

unfoldable pub decode_second : Bytes → ℕ → Bytes → ℕ × Bytes
unfolding decode_third
decode_second start ch1 [] = (no_char, start)
decode_second start ch1 (ch2 ∷ s) =
    if not (is_continuation ch2)
    then (no_char, start)
    else if ch1 / 32 == 6
    then (if leb 0x80 (in_two ch1 ch2) then (in_two ch1 ch2, s) else (no_char, start))
    else decode_third start ch1 ch2 s

-- `iter` is at `ch1`; it is never at the end.
unfoldable pub decode : ℕ → Bytes → ℕ × Bytes
unfolding decode_second
decode ch1 s =
    if leb ch1 0x7F
    then (ch1, s)
    else if not (is_continuation ch1)
    then decode_second (ch1 ∷ s) ch1 s
    else (no_char, ch1 ∷ s)

-- `iter++`, which must not be at the end.
abbrev step_over : Bytes → Outcome Bytes
step_over [] = undefined
step_over (c ∷ s) = returned s

-- What the rest of the loop appends stands behind `bytes`.
unfoldable pub appended : Bytes → Option (Outcome Bytes) → Option (Outcome Bytes)
appended bytes none = none
appended bytes (some (returned s)) = some (returned (bytes ++ s))
appended bytes (some (thrown x)) = some (thrown x)
appended bytes (some undefined) = some undefined

-- `decodeUTF8`, on fuel for the characters: `none` where it is out.
unfoldable pub decode_utf8 : ℕ → Bytes → Option (Outcome Bytes)
unfolding decode encode_utf8 appended
decode_utf8 n [] = some (returned [])
decode_utf8 zero (c ∷ s) = none
decode_utf8 (suc n) (c ∷ s) =
    let (sv, rest) = decode c s in
    elim (sv == no_char) [
      | false ↦ appended (encode_utf8 sv) (decode_utf8 n rest)
      | true ↦ elim (step_over rest) [
        | returned rest' ↦ appended (loss_char ∷ []) (decode_utf8 n rest')
        | thrown x ↦ some (thrown x)
        | undefined ↦ some undefined
      ]
    ]

-- `encodeUTF16BE(unsigned int ch, char* dst)` and `encodeUTF16LE`
unfoldable pub encode_utf16be : ℕ → Bytes
encode_utf16be ch =
    if leb ch 0xFFFF
    then (ch / 256) ∷ (ch % 256) ∷ []
    else if leb ch 0x10FFFF
    then (let w : ℕ = ch / 65536 - 1 in
        (0xD8 + w / 4) ∷ (w % 4 * 64 + ch / 1024 % 64) ∷ (0xDC + ch / 16 % 4) ∷ (ch % 256) ∷ [])
    else 0xFF ∷ 0xFF ∷ []

unfoldable pub encode_utf16le : ℕ → Bytes
encode_utf16le ch =
    if leb ch 0xFFFF
    then (ch % 256) ∷ (ch / 256) ∷ []
    else if leb ch 0x10FFFF
    then (let w : ℕ = ch / 65536 - 1 in
        (w % 4 * 64 + ch / 1024 % 64) ∷ (0xD8 + w / 4) ∷ (ch % 256) ∷ (0xDC + ch / 16 % 4) ∷ [])
    else 0xFF ∷ 0xFF ∷ []
