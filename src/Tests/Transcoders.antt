-- ===== src/Tests/Transcoders.antt =====
-- Tests of Transcoder.
use logging_log4cxx.Prelude.{
  ℕ, ◌+◌, ◌/◌, ◌%◌, ◌≡◌, ◌↔◌, refl, some, List, [], ◌∷◌, ◌++◌, returned, undefined, length, arith,
}
use logging_log4cxx.Transcoder.{encode_utf8, decode_utf8, encode_utf16be, encode_utf16le}
use logging_log4cxx.Transcoder.Utf8.{encoded, all_shown, decode_utf8-encoded, decode_utf8-overrun}
use logging_log4cxx.Transcoder.Utf16.{surrogates_be, surrogates_le, encode_utf16be-surrogates}

-- "A", U+0800 and an emoji.
abbrev three : List ℕ
three = 0x41 ∷ 0x800 ∷ 0x1F600 ∷ []

decode_utf8-encoded_example :
    decode_utf8 (length (encoded three)) (encoded three) ≡ some (returned (all_shown three))
decode_utf8-encoded_example = decode_utf8-encoded three (
  omega arith,
  (λ e. absurd (omega arith)),
  (omega arith, (λ e. absurd (omega arith)), (omega arith, (λ e. absurd (omega arith)), tt)),
)

decode_utf8-overrun_example :
    decode_utf8 (length (encoded (0x41 ∷ [])) + 1) (encoded (0x41 ∷ []) ++ encode_utf8 0xFFFF)
    ≡ some undefined
decode_utf8-overrun_example =
    decode_utf8-overrun (0x41 ∷ []) (omega arith, (λ e. absurd (omega arith)), tt)

encode_utf16be-surrogates_example :
    (encode_utf16be 0x1F600 ≡ surrogates_be 0x1F600 ↔ (0x1F600 / 16 % 4 ≡ 0x1F600 / 256 % 4))
    × (encode_utf16le 0x1F600 ≡ surrogates_le 0x1F600 ↔ (0x1F600 / 16 % 4 ≡ 0x1F600 / 256 % 4))
encode_utf16be-surrogates_example = encode_utf16be-surrogates 0x1F600 (omega arith) (omega arith)

broken_pair : decode_utf8 2 (0xC3 ∷ 0x28 ∷ []) ≡ some (returned (0x3F ∷ 0x28 ∷ []))
unfolding decode_utf8
broken_pair = refl
