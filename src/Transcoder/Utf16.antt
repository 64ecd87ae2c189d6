-- ===== src/Transcoder/Utf16.antt =====
-- UTF-16 in src/main/cpp/transcoder.cpp: characters above U+FFFF.
use logging_log4cxx.Prelude.{
  ℕ, ◌+◌, ◌-◌, ◌*◌, ◌/◌, ◌%◌, ◌≤◌, ◌≡◌, ◌↔◌, [], ◌∷◌, arith, ap, refl, sym, ◌∙◌,
}
use logging_log4cxx.Transcoder.{Bytes, encode_utf16be, encode_utf16le}

-- The surrogates of the Unicode standard.
abbrev high_surrogate : ℕ → ℕ
high_surrogate ch = 0xD800 + (ch - 0x10000) / 1024

abbrev low_surrogate : ℕ → ℕ
low_surrogate ch = 0xDC00 + (ch - 0x10000) % 1024

abbrev pub surrogates_be : ℕ → Bytes
surrogates_be ch =
    (high_surrogate ch / 256)
    ∷ (high_surrogate ch % 256)
    ∷ (low_surrogate ch / 256)
    ∷ (low_surrogate ch % 256)
    ∷ []

abbrev pub surrogates_le : ℕ → Bytes
surrogates_le ch =
    (high_surrogate ch % 256)
    ∷ (high_surrogate ch / 256)
    ∷ (low_surrogate ch % 256)
    ∷ (low_surrogate ch / 256)
    ∷ []

first_bytes :
    (ch : ℕ)
    → 0x10000 ≤ ch
    → ch ≤ 0x10FFFF
    → (0xD8 + (ch / 65536 - 1) / 4 ≡ high_surrogate ch / 256)
      × ((ch / 65536 - 1) % 4 * 64 + ch / 1024 % 64 ≡ high_surrogate ch % 256)
      × (ch % 256 ≡ low_surrogate ch % 256)
      × (low_surrogate ch / 256 ≡ 0xDC + ch / 256 % 4)
first_bytes ch p q = (omega arith, omega arith, omega arith, omega arith)

encode_be :
    (ch : ℕ)
    → 0x10000 ≤ ch
    → ch ≤ 0x10FFFF
    → (let w : ℕ = ch / 65536 - 1 in
        encode_utf16be ch
        ≡ (0xD8 + w / 4) ∷ (w % 4 * 64 + ch / 1024 % 64) ∷ (0xDC + ch / 16 % 4) ∷ (ch % 256) ∷ [])
unfolding encode_utf16be
encode_be ch p q = ground arith

encode_le :
    (ch : ℕ)
    → 0x10000 ≤ ch
    → ch ≤ 0x10FFFF
    → (let w : ℕ = ch / 65536 - 1 in
        encode_utf16le ch
        ≡ (w % 4 * 64 + ch / 1024 % 64) ∷ (0xD8 + w / 4) ∷ (ch % 256) ∷ (0xDC + ch / 16 % 4) ∷ [])
unfolding encode_utf16le
encode_le ch p q = ground arith

third : Bytes → ℕ
third (a ∷ b ∷ c ∷ s) = c
third s = 0

fourth : Bytes → ℕ
fourth (a ∷ b ∷ c ∷ d ∷ s) = d
fourth s = 0

-- For a character above U+FFFF and up to U+10FFFF, the four bytes are its surrogates exactly where bits 8 and 9
-- are bits 4 and 5: the low surrogate takes the wrong bits. The same holds in both byte orders.
pub encode_utf16be-surrogates :
    (ch : ℕ)
    → 0x10000 ≤ ch
    → ch ≤ 0x10FFFF
    → (encode_utf16be ch ≡ surrogates_be ch ↔ (ch / 16 % 4 ≡ ch / 256 % 4))
      × (encode_utf16le ch ≡ surrogates_le ch ↔ (ch / 16 % 4 ≡ ch / 256 % 4))
unfolding third fourth
encode_utf16be-surrogates ch p q =
    let (a, b, c, d) = first_bytes ch p q in
    let be = encode_be ch p q in
    let le = encode_le ch p q in
    (
      (λ e. omega (arith, d, sym (ap third be) ∙ ap third e), λ e. be ∙ rw (a, b, c, d, e) refl),
      (λ e. omega (arith, d, sym (ap fourth le) ∙ ap fourth e), λ e. le ∙ rw (a, b, c, d, e) refl),
    )
