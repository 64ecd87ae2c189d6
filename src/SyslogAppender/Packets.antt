-- ===== src/SyslogAppender/Packets.antt =====
-- src/main/cpp/syslogappender.cpp: the packets of a message that is too long.
use logging_log4cxx.Prelude.{
  ℕ, zero, suc, ◌+◌, ◌-◌, ◌<◌, ◌≤◌, ◌≡◌, refl, ap, ◌∙◌, none, some, List, [], ◌∷◌, ◌++◌, returned,
  ltb, pos, Text, codes, length, take, drop, arith, length-take, length-drop, take-append-drop,
  length-append, lt→ltb, min, false, subst,
}
use logging_log4cxx.SyslogAppender.{cut, suffix, numbered, packets}

abbrev pub concatenated : List Text → Text
concatenated [] = []
concatenated (piece ∷ pieces) = piece ++ concatenated pieces

-- Each piece has a character, and at most `size`.
abbrev pub AreCut : ℕ → List Text → Type 0
AreCut size [] = Unit {0}
AreCut size (piece ∷ pieces) = (0 < length piece) × (length piece ≤ size) × AreCut size pieces

-- Each packet is shorter than `bound`.
abbrev pub AreShorter : ℕ → List Text → Type 0
AreShorter bound [] = Unit {0}
AreShorter bound (packet ∷ rest) = (length packet < bound) × AreShorter bound rest

cut-concatenated :
    (n size : ℕ) (msg : Text)
    → 0 < size
    → length msg ≤ n
    → (pieces : List Text) × (cut n size msg ≡ some pieces)
      × (concatenated pieces ≡ msg)
      × AreCut size pieces
unfolding cut
cut-concatenated n size [] room enough = ([], refl, refl, tt)
cut-concatenated zero size (c ∷ rest) room enough = absurd (omega arith)
cut-concatenated (suc n) size (c ∷ rest) room enough =
    let left : length (drop size (c ∷ rest)) ≤ n = omega (arith, length-drop size (c ∷ rest)) in
    let (pieces, e, same, short) = cut-concatenated n size (drop size (c ∷ rest)) room left in
    let size_of : length (take size (c ∷ rest)) ≡ min size (length (c ∷ rest)) =
      length-take size (c ∷ rest) in
    (
      take size (c ∷ rest) ∷ pieces,
      rw (cut, e) refl,
      ap (take size (c ∷ rest) ++◌) same ∙ take-append-drop size (c ∷ rest),
      (omega (arith, size_of), omega (arith, size_of), short),
    )

module _ (decimal : ℕ → Text) where
  suffix-length : (current total : ℕ) → length (suffix decimal current total) ≤ 11
  unfolding suffix
  suffix-length current total = omega (
    arith,
    length-take 11 (codes "(" ++ decimal current ++ codes "/" ++ decimal total ++ codes ")"),
  )

  numbered-AreShorter :
      (current total size : ℕ) (pieces : List Text)
      → AreCut size pieces
      → AreShorter (size + 12) (numbered decimal current total pieces)
  unfolding numbered
  numbered-AreShorter current total size [] cut_up = tt
  numbered-AreShorter current total size (piece ∷ pieces) (some_text, short, cut_up) = (
    omega (arith, length-append piece (suffix decimal current total), suffix-length current total),
    numbered-AreShorter (current + 1) total size pieces cut_up,
  )

  -- A message longer than the maximal length, which is more than 12: with a round for each character
  -- the loop ends. The packets are pieces that make up the message in order, none of them empty, each
  -- with its number behind it, and every packet is shorter than the maximal length.
  pub packets-AreShorter :
      (n m : ℕ) (msg : Text)
      → 12 < m
      → m < length msg
      → length msg ≤ n
      → (pieces : List Text) × (packets decimal n (pos m) msg
          ≡ some (returned (numbered decimal 1 (length pieces) pieces)))
        × (concatenated pieces ≡ msg)
        × AreCut (m - 12) pieces
        × AreShorter m (numbered decimal 1 (length pieces) pieces)
  unfolding packets
  packets-AreShorter n m msg room long enough =
      let (pieces, e, same, cut_up) = cut-concatenated n (m - 12) msg (omega arith) enough in
      let bound : m - 12 + 12 ≡ m = omega arith in
      let big : ltb m 12 ≡ false = ground arith in
      (
        pieces,
        rw (lt→ltb m (length msg) long, big, e) refl,
        same,
        cut_up,
        subst (λ b. AreShorter b (numbered decimal 1 (length pieces) pieces)) bound
            (numbered-AreShorter 1 (length pieces) (m - 12) pieces cut_up),
      )

  cut-stays : (n : ℕ) (c : ℕ) (rest : Text) → cut n 0 (c ∷ rest) ≡ none
  unfolding cut
  cut-stays zero c rest = refl
  cut-stays (suc n) c rest = rw (cut-stays n c rest) refl

  -- Where the maximal length is 12, the loop makes empty pieces of a longer message and never ends:
  -- no fuel is enough.
  pub packets-stay : (n : ℕ) (msg : Text) → 12 < length msg → packets decimal n (pos 12) msg ≡ none
  unfolding packets
  packets-stay n [] long = absurd (omega arith)
  packets-stay n (c ∷ rest) long = rw (lt→ltb 12 (length (c ∷ rest)) long, cut-stays n c rest) refl
