-- ===== src/SyslogAppender.antt =====
-- src/main/cpp/syslogappender.cpp: how a message is split and written. `decimal` is the decimal text
-- of a number, as the C library and StringHelper::toString make it.
pub mod Packets
use logging_log4cxx.Prelude.{
  ℕ, zero, suc, ◌+◌, ◌-◌, Bool, true, false, Option, none, some, List, [], ◌∷◌, ◌++◌, map, Outcome,
  returned, undefined, if◌then◌else◌, ltb, ℤ, pos, negsuc, Text, codes, length, take, drop,
}

-- The loop that cuts the message, on fuel; `size` is `maxMessageLength - 12`.
unfoldable pub cut : ℕ → ℕ → Text → Option (List Text)
cut n size [] = some []
cut zero size (c ∷ rest) = none
cut (suc n) size (c ∷ rest) = elim (cut n size (drop size (c ∷ rest))) [
  | none ↦ none
  | some pieces ↦ some (take size (c ∷ rest) ∷ pieces)
]

module _ (decimal : ℕ → Text) where
  -- The buffer has room for eleven characters and the NUL.
  unfoldable pub suffix : ℕ → ℕ → Text
  suffix current total =
      take 11 (codes "(" ++ decimal current ++ codes "/" ++ decimal total ++ codes ")")

  unfoldable pub numbered : ℕ → ℕ → List Text → List Text
  numbered current total [] = []
  numbered current total (piece ∷ pieces) =
      (piece ++ suffix current total) ∷ numbered (current + 1) total pieces

  -- `packets`: a negative length is a huge one when it is compared with the size. Below 12 the first
  -- end lies before its start.
  unfoldable pub packets : ℕ → ℤ → Text → Option (Outcome (List Text))
  packets n (negsuc m) msg = some (returned (msg ∷ []))
  packets n (pos m) msg =
      if ltb m (length msg)
      then if ltb m 12 then some undefined else elim (cut n (m - 12) msg) [
        | none ↦ none
        | some pieces ↦ some (returned (numbered 1 (length pieces) pieces))
      ]
      else some (returned (msg ∷ []))

  -- What is written to a host for each packet; `priority` is the facility with the level.
  unfoldable pub written : ℕ → Bool → Text → Text → Text
  written priority facility_printing facility_str item =
      codes "<"
      ++ decimal priority
      ++ codes ">"
      ++ (if facility_printing then facility_str else [])
      ++ item
