-- ===== src/Prelude/Maps.antt =====
-- `std::map` from texts: an association list with one pair to a key. Its order is not modelled.
use mathlib.Core.Path.{◌≡◌, refl}
use mathlib.Core.Option.{Option, none, some}
use mathlib.Core.List.{List, [], ◌∷◌}
use native.Mathlib.Omega.{arith}
use logging_log4cxx.Prelude.Tests.{if◌then◌else◌}
use logging_log4cxx.Prelude.Texts.{Text, text_eq, text_eq_iff}

module _ {V : Type 0} where
  -- `find`
  unfoldable pub find : Text → List (Text × V) → Option V
  find key [] = none
  find key ((k, v) ∷ m) = if text_eq k key then some v else find key m

  -- `m[key] = value`
  unfoldable pub insert : Text → V → List (Text × V) → List (Text × V)
  insert key value [] = (key, value) ∷ []
  insert key value ((k, v) ∷ m) =
      if text_eq k key then (k, value) ∷ m else (k, v) ∷ insert key value m

  unfoldable pub erase : Text → List (Text × V) → List (Text × V)
  erase key [] = []
  erase key ((k, v) ∷ m) = let rest = erase key m in if text_eq k key then rest else (k, v) ∷ rest

  pub find-insert :
      (j key : Text) (value : V) (m : List (Text × V))
      → find j (insert key value m) ≡ (if text_eq key j then some value else find j m)
  unfolding find insert
  find-insert j key value [] = refl
  find-insert j key value ((k, v) ∷ m) =
      ground
        (arith, text_eq_iff k key, text_eq_iff key j, text_eq_iff k j, find-insert j key value m)

  pub find-erase :
      (j key : Text) (m : List (Text × V))
      → find j (erase key m) ≡ (if text_eq key j then none else find j m)
  unfolding find erase
  find-erase j key [] = ground arith
  find-erase j key ((k, v) ∷ m) =
      ground (arith, text_eq_iff k key, text_eq_iff key j, text_eq_iff k j, find-erase j key m)
