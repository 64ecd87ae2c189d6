-- ===== src/Properties.antt =====
-- src/main/cpp/properties.cpp. A `std::map` from texts to texts is an association list with one pair to
-- a key; its order, which only `propertyNames` shows, is not modelled.
pub mod Parser
pub mod Termination
pub mod RoundTrip
use logging_log4cxx.Prelude.{
  ℕ, ◌≡◌, refl, List, [], ◌∷◌, Option, none, some, Bool, if◌then◌else◌, Text, text_eq, text_eq_iff,
  arith,
}

abbrev pub PropertyMap : Type 0
PropertyMap = List (Text × Text)

-- `find`
unfoldable pub lookup : Text → PropertyMap → Option Text
lookup key [] = none
lookup key ((k, v) ∷ m) = if text_eq k key then some v else lookup key m

-- `(*properties)[key] = value`
unfoldable pub assign : Text → Text → PropertyMap → PropertyMap
assign key value [] = (key, value) ∷ []
assign key value ((k, v) ∷ m) =
    if text_eq k key then (k, value) ∷ m else (k, v) ∷ assign key value m

abbrev or_empty : Option Text → Text
or_empty none = []
or_empty (some v) = v

-- `get`, which `getProperty` calls: a missing key gives the empty text.
unfoldable pub get : Text → PropertyMap → Text
unfolding lookup
get key m = or_empty (lookup key m)

-- `put`, which `setProperty` calls: the new map, and the value that was there. Reading the old value
-- by `operator[]` makes an empty entry, which the assignment then fills.
unfoldable pub put : Text → Text → PropertyMap → PropertyMap × Text
unfolding assign lookup
put key value m =
    let touched : PropertyMap = elim (lookup key m) [ none ↦ assign key [] m | some v ↦ m ] in
    (assign key value touched, or_empty (lookup key touched))

pub lookup-assign :
    (j key value : Text) (m : PropertyMap)
    → lookup j (assign key value m) ≡ (if text_eq key j then some value else lookup j m)
unfolding lookup assign
lookup-assign j key value [] = refl
lookup-assign j key value ((k, v) ∷ m) =
    ground
      (arith, text_eq_iff k key, text_eq_iff key j, text_eq_iff k j, lookup-assign j key value m)

-- What `put` returns and what `get` then finds, under the key that was set and under every other.
pub get-put :
    (j key value : Text) (m : PropertyMap)
    → (get j (put key value m).0 ≡ (if text_eq key j then value else get j m))
      × ((put key value m).1 ≡ get key m)
unfolding get put
get-put j key value m = (
  ground (
    arith,
    lookup-assign j key value m,
    lookup-assign j key [] m,
    lookup-assign j key value (assign key [] m),
  ),
  ground (arith, lookup-assign key key [] m, text_eq_iff key key),
)
