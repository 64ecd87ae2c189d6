-- ===== src/Tests/Hierarchies.antt =====
-- Tests of Hierarchy.
use logging_log4cxx.Prelude.{ℕ, ◌≡◌, ◌↔◌, refl, some, List, [], ◌∷◌, returned, Text, codes, text_eq}
use logging_log4cxx.Prelude.Maps.{find}
use logging_log4cxx.StringHelper.{starts_with}
use logging_log4cxx.Hierarchy.{Hierarchy, new, ancestors, get_logger}
use logging_log4cxx.Hierarchy.Names.{In}
use logging_log4cxx.Hierarchy.Nearest.{nearest}
use logging_log4cxx.Hierarchy.Requests.{get_loggers, get_loggers-parents, get_logger-root_prefix}

abbrev three_names : List Text
three_names = codes "a.b.c" ∷ codes "a" ∷ codes "a.b" ∷ []

get_loggers-parents_example :
    (h : Hierarchy) × (get_loggers three_names new ≡ returned h)
    × ((name : Text) → ((l : ℕ) × (find name h.loggers ≡ some l)) ↔ In name three_names)
    × ((name : Text) (l : ℕ)
        → find name h.loggers ≡ some l
        → (h.name_of l ≡ name) × (h.parent_of l ≡ some (nearest h.root h.loggers (ancestors name))))
unfolding starts_with text_eq
get_loggers-parents_example = get_loggers-parents three_names (refl, (refl, (refl, tt)))

-- The state after the request for "r.x", which the requests compute.
abbrev requested : Hierarchy
unfolding get_loggers
requested = elim (get_loggers (codes "r.x" ∷ []) new) [ returned h ↦ h | _ ↦ new ]

get_logger-root_prefix_example :
    (h : Hierarchy) × (get_logger (codes "r") requested ≡ returned (requested.fresh, h))
    × (h.parent_of 1 ≡ some requested.root)
unfolding requested get_loggers find text_eq new
get_logger-root_prefix_example =
    get_logger-root_prefix (codes "r.x" ∷ []) (codes "r") requested (codes "r.x") 1 (refl, tt) refl
      refl refl refl refl
