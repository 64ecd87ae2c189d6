-- ===== src/LocationInfo.antt =====
-- src/main/cpp/locationinfo.cpp: where an event was logged, with the names that are cut out of the
-- signature of a function. A null pointer is `none`.
pub mod Signatures
use logging_log4cxx.Prelude.{
  ℕ, Bool, ◌&&◌, Option, none, some, List, [], ◌∷◌, ◌++◌, if◌then◌else◌, ◌==◌, Text, codes,
  split_at, take, drop, text_eq, ℤ, negsuc,
}

pub record LocationInfo : Type 0 where
  pub line_number : ℤ
  pub file_name : Text
  pub short_file_name : Text
  pub method_name : Text

abbrev pub or_na : Option Text → Text → Text
or_na none na = na
or_na (some s) na = s

-- The constructor with arguments.
unfoldable pub new : Option Text → Option Text → Option Text → ℤ → LocationInfo
new file short method line = record {
  line_number = line;
  file_name = or_na file (codes "?");
  short_file_name = or_na short (codes "?");
  method_name = or_na method (codes "?::?");
}

-- `clear`, and the default constructor.
unfoldable pub unavailable : LocationInfo
unavailable = record {
  line_number = negsuc 0;
  file_name = codes "?";
  short_file_name = codes "?";
  method_name = codes "?::?";
}

-- `find('(')` and `erase`.
unfoldable pub before_paren : Text → Text
before_paren s = elim (split_at b'(' s) [ none ↦ s | some (before, after) ↦ before ]

-- `rfind("::")`: the text before the last one, and the text behind it.
unfoldable pub last_colons : Text → Option (Text × Text)
last_colons [] = none
last_colons (c ∷ s) = elim (last_colons s) [
  | some (before, after) ↦ some (c ∷ before, after)
  | none ↦ if text_eq (take 2 (c ∷ s)) (codes "::") then some ([], drop 1 s) else none
]

-- `find_last_of(' ')`: the text behind the last one.
unfoldable pub behind_last_space : Text → Option Text
behind_last_space [] = none
behind_last_space (c ∷ s) = elim (behind_last_space s) [
  | some after ↦ some after
  | none ↦ if c == b' ' then some s else none
]

unfoldable pub get_method_name : LocationInfo → Text
get_method_name info =
    let tmp = before_paren info.method_name in
    elim (last_colons tmp) [
      | some (before, after) ↦ after
      | none ↦ elim (split_at b' ' tmp) [ none ↦ tmp | some (before, after) ↦ after ]
    ]

unfoldable pub get_class_name : LocationInfo → Text
get_class_name info = elim (last_colons (before_paren info.method_name)) [
  | none ↦ []
  | some (before, after) ↦ elim (behind_last_space before) [ none ↦ before | some name ↦ name ]
]
