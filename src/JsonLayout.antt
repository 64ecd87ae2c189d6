-- ===== src/JsonLayout.antt =====
-- src/main/cpp/jsonlayout.cpp: an event as a JSON object on a buffer. The operations take the buffer last,
-- so that they stand in the order of the calls. The date format, the transcoder and the decimal
-- text of the line number are the event's fields; the end of a line is that of POSIX.
pub mod Lexer
pub mod Quoted
pub mod Members
pub mod Writes
pub mod Format
use logging_log4cxx.Prelude.{
  ℕ, Bool, true, false, ◌||◌, Option, none, some, List, [], ◌∷◌, ◌++◌, if◌then◌else◌, ◌==◌, Text,
  codes, is_empty,
}
use logging_log4cxx.StringHelper.{equals_ignore_case}
use logging_log4cxx.OptionConverter.{to_boolean}

pub record JsonLayout : Type 0 where
  pub location_info : Bool
  pub pretty_print : Bool
  pub thread_info : Bool

-- `setOption`
unfoldable pub set_option : Text → Text → JsonLayout → JsonLayout
set_option option value layout =
    if equals_ignore_case option (codes "LOCATIONINFO") (codes "locationinfo")
    then record layout { location_info = to_boolean value false }
    else if equals_ignore_case option (codes "THREADINFO") (codes "threadinfo")
    then record layout { thread_info = to_boolean value false }
    else if equals_ignore_case option (codes "PRETTYPRINT") (codes "prettyprint")
    then record layout { pretty_print = to_boolean value false }
    else layout

-- What the layout reads from the event: `mdc` has the keys of `getMDCKeySet` with their values.
pub record Event : Type 0 where
  pub timestamp : Text
  pub thread_name : Text
  pub level : Text
  pub logger_name : Text
  pub message : Text
  pub mdc : List (Text × Text)
  pub ndc : Option Text
  pub file : Text
  pub line : Text
  pub class_name : Text
  pub method_name : Text

-- `specialChars`
abbrev pub is_special : ℕ → Bool
is_special c = c == 8 || c == 9 || c == 10 || c == 12 || c == 13 || c == 0x22 || c == 0x5C

-- The `switch`.
abbrev pub escape : ℕ → Text
escape c =
    if c == 8
    then codes "\\b"
    else if c == 9
    then codes "\\t"
    else if c == 10
    then codes "\\n"
    else if c == 12
    then codes "\\f"
    else if c == 13
    then codes "\\r"
    else if c == 0x22
    then codes "\\\""
    else if c == 0x5C
    then codes "\\\\"
    else c ∷ []

abbrev pub append_segment : Text → Text → Text
append_segment segment buf = if is_empty segment then buf else buf ++ segment

-- The loop of `appendItem`; `segment` is the text from `start` to where `find_first_of` looks.
unfoldable pub item_loop : Text → Text → Text → Text
item_loop segment [] buf = append_segment segment buf
item_loop segment (c ∷ input) buf =
    item_loop (if is_special c then [] else segment ++ (c ∷ [])) input
      (if is_special c then append_segment segment buf ++ escape c else buf)

-- `appendItem` and `appendQuotedEscapedString`
unfoldable pub append_item : Text → Text → Text
append_item input buf = item_loop [] input (buf ++ (0x22 ∷ [])) ++ (0x22 ∷ [])

-- `f`, and then `g`.
infixr 4 ◌then◌
abbrev pub ◌then◌ : (Text → Text) → (Text → Text) → Text → Text
(f then g) buf = g (f buf)

abbrev pub put : Text → Text → Text
put s buf = buf ++ s

abbrev pub when : Bool → (Text → Text) → Text → Text
when b f buf = if b then f buf else buf

module _ (layout : JsonLayout) where
  abbrev pub line_end : Text → Text
  line_end = put (if layout.pretty_print then codes "\n" else codes " ")

  -- `ppIndentL1` and `ppIndentL2`
  abbrev pub indent1 : Text → Text
  indent1 = when layout.pretty_print (put (codes "  "))

  abbrev pub indent2 : Text → Text
  indent2 = when layout.pretty_print (put (codes "    "))

  -- A name with its text.
  abbrev pub append_member : Text → Text → Text → Text
  append_member name value = append_item name then put (codes ": ") then append_item value

  -- The loop of `appendSerializedMDC`.
  unfoldable pub mdc_loop : List (Text × Text) → Text → Text
  mdc_loop [] buf = buf
  mdc_loop ((key, value) ∷ []) buf = (indent2 then append_member key value then line_end) buf
  mdc_loop ((key, value) ∷ next ∷ keys) buf =
      mdc_loop (next ∷ keys)
        ((indent2 then append_member key value then put (codes ",") then line_end) buf)

  unfoldable pub append_serialized_mdc : List (Text × Text) → Text → Text
  append_serialized_mdc [] = λ buf. buf
  append_serialized_mdc (entry ∷ entries) =
      put (codes ",")
      then line_end
      then indent1
      then append_item (codes "context_map")
      then put (codes ": {")
      then line_end
      then mdc_loop (entry ∷ entries)
      then indent1
      then put (codes "}")

  unfoldable pub append_serialized_ndc : Option Text → Text → Text
  append_serialized_ndc none = λ buf. buf
  append_serialized_ndc (some ndc) =
      put (codes ",")
      then line_end
      then indent1
      then append_item (codes "context_stack")
      then put (codes ": [")
      then line_end
      then indent2
      then append_item ndc
      then line_end
      then indent1
      then put (codes "]")

  unfoldable pub append_serialized_location_info : Event → Text → Text
  append_serialized_location_info event =
      indent1
      then append_item (codes "location_info")
      then put (codes ": {")
      then line_end
      then indent2
      then append_member (codes "file") event.file
      then put (codes ",")
      then line_end
      then indent2
      then append_member (codes "line") event.line
      then put (codes ",")
      then line_end
      then indent2
      then append_member (codes "class") event.class_name
      then put (codes ",")
      then line_end
      then indent2
      then append_member (codes "method") event.method_name
      then line_end
      then indent1
      then put (codes "}")

  -- A member of the event's own, up to the comma and the end of the line.
  abbrev pub append_first : Text → Text → Text → Text
  append_first name value = indent1 then append_member name value then put (codes ",") then line_end

  unfoldable pub format : Event → Text → Text
  format event =
      put (codes "{")
      then line_end
      then append_first (codes "timestamp") event.timestamp
      then when layout.thread_info (append_first (codes "thread") event.thread_name)
      then append_first (codes "level") event.level
      then append_first (codes "logger") event.logger_name
      then indent1
      then append_member (codes "message") event.message
      then append_serialized_mdc event.mdc
      then append_serialized_ndc event.ndc
      then when layout.location_info
          (put (codes ",") then line_end then append_serialized_location_info event)
      then line_end
      then put (codes "}")
      then put (codes "\n")
