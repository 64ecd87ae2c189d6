-- ===== src/JsonLayout/Members.antt =====
-- src/main/cpp/jsonlayout.cpp, format: the object that stands for an event.
use logging_log4cxx.Prelude.{
  Option, none, some, List, [], ◌∷◌, ◌++◌, map, if◌then◌else◌, Text, codes,
}
use logging_log4cxx.JsonLayout.{JsonLayout, Event, ◌then◌}
use logging_log4cxx.JsonLayout.Lexer.{Token, string, mark}

-- The values of the members: a text, an object of texts, or an array of texts.
pub data Json : Type 0 where
  text : Text → Json
  object : List (Text × Text) → Json
  array : List Text → Json

-- With commas between them, and the end behind them.
abbrev pub separated : List (List Token) → List Token → List Token
separated [] end = end
separated (ts ∷ []) end = ts ++ end
separated (ts ∷ us ∷ more) end = ts ++ (mark b',' ∷ separated (us ∷ more) end)

abbrev pub member_tokens : Text × Text → List Token
member_tokens (name, value) = string name ∷ mark b':' ∷ string value ∷ []

abbrev pub json_tokens : Json → List Token
json_tokens (text s) = string s ∷ []
json_tokens (object members) = mark b'{' ∷ separated (map member_tokens members) (mark b'}' ∷ [])
json_tokens (array values) =
    mark b'[' ∷ separated (map (λ s. string s ∷ []) values) (mark b']' ∷ [])

abbrev pub named_tokens : Text × Json → List Token
named_tokens (name, value) = string name ∷ mark b':' ∷ json_tokens value

-- The tokens of an object.
abbrev pub object_tokens : List (Text × Json) → List Token
object_tokens members = mark b'{' ∷ separated (map named_tokens members) (mark b'}' ∷ [])

abbrev pub context_map : List (Text × Text) → List (Text × Json)
context_map [] = []
context_map (entry ∷ entries) = (codes "context_map", object (entry ∷ entries)) ∷ []

abbrev pub context_stack : Option Text → List (Text × Json)
context_stack none = []
context_stack (some ndc) = (codes "context_stack", array (ndc ∷ [])) ∷ []

abbrev pub location_of : Event → Json
location_of event = object (
    (codes "file", event.file)
    ∷ (codes "line", event.line)
    ∷ (codes "class", event.class_name)
    ∷ (codes "method", event.method_name)
    ∷ [])

-- The object that stands for the event.
abbrev pub members_of : JsonLayout → Event → List (Text × Json)
members_of layout event =
    (codes "timestamp", text event.timestamp)
    ∷ ((if layout.thread_info then (codes "thread", text event.thread_name) ∷ [] else [])
        ++ ((codes "level", text event.level)
            ∷ (codes "logger", text event.logger_name)
            ∷ (codes "message", text event.message)
            ∷ (context_map event.mdc
                ++ (context_stack event.ndc
                    ++ (if layout.location_info
                        then (codes "location_info", location_of event) ∷ []
                        else [])))))
