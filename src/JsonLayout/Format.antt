-- ===== src/JsonLayout/Format.antt =====
-- src/main/cpp/jsonlayout.cpp, format: the tokens of its output are those of a JSON object.
use logging_log4cxx.Prelude.{
  ◌≡◌, refl, sym, ap, ◌∙◌, Bool, true, false, Option, none, some, List, [], ◌∷◌, ◌++◌, map,
  append-nil, if◌then◌else◌, Text, codes,
}
use logging_log4cxx.JsonLayout.{
  JsonLayout, Event, ◌then◌, line_end, indent1, indent2, append_member, mdc_loop,
  append_serialized_mdc, append_serialized_ndc, append_serialized_location_info, append_first,
  format,
}
use logging_log4cxx.JsonLayout.Lexer.{Token, mark, outside, tokens}
use logging_log4cxx.JsonLayout.Members.{
  object, array, separated, member_tokens, named_tokens, object_tokens, location_of, members_of,
}
use logging_log4cxx.JsonLayout.Writes.{
  Writes, ◌and◌, Writes-none, Writes-when, Writes-item, newline, comma, opening, closing, bracket,
  colon, colon_opening, colon_bracket, two-Reads, four-Reads, Writes-blank, Writes-end,
}

module _ (layout : JsonLayout) where
  end_of_line : Writes (line_end layout) []
  end_of_line = Writes-end layout.pretty_print

  space1 : Writes (indent1 layout) []
  space1 = Writes-blank layout.pretty_print (codes "  ") two-Reads

  space2 : Writes (indent2 layout) []
  space2 = Writes-blank layout.pretty_print (codes "    ") four-Reads

  Writes-member :
      (name value : Text) → Writes (append_member layout name value) (member_tokens (name, value))
  Writes-member name value = Writes-item name and colon and Writes-item value

  Writes-first :
      (name value : Text)
      → Writes (append_first layout name value) (member_tokens (name, value) ++ (mark b',' ∷ []))
  Writes-first name value = space1 and Writes-member name value and comma and end_of_line

  Writes-mdc_loop :
      (entry : Text × Text) (entries : List (Text × Text)) {g : Text → Text} {ts : List Token}
      → Writes g ts
      → Writes
          (mdc_loop layout (entry ∷ entries) then g)
          (separated (map member_tokens (entry ∷ entries)) ts)
  unfolding mdc_loop
  Writes-mdc_loop (key, value) [] w = space2 and Writes-member key value and end_of_line and w
  Writes-mdc_loop (key, value) (entry ∷ entries) w =
      space2
      and Writes-member key value
      and comma
      and end_of_line
      and Writes-mdc_loop entry entries w

  mdc_tokens : List (Text × Text) → List Token
  mdc_tokens [] = []
  mdc_tokens (entry ∷ entries) =
      mark b',' ∷ named_tokens (codes "context_map", object (entry ∷ entries))

  Writes-mdc :
      (entries : List (Text × Text))
      → Writes (append_serialized_mdc layout entries) (mdc_tokens entries)
  unfolding append_serialized_mdc mdc_tokens
  Writes-mdc [] = Writes-none
  Writes-mdc (entry ∷ entries) =
      comma
      and end_of_line
      and space1
      and Writes-item (codes "context_map")
      and colon_opening
      and end_of_line
      and Writes-mdc_loop entry entries (space1 and closing)

  ndc_tokens : Option Text → List Token
  ndc_tokens none = []
  ndc_tokens (some ndc) = mark b',' ∷ named_tokens (codes "context_stack", array (ndc ∷ []))

  Writes-ndc : (ndc : Option Text) → Writes (append_serialized_ndc layout ndc) (ndc_tokens ndc)
  unfolding append_serialized_ndc ndc_tokens
  Writes-ndc none = Writes-none
  Writes-ndc (some ndc) =
      comma
      and end_of_line
      and space1
      and Writes-item (codes "context_stack")
      and colon_bracket
      and end_of_line
      and space2
      and Writes-item ndc
      and end_of_line
      and space1
      and bracket

  Writes-location :
      (event : Event)
      → Writes
          (append_serialized_location_info layout event)
          (named_tokens (codes "location_info", location_of event))
  unfolding append_serialized_location_info
  Writes-location event =
      space1
      and Writes-item (codes "location_info")
      and colon_opening
      and end_of_line
      and space2
      and Writes-member (codes "file") event.file
      and comma
      and end_of_line
      and space2
      and Writes-member (codes "line") event.line
      and comma
      and end_of_line
      and space2
      and Writes-member (codes "class") event.class_name
      and comma
      and end_of_line
      and space2
      and Writes-member (codes "method") event.method_name
      and end_of_line
      and space1
      and closing

  -- The tokens in the order in which they are written.
  all_tokens : Event → List Token
  all_tokens event =
      mark b'{' ∷ (member_tokens (codes "timestamp", event.timestamp) ++ (mark b',' ∷ []))
      ++ ((if layout.thread_info
            then member_tokens (codes "thread", event.thread_name) ++ (mark b',' ∷ [])
            else [])
          ++ ((member_tokens (codes "level", event.level) ++ (mark b',' ∷ []))
              ++ ((member_tokens (codes "logger", event.logger_name) ++ (mark b',' ∷ []))
                  ++ (member_tokens (codes "message", event.message)
                      ++ (mdc_tokens event.mdc
                          ++ (ndc_tokens event.ndc
                              ++ ((if layout.location_info
                                    then mark b','
                                      ∷ named_tokens (codes "location_info", location_of event)
                                    else [])
                                  ++ (mark b'}' ∷ []))))))))

  Writes-format : (event : Event) → Writes (format layout event) (all_tokens event)
  unfolding format all_tokens
  Writes-format event =
      opening
      and end_of_line
      and Writes-first (codes "timestamp") event.timestamp
      and Writes-when layout.thread_info (Writes-first (codes "thread") event.thread_name)
      and Writes-first (codes "level") event.level
      and Writes-first (codes "logger") event.logger_name
      and space1
      and Writes-member (codes "message") event.message
      and Writes-mdc event.mdc
      and Writes-ndc event.ndc
      and Writes-when layout.location_info (comma and end_of_line and Writes-location event)
      and end_of_line
      and closing
      and newline

-- For every setting of the options, with and without contexts.
same_tokens :
    (thread location pretty : Bool) (mdc : List (Text × Text)) (ndc : Option Text) (event : Event)
    → all_tokens
        (record { location_info = location; pretty_print = pretty; thread_info = thread })
        (record event { mdc = mdc; ndc = ndc })
      ≡ object_tokens (
          members_of
            (record { location_info = location; pretty_print = pretty; thread_info = thread })
            (record event { mdc = mdc; ndc = ndc }))
unfolding all_tokens mdc_tokens ndc_tokens
same_tokens true true pretty [] none event = refl
same_tokens true true pretty [] (some ndc) event = refl
same_tokens true true pretty (e ∷ es) none event = refl
same_tokens true true pretty (e ∷ es) (some ndc) event = refl
same_tokens true false pretty [] none event = refl
same_tokens true false pretty [] (some ndc) event = refl
same_tokens true false pretty (e ∷ es) none event = refl
same_tokens true false pretty (e ∷ es) (some ndc) event = refl
same_tokens false true pretty [] none event = refl
same_tokens false true pretty [] (some ndc) event = refl
same_tokens false true pretty (e ∷ es) none event = refl
same_tokens false true pretty (e ∷ es) (some ndc) event = refl
same_tokens false false pretty [] none event = refl
same_tokens false false pretty [] (some ndc) event = refl
same_tokens false false pretty (e ∷ es) none event = refl
same_tokens false false pretty (e ∷ es) (some ndc) event = refl

-- Whatever the options, the event and the buffer, `format` leaves the buffer in front and appends one
-- JSON text, whose tokens are those of one object: its members are the timestamp, the thread where it
-- is asked for, the level, the logger and the message, then the mapped contexts as an object and the
-- nested context in an array where there are any, and the location where it is asked for. Every text
-- is read back as it was in the event, whatever characters it has. The reader does not refuse control
-- characters in a string.
pub format-tokens :
    (layout : JsonLayout) (event : Event) (buf : Text)
    → (output : Text) × (format layout event buf ≡ buf ++ output)
      × (tokens outside output ≡ some (object_tokens (members_of layout event)))
unfolding tokens
format-tokens layout event buf =
    let (output, e, r) = (Writes-format layout event).writes buf in
    (
      output,
      e,
      ap (tokens outside) (sym (append-nil output))
          ∙ r []
          ∙ ap (λ ts. some ts)
              (append-nil (all_tokens layout event)
                ∙ same_tokens layout.thread_info layout.location_info layout.pretty_print event.mdc
                    event.ndc event),
    )
