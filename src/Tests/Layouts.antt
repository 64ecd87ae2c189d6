-- ===== src/Tests/Layouts.antt =====
-- Events written by the JSON layout, and packets of the syslog appender.
use logging_log4cxx.Prelude.{
  ℕ, ◌≡◌, refl, true, false, none, some, List, [], ◌∷◌, ◌++◌, ◌-◌, returned, pos, Text, codes,
  length, arith, ◌+◌, ◌%◌,
}
use logging_log4cxx.JsonLayout.{JsonLayout, Event, format}
use logging_log4cxx.JsonLayout.Lexer.{tokens, outside}
use logging_log4cxx.JsonLayout.Members.{object_tokens, members_of}
use logging_log4cxx.JsonLayout.Format.{format-tokens}
use logging_log4cxx.SyslogAppender.{packets, numbered, suffix, cut}
use logging_log4cxx.SyslogAppender.Packets.{
  concatenated, AreCut, AreShorter, packets-AreShorter, packets-stay,
}

abbrev plain : JsonLayout
plain = record { location_info = true; pretty_print = false; thread_info = false }

abbrev event : Event
event = record {
  timestamp = codes "2024";
  thread_name = codes "main";
  level = codes "INFO";
  logger_name = codes "a.b";
  message = codes "say \"hi\"\n";
  mdc = (codes "user", codes "u\\1") ∷ (codes "host", codes "h") ∷ [];
  ndc = some (codes "x y");
  file = codes "f.cpp";
  line = codes "7";
  class_name = codes "C";
  method_name = codes "m";
}

format-tokens_example :
    (output : Text) × (format plain event (codes "> ") ≡ codes "> " ++ output)
    × (tokens outside output ≡ some (object_tokens (members_of plain event)))
format-tokens_example = format-tokens plain event (codes "> ")

abbrev decimal : ℕ → Text
decimal n = (48 + n % 10) ∷ []

abbrev message : Text
message = codes "abcdefghijklmno"

packets-AreShorter_example :
    (pieces : List Text) × (packets decimal 15 (pos 14) message
      ≡ some (returned (numbered decimal 1 (length pieces) pieces)))
    × (concatenated pieces ≡ message)
    × AreCut (14 - 12) pieces
    × AreShorter 14 (numbered decimal 1 (length pieces) pieces)
packets-AreShorter_example =
    packets-AreShorter decimal 15 14 message (omega arith) (omega arith) (omega arith)

first_packet :
    packets decimal 16 (pos 14) (codes "abcdefghijklmnop")
    ≡ some (
        returned (
          codes "ab(1/8)"
          ∷ codes "cd(2/8)"
          ∷ codes "ef(3/8)"
          ∷ codes "gh(4/8)"
          ∷ codes "ij(5/8)"
          ∷ codes "kl(6/8)"
          ∷ codes "mn(7/8)"
          ∷ codes "op(8/8)"
          ∷ []))
unfolding packets numbered suffix cut
first_packet = refl

packets-stay_example : packets decimal 1000 (pos 12) message ≡ none
packets-stay_example = packets-stay decimal 1000 message (omega arith)
