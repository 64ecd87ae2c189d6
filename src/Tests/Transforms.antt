-- ===== src/Tests/Transforms.antt =====
-- Tests of Transform.
use logging_log4cxx.Prelude.{◌≡◌, refl, false, text_eq, some, [], ◌++◌, Text, codes}
use logging_log4cxx.Transform.{append_escaping_tags, append_escaping_cdata}
use logging_log4cxx.Transform.Cdata.{Reads, append_escaping_cdata-Reads}
use logging_log4cxx.Transform.Entities.{Denotes, append_escaping_tags-Denotes}

append_escaping_tags-Denotes_example :
    (output : Text) × (append_escaping_tags (codes "x") (codes "a<b & \"c\"")
      ≡ some (codes "x" ++ output))
    × Denotes output (codes "a<b & \"c\"")
append_escaping_tags-Denotes_example =
    append_escaping_tags-Denotes (codes "x") (codes "a<b & \"c\"")

escaped_tag : append_escaping_tags [] (codes "<a&b>") ≡ some (codes "&lt;a&amp;b&gt;")
unfolding append_escaping_tags
escaped_tag = refl

append_escaping_cdata-Reads_example :
    (output : Text) × (append_escaping_cdata (codes "x") (codes "a]]]>b")
      ≡ some (codes "x" ++ output))
    × Reads false (codes "<![CDATA[" ++ (output ++ codes "]]>")) (codes "a]]]>b")
append_escaping_cdata-Reads_example = append_escaping_cdata-Reads (codes "x") (codes "a]]]>b")

escaped_end : append_escaping_cdata [] (codes "a]]>") ≡ some (codes "a]]>]]&gt;<![CDATA[")
unfolding append_escaping_cdata text_eq
escaped_end = refl
