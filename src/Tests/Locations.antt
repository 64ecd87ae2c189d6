-- ===== src/Tests/Locations.antt =====
-- The names of signatures.
use logging_log4cxx.Prelude.{◌≡◌, refl, pos, codes, arith}
use logging_log4cxx.LocationInfo.{LocationInfo, get_method_name, get_class_name}
use logging_log4cxx.LocationInfo.Signatures.{get_names-signature}

abbrev place : LocationInfo
place = record {
  line_number = pos 7;
  file_name = codes "f.cpp";
  short_file_name = codes "f.cpp";
  method_name = codes "void a::B::f(int)";
}

get_names-signature_example :
    (get_method_name place ≡ codes "f") × (get_class_name place ≡ codes "a::B")
get_names-signature_example =
    get_names-signature (codes "void") (codes "a::B") (codes "f")
      (
        (omega arith, (omega arith, (omega arith, (omega arith, tt)))),
        (omega arith, (omega arith, (omega arith, (omega arith, tt)))),
        (omega arith, tt),
      )
      (omega arith, (omega arith, (omega arith, (omega arith, tt)))) (omega arith, tt) place
      (codes "int)") refl
