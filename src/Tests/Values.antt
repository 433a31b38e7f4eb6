-- ===== src/Tests/Values.antt =====
-- Values, their texts and the names, at concrete inputs.
use esconf.Prelude.{Text, bytes, All, pos, negsuc, ◌≡◌, ◌↔◌, refl, true, some, List, ◌∷◌, arith}
use esconf.Value.{
  GType, GValue, int, int16, uchar, boolean, gvalue_is_equal, g_value_type, gtype_from_string,
  string_from_gtype,
}
use esconf.Value.Laws.{gvalue_is_equal_iff}
use esconf.Value.Parse.{Parsed, parsed, rejected, fault, gvalue_from_string}
use esconf.Value.Parse.Print.{string_from_gvalue}
use esconf.Value.Parse.RoundTrip.{gvalue_from_string-string_from_gvalue}
use esconf.Value.Parse.Ranges.{InRange, gvalue_from_string-InRange}
use esconf.Names.{valid, property_is_valid}
use esconf.Names.Paths.{path}
use esconf.Names.Laws.{IsName, property_is_valid_iff}
use esconf.Tests.Platforms.{test_platform, test_platform-IsAscii}

gvalue_from_string-string_from_gvalue_example :
    gvalue_from_string test_platform
      (g_value_type (int (negsuc 41)))
      (string_from_gvalue test_platform (int (negsuc 41)))
    ≡ parsed (int (negsuc 41))
gvalue_from_string-string_from_gvalue_example =
    gvalue_from_string-string_from_gvalue test_platform (int (negsuc 41)) test_platform-IsAscii
      (ground arith)

gvalue_from_string-InRange_example : (g_value_type (uchar 200) ≡ GType.uchar) × InRange (uchar 200)
unfolding gvalue_from_string esconf.Value.Parse.parse_text esconf.Value.Parse.handle_strtoul
    esconf.Value.Parse.handle_int esconf.Value.Parse.signed_conversion esconf.Value.Parse.to_int64
    esconf.Value.Parse.strtoul esconf.Value.Parse.scan_signed esconf.Value.Parse.skip_space
    esconf.Value.Parse.scan_number esconf.Value.Parse.clamp_ulong
gvalue_from_string-InRange_example =
    gvalue_from_string-InRange test_platform GType.uchar (some (bytes "200")) (uchar 200) refl

gvalue_is_equal_iff_example :
    (gvalue_is_equal test_platform (int (pos 3)) (int (pos 4)) ≡ true)
    ↔ (Path GValue (int (pos 3)) (int (pos 4)))
gvalue_is_equal_iff_example = gvalue_is_equal_iff test_platform (int (pos 3)) (int (pos 4)) tt

property_is_valid_iff_example :
    (property_is_valid (bytes "/a//b") ≡ valid)
    ↔ ((p : Text) × (ps : List Text) × All IsName (p ∷ ps) × (bytes "/a//b" ≡ path (p ∷ ps)))
property_is_valid_iff_example = property_is_valid_iff (bytes "/a//b")
