-- ===== src/Value/Parse/Print.antt =====
-- `esconf_string_from_gvalue` of common/esconf-gvaluefuncs.c.
use esconf.Prelude.{
  Text, bytes, ℕ, ℤ, pos, negsuc, zero, suc, ◌+◌, ◌/◌, ◌%◌, ltb, true, false, Option, none, some,
  [], ◌∷◌, if◌then◌else◌,
}
use esconf.Platform.{Platform}
use esconf.Value.{
  GValue, unset, string, uchar, uint, uint64, uint16, char, int, int64, int16, float, double,
  boolean, ptr_array, strv,
}

-- The decimal digits of `n` in front of `rest`; a number is more than its number of digits.
unfoldable pub digits_onto : ℕ → ℕ → Text → Text
digits_onto zero n rest = rest
digits_onto (suc fuel) n rest =
    let more = digits_onto fuel (n / 10) ((n % 10 + b'0') ∷ rest) in
    if ltb n 10 then (n + b'0') ∷ rest else more

-- `printf` of an unsigned number by `%u`, of a signed one by `%d`
unfoldable pub printf_u : ℕ → Text
unfolding digits_onto
printf_u n = digits_onto (suc n) n []

unfoldable pub printf_d : ℤ → Text
unfolding printf_u
printf_d (pos n) = printf_u n
printf_d (negsuc n) = b'-' ∷ printf_u (suc n)

-- `none` is the NULL that comes with a warning.
unfoldable pub string_from_gvalue : Platform → GValue → Option Text
unfolding printf_d
string_from_gvalue p unset = none
string_from_gvalue p (string s) = s
string_from_gvalue p (uchar n) = some (printf_u n)
string_from_gvalue p (char z) = some (printf_d z)
string_from_gvalue p (uint n) = some (printf_u n)
string_from_gvalue p (int z) = some (printf_d z)
string_from_gvalue p (uint64 n) = some (printf_u n)
string_from_gvalue p (int64 z) = some (printf_d z)
string_from_gvalue p (float x) = some (p.printf_f (p.to_double x))
string_from_gvalue p (double x) = some (p.printf_f x)
string_from_gvalue p (boolean true) = some (bytes "true")
string_from_gvalue p (boolean false) = some (bytes "false")
string_from_gvalue p (uint16 n) = some (printf_u n)
string_from_gvalue p (int16 z) = some (printf_d z)
string_from_gvalue p (ptr_array vs) = none
string_from_gvalue p (strv ss) = none
