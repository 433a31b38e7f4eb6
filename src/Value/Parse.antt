-- ===== src/Value/Parse.antt =====
-- `esconf_gvalue_from_string` of common/esconf-gvaluefuncs.c, with the C library's `strtol` and
-- `strtoul` at base 0.
mod Numbers
pub mod Print
pub mod RoundTrip
pub mod Ranges
unfoldable pub use Numbers.*
use esconf.Prelude.{
  Text, bytes, streq, ℕ, ℤ, pos, negsuc, pos_part, in_range, zero, suc, ◌+◌, ◌-◌, ◌*◌, ◌^◌, ◌≤◌,
  ◌==◌, ltb, leb, Bool, true, false, not, ◌&&◌, ◌||◌, Option, none, some, List, [], ◌∷◌, eq_ℤ,
  if◌then◌else◌,
}
use esconf.Platform.{Platform, Conversion}
use esconf.Value.{
  GType, GValue, unset, string, uchar, uint, uint64, uint16, char, int, int64, int16, float, double,
  boolean, ptr_array, nil, strv,
}

-- What the conversion does: it stores a value, refuses the text, or reads through a NULL pointer.
pub data Parsed : Type 0 where
  parsed : GValue → Parsed
  rejected fault : Parsed

-- `CHECK_CONVERT_STATUS`: an empty text, or bytes that are left over
abbrev pub bad_status : Text → Text → Bool
bad_status [] rest = true
bad_status (c ∷ str) [] = false
bad_status (c ∷ str) (d ∷ rest) = true

-- `REAL_HANDLE_INT`, after the conversion
unfoldable pub handle_int : Text → Conversion ℤ → ℤ → ℤ → (ℤ → GValue) → Parsed
handle_int str conv minval maxval set =
    if eq_ℤ conv.value (pos 0) && conv.erange
    then rejected
    else if bad_status str conv.rest
    then rejected
    else if in_range minval maxval conv.value
    then parsed (set conv.value)
    else rejected

-- `intval`, a `gint64`, takes the result of `strtoul`.
unfoldable pub signed_conversion : Conversion ℕ → Conversion ℤ
signed_conversion conv = record {
  value = to_int64 conv.value;
  rest = conv.rest;
  erange = conv.erange;
}

-- `ESCONF_MAXUCHAR`, `G_MAXUINT`, `G_MAXINT` and the like
abbrev pub max_bits : ℕ → ℤ
max_bits w = pos (2 ^ w - 1)

abbrev pub min_bits : ℕ → ℤ
min_bits w = negsuc (2 ^ w - 1)

unfoldable pub handle_uint64 : Text → Conversion ℕ → Parsed
handle_uint64 str conv =
    if conv.value == 0 && conv.erange
    then rejected
    else if bad_status str conv.rest
    then rejected
    else parsed (uint64 conv.value)

unfoldable pub handle_int64 : Text → Conversion ℤ → Parsed
handle_int64 str conv =
    if eq_ℤ conv.value (pos 0) && conv.erange
    then rejected
    else if bad_status str conv.rest
    then rejected
    else parsed (int64 conv.value)

-- G_MINFLOAT is the smallest positive normal float, G_MAXFLOAT the largest one, as doubles.
abbrev pub min_float : ℕ
min_float = 0x3810000000000000

abbrev pub max_float : ℕ
max_float = 0x47efffffe0000000

unfoldable pub handle_float : Platform → Text → Conversion ℕ → Parsed
handle_float p str conv =
    if p.double_eq 0 conv.value && conv.erange
    then rejected
    else if bad_status str conv.rest
    then rejected
    else if p.double_lt conv.value min_float || p.double_lt max_float conv.value
    then rejected
    else parsed (float (p.to_float conv.value))

unfoldable pub handle_double : Platform → Text → Conversion ℕ → Parsed
handle_double p str conv =
    if p.double_eq 0 conv.value && conv.erange
    then rejected
    else if bad_status str conv.rest
    then rejected
    else parsed (double conv.value)

unfoldable pub handle_boolean : Text → Parsed
handle_boolean str =
    if streq str (bytes "true")
    then parsed (boolean true)
    else if streq str (bytes "false")
    then parsed (boolean false)
    else rejected

-- `HANDLE_UINT(0, maxval, set)` and `HANDLE_INT(minval, maxval, set)`
unfoldable pub handle_strtoul : Text → ℤ → (ℤ → GValue) → Parsed
handle_strtoul str maxval set = handle_int str (signed_conversion (strtoul str)) (pos 0) maxval set

unfoldable pub handle_strtol : Text → ℤ → ℤ → (ℤ → GValue) → Parsed
handle_strtol str minval maxval set = handle_int str (strtol str) minval maxval set

-- The switch over the type of `value`, for a text that is not NULL. The setters of the unsigned
-- types take an integer that the range check has found not to be negative.
unfoldable pub parse_text : Platform → GType → Text → Parsed
parse_text p GType.string str = parsed (string (some str))
parse_text p GType.uchar str = handle_strtoul str (max_bits 8) (λ z. uchar (pos_part z))
parse_text p GType.char str = handle_strtol str (min_bits 7) (max_bits 7) char
parse_text p GType.uint str = handle_strtoul str (max_bits 32) (λ z. uint (pos_part z))
parse_text p GType.int str = handle_strtol str (min_bits 31) (max_bits 31) int
parse_text p GType.uint64 str = handle_uint64 str (p.ascii_strtoull str)
parse_text p GType.int64 str = handle_int64 str (p.ascii_strtoll str)
parse_text p GType.float str = handle_float p str (p.ascii_strtod str)
parse_text p GType.double str = handle_double p str (p.ascii_strtod str)
parse_text p GType.boolean str = handle_boolean str
parse_text p GType.uint16 str = handle_strtol str (pos 0) (max_bits 16) (λ z. uint16 (pos_part z))
parse_text p GType.int16 str = handle_strtol str (min_bits 15) (max_bits 15) int16
parse_text p GType.ptr_array str = parsed (ptr_array nil)
parse_text p GType.strv str = rejected
parse_text p GType.invalid str = rejected
parse_text p GType.void str = rejected

-- `esconf_gvalue_from_string(value, str)` for a value that was initialised to a type. A NULL text
-- is a string's or an array's business only: the other types read through it.
unfoldable pub gvalue_from_string : Platform → GType → Option Text → Parsed
gvalue_from_string p t (some str) = parse_text p t str
gvalue_from_string p GType.string none = parsed (string none)
gvalue_from_string p GType.ptr_array none = parsed (ptr_array nil)
gvalue_from_string p GType.strv none = rejected
gvalue_from_string p GType.invalid none = rejected
gvalue_from_string p GType.void none = rejected
gvalue_from_string p _ none = fault

-- `g_value_init(value, type)`: the value 0 of the type
unfoldable pub initial_value : GType → GValue
initial_value GType.invalid = unset
initial_value GType.void = unset
initial_value GType.string = string none
initial_value GType.uchar = uchar 0
initial_value GType.char = char (pos 0)
initial_value GType.uint = uint 0
initial_value GType.int = int (pos 0)
initial_value GType.uint64 = uint64 0
initial_value GType.int64 = int64 (pos 0)
initial_value GType.float = float 0
initial_value GType.double = double 0
initial_value GType.boolean = boolean false
initial_value GType.uint16 = uint16 0
initial_value GType.int16 = int16 (pos 0)
initial_value GType.ptr_array = ptr_array nil
initial_value GType.strv = strv []
