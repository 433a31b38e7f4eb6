-- ===== src/Value/Parse/Ranges.antt =====
-- The types and the ranges of what `esconf_gvalue_from_string` stores.
use esconf.Prelude.{
  ℕ, ℤ, pos, negsuc, pos_part, in_range, Text, ◌≤◌, ◌^◌, ◌-◌, ◌≡◌, true, Option, some, arith, sym,
}
use mathlib.Core.Path.{subst}
use esconf.Platform.{Platform, Conversion}
use esconf.Value.{GType, GValue, uchar, uint, uint16, char, int, int16, g_value_type}
use esconf.Value.Parse.{
  parsed, handle_int, parse_text, gvalue_from_string, handle_strtoul, handle_strtol, handle_uint64,
  handle_int64, handle_float, handle_double, handle_boolean, strtol, signed_conversion, strtoul,
  max_bits, min_bits,
}

-- `z` fits a signed type of `w + 1` bits.
abbrev pub FitsSigned : ℕ → ℤ → Type 0
FitsSigned w z = in_range (negsuc (2 ^ w - 1)) (pos (2 ^ w - 1)) z ≡ true

-- The integer types of at most 32 bits hold what they can hold.
abbrev pub InRange : GValue → Type 0
InRange (uchar n) = n ≤ 255
InRange (uint16 n) = n ≤ 65535
InRange (uint n) = n ≤ 4294967295
InRange (char z) = FitsSigned 7 z
InRange (int16 z) = FitsSigned 15 z
InRange (int z) = FitsSigned 31 z
InRange _ = Unit

-- An accepted integer is in the range that was asked for, and is what is stored.
handle_int-eq_parsed :
    (str : Text) (conv : Conversion ℤ) (lo hi : ℤ) (set : ℤ → GValue) {v : GValue}
    → handle_int str conv lo hi set ≡ parsed v
    → (in_range lo hi conv.value ≡ true) × (v ≡ set conv.value)
unfolding handle_int
handle_int-eq_parsed str conv lo hi set h = ground arith

abbrev HasType : GType → GValue → Type 0
HasType t v = (g_value_type v ≡ t) × InRange v

handle_int-HasType :
    (t : GType) (str : Text) (conv : Conversion ℤ) (lo hi : ℤ) (set : ℤ → GValue) {v : GValue}
    → handle_int str conv lo hi set ≡ parsed v
    → ((z : ℤ) → in_range lo hi z ≡ true → HasType t (set z))
    → HasType t v
handle_int-HasType t str conv lo hi set h keep =
    let (r, e) = handle_int-eq_parsed str conv lo hi set h in
    subst (HasType t) (sym e) (keep conv.value r)

-- What the conversion stores in a value of a type has that type, and an integer of at most 32
-- bits is in its type's range.
pub gvalue_from_string-InRange :
    (p : Platform) (t : GType) (s : Option Text) (v : GValue)
    → gvalue_from_string p t s ≡ parsed v
    → (g_value_type v ≡ t) × InRange v
unfolding gvalue_from_string parse_text handle_strtol handle_strtoul handle_uint64 handle_int64
    handle_float handle_double handle_boolean g_value_type
gvalue_from_string-InRange p GType.uchar (some s) v h =
    handle_int-HasType GType.uchar s (signed_conversion (strtoul s)) (pos 0) (max_bits 8)
      (λ z. uchar (pos_part z)) h (λ z r. ground arith)
gvalue_from_string-InRange p GType.char (some s) v h =
    handle_int-HasType GType.char s (strtol s) (min_bits 7) (max_bits 7) char h
      (λ z r. ground arith)
gvalue_from_string-InRange p GType.uint (some s) v h =
    handle_int-HasType GType.uint s (signed_conversion (strtoul s)) (pos 0) (max_bits 32)
      (λ z. uint (pos_part z)) h (λ z r. ground arith)
gvalue_from_string-InRange p GType.int (some s) v h =
    handle_int-HasType GType.int s (strtol s) (min_bits 31) (max_bits 31) int h
      (λ z r. ground arith)
gvalue_from_string-InRange p GType.uint16 (some s) v h =
    handle_int-HasType GType.uint16 s (strtol s) (pos 0) (max_bits 16) (λ z. uint16 (pos_part z)) h
      (λ z r. ground arith)
gvalue_from_string-InRange p GType.int16 (some s) v h =
    handle_int-HasType GType.int16 s (strtol s) (min_bits 15) (max_bits 15) int16 h
      (λ z r. ground arith)
gvalue_from_string-InRange p GType.boolean (some s) v h = ground arith
gvalue_from_string-InRange p _ s v h = ground arith
