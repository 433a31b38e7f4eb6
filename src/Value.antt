-- ===== src/Value.antt =====
-- common/esconf-gvaluefuncs.c: values, their types, and their comparison.
pub mod Parse
pub mod Laws
pub mod Variant
use esconf.Prelude.{
  Text, bytes, streq, ℕ, ℤ, eq_ℤ, pos, negsuc, ◌==◌, Bool, true, false, Option, none, some, List,
  if◌then◌else◌,
}
use esconf.Platform.{Platform}

-- The `GType` tags that the source names. `void` is G_TYPE_NONE.
pub data GType : Type 0 where
  invalid void string uchar char uint int uint64 int64 float double boolean : GType
  uint16 int16 ptr_array strv : GType

-- A `GValue`. `unset` is a zeroed one, whose G_VALUE_TYPE is 0; a string may be NULL.
mutual
  pub data GValue : Type 0 where
    unset : GValue
    string : Option Text → GValue
    uchar uint uint64 uint16 : ℕ → GValue
    char int int64 int16 : ℤ → GValue
    float double : ℕ → GValue
    boolean : Bool → GValue
    ptr_array : GValues → GValue
    strv : List Text → GValue

  pub data GValues : Type 0 where
    nil : GValues
    cons : GValue → GValues → GValues

-- `G_VALUE_TYPE(v)`
unfoldable pub g_value_type : GValue → GType
g_value_type unset = GType.invalid
g_value_type (string s) = GType.string
g_value_type (uchar n) = GType.uchar
g_value_type (uint n) = GType.uint
g_value_type (uint64 n) = GType.uint64
g_value_type (uint16 n) = GType.uint16
g_value_type (char z) = GType.char
g_value_type (int z) = GType.int
g_value_type (int64 z) = GType.int64
g_value_type (int16 z) = GType.int16
g_value_type (float x) = GType.float
g_value_type (double x) = GType.double
g_value_type (boolean b) = GType.boolean
g_value_type (ptr_array vs) = GType.ptr_array
g_value_type (strv ss) = GType.strv

-- `G_VALUE_TYPE(v) != 0`
abbrev pub is_set : GValue → Bool
is_set unset = false
is_set _ = true

-- `g_strcmp0(s, t) == 0`
unfoldable pub strcmp0 : Option Text → Option Text → Bool
strcmp0 none none = true
strcmp0 none (some t) = false
strcmp0 (some s) none = false
strcmp0 (some s) (some t) = streq s t

-- The getters answer 0 for a value of another type.
unfoldable pub get_int16 : GValue → ℤ
get_int16 (int16 z) = z
get_int16 _ = pos 0

-- `esconf_g_value_get_uint16`, promoted to an int
unfoldable pub get_uint16 : GValue → ℤ
get_uint16 (uint16 n) = pos n
get_uint16 _ = pos 0

-- `esconf_gvalue_is_equal` on two values that are not NULL. Values of different types are never
-- equal, and neither are arrays.
unfoldable pub gvalue_is_equal : Platform → GValue → GValue → Bool
unfolding strcmp0 get_int16 get_uint16
gvalue_is_equal p unset unset = true
gvalue_is_equal p (char a) (char b) = eq_ℤ a b
gvalue_is_equal p (uchar a) (uchar b) = a == b
gvalue_is_equal p (boolean true) (boolean true) = true
gvalue_is_equal p (boolean false) (boolean false) = true
gvalue_is_equal p (int a) (int b) = eq_ℤ a b
gvalue_is_equal p (uint a) (uint b) = a == b
gvalue_is_equal p (int64 a) (int64 b) = eq_ℤ a b
gvalue_is_equal p (uint64 a) (uint64 b) = a == b
gvalue_is_equal p (float a) (float b) = p.float_eq a b
gvalue_is_equal p (double a) (double b) = p.double_eq a b
gvalue_is_equal p (string s) (string t) = strcmp0 s t
gvalue_is_equal p (int16 a) (int16 b) = eq_ℤ (get_int16 (int16 a)) (get_uint16 (int16 b))
gvalue_is_equal p (uint16 a) (uint16 b) = a == b
gvalue_is_equal p _ _ = false

-- `esconf_gtype_from_string`
unfoldable pub gtype_from_string : Text → GType
unfolding streq
gtype_from_string type =
    if streq type (bytes "empty")
    then GType.void
    else if streq type (bytes "string")
    then GType.string
    else if streq type (bytes "int")
    then GType.int
    else if streq type (bytes "double")
    then GType.double
    else if streq type (bytes "bool")
    then GType.boolean
    else if streq type (bytes "array")
    then GType.ptr_array
    else if streq type (bytes "uint")
    then GType.uint
    else if streq type (bytes "uchar")
    then GType.uchar
    else if streq type (bytes "char")
    then GType.char
    else if streq type (bytes "uint16")
    then GType.uint16
    else if streq type (bytes "int16")
    then GType.int16
    else if streq type (bytes "uint64")
    then GType.uint64
    else if streq type (bytes "int64")
    then GType.int64
    else if streq type (bytes "float")
    then GType.float
    else GType.invalid

-- `esconf_string_from_gtype`; `none` is the NULL that comes with a warning.
unfoldable pub string_from_gtype : GType → Option Text
string_from_gtype GType.string = some (bytes "string")
string_from_gtype GType.uchar = some (bytes "uchar")
string_from_gtype GType.char = some (bytes "char")
string_from_gtype GType.uint = some (bytes "uint")
string_from_gtype GType.int = some (bytes "int")
string_from_gtype GType.uint64 = some (bytes "uint64")
string_from_gtype GType.int64 = some (bytes "int64")
string_from_gtype GType.float = some (bytes "float")
string_from_gtype GType.double = some (bytes "double")
string_from_gtype GType.boolean = some (bytes "bool")
string_from_gtype GType.uint16 = some (bytes "uint16")
string_from_gtype GType.int16 = some (bytes "int16")
string_from_gtype GType.ptr_array = some (bytes "array")
string_from_gtype GType.invalid = none
string_from_gtype GType.void = none
string_from_gtype GType.strv = none
