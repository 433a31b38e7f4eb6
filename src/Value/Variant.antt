-- ===== src/Value/Variant.antt =====
-- The conversions of common/esconf-gvaluefuncs.c between values and the bus' variants.
pub mod RoundTrip
use esconf.Prelude.{
  Text, HashTable, insert, ℕ, ℤ, pos, Bool, true, false, Option, none, some, ◌>>=◌, List, [], ◌∷◌,
}
use esconf.Value.{
  GType, GValue, GValues, unset, string, uchar, uint, uint64, uint16, char, int, int64, int16,
  float, double, boolean, ptr_array, nil, cons, strv,
}

-- The types of variants that the source names.
pub data GVariantType : Type 0 where
  byte_type int16_type uint16_type int32_type uint32_type int64_type uint64_type : GVariantType
  boolean_type double_type string_type : GVariantType

-- A `GVariant`: the basic ones, a boxed one, an array of boxed ones, of type "av", an array of strings,
-- of type "as", and any other one.
mutual
  pub data GVariant : Type 0 where
    class_byte class_uint16 class_uint32 class_uint64 class_double : ℕ → GVariant
    class_int16 class_int32 class_int64 : ℤ → GVariant
    class_boolean : Bool → GVariant
    class_string : Text → GVariant
    boxed : GVariant → GVariant
    array : GVariants → GVariant
    strings : List Text → GVariant
    other : GVariant

  pub data GVariants : Type 0 where
    no_variants : GVariants
    variant : GVariant → GVariants → GVariants

-- `g_dbus_gvalue_to_gvariant`
abbrev pub ToVariant : Type 0
ToVariant = GValue → GVariantType → Option GVariant

-- The `type` of the switch in `esconf_basic_gvalue_to_gvariant`, where it is set.
unfoldable pub basic_type : GValue → Option GVariantType
basic_type (uint n) = some uint32_type
basic_type (int z) = some int32_type
basic_type (boolean b) = some boolean_type
basic_type (uchar n) = some byte_type
basic_type (int64 z) = some int64_type
basic_type (uint64 n) = some uint64_type
basic_type (double x) = some double_type
basic_type (string s) = some string_type
basic_type (int16 z) = some int16_type
basic_type (uint16 n) = some uint16_type
basic_type _ = none

-- The value that is no basic type of the bus: a char goes as an int16, any other one is NULL with a warning.
abbrev without_type : GValue → Option GVariant
without_type (char z) = some (class_int16 z)
without_type _ = none

unfoldable pub esconf_basic_gvalue_to_gvariant : ToVariant → GValue → Option GVariant
esconf_basic_gvalue_to_gvariant dbus v = elim (basic_type v) [
  | some type ↦ dbus v type
  | none ↦ without_type v
]

-- The loop over an array: an element that is NULL as a variant is left out.
abbrev add_variant : Option GVariant → GVariants → GVariants
add_variant none vs = vs
add_variant (some v) vs = variant v vs

unfoldable pub array_to_variants : ToVariant → GValues → GVariants
array_to_variants dbus nil = no_variants
array_to_variants dbus (cons v vs) =
    add_variant (esconf_basic_gvalue_to_gvariant dbus v) (array_to_variants dbus vs)

-- The builder of an array whose type is not given cannot end without an element: NULL.
abbrev pub end_array : GVariants → Option GVariant
end_array no_variants = none
end_array vs = some (array vs)

-- `esconf_gvalue_to_gvariant`
unfoldable pub esconf_gvalue_to_gvariant : ToVariant → GValue → Option GVariant
esconf_gvalue_to_gvariant dbus (ptr_array nil) = some (array no_variants)
esconf_gvalue_to_gvariant dbus (ptr_array (cons v vs)) =
    end_array (array_to_variants dbus (cons v vs))
esconf_gvalue_to_gvariant dbus (strv ss) = some (strings ss)
esconf_gvalue_to_gvariant dbus v = esconf_basic_gvalue_to_gvariant dbus v

-- The value of an entry of the table in `esconf_hash_to_gvariant`, whose arrays have a type.
unfoldable pub hash_value_to_gvariant : ToVariant → GValue → Option GVariant
hash_value_to_gvariant dbus (ptr_array vs) = some (array (array_to_variants dbus vs))
hash_value_to_gvariant dbus (strv ss) = some (strings ss)
hash_value_to_gvariant dbus v = esconf_basic_gvalue_to_gvariant dbus v

-- `esconf_hash_to_gvariant`: an "a{sv}" by its entries. An entry whose value is NULL is left out.
abbrev add_entry : Text → Option GVariant → List (Text × GVariant) → List (Text × GVariant)
add_entry key none entries = entries
add_entry key (some v) entries = (key, v) ∷ entries

unfoldable pub esconf_hash_to_gvariant : ToVariant → HashTable GValue → List (Text × GVariant)
esconf_hash_to_gvariant dbus [] = []
esconf_hash_to_gvariant dbus ((key, v) ∷ hash) =
    add_entry key (hash_value_to_gvariant dbus v) (esconf_hash_to_gvariant dbus hash)

-- `esconf_basic_gvariant_to_gvalue`; `none` is FALSE. The 16-bit variants become values of 32 bits.
unfoldable pub esconf_basic_gvariant_to_gvalue : GVariant → Option GValue
esconf_basic_gvariant_to_gvalue (class_uint16 n) = some (uint n)
esconf_basic_gvariant_to_gvalue (class_int16 z) = some (int z)
esconf_basic_gvariant_to_gvalue (class_uint32 n) = some (uint n)
esconf_basic_gvariant_to_gvalue (class_int32 z) = some (int z)
esconf_basic_gvariant_to_gvalue (class_uint64 n) = some (uint64 n)
esconf_basic_gvariant_to_gvalue (class_int64 z) = some (int64 z)
esconf_basic_gvariant_to_gvalue (class_boolean b) = some (boolean b)
esconf_basic_gvariant_to_gvalue (class_byte n) = some (uchar n)
esconf_basic_gvariant_to_gvalue (class_string s) = some (string (some s))
esconf_basic_gvariant_to_gvalue (class_double x) = some (double x)
esconf_basic_gvariant_to_gvalue _ = none

-- An element of an array stays unset where its variant is not basic.
abbrev element : Option GValue → GValue
element none = unset
element (some v) = v

unfoldable pub array_to_values : GVariants → GValues
array_to_values no_variants = nil
array_to_values (variant v vs) =
    cons (element (esconf_basic_gvariant_to_gvalue v)) (array_to_values vs)

-- What a variant that is not boxed becomes.
unfoldable pub unboxed_to_gvalue : GVariant → Option GValue
unboxed_to_gvalue (array vs) = some (ptr_array (array_to_values vs))
unboxed_to_gvalue (strings ss) = some (strv ss)
unboxed_to_gvalue v = esconf_basic_gvariant_to_gvalue v

-- `esconf_gvariant_to_gvalue`; one box is opened.
unfoldable pub esconf_gvariant_to_gvalue : GVariant → Option GValue
esconf_gvariant_to_gvalue (boxed v) = unboxed_to_gvalue v
esconf_gvariant_to_gvalue v = unboxed_to_gvalue v

-- `esconf_gvariant_to_hash`. A value that is NULL in the table is `none` here.
unfoldable pub fill_hash :
    HashTable (Option GValue) → List (Text × GVariant) → HashTable (Option GValue)
fill_hash hash [] = hash
fill_hash hash ((key, v) ∷ entries) =
    fill_hash (insert key (esconf_gvariant_to_gvalue v) hash) entries

unfoldable pub esconf_gvariant_to_hash : List (Text × GVariant) → HashTable (Option GValue)
esconf_gvariant_to_hash entries = fill_hash [] entries
