-- ===== src/Value/Variant/RoundTrip.antt =====
-- Values that go over the bus and come back.
use esconf.Prelude.{Text, ℕ, ℤ, ◌≡◌, refl, Bool, some, ◌>>=◌}
use esconf.Value.{
  GValue, GValues, string, uchar, uint, uint64, char, int, int64, double, boolean, ptr_array, nil,
  cons, strv,
}
use esconf.Value.Variant.{
  byte_type, int32_type, uint32_type, int64_type, uint64_type, boolean_type, double_type,
  string_type, GVariant, class_byte, class_uint32, class_uint64, class_double, class_int16,
  class_int32, class_int64, class_boolean, class_string, boxed, array, ToVariant,
  esconf_basic_gvalue_to_gvariant, array_to_variants, esconf_gvalue_to_gvariant,
  esconf_gvariant_to_gvalue, esconf_basic_gvariant_to_gvalue, unboxed_to_gvalue, array_to_values,
  end_array, basic_type,
}

-- The rules of the documentation of `g_dbus_gvalue_to_gvariant`, for the types of GObject.
pub record IsDbusConversion (dbus : ToVariant) : Type 0 where
  pub byte : (n : ℕ) → dbus (uchar n) byte_type ≡ some (class_byte n)
  pub int32 : (z : ℤ) → dbus (int z) int32_type ≡ some (class_int32 z)
  pub uint32 : (n : ℕ) → dbus (uint n) uint32_type ≡ some (class_uint32 n)
  pub int64 : (z : ℤ) → dbus (int64 z) int64_type ≡ some (class_int64 z)
  pub uint64 : (n : ℕ) → dbus (uint64 n) uint64_type ≡ some (class_uint64 n)
  pub boolean : (b : Bool) → dbus (boolean b) boolean_type ≡ some (class_boolean b)
  pub double : (x : ℕ) → dbus (double x) double_type ≡ some (class_double x)
  pub string : (s : Text) → dbus (string (some s)) string_type ≡ some (class_string s)

-- The basic values that the bus has a type for.
abbrev pub IsBasic : GValue → Type 0
IsBasic (uchar n) = Unit
IsBasic (char z) = Unit
IsBasic (int z) = Unit
IsBasic (uint n) = Unit
IsBasic (int64 z) = Unit
IsBasic (uint64 n) = Unit
IsBasic (boolean b) = Unit
IsBasic (double x) = Unit
IsBasic (string (some s)) = Unit
IsBasic _ = ⊥

abbrev pub AreBasic : GValues → Type 0
AreBasic nil = Unit
AreBasic (cons v vs) = IsBasic v × AreBasic vs

abbrev pub IsSendable : GValue → Type 0
IsSendable (ptr_array vs) = AreBasic vs
IsSendable (strv ss) = Unit
IsSendable v = IsBasic v

-- What arrives: a char as an int.
abbrev pub received_basic : GValue → GValue
received_basic (char z) = int z
received_basic v = v

abbrev pub received_values : GValues → GValues
received_values nil = nil
received_values (cons v vs) = cons (received_basic v) (received_values vs)

abbrev pub received : GValue → GValue
received (ptr_array vs) = ptr_array (received_values vs)
received v = received_basic v

-- One basic value on the bus.
basic-received :
    (dbus : ToVariant) (v : GValue)
    → IsDbusConversion dbus
    → IsBasic v
    → (w : GVariant) × (esconf_basic_gvalue_to_gvariant dbus v ≡ some w)
      × (esconf_basic_gvariant_to_gvalue w ≡ some (received_basic v))
      × (unboxed_to_gvalue w ≡ some (received_basic v))
unfolding esconf_basic_gvalue_to_gvariant basic_type esconf_basic_gvariant_to_gvalue
    unboxed_to_gvalue
basic-received dbus (uchar n) d h = (class_byte n, d.byte n, refl, refl)
basic-received dbus (char z) d h = (class_int16 z, refl, refl, refl)
basic-received dbus (int z) d h = (class_int32 z, d.int32 z, refl, refl)
basic-received dbus (uint n) d h = (class_uint32 n, d.uint32 n, refl, refl)
basic-received dbus (int64 z) d h = (class_int64 z, d.int64 z, refl, refl)
basic-received dbus (uint64 n) d h = (class_uint64 n, d.uint64 n, refl, refl)
basic-received dbus (boolean b) d h = (class_boolean b, d.boolean b, refl, refl)
basic-received dbus (double x) d h = (class_double x, d.double x, refl, refl)
basic-received dbus (string (some s)) d h = (class_string s, d.string s, refl, refl)
basic-received dbus _ d h = elim h [ ]

array_to_variants-received :
    (dbus : ToVariant) (vs : GValues)
    → IsDbusConversion dbus
    → AreBasic vs
    → array_to_values (array_to_variants dbus vs) ≡ received_values vs
unfolding array_to_variants array_to_values
array_to_variants-received dbus nil d h = refl
array_to_variants-received dbus (cons v vs) d h =
    let (w, sent, back, whole) = basic-received dbus v d h.0 in
    rw (sent, array_to_variants) (rw (back, array_to_variants-received dbus vs d h.1) refl)

end_array-some :
    (dbus : ToVariant) (v : GValue) (vs : GValues)
    → IsDbusConversion dbus
    → IsBasic v
    → end_array (array_to_variants dbus (cons v vs))
      ≡ some (array (array_to_variants dbus (cons v vs)))
unfolding array_to_variants
end_array-some dbus v vs d h =
    let (w, sent, back, whole) = basic-received dbus v d h in rw sent refl

-- A basic value in one box.
basic_arrives :
    (dbus : ToVariant) (v : GValue)
    → IsDbusConversion dbus
    → IsBasic v
    → (esconf_basic_gvalue_to_gvariant dbus v >>= λ w. esconf_gvariant_to_gvalue (boxed w))
      ≡ some (received_basic v)
unfolding esconf_gvariant_to_gvalue
basic_arrives dbus v d h = let (w, sent, back, whole) = basic-received dbus v d h in rw sent whole

-- Where g_dbus_gvalue_to_gvariant follows its documentation: a value that has a type on the bus,
-- a list of strings, or an array of values with such types arrives, through the conversion to a
-- variant, one box and the conversion back, as what was sent; only a char arrives as an int.
pub esconf_gvariant_to_gvalue-esconf_gvalue_to_gvariant :
    (dbus : ToVariant) (v : GValue)
    → IsDbusConversion dbus
    → IsSendable v
    → (esconf_gvalue_to_gvariant dbus v >>= λ w. esconf_gvariant_to_gvalue (boxed w))
      ≡ some (received v)
unfolding esconf_gvalue_to_gvariant esconf_gvariant_to_gvalue unboxed_to_gvalue array_to_values
esconf_gvariant_to_gvalue-esconf_gvalue_to_gvariant dbus (ptr_array nil) d h = refl
esconf_gvariant_to_gvalue-esconf_gvalue_to_gvariant dbus (ptr_array (cons v vs)) d h =
    rw (end_array-some dbus v vs d h.0) (rw (array_to_variants-received dbus (cons v vs) d h) refl)
esconf_gvariant_to_gvalue-esconf_gvalue_to_gvariant dbus (strv ss) d h = refl
esconf_gvariant_to_gvalue-esconf_gvalue_to_gvariant dbus (uchar n) d h =
    basic_arrives dbus (uchar n) d h
esconf_gvariant_to_gvalue-esconf_gvalue_to_gvariant dbus (char n) d h =
    basic_arrives dbus (char n) d h
esconf_gvariant_to_gvalue-esconf_gvalue_to_gvariant dbus (int n) d h =
    basic_arrives dbus (int n) d h
esconf_gvariant_to_gvalue-esconf_gvalue_to_gvariant dbus (uint n) d h =
    basic_arrives dbus (uint n) d h
esconf_gvariant_to_gvalue-esconf_gvalue_to_gvariant dbus (int64 n) d h =
    basic_arrives dbus (int64 n) d h
esconf_gvariant_to_gvalue-esconf_gvalue_to_gvariant dbus (uint64 n) d h =
    basic_arrives dbus (uint64 n) d h
esconf_gvariant_to_gvalue-esconf_gvalue_to_gvariant dbus (boolean n) d h =
    basic_arrives dbus (boolean n) d h
esconf_gvariant_to_gvalue-esconf_gvalue_to_gvariant dbus (double n) d h =
    basic_arrives dbus (double n) d h
esconf_gvariant_to_gvalue-esconf_gvalue_to_gvariant dbus (string (some n)) d h =
    basic_arrives dbus (string (some n)) d h
esconf_gvariant_to_gvalue-esconf_gvalue_to_gvariant dbus _ d h = elim h [ ]
