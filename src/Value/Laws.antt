-- ===== src/Value/Laws.antt =====
-- The comparison of values, and the names of types.
use esconf.Prelude.{Text, streq_iff, ℤ, pos, eq_ℤ_iff, ◌≡◌, ◌↔◌, true, Option, none, some, arith}
use esconf.Platform.{Platform}
use esconf.Value.{
  GType, GValue, unset, string, char, int, int64, int16, float, double, boolean, ptr_array, strv,
  strcmp0, gvalue_is_equal, gtype_from_string, string_from_gtype,
}

strcmp0_iff : (s t : Option Text) → (strcmp0 s t ≡ true) ↔ (s ≡ t)
unfolding strcmp0
strcmp0_iff none none = ground arith
strcmp0_iff none (some t) = ground arith
strcmp0_iff (some s) none = ground arith
strcmp0_iff (some s) (some t) = ground (arith, streq_iff s t)

-- The types that `esconf_gvalue_is_equal` compares by value: no floating point, no array, no int16.
abbrev pub IsExact : GValue → Type 0
IsExact (float x) = ⊥
IsExact (double x) = ⊥
IsExact (ptr_array vs) = ⊥
IsExact (strv ss) = ⊥
IsExact (int16 z) = ⊥
IsExact _ = Unit

-- On the types that are compared by value the comparison is equality: two values are equal for
-- it exactly when they have one type and one content.
pub gvalue_is_equal_iff :
    (p : Platform) (v w : GValue) → IsExact v → (gvalue_is_equal p v w ≡ true) ↔ (v ≡ w)
unfolding gvalue_is_equal
gvalue_is_equal_iff p (string s) (string t) x = ground (arith, strcmp0_iff s t)
gvalue_is_equal_iff p (boolean a) (boolean b) x = ground arith
gvalue_is_equal_iff p unset w x = ground arith
gvalue_is_equal_iff p (char a) (char b) x = ground (arith, eq_ℤ_iff a b)
gvalue_is_equal_iff p (int a) (int b) x = ground (arith, eq_ℤ_iff a b)
gvalue_is_equal_iff p (int64 a) (int64 b) x = ground (arith, eq_ℤ_iff a b)
gvalue_is_equal_iff p _ _ x = ground arith

-- Two values of type int16 are equal for the comparison exactly when the first one is 0,
-- whatever the second one is: it is read by the getter of the other type, which answers 0.
pub gvalue_is_equal_int16 :
    (p : Platform) (a b : ℤ) → (gvalue_is_equal p (int16 a) (int16 b) ≡ true) ↔ (a ≡ pos 0)
unfolding gvalue_is_equal
gvalue_is_equal_int16 p a b = eq_ℤ_iff a (pos 0)

-- The name of a type, where it has one, names that type.
pub gtype_from_string-string_from_gtype :
    (t : GType) (s : Text) → string_from_gtype t ≡ some s → gtype_from_string s ≡ t
unfolding string_from_gtype gtype_from_string
gtype_from_string-string_from_gtype GType.string s h = ground arith
gtype_from_string-string_from_gtype _ s h = ground arith
