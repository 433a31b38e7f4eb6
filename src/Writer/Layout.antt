-- ===== src/Writer/Layout.antt =====
-- The writer's text is the text of its elements.
use esconf.Prelude.{
  Text, bytes, ℕ, ℤ, pos, negsuc, zero, suc, ◌+◌, ◌%◌, ◌/◌, ltb, leb, ◌&&◌, ◌≤◌, ◌≡◌, refl, ap, sym,
  ◌∙◌, Bool, Bool-cases, true, false, ◌||◌, inl, inr, some, [], ◌∷◌, ◌++◌, All, arith,
}
use mathlib.Core.List.{append_assoc}
use esconf.Platform.{Platform}
use esconf.Value.{GValue, GValues, string, uchar, uint, uint64, int, int64, boolean, nil, cons}
use esconf.Value.Parse.Print.{digits_onto, printf_u, printf_d}
use esconf.Writer.{attributes, format_xml_tag, format_values}
use esconf.Writer.Events.{IsScalar, AreScalar, value_attributes}
use esconf.Writer.Xml.{Elements, IsPlain, Escapes, attributes_text, value_elements, elements_text}

digit-IsPlain : (d : ℕ) → d ≤ 9 → IsPlain (d + b'0')
digit-IsPlain d h = (
  λ e. omega arith,
  λ e. omega arith,
  λ e. omega arith,
  λ e. omega arith,
  λ e. omega arith,
  omega arith,
  omega arith,
)

-- The digits are plain.
digits_onto-IsPlain :
    (fuel n : ℕ) (rest : Text) → All IsPlain rest → All IsPlain (digits_onto fuel n rest)
unfolding digits_onto
digits_onto-IsPlain zero n rest h = h
digits_onto-IsPlain (suc fuel) n rest h = elim (Bool-cases (ltb n 10)) [
  | inl small ↦ rw small (digit-IsPlain n (ground (arith, small)), h)
  | inr large ↦ rw large (
      digits_onto-IsPlain fuel (n / 10) ((n % 10 + b'0') ∷ rest)
        (digit-IsPlain (n % 10) (omega arith), h))
]

pub printf_u-IsPlain : (n : ℕ) → All IsPlain (printf_u n)
unfolding printf_u
printf_u-IsPlain n = digits_onto-IsPlain (suc n) n [] tt

pub printf_d-IsPlain : (z : ℤ) → All IsPlain (printf_d z)
unfolding printf_d
printf_d-IsPlain (pos n) = printf_u-IsPlain n
printf_d-IsPlain (negsuc n) = (
  (
    λ e. omega arith,
    λ e. omega arith,
    λ e. omega arith,
    λ e. omega arith,
    λ e. omega arith,
    omega arith,
    omega arith,
  ),
  printf_u-IsPlain (suc n),
)

-- The attributes of a value with a text.
typed_text :
    (p : Platform) (type value raw rest : Text)
    → p.markup_escape_text type ≡ type
    → p.markup_escape_text value ≡ raw
    → attributes type raw ++ rest
      ≡ attributes_text p ((bytes "type", type) ∷ (bytes "value", value) ∷ []) rest
typed_text p type value raw rest e f = rw (e, f) (simp append_assoc)

-- Small letters, digits, dots and slashes are plain.
abbrev pub is_word : Text → Bool
is_word [] = true
is_word (c ∷ s) = (leb b'.' c && leb c b'9' || leb b'a' c && leb c b'z') && is_word s

pub IsPlain-of_word : (s : Text) → is_word s ≡ true → All IsPlain s
IsPlain-of_word [] h = tt
IsPlain-of_word (c ∷ s) h = (
  (
    λ e. ground (arith, h, e),
    λ e. ground (arith, h, e),
    λ e. ground (arith, h, e),
    λ e. ground (arith, h, e),
    λ e. ground (arith, h, e),
    ground (arith, h),
    ground (arith, h),
  ),
  IsPlain-of_word s (ground (arith, h)),
)

-- What is written of a value that is no array.
abbrev pub IsTag : Platform → Bool → Text → GValue → Type 0
IsTag p is_array_value spaces v =
    (text : Text) × (format_xml_tag p is_array_value spaces v ≡ some (text, false))
    × ((rest : Text) → text ++ rest ≡ attributes_text p (value_attributes p v) rest)

module _ (p : Platform) (plain : Escapes p) where
  pub word : (s : Text) → is_word s ≡ true → p.markup_escape_text s ≡ s
  word s h = plain s (IsPlain-of_word s h)

  pub scalar_text :
      (is_array_value : Bool) (spaces : Text) (v : GValue)
      → IsScalar v
      → IsTag p is_array_value spaces v
  unfolding format_xml_tag
  scalar_text b spaces (uchar n) h = (
    _,
    refl,
    λ rest.
        typed_text p (bytes "uchar") (printf_u n) (printf_u n) rest (word (bytes "uchar") refl)
          (plain (printf_u n) (printf_u-IsPlain n)),
  )
  scalar_text b spaces (uint n) h = (
    _,
    refl,
    λ rest.
        typed_text p (bytes "uint") (printf_u n) (printf_u n) rest (word (bytes "uint") refl)
          (plain (printf_u n) (printf_u-IsPlain n)),
  )
  scalar_text b spaces (uint64 n) h = (
    _,
    refl,
    λ rest.
        typed_text p (bytes "uint64") (printf_u n) (printf_u n) rest (word (bytes "uint64") refl)
          (plain (printf_u n) (printf_u-IsPlain n)),
  )
  scalar_text b spaces (int n) h = (
    _,
    refl,
    λ rest.
        typed_text p (bytes "int") (printf_d n) (printf_d n) rest (word (bytes "int") refl)
          (plain (printf_d n) (printf_d-IsPlain n)),
  )
  scalar_text b spaces (int64 n) h = (
    _,
    refl,
    λ rest.
        typed_text p (bytes "int64") (printf_d n) (printf_d n) rest (word (bytes "int64") refl)
          (plain (printf_d n) (printf_d-IsPlain n)),
  )
  scalar_text b spaces (boolean true) h = (
    _,
    refl,
    λ rest.
        typed_text p (bytes "bool") (bytes "true") (bytes "true") rest (word (bytes "bool") refl)
          (word (bytes "true") refl),
  )
  scalar_text b spaces (boolean false) h = (
    _,
    refl,
    λ rest.
        typed_text p (bytes "bool") (bytes "false") (bytes "false") rest (word (bytes "bool") refl)
          (word (bytes "false") refl),
  )
  scalar_text b spaces (string (some t)) h = (
    _,
    refl,
    λ rest.
        typed_text p (bytes "string") t (p.markup_escape_text t) rest (word (bytes "string") refl)
          refl,
  )
  scalar_text b spaces _ h = elim h [ ]

  value_line :
      (spaces tag text rest behind : Text)
      → behind ≡ tag ++ (bytes "/>\n" ++ (text ++ rest))
      → (spaces ++ (bytes "  <value" ++ (tag ++ (bytes "/>\n" ++ text)))) ++ rest
        ≡ (spaces ++ bytes "  ") ++ (bytes "<value" ++ behind)
  value_line spaces tag text rest behind e = rw e (simp append_assoc)

  pub values_text :
      (spaces : Text) (vs : GValues)
      → AreScalar vs
      → (text : Text) × (format_values p spaces vs ≡ some text)
        × ((es : Elements) (rest : Text)
            → text ++ elements_text p es rest
              ≡ elements_text p (value_elements p spaces vs es) rest)
  unfolding format_values
  values_text spaces nil h = ([], refl, λ es rest. refl)
  values_text spaces (cons v vs) h =
      let (tag, formatted, tag_text) = scalar_text true spaces v h.0 in
      let (text, written, same) = values_text spaces vs h.1 in
      (
        spaces ++ (bytes "  <value" ++ (tag ++ (bytes "/>\n" ++ text))),
        rw (formatted, written) refl,
        λ es rest.
            value_line spaces tag text (elements_text p es rest)
              (attributes_text p (value_attributes p v)
                (bytes "/>\n" ++ elements_text p (value_elements p spaces vs es) rest))
              (sym (tag_text (bytes "/>\n" ++ elements_text p (value_elements p spaces vs es) rest))
                ∙ ap (λ (x : Text). tag ++ (bytes "/>\n" ++ x)) (sym (same es rest))),
      )
