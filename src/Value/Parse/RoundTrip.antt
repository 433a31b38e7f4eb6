-- ===== src/Value/Parse/RoundTrip.antt =====
-- Values, written as texts and read back.
use esconf.Prelude.{
  Text, ℕ, ℤ, pos, negsuc, ◌+◌, ◌-◌, ◌*◌, ◌/◌, ◌%◌, ◌^◌, ◌≤◌, ◌<◌, ◌≡◌, streq, in_range, pos_part,
  ap, sym, ltb, refl, Bool, true, false, none, some, [], ◌∷◌, zero, suc, arith, inl, inr,
  Bool-cases, ◌∙◌,
}
use esconf.Platform.{Platform, Conversion}
use esconf.Value.{
  GValue, string, uchar, uint, uint64, uint16, char, int, int64, int16, boolean, g_value_type,
}
use esconf.Value.Parse.{
  parsed, parse_text, gvalue_from_string, scan_digits, scan_number, scan_signed, skip_space,
  clamp_long, clamp_ulong, strtol, strtoul, to_int64, signed_conversion, handle_int, handle_boolean,
  handle_uint64, handle_int64, handle_strtol, handle_strtoul, max_bits, min_bits, bad_status,
}
use esconf.Value.Parse.Print.{digits_onto, printf_u, printf_d, string_from_gvalue}
use esconf.Value.Parse.Ranges.{FitsSigned}

scan_digits-digit :
    (a d : ℕ) (rest : Text)
    → d < 10
    → scan_digits 10 a ((d + b'0') ∷ rest) ≡ scan_digits 10 (a * 10 + d) rest
unfolding scan_digits
scan_digits-digit a d rest h = let e : d + 48 - 48 ≡ d = omega arith in ground (arith, e)

-- Reading the digits of `n` brings the accumulator from 0 to `n`.
scan_digits-digits_onto :
    (f n : ℕ) (rest : Text)
    → n < f
    → scan_digits 10 0 (digits_onto f n rest) ≡ scan_digits 10 n rest
unfolding digits_onto
scan_digits-digits_onto zero n rest h = absurd (omega arith)
scan_digits-digits_onto (suc f) n rest h = elim (Bool-cases (ltb n 10)) [
  | inl small ↦
      rw small
        (scan_digits-digit 0 n rest (ground arith) ∙ ap (λ m. scan_digits 10 m rest) (omega arith))
  | inr big ↦ rw big (
      scan_digits-digits_onto f (n / 10) ((n % 10 + b'0') ∷ rest) (ground arith)
      ∙ scan_digits-digit (n / 10) (n % 10) rest (omega arith)
      ∙ ap (λ m. scan_digits 10 m rest) (omega arith))
]

-- A positive number begins with a digit that is not 0.
digits_onto-head :
    (f n : ℕ) (rest : Text)
    → n < f
    → 0 < n
    → (d : ℕ) × (0 < d) × (d < 10) × (s : Text) × (digits_onto f n rest ≡ (d + b'0') ∷ s)
unfolding digits_onto
digits_onto-head zero n rest h positive = absurd (omega arith)
digits_onto-head (suc f) n rest h positive = elim (Bool-cases (ltb n 10)) [
  | inl small ↦ (n, positive, ground arith, rest, rw small)
  | inr big ↦ rw big (digits_onto-head f (n / 10) _ (ground arith) (ground arith))
]

scan_number-nonzero :
    (d : ℕ) (s : Text)
    → 0 < d
    → d < 10
    → scan_number ((d + b'0') ∷ s) ≡ some (scan_digits 10 0 ((d + b'0') ∷ s))
unfolding scan_number
scan_number-nonzero d [] h k = ground arith
scan_number-nonzero d (x ∷ []) h k = ground arith
scan_number-nonzero d (x ∷ y ∷ s) h k = ground arith

-- A decimal number is read as itself.
scan_number-printf_u : (n : ℕ) → scan_number (printf_u n) ≡ some (n, [])
unfolding printf_u
scan_number-printf_u zero = unfold scan_number in refl
scan_number-printf_u (suc n) =
    let (d, positive, small, s, e) =
      digits_onto-head (suc (suc n)) (suc n) [] (omega arith) (omega arith) in
    rw e (
      scan_number-nonzero d s positive small
      ∙ ap some (
          ap (scan_digits 10 0) (sym e)
          ∙ scan_digits-digits_onto (suc (suc n)) (suc n) [] (omega arith)
          ∙ (unfold scan_digits in refl)))

printf_u-head : (n : ℕ) → (d : ℕ) × (d < 10) × (s : Text) × (printf_u n ≡ (d + b'0') ∷ s)
unfolding printf_u
printf_u-head zero = (0, omega arith, [], refl)
printf_u-head (suc n) =
    let (d, positive, small, s, e) =
      digits_onto-head (suc (suc n)) (suc n) [] (omega arith) (omega arith) in
    (d, small, s, e)

skip_space-digit : (d : ℕ) (s : Text) → d < 10 → skip_space ((d + b'0') ∷ s) ≡ (d + b'0') ∷ s
unfolding skip_space
skip_space-digit d s h = ground arith

skip_space-printf_u : (n : ℕ) → skip_space (printf_u n) ≡ printf_u n
skip_space-printf_u n = let (d, small, s, e) = printf_u-head n in rw e (skip_space-digit d s small)

scan_signed-digit :
    (d : ℕ) (s : Text) (n : ℕ) (r : Text)
    → d < 10
    → scan_number ((d + b'0') ∷ s) ≡ some (n, r)
    → scan_signed ((d + b'0') ∷ s) ≡ some (false, n, r)
unfolding scan_signed
scan_signed-digit d s n r h e = ground arith

scan_signed-printf_u : (n : ℕ) → scan_signed (printf_u n) ≡ some (false, n, [])
scan_signed-printf_u n =
    let (d, small, s, e) = printf_u-head n in
    rw e (scan_signed-digit d s n [] small (rw (← e) (scan_number-printf_u n)))

scan_signed-minus :
    (s : Text) (n : ℕ) (r : Text)
    → scan_number s ≡ some (n, r)
    → scan_signed (b'-' ∷ s) ≡ some (true, n, r)
unfolding scan_signed
scan_signed-minus s n r e = rw e

skip_space-minus : (s : Text) → skip_space (b'-' ∷ s) ≡ b'-' ∷ s
unfolding skip_space
skip_space-minus s = refl

-- Is the integer written with a minus sign?
abbrev is_negative : ℤ → Bool
is_negative (pos n) = false
is_negative (negsuc n) = true

abbrev magnitude : ℤ → ℕ
magnitude (pos n) = n
magnitude (negsuc n) = suc n

scan_signed-printf_d :
    (z : ℤ) → scan_signed (skip_space (printf_d z)) ≡ some (is_negative z, magnitude z, [])
unfolding printf_d
scan_signed-printf_d (pos n) = rw skip_space-printf_u (scan_signed-printf_u n)
scan_signed-printf_d (negsuc n) =
    rw skip_space-minus
      (scan_signed-minus (printf_u (suc n)) (suc n) [] (scan_number-printf_u (suc n)))

-- What a conversion that consumed a whole text gives.
abbrev whole : {A : Type 0} → A → Conversion A
whole v = record { value = v; rest = []; erange = false }

clamp_long-fits : (z : ℤ) → FitsSigned 63 z → clamp_long (is_negative z) (magnitude z) [] ≡ whole z
unfolding clamp_long
clamp_long-fits (pos n) h = ground arith
clamp_long-fits (negsuc n) h = ground arith

strtol-printf_d : (z : ℤ) → FitsSigned 63 z → strtol (printf_d z) ≡ whole z
unfolding strtol
strtol-printf_d z h = rw (scan_signed-printf_d, strtol) (clamp_long-fits z h)

strtoul-printf_u : (n : ℕ) → n < 2 ^ 64 → strtoul (printf_u n) ≡ whole n
unfolding strtoul
strtoul-printf_u n h =
    rw (skip_space-printf_u, scan_signed-printf_u, strtoul) (unfold clamp_ulong in ground arith)

bad_status-printf_u : (n : ℕ) → bad_status (printf_u n) [] ≡ false
bad_status-printf_u n = let (d, small, s, e) = printf_u-head n in rw e

bad_status-printf_d : (z : ℤ) → bad_status (printf_d z) [] ≡ false
unfolding printf_d
bad_status-printf_d (pos n) = bad_status-printf_u n
bad_status-printf_d (negsuc n) = refl

-- A text that is converted whole to a value in range is accepted.
handle_int-whole :
    (str : Text) (lo hi z : ℤ) (set : ℤ → GValue) {conv : Conversion ℤ}
    → conv ≡ whole z
    → bad_status str [] ≡ false
    → in_range lo hi z ≡ true
    → handle_int str conv lo hi set ≡ parsed (set z)
unfolding handle_int
handle_int-whole str lo hi z set e ok r = rw e (ground arith)

handle_strtol-printf_d :
    (lo hi z : ℤ) (set : ℤ → GValue)
    → FitsSigned 63 z
    → in_range lo hi z ≡ true
    → handle_strtol (printf_d z) lo hi set ≡ parsed (set z)
unfolding handle_strtol
handle_strtol-printf_d lo hi z set fits r =
    handle_int-whole (printf_d z) lo hi z set (strtol-printf_d z fits) (bad_status-printf_d z) r

handle_strtoul-printf_u :
    (n : ℕ) (hi : ℤ) (set : ℤ → GValue)
    → n < 2 ^ 63
    → in_range (pos 0) hi (pos n) ≡ true
    → handle_strtoul (printf_u n) hi set ≡ parsed (set (pos n))
unfolding handle_strtoul
handle_strtoul-printf_u n hi set small r =
    handle_int-whole (printf_u n) (pos 0) hi (pos n) set
      (rw (strtoul-printf_u n (omega arith)) (unfold signed_conversion to_int64 in ground arith))
      (bad_status-printf_u n) r

handle_uint64-printf_u :
    (n : ℕ) {conv : Conversion ℕ}
    → conv ≡ strtoul (printf_u n)
    → n < 2 ^ 64
    → handle_uint64 (printf_u n) conv ≡ parsed (uint64 n)
unfolding handle_uint64
handle_uint64-printf_u n e h = rw (e ∙ strtoul-printf_u n h) (ground (arith, bad_status-printf_u n))

handle_int64-printf_d :
    (z : ℤ) {conv : Conversion ℤ}
    → conv ≡ strtol (printf_d z)
    → FitsSigned 63 z
    → handle_int64 (printf_d z) conv ≡ parsed (int64 z)
unfolding handle_int64
handle_int64-printf_d z e h = rw (e ∙ strtol-printf_d z h) (ground (arith, bad_status-printf_d z))

-- What fits 8, 16 or 32 bits fits 64.
wider : (w : ℕ) (z : ℤ) → 2 ^ w ≤ 2 ^ 63 → FitsSigned w z → FitsSigned 63 z
wider w (pos n) k h = ground arith
wider w (negsuc n) k h = ground arith

-- The documented behaviour of the 64-bit conversions: that of the C library's, in any locale.
pub record IsAscii (p : Platform) : Type 0 where
  pub strtoull : (s : Text) → p.ascii_strtoull s ≡ strtoul s
  pub strtoll : (s : Text) → p.ascii_strtoll s ≡ strtol s

-- The values that a text holds: strings, and numbers in their type's range; no floating point,
-- since `%f` keeps six decimals, and no array.
abbrev pub IsPrintable : GValue → Type 0
IsPrintable (string s) = Unit
IsPrintable (boolean b) = Unit
IsPrintable (uchar n) = n ≤ 255
IsPrintable (uint16 n) = n ≤ 65535
IsPrintable (uint n) = n ≤ 4294967295
IsPrintable (uint64 n) = n < 2 ^ 64
IsPrintable (char z) = FitsSigned 7 z
IsPrintable (int16 z) = FitsSigned 15 z
IsPrintable (int z) = FitsSigned 31 z
IsPrintable (int64 z) = FitsSigned 63 z
IsPrintable _ = ⊥

-- A string, a boolean or an integer in its type's range is what is read back, at its type, from
-- the text that it is written as; for the 64-bit types where GLib's conversions are the C library's.
pub gvalue_from_string-string_from_gvalue :
    (p : Platform) (v : GValue)
    → IsAscii p
    → IsPrintable v
    → gvalue_from_string p (g_value_type v) (string_from_gvalue p v) ≡ parsed v
unfolding gvalue_from_string parse_text string_from_gvalue g_value_type handle_boolean streq
gvalue_from_string-string_from_gvalue p (string none) a h = refl
gvalue_from_string-string_from_gvalue p (string (some s)) a h = refl
gvalue_from_string-string_from_gvalue p (boolean true) a h = refl
gvalue_from_string-string_from_gvalue p (boolean false) a h = refl
gvalue_from_string-string_from_gvalue p (uchar n) a h =
    handle_strtoul-printf_u n (max_bits 8) (λ z. uchar (pos_part z)) (omega arith) (ground arith)
gvalue_from_string-string_from_gvalue p (uint16 n) a h =
    handle_strtol-printf_d (pos 0) (max_bits 16) (pos n) (λ z. uint16 (pos_part z)) (ground arith)
      (ground arith)
gvalue_from_string-string_from_gvalue p (uint n) a h =
    handle_strtoul-printf_u n (max_bits 32) (λ z. uint (pos_part z)) (omega arith) (ground arith)
gvalue_from_string-string_from_gvalue p (char z) a h =
    handle_strtol-printf_d (min_bits 7) (max_bits 7) z char (wider 7 z (omega arith) h) h
gvalue_from_string-string_from_gvalue p (int16 z) a h =
    handle_strtol-printf_d (min_bits 15) (max_bits 15) z int16 (wider 15 z (omega arith) h) h
gvalue_from_string-string_from_gvalue p (int z) a h =
    handle_strtol-printf_d (min_bits 31) (max_bits 31) z int (wider 31 z (omega arith) h) h
gvalue_from_string-string_from_gvalue p (uint64 n) a h = handle_uint64-printf_u n (a.strtoull _) h
gvalue_from_string-string_from_gvalue p (int64 z) a h = handle_int64-printf_d z (a.strtoll _) h
gvalue_from_string-string_from_gvalue p _ a h = elim h [ ]
