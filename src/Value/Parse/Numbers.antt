-- ===== src/Value/Parse/Numbers.antt =====
-- The C library's `strtol` and `strtoul` at base 0, on a 64-bit `long`.
use esconf.Prelude.{
  Text, ℕ, ℤ, pos, negsuc, signed, ◌+◌, ◌-◌, ◌*◌, ◌^◌, ◌%◌, ◌==◌, ltb, leb, Bool, true, false, ◌&&◌,
  ◌||◌, Option, none, some, [], ◌∷◌, if◌then◌else◌,
}
use esconf.Platform.{Conversion}

unfoldable pub is_space : ℕ → Bool
is_space c = c == b' ' || (leb 9 c && leb c 13)

unfoldable pub skip_space : Text → Text
unfolding is_space
skip_space [] = []
skip_space (c ∷ s) = if is_space c then skip_space s else c ∷ s

-- The value of a digit, 36 for a byte that is none.
unfoldable pub digit_value : ℕ → ℕ
digit_value c =
    if leb b'0' c && leb c b'9'
    then c - b'0'
    else if leb b'a' c && leb c b'z'
    then c - b'a' + 10
    else if leb b'A' c && leb c b'Z'
    then c - b'A' + 10
    else 36

-- The digits at the front, behind those that `acc` holds, and the rest.
unfoldable pub scan_digits : ℕ → ℕ → Text → ℕ × Text
unfolding digit_value
scan_digits base acc [] = (acc, [])
scan_digits base acc (c ∷ s) =
    if ltb (digit_value c) base
    then scan_digits base (acc * base + digit_value c) s
    else (acc, c ∷ s)

-- A number without its sign. At base 0 the prefix `0x` and the prefix `0` choose the base.
unfoldable pub scan_number : Text → Option (ℕ × Text)
unfolding scan_digits
scan_number [] = none
scan_number (c ∷ []) = if ltb (digit_value c) 10 then some (digit_value c, []) else none
scan_number (c ∷ x ∷ []) =
    if c == b'0'
    then some (scan_digits 8 0 (x ∷ []))
    else if ltb (digit_value c) 10
    then some (scan_digits 10 0 (c ∷ x ∷ []))
    else none
scan_number (c ∷ x ∷ h ∷ s) =
    if c == b'0' && ((x == b'x' || x == b'X') && ltb (digit_value h) 16)
    then some (scan_digits 16 0 (h ∷ s))
    else if c == b'0'
    then some (scan_digits 8 0 (x ∷ h ∷ s))
    else if ltb (digit_value c) 10
    then some (scan_digits 10 0 (c ∷ x ∷ h ∷ s))
    else none

-- A sign in front, and the number.
unfoldable pub scan_signed : Text → Option (Bool × ℕ × Text)
scan_signed [] = none
scan_signed (c ∷ s) =
    if c == b'-'
    then elim (scan_number s) [ none ↦ none | some (n, r) ↦ some (true, n, r) ]
    else if c == b'+'
    then elim (scan_number s) [ none ↦ none | some (n, r) ↦ some (false, n, r) ]
    else elim (scan_number (c ∷ s)) [ none ↦ none | some (n, r) ↦ some (false, n, r) ]

abbrev pub long_max : ℕ
long_max = 2 ^ 63 - 1

-- LONG_MAX or LONG_MIN and ERANGE out of range
unfoldable pub clamp_long : Bool → ℕ → Text → Conversion ℤ
clamp_long false n rest =
    if leb n long_max
    then record { value = pos n; rest = rest; erange = false }
    else record { value = pos long_max; rest = rest; erange = true }
clamp_long true n rest =
    if leb n (2 ^ 63)
    then record { value = signed true n; rest = rest; erange = false }
    else record { value = negsuc long_max; rest = rest; erange = true }

-- `strtol(str, &endptr, 0)`; with no digits `endptr` is `str`
unfoldable pub strtol : Text → Conversion ℤ
strtol str = elim (scan_signed (skip_space str)) [
  | none ↦ record { value = pos 0; rest = str; erange = false }
  | some (sign, n, rest) ↦ clamp_long sign n rest
]

abbrev pub ulong_max : ℕ
ulong_max = 2 ^ 64 - 1

-- ULONG_MAX and ERANGE out of range; a minus sign negates modulo 2^64
unfoldable pub clamp_ulong : Bool → ℕ → Text → Conversion ℕ
clamp_ulong sign n rest =
    if leb n ulong_max
    then record { value = if sign then (2 ^ 64 - n) % 2 ^ 64 else n; rest = rest; erange = false }
    else record { value = ulong_max; rest = rest; erange = true }

-- `strtoul(str, &endptr, 0)`
unfoldable pub strtoul : Text → Conversion ℕ
strtoul str = elim (scan_signed (skip_space str)) [
  | none ↦ record { value = 0; rest = str; erange = false }
  | some (sign, n, rest) ↦ clamp_ulong sign n rest
]

-- `(gint64)u`
unfoldable pub to_int64 : ℕ → ℤ
to_int64 u = if leb u long_max then pos u else negsuc (ulong_max - u)
