-- ===== src/Prelude/Strings.antt =====
-- C strings as lists of bytes, and the string functions of the C library that the source uses.
use Prim.Native.Char.{code}
use Prim.Native.Nat.{ℕ, zero, suc, ◌+◌, ◌≤◌}
use Prim.Native.String.{String}
use mathlib.Core.Path.{◌≡◌, refl}
use mathlib.Core.Logic.{◌↔◌}
use mathlib.Core.Bool.{Bool, true, false, ◌&&◌, ◌||◌}
use mathlib.Core.Option.{Option, none, some}
use mathlib.Core.List.{List, [], ◌∷◌, ◌++◌}
use native.Mathlib.Omega.{arith}
use esconf.Prelude.Tests.{◌==◌, if◌then◌else◌}

abbrev pub Text : Type 0
Text = List ℕ

-- The bytes of a literal.
abbrev pub bytes : String → Text
bytes String.[] = []
bytes (String.◌∷◌ c s) = code c ∷ bytes s

module _ {ℓ} {A : Type ℓ} where
  abbrev pub length : List A → ℕ
  length [] = 0
  length (x ∷ xs) = suc (length xs)

  abbrev pub take : ℕ → List A → List A
  take zero xs = []
  take (suc n) [] = []
  take (suc n) (x ∷ xs) = x ∷ take n xs

  pub length-append : (xs ys : List A) → length (xs ++ ys) ≡ length xs + length ys
  length-append [] ys = omega arith
  length-append (x ∷ xs) ys = omega (arith, length-append xs ys)

  pub take-eq_self : (n : ℕ) (xs : List A) → length xs ≤ n → take n xs ≡ xs
  take-eq_self zero [] h = refl
  take-eq_self zero (x ∷ xs) h = absurd (omega arith)
  take-eq_self (suc n) [] h = refl
  take-eq_self (suc n) (x ∷ xs) h = ground (arith, take-eq_self n xs)

-- `!strcmp(a, b)`
unfoldable pub streq : Text → Text → Bool
streq [] [] = true
streq [] (d ∷ b) = false
streq (c ∷ a) [] = false
streq (c ∷ a) (d ∷ b) = c == d && streq a b

pub streq_iff : (a b : Text) → (streq a b ≡ true) ↔ (a ≡ b)
unfolding streq
streq_iff [] [] = ground arith
streq_iff [] (d ∷ b) = ground arith
streq_iff (c ∷ a) [] = ground arith
streq_iff (c ∷ a) (d ∷ b) = ground (arith, streq_iff a b)

pub streq_refl : (a : Text) → streq a a ≡ true
streq_refl a = (streq_iff a a).1 refl

-- `strrchr(s, c)` cuts `s` at its last `c`: what stands before it, and what stands behind it.
unfoldable pub strrchr : ℕ → Text → Option (Text × Text)
strrchr c [] = none
strrchr c (d ∷ s) = elim (strrchr c s) [
  | some (before, after) ↦ some (d ∷ before, after)
  | none ↦ if d == c then some ([], s) else none
]

-- `strstr(s, "//")`: is there a second slash directly behind a slash?
unfoldable pub has_double_slash : Text → Bool
has_double_slash [] = false
has_double_slash (c ∷ []) = false
has_double_slash (c ∷ d ∷ s) = (c == b'/' && d == b'/') || has_double_slash (d ∷ s)
