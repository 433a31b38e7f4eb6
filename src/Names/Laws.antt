-- ===== src/Names/Laws.antt =====
-- Which names the checks accept.
use mathlib.Core.Path.{ap₂}
use esconf.Prelude.{
  Text, bytes, ℕ, ◌≤◌, ◌⊎◌, ◌==◌, ==_iff, ◌≡◌, ◌≢◌, ◌↔◌, refl, true, List, [], ◌∷◌, ◌++◌, All,
  arith, if◌then◌else◌, Bool-cases, inl, inr,
}
use esconf.Platform.{Lacks}
use esconf.Names.{
  valid, is_name_char, is_property_char, check_property, check_root, property_is_valid,
  check_channel, channel_is_valid, prop_name_is_valid,
}
use esconf.Names.Paths.{path, IsComponent, prop_name_is_valid-path}

abbrev pub IsAmong : ℕ → Text → Type 0
IsAmong c [] = ⊥
IsAmong c (d ∷ s) = (c ≡ d) ⊎ IsAmong c s

-- The bytes of a component: letters, digits and the marks _ - { } | , [ ] . : < >
abbrev pub marks : Text
marks = bytes "_-{}|,[].:<>"

abbrev pub IsNameByte : ℕ → Type 0
IsNameByte c =
    ((b'A' ≤ c) × (c ≤ b'Z'))
    ⊎ ((b'a' ≤ c) × (c ≤ b'z'))
    ⊎ ((b'0' ≤ c) × (c ≤ b'9'))
    ⊎ IsAmong c marks

-- The test of the code.
is_property_char-IsNameByte : (c : ℕ) → is_property_char c ≡ true → c ≢ b'/' → IsNameByte c
unfolding is_property_char is_name_char
is_property_char-IsNameByte c h n = ground arith

IsNameByte-is_property_char : (c : ℕ) → IsNameByte c → is_property_char c ≡ true
unfolding is_property_char is_name_char
IsNameByte-is_property_char c h = ground arith

IsNameByte-slash : (c : ℕ) → IsNameByte c → c ≢ b'/'
IsNameByte-slash c h e = ground arith

abbrev pub IsNameText : Text → Type 0
IsNameText = All IsNameByte

-- A component that the check accepts.
abbrev pub IsName : Text → Type 0
IsName [] = ⊥
IsName (c ∷ p) = IsNameText (c ∷ p)

-- The pieces between the slashes: the first, and the others.
split : Text → Text × List Text
split [] = ([], [])
split (c ∷ s) = let (p, ps) = split s in if c == b'/' then ([], p ∷ ps) else (c ∷ p, ps)

append-path-split : (s : Text) → s ≡ (split s).0 ++ path (split s).1
unfolding split
append-path-split [] = refl
append-path-split (c ∷ s) = ground (arith, append-path-split s)

IsName-text : (p : Text) → IsName p → IsNameText p
IsName-text [] h = elim h [ ]
IsName-text (c ∷ p) h = h

-- What the loop has tested when it accepts.
check_property-cons :
    (prev c : ℕ) (s : Text)
    → check_property prev (c ∷ s) ≡ valid
    → (is_property_char c ≡ true) × (check_property c s ≡ valid) × (c ≡ b'/' → prev ≢ b'/')
unfolding check_property
check_property-cons prev c s h = (ground arith, ground arith, λ e k. ground arith)

check_property-cons_valid :
    (prev c : ℕ) (s : Text)
    → is_property_char c ≡ true
    → check_property c s ≡ valid
    → (c ≡ b'/' → prev ≢ b'/')
    → check_property prev (c ∷ s) ≡ valid
unfolding check_property
check_property-cons_valid prev c s h k n = ground arith

check_property_sound :
    (prev : ℕ) (s : Text)
    → check_property prev s ≡ valid
    → IsNameText (split s).0 × All IsName (split s).1 × (prev ≡ b'/' → IsName (split s).0)
unfolding split
check_property_sound prev [] h = (tt, tt, λ e. unfold check_property in ground arith)
check_property_sound prev (c ∷ s) h =
    let (char, rest, single) = check_property-cons prev c s h in
    let (first, others, nonempty) = check_property_sound c s rest in
    elim (Bool-cases (c == b'/')) [
      | inl slash ↦
          let e : c ≡ b'/' = (==_iff c b'/').0 slash in
          rw slash (tt, (nonempty e, others), λ k. absurd (single e k))
      | inr other ↦
          let n : c ≢ b'/' = λ e. ground arith in
          rw other (
            let byte = is_property_char-IsNameByte c char n in
            ((byte, first), others, λ k. (byte, first)))
    ]

check_property_complete :
    (prev : ℕ) (p : Text) (ps : List Text)
    → IsNameText p
    → (prev ≡ b'/' → IsName p)
    → All IsName ps
    → check_property prev (p ++ path ps) ≡ valid
check_property_complete prev [] [] h f k = unfold check_property in ground (arith, ==_iff prev b'/')
check_property_complete prev [] (q ∷ ps) h f k =
    check_property-cons_valid prev b'/' _ (unfold is_property_char is_name_char in refl)
      (check_property_complete b'/' q ps (IsName-text q k.0) (λ e. k.0) k.1) (λ e m. f m)
check_property_complete prev (c ∷ p) ps h f k =
    let other = IsNameByte-slash c h.0 in
    check_property-cons_valid prev c _ (IsNameByte-is_property_char c h.0)
      (check_property_complete c p ps h.1 (λ e. absurd (other e)) k) (λ e. absurd (other e))

property_is_valid_sound :
    (s : Text)
    → property_is_valid s ≡ valid
    → (p : Text) × (ps : List Text) × All IsName (p ∷ ps) × (s ≡ path (p ∷ ps))
unfolding property_is_valid check_root
property_is_valid_sound [] h = cc
property_is_valid_sound (c ∷ []) h = ground arith
property_is_valid_sound (c ∷ d ∷ s) h =
    let slash : c ≡ b'/' = ground arith in
    let (first, others, nonempty) = check_property_sound b'/' (d ∷ s) (ground arith) in
    (
      (split (d ∷ s)).0,
      (split (d ∷ s)).1,
      (nonempty refl, others),
      ap₂ ◌∷◌ slash (append-path-split (d ∷ s)),
    )

property_is_valid-path :
    (p : Text) (ps : List Text) → All IsName (p ∷ ps) → property_is_valid (path (p ∷ ps)) ≡ valid
property_is_valid-path [] ps h = elim h.0 [ ]
property_is_valid-path (c ∷ p) ps h =
    unfold property_is_valid check_root in
    check_property_complete b'/' (c ∷ p) ps h.0 (λ e. h.0) h.1

-- A property name is accepted exactly if it is the path of at least one component, each of them
-- not empty and made of ASCII letters, digits and the marks _ - { } | , [ ] . : < >. The code
-- accepts more marks than docs/spec/general.txt allows.
pub property_is_valid_iff :
    (s : Text)
    → (property_is_valid s ≡ valid)
      ↔ ((p : Text) × (ps : List Text) × All IsName (p ∷ ps) × (s ≡ path (p ∷ ps)))
property_is_valid_iff s =
    (property_is_valid_sound s, λ (p, ps, h, e). rw e (property_is_valid-path p ps h))

Lacks-IsNameText : (p : Text) → IsNameText p → Lacks b'/' p
Lacks-IsNameText [] h = tt
Lacks-IsNameText (c ∷ p) h = (IsNameByte-slash c h.0, Lacks-IsNameText p h.1)

pub IsComponent-IsName : (p : Text) → IsName p → IsComponent p
IsComponent-IsName [] h = h
IsComponent-IsName (c ∷ p) h = (IsNameByte-slash c h.0, Lacks-IsNameText p h.1)

pub All-IsComponent : (ps : List Text) → All IsName ps → All IsComponent ps
All-IsComponent [] h = tt
All-IsComponent (p ∷ ps) h = (IsComponent-IsName p h.0, All-IsComponent ps h.1)

-- A property name that the check of the interface accepts passes `PROP_NAME_IS_VALID`, the weaker
-- check of the back end's tree.
pub prop_name_is_valid_of_valid :
    (s : Text) → property_is_valid s ≡ valid → prop_name_is_valid s ≡ true
prop_name_is_valid_of_valid s h =
    let (p, ps, names, e) = property_is_valid_sound s h in
    rw e (prop_name_is_valid-path p ps (All-IsComponent (p ∷ ps) names))

check_channel_iff : (s : Text) → (check_channel s ≡ valid) ↔ All (λ c. is_name_char c ≡ true) s
unfolding check_channel
check_channel_iff [] = (λ h. tt, λ h. refl)
check_channel_iff (c ∷ s) = ground (arith, check_channel_iff s)

-- A channel name is accepted exactly if it is not empty and each of its bytes is one that a name
-- may have.
pub channel_is_valid_iff :
    (s : Text) → (channel_is_valid s ≡ valid) ↔ ((s ≢ []) × All (λ c. is_name_char c ≡ true) s)
unfolding channel_is_valid
channel_is_valid_iff [] = ground arith
channel_is_valid_iff (c ∷ s) = ground (arith, check_channel_iff (c ∷ s))
