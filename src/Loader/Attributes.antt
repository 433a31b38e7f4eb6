-- ===== src/Loader/Attributes.antt =====
-- The attribute loops at the head of the three handlers. A later attribute of a name wins, and an
-- attribute of another name is an error.
use esconf.Prelude.{
  Text, bytes, streq, Bool, true, false, Option, none, some, List, [], ◌∷◌, if◌then◌else◌,
}

-- The variables of a handler that the loop assigns.
pub record Attributes : Type 0 where
  pub name : Option Text
  pub version : Option Text
  pub type : Option Text
  pub value : Option Text
  pub locked : Option Text
  pub unlocked : Option Text

abbrev pub no_attributes : Attributes
no_attributes = record {
  name = none;
  version = none;
  type = none;
  value = none;
  locked = none;
  unlocked = none;
}

-- `s && *s`
abbrev pub is_given : Option Text → Bool
is_given none = false
is_given (some []) = false
is_given (some (c ∷ s)) = true

unfoldable pub channel_attribute : Text → Text → Attributes → Option Attributes
channel_attribute key v a =
    if streq key (bytes "name")
    then some (record a { name = some v })
    else if streq key (bytes "version")
    then some (record a { version = some v })
    else if streq key (bytes "locked")
    then some (record a { locked = some v })
    else if streq key (bytes "unlocked")
    then some (record a { unlocked = some v })
    else none

unfoldable pub property_attribute : Text → Text → Attributes → Option Attributes
property_attribute key v a =
    if streq key (bytes "name")
    then some (record a { name = some v })
    else if streq key (bytes "type")
    then some (record a { type = some v })
    else if streq key (bytes "value")
    then some (record a { value = some v })
    else if streq key (bytes "locked")
    then some (record a { locked = some v })
    else if streq key (bytes "unlocked")
    then some (record a { unlocked = some v })
    else none

unfoldable pub value_attribute : Text → Text → Attributes → Option Attributes
value_attribute key v a =
    if streq key (bytes "type")
    then some (record a { type = some v })
    else if streq key (bytes "value")
    then some (record a { value = some v })
    else none

-- The loop, for one of the three tests on a name.
unfoldable pub scan_attributes :
    (Text → Text → Attributes → Option Attributes)
    → List (Text × Text)
    → Attributes
    → Option Attributes
scan_attributes test [] a = some a
scan_attributes test ((key, v) ∷ attributes) a = elim (test key v a) [
  | none ↦ none
  | some a' ↦ scan_attributes test attributes a'
]
