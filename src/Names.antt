-- ===== src/Names.antt =====
-- The checks on names of esconfd/esconf-backend.c, and `PROP_NAME_IS_VALID` of
-- esconfd/esconf-backend-perchannel-xml.c.
pub mod Paths
pub mod Laws
use esconf.Prelude.{
  Text, has_double_slash, ℕ, ◌==◌, leb, Bool, true, false, not, ◌&&◌, ◌||◌, List, [], ◌∷◌,
  if◌then◌else◌,
}

-- The error codes that the checks set, or success.
pub data Check : Type 0 where
  valid : Check
  no_leading_slash is_root bad_character double_slash trailing_slash empty_channel : Check

-- A byte that a channel name may have.
unfoldable pub is_name_char : ℕ → Bool
is_name_char c =
    leb b'A' c && leb c b'Z'
    || (leb b'a' c && leb c b'z'
        || (leb b'0' c && leb c b'9'
            || (c == b'_'
                || (c == b'-'
                    || (c == b'{'
                        || (c == b'}'
                            || (c == b'|'
                                || (c == b','
                                    || (c == b'['
                                        || (c == b']' || (c == b'.' || c == b':')))))))))))

-- A byte that a property name may have: the same, `/`, `<` and `>`.
unfoldable pub is_property_char : ℕ → Bool
is_property_char c = is_name_char c || (c == b'/' || (c == b'<' || c == b'>'))

-- The loop `while(*p)`, where `prev` is `*(p-1)`, and the test on the last byte.
unfoldable pub check_property : ℕ → Text → Check
check_property prev [] = if prev == b'/' then trailing_slash else valid
check_property prev (c ∷ s) =
    let rest = check_property c s in
    if not (is_property_char c)
    then bad_character
    else if c == b'/' && prev == b'/'
    then double_slash
    else rest

-- The test behind the first slash.
unfoldable pub check_root : Text → Check
check_root [] = is_root
check_root (d ∷ s) = check_property b'/' (d ∷ s)

-- `esconf_property_is_valid`
unfoldable pub property_is_valid : Text → Check
property_is_valid [] = no_leading_slash
property_is_valid (c ∷ s) = if c == b'/' then check_root s else no_leading_slash

-- The loop of `esconf_channel_is_valid`.
unfoldable pub check_channel : Text → Check
check_channel [] = valid
check_channel (c ∷ s) = let rest = check_channel s in if is_name_char c then rest else bad_character

-- `esconf_channel_is_valid`
unfoldable pub channel_is_valid : Text → Check
channel_is_valid [] = empty_channel
channel_is_valid (c ∷ s) = check_channel (c ∷ s)

-- `PROP_NAME_IS_VALID(name)`
unfoldable pub prop_name_is_valid : Text → Bool
unfolding has_double_slash
prop_name_is_valid [] = false
prop_name_is_valid (c ∷ []) = false
prop_name_is_valid (c ∷ d ∷ s) = c == b'/' && not (has_double_slash (c ∷ d ∷ s))
