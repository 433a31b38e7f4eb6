-- ===== src/Backend.antt =====
-- esconfd/esconf-backend.c: the checks in front of a back end's operations. `initialize` and the
-- registration of the callback pass their arguments on and are left out.
pub mod Laws
use esconf.Prelude.{
  Text, HashTable, ◌==◌, Bool, true, false, not, ◌&&◌, ◌||◌, Option, none, some, List, [], ◌∷◌,
  if◌then◌else◌,
}
use esconf.Error.{EsconfError, internal_error, invalid_property, invalid_channel, Reply, ok, err}
use esconf.Value.{GValue}
use esconf.Names.{Check, valid, property_is_valid, channel_is_valid}

-- `EsconfBackendInterface`, for back ends with states of type `S`, all functions given. A `get_all`
-- that fails leaves the table as it was. `list_channels` is given the list that it adds to, and `flush`
-- gives its result and the error that it sets.
pub record EsconfBackendInterface (S : Type 0) : Type 0 where
  pub set : Text → Text → GValue → S → Reply (Unit {0}) × S
  pub get : Text → Text → S → Reply GValue × S
  pub get_all : Text → Text → HashTable GValue → S → Reply (HashTable GValue) × S
  pub exists : Text → Text → S → Reply Bool × S
  pub reset : Text → Text → Bool → S → Reply (Unit {0}) × S
  pub is_property_locked : Text → Text → S → Reply Bool × S
  pub list_channels : List Text → S → Reply (List Text) × S
  pub flush : S → (Bool × Option EsconfError) × S

abbrev is_valid : Check → Bool
is_valid valid = true
is_valid _ = false

-- `*s != 0`
abbrev is_nonempty : Text → Bool
is_nonempty [] = false
is_nonempty (c ∷ s) = true

-- Is it "/"?
abbrev pub is_slash : Text → Bool
is_slash [] = false
is_slash (c ∷ []) = c == b'/'
is_slash (c ∷ d ∷ s) = false

-- `esconf_channel_is_valid` and `esconf_property_is_valid` in turn
unfoldable pub check_names : Text → Text → Option EsconfError
check_names channel property =
    if not (is_valid (channel_is_valid channel))
    then some invalid_channel
    else if not (is_valid (property_is_valid property))
    then some invalid_property
    else none

-- `esconf_backend_return_val_if_fail`, and then the checks on the names
unfoldable pub check_call : Text → Text → Option EsconfError
check_call channel property =
    if not (is_nonempty channel && is_nonempty property)
    then some internal_error
    else check_names channel property

-- The checks of `esconf_backend_get_all`
unfoldable pub check_base : Text → Text → Option EsconfError
check_base channel property_base =
    if not (is_nonempty channel)
    then some internal_error
    else if not (is_valid (channel_is_valid channel))
    then some invalid_channel
    else if is_nonempty property_base
        && (not (is_slash property_base) && not (is_valid (property_is_valid property_base)))
    then some invalid_property
    else none

-- The checks of `esconf_backend_reset`
unfoldable pub check_reset : Text → Text → Bool → Option EsconfError
check_reset channel property recursive =
    if not (is_nonempty channel && is_nonempty property)
    then some internal_error
    else if not (is_valid (channel_is_valid channel))
    then some invalid_channel
    else if not recursive && (not (is_nonempty property) || is_slash property)
    then some invalid_property
    else if is_nonempty property
        && (not (is_slash property) && not (is_valid (property_is_valid property)))
    then some invalid_property
    else none

-- The error of a check, or what the back end does.
abbrev pub guarded : {A S : Type 0} → Option EsconfError → S → Reply A × S → Reply A × S
guarded none b called = called
guarded (some e) b called = (err e, b)

module _ {S : Type 0} (iface : EsconfBackendInterface S) where
  -- A value that is NULL fails the assertion.
  unfoldable pub esconf_backend_set : Text → Text → Option GValue → S → Reply (Unit {0}) × S
  esconf_backend_set channel property none b = (err internal_error, b)
  esconf_backend_set channel property (some value) b =
      guarded (check_call channel property) b (iface.set channel property value b)

  unfoldable pub esconf_backend_get : Text → Text → S → Reply GValue × S
  esconf_backend_get channel property b =
      guarded (check_call channel property) b (iface.get channel property b)

  unfoldable pub esconf_backend_get_all :
      Text → Text → HashTable GValue → S → Reply (HashTable GValue) × S
  esconf_backend_get_all channel property_base properties b =
      guarded (check_base channel property_base) b
        (iface.get_all channel property_base properties b)

  unfoldable pub esconf_backend_exists : Text → Text → S → Reply Bool × S
  esconf_backend_exists channel property b =
      guarded (check_call channel property) b (iface.exists channel property b)

  unfoldable pub esconf_backend_reset : Text → Text → Bool → S → Reply (Unit {0}) × S
  esconf_backend_reset channel property recursive b =
      guarded (check_reset channel property recursive) b (iface.reset channel property recursive b)

  -- The names are not tested to be nonempty; the checks refuse empty ones.
  unfoldable pub esconf_backend_is_property_locked : Text → Text → S → Reply Bool × S
  esconf_backend_is_property_locked channel property b =
      guarded (check_names channel property) b (iface.is_property_locked channel property b)

  -- These two have no names to check.
  unfoldable pub esconf_backend_list_channels : List Text → S → Reply (List Text) × S
  esconf_backend_list_channels channels b = iface.list_channels channels b

  unfoldable pub esconf_backend_flush : S → (Bool × Option EsconfError) × S
  esconf_backend_flush b = iface.flush b
