-- ===== src/Channel.antt =====
-- The client's channel, esconf/esconf-channel.c: the names below a property base, the two functions
-- that every getter and setter goes through, the typed ones, and the signal.
pub mod ReadBack
use esconf.Prelude.{
  Text, bytes, streq, ℕ, ◌==◌, ℤ, Bool, true, false, not, ◌||◌, Option, none, some, ◌>>=◌, List, [],
  ◌∷◌, ◌++◌, if◌then◌else◌,
}
use esconf.Platform.{Platform}
use esconf.Value.{GType, GValue, g_value_type, unset, string, uint, uint64, int, double, boolean}
use esconf.Value.Variant.{ToVariant}
use esconf.Cache.{Client, Answer, Lookup, esconf_cache_lookup}
use esconf.Cache.Change.{esconf_cache_set}
use esconf.Cache.Evict.{esconf_cache_reset}

-- `_EsconfChannel`
pub record EsconfChannel : Type 0 where
  pub channel_name : Text
  pub property_base : Option Text
  pub cache : Client

-- `REAL_PROP`
abbrev pub below_base : Option Text → Text → Text
below_base none property = property
below_base (some base) property = base ++ property

abbrev pub real_prop : EsconfChannel → Text → Text
real_prop channel property = below_base channel.property_base property

-- `g_str_has_prefix`, and what stands behind the prefix.
unfoldable pub behind_prefix : Text → Text → Option Text
behind_prefix [] property = some property
behind_prefix (c ∷ base) [] = none
behind_prefix (c ∷ base) (d ∷ property) =
    let rest = behind_prefix base property in if c == d then rest else none

-- `if(!*property) property = "/"`
abbrev pub or_slash : Text → Text
or_slash [] = bytes "/"
or_slash (c ∷ property) = c ∷ property

abbrev pub name_in_signal : Option Text → Text → Option Text
name_in_signal none property = some property
name_in_signal (some base) property = behind_prefix base property >>= λ rest. some (or_slash rest)

-- `esconf_channel_property_changed`: the property that the channel's signal names, if it emits one.
unfoldable pub property_changed : Text → Text → EsconfChannel → Option Text
property_changed channel_name property channel =
    if not (streq channel_name channel.channel_name)
    then none
    else name_in_signal channel.property_base property

abbrev pub with_cache : EsconfChannel → Bool × Client → Bool × EsconfChannel
with_cache channel (ret, c) = (ret, record channel { cache = c })

-- Has a name two bytes, as more than "/" has?
abbrev is_long : Text → Bool
is_long (c ∷ d ∷ property) = true
is_long _ = false

-- `esconf_channel_reset_property`, where `ret` is whether the daemon carries the call out.
unfoldable pub esconf_channel_reset_property : Text → Bool → Bool → EsconfChannel → EsconfChannel
esconf_channel_reset_property property_base recursive ret channel =
    if is_long property_base || recursive
    then (with_cache channel
        (esconf_cache_reset (real_prop channel property_base) recursive ret channel.cache)).1
    else channel

-- `g_value_transform`, and what the daemon answers where the cache asks it.
module _ (transform : GValue → GType → Option GValue) (reply : Answer) where
  -- `esconf_channel_set_internal`
  unfoldable pub set_internal :
      Platform → ToVariant → Text → GValue → EsconfChannel → Option (Bool × EsconfChannel)
  set_internal p dbus property value channel =
      esconf_cache_set p transform dbus (real_prop channel property) value reply channel.cache
      >>= λ done. some (with_cache channel done)

  -- The caller's value behind a look-up into a value without a type.
  abbrev found_value : Option GValue → GValue
  found_value none = unset
  found_value (some v) = v

  abbrev transformed : GValue → Option GValue → Bool × GValue
  transformed value none = (false, value)
  transformed value (some v) = (true, v)

  abbrev pub value_for : GValue → Lookup → Bool × GValue
  value_for unset l = (l.ret, found_value l.value)
  value_for value l =
      if l.ret
      then transformed value (transform (found_value l.value) (g_value_type value))
      else (false, value)

  -- `esconf_channel_get_internal`
  unfoldable pub get_internal : Text → GValue → EsconfChannel → (Bool × GValue) × EsconfChannel
  get_internal property value channel =
      let (l, c) =
        esconf_cache_lookup transform (real_prop channel property) reply (some unset)
          channel.cache in
      (value_for value l, record channel { cache = c })

  unfoldable pub esconf_channel_has_property : Text → EsconfChannel → Bool × EsconfChannel
  esconf_channel_has_property property channel =
      let (l, c) =
        esconf_cache_lookup transform (real_prop channel property) reply none channel.cache in
      (l.ret, record channel { cache = c })

  -- A getter gives the value, if it is there and has the type, and the default one otherwise.
  abbrev pub int_of : ℤ → Bool × GValue → ℤ
  int_of default_value (true, int z) = z
  int_of default_value _ = default_value

  abbrev pub uint_of : ℕ → Bool × GValue → ℕ
  uint_of default_value (true, uint n) = n
  uint_of default_value _ = default_value

  abbrev pub uint64_of : ℕ → Bool × GValue → ℕ
  uint64_of default_value (true, uint64 n) = n
  uint64_of default_value _ = default_value

  abbrev pub double_of : ℕ → Bool × GValue → ℕ
  double_of default_value (true, double x) = x
  double_of default_value _ = default_value

  abbrev pub bool_of : Bool → Bool × GValue → Bool
  bool_of default_value (true, boolean b) = b
  bool_of default_value _ = default_value

  abbrev pub string_of : Option Text → Bool × GValue → Option Text
  string_of default_value (true, string (some s)) = some s
  string_of default_value _ = default_value

  -- What a getter makes of the value that is shown.
  abbrev got : {A : Type 0} → (Bool × GValue → A) → Text → EsconfChannel → A × EsconfChannel
  got read property channel =
      let (found, channel') = get_internal property unset channel in (read found, channel')

  unfoldable pub esconf_channel_get_string :
      Text → Option Text → EsconfChannel → Option Text × EsconfChannel
  esconf_channel_get_string property default_value = got (string_of default_value) property

  unfoldable pub esconf_channel_get_int : Text → ℤ → EsconfChannel → ℤ × EsconfChannel
  esconf_channel_get_int property default_value = got (int_of default_value) property

  unfoldable pub esconf_channel_get_uint : Text → ℕ → EsconfChannel → ℕ × EsconfChannel
  esconf_channel_get_uint property default_value = got (uint_of default_value) property

  unfoldable pub esconf_channel_get_uint64 : Text → ℕ → EsconfChannel → ℕ × EsconfChannel
  esconf_channel_get_uint64 property default_value = got (uint64_of default_value) property

  unfoldable pub esconf_channel_get_double : Text → ℕ → EsconfChannel → ℕ × EsconfChannel
  esconf_channel_get_double property default_value = got (double_of default_value) property

  unfoldable pub esconf_channel_get_bool : Text → Bool → EsconfChannel → Bool × EsconfChannel
  esconf_channel_get_bool property default_value = got (bool_of default_value) property

  -- The setters; `utf8` is `g_utf8_validate`.
  abbrev pub esconf_channel_set_string :
      (Text → Bool)
      → Platform
      → ToVariant
      → Text
      → Option Text
      → EsconfChannel
      → Option (Bool × EsconfChannel)
  esconf_channel_set_string utf8 p dbus property none channel =
      set_internal p dbus property (string none) channel
  esconf_channel_set_string utf8 p dbus property (some s) channel =
      if utf8 s
      then set_internal p dbus property (string (some s)) channel
      else some (false, channel)

  abbrev pub esconf_channel_set_int :
      Platform → ToVariant → Text → ℤ → EsconfChannel → Option (Bool × EsconfChannel)
  esconf_channel_set_int p dbus property value = set_internal p dbus property (int value)

  abbrev pub esconf_channel_set_uint :
      Platform → ToVariant → Text → ℕ → EsconfChannel → Option (Bool × EsconfChannel)
  esconf_channel_set_uint p dbus property value = set_internal p dbus property (uint value)

  abbrev pub esconf_channel_set_uint64 :
      Platform → ToVariant → Text → ℕ → EsconfChannel → Option (Bool × EsconfChannel)
  esconf_channel_set_uint64 p dbus property value = set_internal p dbus property (uint64 value)

  abbrev pub esconf_channel_set_double :
      Platform → ToVariant → Text → ℕ → EsconfChannel → Option (Bool × EsconfChannel)
  esconf_channel_set_double p dbus property value = set_internal p dbus property (double value)

  abbrev pub esconf_channel_set_bool :
      Platform → ToVariant → Text → Bool → EsconfChannel → Option (Bool × EsconfChannel)
  esconf_channel_set_bool p dbus property value = set_internal p dbus property (boolean value)
