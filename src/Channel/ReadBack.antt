-- ===== src/Channel/ReadBack.antt =====
-- What a client reads of a value that it has just set, and the names of the signals for it.
use esconf.Prelude.{
  Text, streq_refl, ℕ, ℤ, ◌≡◌, ◌≢◌, refl, ◌∙◌, Bool, true, false, Option, none, some, [], ◌∷◌, ◌++◌,
  arith,
}
use esconf.Platform.{Platform}
use esconf.Value.{GType, GValue, unset, string, uint, uint64, int, double, boolean}
use esconf.Value.Variant.{ToVariant, GVariant, esconf_gvalue_to_gvariant}
use esconf.Cache.{
  Answer, tree_lookup, copy_item, give_item, fetch_item, esconf_cache_lookup,
  esconf_cache_lookup_locked,
}
use esconf.Cache.Change.{is_unchanged}
use esconf.Cache.Optimistic.{
  Transaction, Shows, change, shown, shown-lookup, IsKnown, esconf_cache_set-Shows,
}
use esconf.Channel.{
  EsconfChannel, real_prop, behind_prefix, name_in_signal, property_changed, set_internal,
  get_internal, esconf_channel_has_property, esconf_channel_get_string, esconf_channel_get_int,
  esconf_channel_get_uint, esconf_channel_get_uint64, esconf_channel_get_double,
  esconf_channel_get_bool,
}

module _ (transform : GValue → GType → Option GValue) (again : Answer) where
  get_internal-shown :
      (property : Text) (value : GValue) (channel : EsconfChannel)
      → tree_lookup (real_prop channel property) channel.cache.properties ≡ some value
      → (get_internal transform again property unset channel).0 ≡ (true, value)
  unfolding get_internal esconf_cache_lookup esconf_cache_lookup_locked give_item fetch_item
      copy_item
  get_internal-shown property value channel e = rw e refl

-- The typed getter of a value gives it, whatever the default is.
abbrev pub IsReadBack :
    (GValue → GType → Option GValue)
    → Answer
    → Text
    → ℤ
    → ℕ
    → Bool
    → Option Text
    → GValue
    → EsconfChannel
    → Type 0
IsReadBack transform again property z n b s (int value) channel =
    (esconf_channel_get_int transform again property z channel).0 ≡ value
IsReadBack transform again property z n b s (uint value) channel =
    (esconf_channel_get_uint transform again property n channel).0 ≡ value
IsReadBack transform again property z n b s (uint64 value) channel =
    (esconf_channel_get_uint64 transform again property n channel).0 ≡ value
IsReadBack transform again property z n b s (double value) channel =
    (esconf_channel_get_double transform again property n channel).0 ≡ value
IsReadBack transform again property z n b s (boolean value) channel =
    (esconf_channel_get_bool transform again property b channel).0 ≡ value
IsReadBack transform again property z n b s (string (some value)) channel =
    (esconf_channel_get_string transform again property s channel).0 ≡ some value
IsReadBack transform again property z n b s value channel =
    (get_internal transform again property unset channel).0 ≡ (true, value)

get_internal-IsReadBack :
    (transform : GValue → GType → Option GValue) (again : Answer) (property : Text) (z : ℤ) (n : ℕ)
    (b : Bool) (s : Option Text) (value : GValue) (channel : EsconfChannel)
    → (get_internal transform again property unset channel).0 ≡ (true, value)
    → IsReadBack transform again property z n b s value channel
unfolding esconf_channel_get_string esconf_channel_get_int esconf_channel_get_uint
    esconf_channel_get_uint64 esconf_channel_get_double esconf_channel_get_bool
get_internal-IsReadBack transform again property z n b s (int value) channel e = rw e refl
get_internal-IsReadBack transform again property z n b s (uint value) channel e = rw e refl
get_internal-IsReadBack transform again property z n b s (uint64 value) channel e = rw e refl
get_internal-IsReadBack transform again property z n b s (double value) channel e = rw e refl
get_internal-IsReadBack transform again property z n b s (boolean value) channel e = rw e refl
get_internal-IsReadBack transform again property z n b s (string (some value)) channel e = rw e refl
get_internal-IsReadBack transform again property z n b s (string none) channel e = e
get_internal-IsReadBack transform again property z n b s _ channel e = e

behind_prefix-append :
    (base property : Text) → behind_prefix base (base ++ property) ≡ some property
unfolding behind_prefix
behind_prefix-append [] property = refl
behind_prefix-append (c ∷ base) property = ground (arith, behind_prefix-append base property)

property_changed-real_prop :
    (property : Text) (channel : EsconfChannel)
    → property ≢ []
    → property_changed channel.channel_name (real_prop channel property) channel ≡ some property
unfolding property_changed
property_changed-real_prop property channel given =
    rw (streq_refl channel.channel_name) (go channel.property_base property given)
  where
    go :
        (base : Option Text) (property : Text)
        → property ≢ []
        → name_in_signal base (esconf.Channel.below_base base property) ≡ some property
    go none property given = refl
    go (some base) [] given = absurd (given refl)
    go (some base) (c ∷ property) given = rw (behind_prefix-append base (c ∷ property)) refl

shown-change : (value : GValue) (t : Transaction) → shown (change value t) ≡ some value
shown-change value (Transaction.settled item) = refl
shown-change value (Transaction.changing old item n) = refl

-- A client that sets a value reads it back.
pub set_internal-IsReadBack :
    (p : Platform) (transform : GValue → GType → Option GValue) (dbus : ToVariant) (property : Text)
    (value : GValue) (reply again : Answer) (val : GVariant) (channel : EsconfChannel)
    (t : Transaction) (z : ℤ) (n : ℕ) (b : Bool) (s : Option Text)
    → property ≢ []
    → IsKnown reply (tree_lookup (real_prop channel property) channel.cache.properties)
    → esconf_gvalue_to_gvariant dbus value ≡ some val
    → is_unchanged p (shown t) value ≡ false
    → Shows (real_prop channel property) channel.cache t
    → (channel' : EsconfChannel) × (set_internal transform reply p dbus property value channel
        ≡ some (true, channel'))
      × IsReadBack transform again property z n b s value channel'
      × (property_changed channel.channel_name (real_prop channel property) channel'
          ≡ some property)
unfolding set_internal
set_internal-IsReadBack p transform dbus property value reply again val channel t z n b s given
      known sendable new h =
    let (c', done, h') =
      esconf_cache_set-Shows p transform dbus (real_prop channel property) value reply val
        channel.cache t known sendable new h in
    let channel' = record channel { cache = c' } in
    (
      channel',
      rw done refl,
      get_internal-IsReadBack transform again property z n b s value channel' (
          get_internal-shown transform again property value channel' (
            shown-lookup (real_prop channel property) c' (change value t) h'
            ∙ shown-change value t)),
      property_changed-real_prop property channel' given,
    )
