-- ===== src/Tests/Clients.antt =====
-- The client's channel below a property base, with a new cache.
use esconf.Prelude.{
  Text, bytes, lookup, streq, ◌≡◌, refl, true, false, Option, none, some, arith, pos,
}
use esconf.Value.{GType, GValue, int}
use esconf.Value.Variant.{ToVariant, class_int32, int32_type, esconf_gvalue_to_gvariant}
use esconf.Cache.{Answer, failure, esconf_cache_new, tree_lookup}
use esconf.Cache.Change.{is_unchanged}
use esconf.Cache.Optimistic.{IsKnown, Shows, settled}
use esconf.Channel.{EsconfChannel, real_prop, set_internal, property_changed}
use esconf.Channel.ReadBack.{IsReadBack, set_internal-IsReadBack}
use esconf.Tests.Platforms.{test_platform}
use esconf.Tests.Channels.{ch}

abbrev channel : EsconfChannel
channel = record {
  channel_name = ch;
  property_base = some (bytes "/base");
  cache = esconf_cache_new ch;
}

abbrev a : Text
a = bytes "/a"

-- No value is transformed, and the integers have a variant.
abbrev transform : GValue → GType → Option GValue
transform v type = none

abbrev test_dbus : ToVariant
test_dbus (int z) int32_type = some (class_int32 z)
test_dbus v type = none

abbrev not_found : Answer
not_found = failure (some (bytes "com.expidus.Esconf.Error.PropertyNotFound"))

a-IsKnown : IsKnown not_found (tree_lookup (real_prop channel a) channel.cache.properties)
unfolding lookup tree_lookup esconf.Cache.Change.is_not_found esconf.Value.strcmp0 streq
a-IsKnown = refl

a-Shows : Shows (real_prop channel a) channel.cache (settled none)
unfolding lookup tree_lookup
a-Shows = (refl, refl)

a-sendable : esconf_gvalue_to_gvariant test_dbus (int (pos 7)) ≡ some (class_int32 (pos 7))
unfolding esconf_gvalue_to_gvariant esconf.Value.Variant.esconf_basic_gvalue_to_gvariant
    esconf.Value.Variant.basic_type
a-sendable = refl

a_changed : is_unchanged test_platform none (int (pos 7)) ≡ false
unfolding is_unchanged
a_changed = refl

set_internal-IsReadBack_example :
    (channel' : EsconfChannel) × (set_internal transform not_found test_platform test_dbus a
        (int (pos 7))
        channel
      ≡ some (true, channel'))
    × IsReadBack transform not_found a (pos 0) 0 false none (int (pos 7)) channel'
    × (property_changed ch (real_prop channel a) channel' ≡ some a)
set_internal-IsReadBack_example =
    set_internal-IsReadBack test_platform transform test_dbus a (int (pos 7)) not_found not_found
      (class_int32 (pos 7)) channel (settled none) (pos 0) 0 false none (λ e. ground (arith, e))
      a-IsKnown a-sendable a_changed a-Shows
