-- ===== src/Cache/Signals.antt =====
-- The daemon's signals as the cache takes them, esconf_cache_proxy_signal_received_cb.
use esconf.Prelude.{
  Text, bytes, streq, lookup, insert, remove, Bool, true, false, not, Option, none, some,
  if◌then◌else◌, is_some,
}
use esconf.Platform.{Platform}
use esconf.Value.{GValue, unset}
use esconf.Value.Variant.{GVariant, esconf_gvariant_to_gvalue}
use esconf.Cache.{Client, tree_lookup, esconf_cache_item_update}
use esconf.Cache.Change.{emit}

-- The parameters of a signal by their type: "(ssv)", "(ss)", or another one.
pub data Parameters : Type 0 where
  ssv : Text → Text → GVariant → Parameters
  ss : Text → Text → Parameters
  other_type : Parameters

-- What becomes of an item, and whether that is a change. A new item is NULL where the value is.
unfoldable pub item_changed : Platform → Option GValue → Option GValue → Bool × Option GValue
item_changed p (some item) value =
    let updated = esconf_cache_item_update p item value in (updated.0, some updated.1)
item_changed p none value = (true, value)

abbrev pub store_changed : Text → Option GValue → Bool × Option GValue → Client → Client
store_changed property value (true, item) c =
    emit property value (record c { properties = insert property item c.properties })
store_changed property value (false, item) c = record c {
  properties = insert property item c.properties;
}

-- `esconf_cache_handle_property_changed`. A property with a call on its way is passed over.
unfoldable pub handle_property_changed : Platform → Parameters → Client → Client
handle_property_changed p (ssv channel property variant) c =
    if not (streq channel c.channel_name)
    then c
    else if is_some (lookup property c.old_properties)
    then c
    else let value = esconf_gvariant_to_gvalue variant in
      store_changed property value (item_changed p (tree_lookup property c.properties) value) c
handle_property_changed p _ c = c

-- `esconf_cache_handle_property_removed`
unfoldable pub handle_property_removed : Parameters → Client → Client
handle_property_removed (ss channel property) c =
    if not (streq channel c.channel_name)
    then c
    else emit property (some unset) (record c { properties = remove property c.properties })
handle_property_removed _ c = c

-- `esconf_cache_proxy_signal_received_cb`
unfoldable pub proxy_signal_received : Platform → Text → Parameters → Client → Client
proxy_signal_received p signal_name parameters c =
    if streq signal_name (bytes "PropertyChanged")
    then handle_property_changed p parameters c
    else if streq signal_name (bytes "PropertyRemoved")
    then handle_property_removed parameters c
    else c
