-- ===== src/Perchannel/Operations.antt =====
-- `set`, `get`, `get_all`, `exists` and `is_property_locked` of the back end.
use esconf.Prelude.{Text, HashTable, ◌||◌, Bool, true, false, none, some, [], ◌∷◌, if◌then◌else◌}
use esconf.Platform.{Platform}
use esconf.Error.{channel_not_found, property_not_found, permission_denied, Reply, ok, err, crash}
use esconf.Value.{GValue, unset, is_set, gvalue_is_equal}
use esconf.Tree.{Node, lookup_node, lookup_prop, add_property, strlcpy}
use esconf.Tree.Traverse.{value_to_get, node_to_hash_table, leave_path}
use esconf.Loader.{Channel}
use esconf.Loader.PropertyElem.{edit_prop}
use esconf.Perchannel.{
  Xbpx, Op, Opened, opened, missing, dead, signal, schedule_save, open_channel, create_channel,
}

abbrev pub with_properties : Node → Channel → Channel
with_properties tree channel = record channel { properties = tree }

-- Is it the empty text, or a text of one byte?
abbrev pub is_whole_channel : Text → Bool
is_whole_channel [] = true
is_whole_channel (c ∷ []) = true
is_whole_channel (c ∷ d ∷ s) = false

module _ (p : Platform) where
  -- The change, its signal, and the save that it schedules.
  abbrev pub commit : Text → Text → Text → Node → Channel → Xbpx → Op (Unit {0})
  commit key channel_name property tree channel x =
      (ok tt, schedule_save key (with_properties tree channel) (signal channel_name property x))

  unfoldable pub set_in : Text → Text → Text → GValue → Channel → Xbpx → Op (Unit {0})
  set_in key channel_name property value channel x =
      elim (lookup_prop p channel.properties property) [
        | none ↦
            commit key channel_name property
              (add_property p channel.properties property value false) channel x
        | some q ↦
            if q.locked
            then (err permission_denied, x)
            else if gvalue_is_equal p (value_to_get q) value
            then (ok tt, x)
            else commit key channel_name property
                (edit_prop p property (λ r. record r { value = value }) channel.properties) channel
                x
      ]

  -- Where the loader finds nothing, `set` creates the channel.
  abbrev pub create_missing : Text → Opened × Xbpx → Opened × Xbpx
  create_missing channel_name (missing, x) = create_channel p channel_name x
  create_missing channel_name o = o

  unfoldable pub open_or_create : Text → Xbpx → Opened × Xbpx
  open_or_create channel_name x = create_missing channel_name (open_channel p channel_name x)

  abbrev pub set_opened : Text → Text → GValue → Opened × Xbpx → Op (Unit {0})
  set_opened channel_name property value (opened key channel, x) =
      set_in key channel_name property value channel x
  set_opened channel_name property value (missing, x) = (crash, x)
  set_opened channel_name property value (dead, x) = (crash, x)

  -- `esconf_backend_perchannel_xml_set`
  unfoldable pub set : Text → Text → GValue → Xbpx → Op (Unit {0})
  set channel_name property value x =
      set_opened channel_name property value (open_or_create channel_name x)

  -- The value that a look-up shows; unset where there is no property.
  unfoldable pub shown_value : Node → Text → GValue
  shown_value tree property = elim (lookup_prop p tree property) [
    | none ↦ unset
    | some q ↦ value_to_get q
  ]

  abbrev pub get_in : Text → Channel → Reply GValue
  get_in property channel =
      let v = shown_value channel.properties property in
      if is_set v then ok v else err property_not_found

  abbrev pub get_opened : Text → Opened × Xbpx → Op GValue
  get_opened property (opened key channel, x) = (get_in property channel, x)
  get_opened property (missing, x) = (err channel_not_found, x)
  get_opened property (dead, x) = (crash, x)

  -- `esconf_backend_perchannel_xml_get`
  unfoldable pub get : Text → Text → Xbpx → Op GValue
  get channel_name property x = get_opened property (open_channel p channel_name x)

  abbrev pub exists_in : Text → Channel → Bool
  exists_in property channel = elim (lookup_prop p channel.properties property) [
    | none ↦ false
    | some q ↦ is_set q.value || is_set q.system_value
  ]

  abbrev pub exists_opened : Text → Opened × Xbpx → Op Bool
  exists_opened property (opened key channel, x) = (ok (exists_in property channel), x)
  exists_opened property (missing, x) = (ok false, x)
  exists_opened property (dead, x) = (crash, x)

  -- `esconf_backend_perchannel_xml_exists`
  unfoldable pub exists : Text → Text → Xbpx → Op Bool
  exists channel_name property x = exists_opened property (open_channel p channel_name x)

  abbrev pub locked_in : Text → Channel → Bool
  locked_in property channel =
      if channel.locked
      then true
      else elim (lookup_prop p channel.properties property) [ none ↦ false | some q ↦ q.locked ]

  abbrev pub locked_opened : Text → Opened × Xbpx → Op Bool
  locked_opened property (opened key channel, x) = (ok (locked_in property channel), x)
  locked_opened property (missing, x) = (err channel_not_found, x)
  locked_opened property (dead, x) = (crash, x)

  -- `esconf_backend_perchannel_xml_is_property_locked`
  unfoldable pub is_property_locked : Text → Text → Xbpx → Op Bool
  is_property_locked channel_name property x =
      locked_opened property (open_channel p channel_name x)

  -- The table is the caller's, and keeps what it holds on an error.
  unfoldable pub get_all_in : Text → Channel → HashTable GValue → Reply (HashTable GValue)
  get_all_in property_base channel properties =
      if is_whole_channel property_base
      then ok ((node_to_hash_table channel.properties properties []).0)
      else elim (lookup_node p channel.properties property_base) [
        | none ↦ err property_not_found
        | some n ↦ ok ((node_to_hash_table n properties (leave_path (strlcpy property_base))).0)
      ]

  abbrev pub get_all_opened : Text → HashTable GValue → Opened × Xbpx → Op (HashTable GValue)
  get_all_opened property_base properties (opened key channel, x) =
      (get_all_in property_base channel properties, x)
  get_all_opened property_base properties (missing, x) = (err channel_not_found, x)
  get_all_opened property_base properties (dead, x) = (crash, x)

  -- `esconf_backend_perchannel_xml_get_all`
  unfoldable pub get_all : Text → Text → HashTable GValue → Xbpx → Op (HashTable GValue)
  get_all channel_name property_base properties x =
      get_all_opened property_base properties (open_channel p channel_name x)
