-- ===== src/Daemon/Bus.antt =====
-- What esconfd/esconf-daemon.c sends on the bus: the replies with variants, the list of channels, the
-- signals that its idle handler emits, and what it does when the bus is gone.
use esconf.Prelude.{
  Text, HashTable, Bool, false, Option, none, some, List, [], ◌∷◌, ◌++◌, if◌then◌else◌,
}
use esconf.Error.{EsconfError, internal_error, Reply, ok, err, crash}
use esconf.Value.{GValue, is_set}
use esconf.Value.Variant.{
  ToVariant, GVariant, boxed, esconf_gvalue_to_gvariant, esconf_hash_to_gvariant,
  esconf_gvariant_to_gvalue,
}
use esconf.Backend.{
  EsconfBackendInterface, esconf_backend_get, esconf_backend_list_channels, esconf_backend_flush,
}
use esconf.Daemon.{
  EsconfDaemon, all_backends, to_daemon, visited, locks_checked, esconf_set_property,
  esconf_get_property, esconf_get_all_properties,
}

-- The reply with a value, which has no variant if its type has none on the bus.
abbrev pub value_reply : ToVariant → Reply GValue → Reply GVariant
value_reply dbus (ok v) = elim (esconf_gvalue_to_gvariant dbus v) [
  | some variant ↦ ok (boxed variant)
  | none ↦ err internal_error
]
value_reply dbus (err e) = err e
value_reply dbus crash = crash

-- The reply with the table, an "a{sv}" by its entries.
abbrev pub table_reply : ToVariant → Reply (HashTable GValue) → Reply (List (Text × GVariant))
table_reply dbus (ok properties) = ok (esconf_hash_to_gvariant dbus properties)
table_reply dbus (err e) = err e
table_reply dbus crash = crash

-- The signals of the daemon.
pub data Signal : Type 0 where
  property_changed : Text → Text → GVariant → Signal
  property_removed : Text → Text → Signal

-- The channels that are listed, and the error that the last back end leaves: those of the others are
-- cleared.
abbrev pub Listing : Type 0
Listing = List Text × Option EsconfError

abbrev in_front : {S : Type 0} → List Text → Reply Listing × List S → Reply Listing × List S
in_front channels (ok (others, error), bs) = (ok (channels ++ others, error), bs)
in_front channels rest = rest

-- One round of the loop, with what the others would do.
abbrev pub after_list :
    {S : Type 0} → Reply (List Text) × S → List S → Reply Listing × List S → Reply Listing × List S
after_list (ok channels, b) bs rest = visited b (in_front channels rest)
after_list (crash, b) bs rest = (crash, b ∷ bs)
after_list (err e, b) [] rest = (ok ([], some e), b ∷ [])
after_list (err e, b) (c ∷ bs) rest = visited b rest

-- `error && !lchannels`
abbrev pub list_reply : Reply Listing → Reply (List Text)
list_reply (ok ([], some e)) = err e
list_reply (ok (channels, _)) = ok channels
list_reply (err e) = err e
list_reply crash = crash

module _ {S : Type 0} (iface : EsconfBackendInterface S) where
  -- The loop of `esconf_list_channels`.
  unfoldable pub list_all : List S → Reply Listing × List S
  list_all [] = (ok ([], none), [])
  list_all (b ∷ bs) = after_list (esconf_backend_list_channels iface [] b) bs (list_all bs)

  unfoldable pub esconf_list_channels : EsconfDaemon S → Reply (List Text) × EsconfDaemon S
  esconf_list_channels d = let (r, bs) = list_all (all_backends d) in to_daemon d (list_reply r, bs)

  -- The loop of `esconf_daemon_handle_dbus_disconnect`. A failure without an error ends the process,
  -- as its message is read.
  unfoldable pub flush_backends : List S → Reply (Unit {0}) × List S
  flush_backends [] = (ok tt, [])
  flush_backends (b ∷ bs) =
      let rest = flush_backends bs in let (r, b') = esconf_backend_flush iface b in go r b' bs rest
    where
      go :
          Bool × Option EsconfError
          → S
          → List S
          → Reply (Unit {0}) × List S
          → Reply (Unit {0}) × List S
      go (false, none) b' bs rest = (crash, b' ∷ bs)
      go _ b' bs rest = visited b' rest

  unfoldable pub handle_dbus_disconnect : EsconfDaemon S → Reply (Unit {0}) × EsconfDaemon S
  handle_dbus_disconnect d = to_daemon d (flush_backends (all_backends d))

  -- `esconf_set_property` with the variant of the caller. A variant of another type has no value: where
  -- the locks let the call pass, the back end refuses it, and `g_value_unset` then reads the NULL
  -- pointer.
  abbrev unset_value :
      Option GValue
      → Reply (Unit {0})
      → Reply (Unit {0}) × EsconfDaemon S
      → Reply (Unit {0}) × EsconfDaemon S
  unset_value none (ok tt) (r, d) = (crash, d)
  unset_value value checked done = done

  unfoldable pub handle_set_property :
      Text → Text → GVariant → EsconfDaemon S → Reply (Unit {0}) × EsconfDaemon S
  handle_set_property channel property variant d =
      let value = esconf_gvariant_to_gvalue variant in
      unset_value value (locks_checked iface channel property d.first d.next).0
        (esconf_set_property iface channel property value d)

  unfoldable pub handle_get_property :
      ToVariant → Text → Text → EsconfDaemon S → Reply GVariant × EsconfDaemon S
  handle_get_property dbus channel property d =
      let (r, d') = esconf_get_property iface channel property d in (value_reply dbus r, d')

  unfoldable pub handle_get_all_properties :
      ToVariant → Text → Text → EsconfDaemon S → Reply (List (Text × GVariant)) × EsconfDaemon S
  handle_get_all_properties dbus channel property_base d =
      let (r, d') = esconf_get_all_properties iface channel property_base d in
      (table_reply dbus r, d')

  -- The signal for what a back end has of a property.
  abbrev pub signal_of : ToVariant → Text → Text → Reply GValue → Reply (Option Signal)
  signal_of dbus channel property crash = crash
  signal_of dbus channel property (err e) = ok (some (property_removed channel property))
  signal_of dbus channel property (ok v) =
      if is_set v
      then elim (esconf_gvalue_to_gvariant dbus v) [
        | some variant ↦ ok (some (property_changed channel property (boxed variant)))
        | none ↦ ok none
      ]
      else ok (some (property_removed channel property))

  -- `esconf_daemon_emit_property_changed_idled`
  unfoldable pub emit_property_changed_idled :
      ToVariant → Text → Text → S → Reply (Option Signal) × S
  emit_property_changed_idled dbus channel property b =
      let (r, b') = esconf_backend_get iface channel property b in
      (signal_of dbus channel property r, b')
