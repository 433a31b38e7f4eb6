-- ===== src/Tests/Served.antt =====
-- A daemon with the back end of the tests, as its clients see it, and the channels that it lists.
use esconf.Prelude.{bytes, lookup, streq, ◌≡◌, refl, true, false, none, some, [], ◌∷◌, arith}
use esconf.Value.{int, boolean}
use esconf.Value.Variant.{ToVariant, boxed, class_boolean, boolean_type, esconf_gvariant_to_gvalue}
use esconf.Names.Paths.{path}
use esconf.Perchannel.{Xbpx}
use esconf.Perchannel.Operations.{set, get}
use esconf.Writer.Flush.{list_channels, is_listed}
use esconf.Writer.Listed.{IsUnique, list_channels-listed}
use esconf.Backend.{check_call}
use esconf.Backend.Laws.{perchannel_xml}
use esconf.Daemon.Bus.{handle_set_property}
use esconf.Daemon.Served.{daemon, IsServed, handle_set_property-IsServed}
use esconf.Tests.Platforms.{test_platform, test_platform-IsSplitter, etc_file}
use esconf.Tests.Trees.{a_b}
use esconf.Tests.Channels.{ch, channel, state, state-channel, a_b-IsComponent}

-- A `g_dbus_gvalue_to_gvariant` that knows the booleans.
abbrev test_dbus : ToVariant
test_dbus (boolean b) boolean_type = some (class_boolean b)
test_dbus v type = none

-- The system's directory is there.
abbrev listed_state : Xbpx
listed_state = record state {
  disk = (etc_file (bytes "expidus1/esconf/expidus-perchannel-xml/"), []) ∷ [];
}

list_channels-listed_example :
    IsUnique (list_channels test_platform [] listed_state)
    × (is_listed ch (list_channels test_platform [] listed_state) ≡ true)
unfolding lookup streq
list_channels-listed_example = list_channels-listed test_platform ch listed_state

a_b-checked : check_call ch (path a_b) ≡ none
unfolding check_call esconf.Backend.check_names esconf.Names.channel_is_valid
    esconf.Names.check_channel esconf.Names.is_name_char esconf.Names.property_is_valid
    esconf.Names.check_root esconf.Names.check_property esconf.Names.is_property_char
a_b-checked = refl

handle_set_property-IsServed_example :
    IsServed test_platform test_dbus ch
      (path a_b)
      (boolean false)
      (get test_platform ch (path a_b) state).0
      (handle_set_property
        (perchannel_xml test_platform)
        ch
        (path a_b)
        (boxed (class_boolean false))
        (daemon state)).1
unfolding handle_set_property esconf_gvariant_to_gvalue esconf.Value.Variant.unboxed_to_gvalue
    esconf.Value.Variant.esconf_basic_gvariant_to_gvalue esconf.Daemon.esconf_set_property
    esconf.Daemon.set_first esconf.Backend.esconf_backend_set check_call esconf.Backend.check_names
    esconf.Names.channel_is_valid esconf.Names.check_channel esconf.Names.is_name_char
    esconf.Names.property_is_valid esconf.Names.check_root esconf.Names.check_property
    esconf.Names.is_property_char perchannel_xml set esconf.Perchannel.Operations.open_or_create
    esconf.Perchannel.open_channel lookup streq esconf.Perchannel.Operations.set_in
    esconf.Tree.lookup_prop esconf.Tree.lookup_node esconf.Names.prop_name_is_valid
    esconf.Tree.lookup_parts esconf.Tree.find_child esconf.Value.gvalue_is_equal
handle_set_property-IsServed_example =
    handle_set_property-IsServed test_platform test_dbus ch (bytes "a") (bytes "b" ∷ [])
      (boxed (class_boolean false)) (boolean false) channel state test_platform-IsSplitter
      a_b-checked a_b-IsComponent (omega arith) refl refl state-channel refl
