-- ===== src/Tests/Caches.antt =====
-- A cache of one channel: a change of `/a` that is sent, its reply, and the daemon's signals.
use esconf.Prelude.{
  Text, bytes, streq, lookup, insert, remove, pos, ==_iff, ◌<◌, ◌||◌, ◌&&◌, true, false, Option,
  none, some, ◌>>=◌, [], ◌∷◌, ◌++◌, ◌≡◌, refl, arith, if◌then◌else◌,
}
use esconf.Value.{
  GType, GValue, unset, string, uchar, uint, uint64, char, int, int64, double, boolean, ptr_array,
  nil, cons,
}
use esconf.Value.Variant.{
  GVariantType, byte_type, uint32_type, int32_type, uint64_type, int64_type, double_type,
  boolean_type, string_type, GVariant, class_byte, class_uint32, class_int32, class_uint64,
  class_int64, class_double, class_boolean, class_string, boxed, ToVariant,
  esconf_gvalue_to_gvariant, esconf_gvariant_to_gvalue,
}
use esconf.Value.Variant.RoundTrip.{
  IsDbusConversion, received, esconf_gvariant_to_gvalue-esconf_gvalue_to_gvariant,
}
use esconf.Cache.{
  OldItem, update, Client, Answer, answer, failure, esconf_cache_new, esconf_cache_lookup,
  tree_lookup,
}
use esconf.Cache.Change.{
  esconf_cache_set, set_property_reply_handler, esconf_cache_finalize, item_after,
}
use esconf.Cache.Signals.{ssv, handle_property_changed}
use esconf.Cache.Evict.{esconf_cache_reset}
use esconf.Cache.Laws.{
  current, is_below, lookup-esconf_cache_reset, tree_lookup-handle_property_changed,
}
use esconf.Cache.Safety.{Sound}
use esconf.Cache.Safety.Handler.{arrived}
use esconf.Cache.Safety.Steps.{on_set, on_reply, Reach, here, next}
use esconf.Cache.Safety.Reach.{
  Step-Sound, Reach-Sound, set_property_reply_handler-some, esconf_cache_finalize-some, lookup-none,
}
use esconf.Cache.Optimistic.{
  IsKnown, IsChanging, settled, changing, Shows, esconf_cache_set-Shows,
  set_property_reply_handler-Shows,
}
use esconf.Tests.Platforms.{test_platform}

-- A `g_dbus_gvalue_to_gvariant` for the types of GObject.
unfoldable dbus : ToVariant
dbus (uchar n) byte_type = some (class_byte n)
dbus (int z) int32_type = some (class_int32 z)
dbus (uint n) uint32_type = some (class_uint32 n)
dbus (int64 z) int64_type = some (class_int64 z)
dbus (uint64 n) uint64_type = some (class_uint64 n)
dbus (boolean b) boolean_type = some (class_boolean b)
dbus (double x) double_type = some (class_double x)
dbus (string (some s)) string_type = some (class_string s)
dbus _ _ = none

dbus-IsDbusConversion : IsDbusConversion dbus
unfolding dbus
dbus-IsDbusConversion = record {
  byte = λ n. refl;
  int32 = λ z. refl;
  uint32 = λ n. refl;
  int64 = λ z. refl;
  uint64 = λ n. refl;
  boolean = λ b. refl;
  double = λ x. refl;
  string = λ s. refl;
}

abbrev numbers : GValue
numbers = ptr_array (cons (int (pos 1)) (cons (char (pos 2)) nil))

esconf_gvariant_to_gvalue-esconf_gvalue_to_gvariant_example :
    (esconf_gvalue_to_gvariant dbus numbers >>= λ w. esconf_gvariant_to_gvalue (boxed w))
    ≡ some (received numbers)
esconf_gvariant_to_gvalue-esconf_gvalue_to_gvariant_example =
    esconf_gvariant_to_gvalue-esconf_gvalue_to_gvariant dbus numbers dbus-IsDbusConversion
      (tt, (tt, tt))

abbrev ch : Text
ch = bytes "ch"

abbrev a : Text
a = bytes "/a"

abbrev not_found : Answer
not_found = failure (some (bytes "com.expidus.Esconf.Error.PropertyNotFound"))

abbrev transform : GValue → GType → Option GValue
transform value type = none

abbrev item : OldItem
item = record {
  property = a;
  item = none;
  cancellable = 1;
  cancelled = false;
  pending_calls_count = 1;
  variant = some (class_int32 (pos 1));
}

-- `/a` is set to 1.
abbrev sending : Client
sending = record {
  alive = true;
  channel_name = ch;
  properties = (a, some (int (pos 1))) ∷ [];
  pending_calls = (1, 0) ∷ [];
  old_properties = (a, 0) ∷ [];
  old_items = update 0 (some item) (λ o. none);
  fresh = 2;
  calls = update 0 1 (λ o. 0);
  sent = (a, class_int32 (pos 1)) ∷ [];
  signals = (a, some (int (pos 1))) ∷ [];
}

-- The daemon takes the value.
abbrev replied : Client
replied = record (arrived 0 sending) {
  pending_calls = [];
  old_properties = [];
  old_items = update 0 none sending.old_items;
}

sendable : esconf_gvalue_to_gvariant dbus (int (pos 1)) ≡ some (class_int32 (pos 1))
unfolding esconf_gvalue_to_gvariant esconf.Value.Variant.esconf_basic_gvalue_to_gvariant
    esconf.Value.Variant.basic_type dbus
sendable = refl

sending-set :
    esconf_cache_set test_platform transform dbus a (int (pos 1)) not_found (esconf_cache_new ch)
    ≡ some (true, sending)
unfolding esconf_cache_set lookup insert streq esconf.Cache.Change.set_looked_up
    esconf.Cache.Change.looked_up esconf.Cache.tree_lookup esconf.Cache.esconf_cache_lookup_locked
    esconf.Cache.fetch_item esconf.Cache.give_item esconf.Cache.Change.is_not_found
    esconf.Value.strcmp0 esconf.Cache.Change.is_unchanged esconf.Cache.Change.set_item
    esconf.Cache.Change.old_item_for esconf.Cache.Change.old_item_new esconf_gvalue_to_gvariant
    esconf.Value.Variant.esconf_basic_gvalue_to_gvariant esconf.Value.Variant.basic_type dbus
    esconf.Cache.Change.start_call esconf.Cache.Change.item_after esconf.Cache.insert_pointer
sending-set = refl

reached : Reach test_platform transform dbus (esconf_cache_new ch) sending
reached =
    next here
      (on_set a (int (pos 1)) not_found (class_int32 (pos 1)) true refl sendable sending-set)

Step-Sound_example : Sound sending
Step-Sound_example =
    Step-Sound test_platform transform dbus
      (on_set a (int (pos 1)) not_found (class_int32 (pos 1)) true refl sendable sending-set)
      (Reach-Sound test_platform transform dbus ch here)

one_call : 0 < sending.calls 0
one_call = omega arith

set_property_reply_handler-some_example :
    (c' : Client) × (set_property_reply_handler test_platform true 0 (arrived 0 sending) ≡ some c')
set_property_reply_handler-some_example =
    set_property_reply_handler-some test_platform transform dbus ch reached true 0 one_call

esconf_cache_finalize-some_example : (c' : Client) × (esconf_cache_finalize sending ≡ some c')
esconf_cache_finalize-some_example =
    esconf_cache_finalize-some test_platform transform dbus ch reached refl

sending-replied : set_property_reply_handler test_platform true 0 (arrived 0 sending) ≡ some replied
unfolding set_property_reply_handler esconf.Cache.Change.last_reply esconf.Cache.Change.committed
    tree_lookup lookup streq remove esconf.Cache.remove_pointer
sending-replied = refl

lookup-none_example : lookup a replied.old_properties ≡ none
lookup-none_example =
    lookup-none test_platform transform dbus ch
      (next reached (on_reply true 0 one_call sending-replied)) a (λ o. ground (arith, ==_iff o 0))

unset_a : Shows a (esconf_cache_new ch) (settled none)
unfolding lookup tree_lookup
unset_a = (refl, refl)

known : IsKnown not_found (tree_lookup a (esconf_cache_new ch).properties)
unfolding lookup tree_lookup esconf.Cache.Change.is_not_found esconf.Value.strcmp0 streq
known = refl

changed_a : esconf.Cache.Change.is_unchanged test_platform none (int (pos 1)) ≡ false
unfolding esconf.Cache.Change.is_unchanged
changed_a = refl

esconf_cache_set-Shows_example :
    (c' : Client) × (esconf_cache_set test_platform transform dbus a
        (int (pos 1))
        not_found
        (esconf_cache_new ch)
      ≡ some (true, c'))
    × Shows a c' (changing none (int (pos 1)) 1)
esconf_cache_set-Shows_example =
    esconf_cache_set-Shows test_platform transform dbus a (int (pos 1)) not_found
      (class_int32 (pos 1)) (esconf_cache_new ch) (settled none) known sendable changed_a unset_a

item-IsChanging : IsChanging a none 1 0 item sending
unfolding lookup streq
item-IsChanging = record {
  listed = refl;
  stored = refl;
  named = refl;
  kept = refl;
  uncancelled = refl;
  count = refl;
}

shown_a : tree_lookup a sending.properties ≡ some (int (pos 1))
unfolding tree_lookup lookup streq
shown_a = refl

set_property_reply_handler-Shows_example :
    (c' : Client) × (set_property_reply_handler test_platform false 0 (arrived 0 sending) ≡ some c')
    × Shows a c' (settled none)
set_property_reply_handler-Shows_example =
    set_property_reply_handler-Shows test_platform false a none (int (pos 1)) 0 0 item sending refl
      item-IsChanging shown_a

lookup-esconf_cache_reset_example :
    lookup (bytes "/A/b") (esconf_cache_reset a true true sending).1.properties ≡ (
      if streq a (bytes "/A/b") || (true && is_below (a ++ bytes "/") (bytes "/A/b"))
      then none
      else lookup (bytes "/A/b") sending.properties)
lookup-esconf_cache_reset_example = lookup-esconf_cache_reset a true (bytes "/A/b") sending

free_a : lookup a replied.old_properties ≡ none
unfolding lookup
free_a = refl

two : esconf_gvariant_to_gvalue (boxed (class_int32 (pos 2))) ≡ some (int (pos 2))
unfolding esconf_gvariant_to_gvalue esconf.Value.Variant.unboxed_to_gvalue
    esconf.Value.Variant.esconf_basic_gvariant_to_gvalue
two = refl

tree_lookup-handle_property_changed_example :
    tree_lookup a
      (handle_property_changed test_platform
        (ssv ch a (boxed (class_int32 (pos 2))))
        replied).properties
    ≡ (if streq a a
        then some (current test_platform (tree_lookup a replied.properties) (int (pos 2)))
        else tree_lookup a replied.properties)
tree_lookup-handle_property_changed_example =
    tree_lookup-handle_property_changed test_platform a a (boxed (class_int32 (pos 2)))
      (int (pos 2)) replied free_a two

found_a : (esconf_cache_lookup transform a not_found (some unset) sending).0.ret ≡ true
unfolding esconf_cache_lookup esconf.Cache.esconf_cache_lookup_locked tree_lookup lookup streq
    esconf.Cache.fetch_item esconf.Cache.give_item esconf.Cache.copy_item
found_a = refl
