-- ===== src/Tests/Daemons.antt =====
-- The daemon over two per-channel XML back ends: one with an empty channel, and one with the channel
-- of the tests, on which `/a` is locked.
use esconf.Prelude.{
  is_some, Text, bytes, lookup, streq, ◌≡◌, ◌≢◌, ◌⊎◌, ◌↔◌, refl, true, false, some, List, [], ◌∷◌,
  All, arith, pos,
}
use esconf.Error.{EsconfError, permission_denied, property_not_found, ok, err, crash}
use esconf.Value.{unset, int, boolean}
use esconf.Names.Paths.{path}
use esconf.Names.Laws.{IsName}
use esconf.Tree.{lookup_prop}
use esconf.Tree.Walk.{descend, entry_at}
use esconf.Loader.{Channel, new_channel}
use esconf.Perchannel.{Xbpx}
use esconf.Perchannel.Operations.{set, is_property_locked}
use esconf.Perchannel.SetLaws.{IsSetOutcome}
use esconf.Perchannel.LockLaws.{set-denied_iff, set-locked_channel}
use esconf.Backend.{EsconfBackendInterface, check_call, esconf_backend_set}
use esconf.Backend.Laws.{perchannel_xml, esconf_backend_set_outcome}
use esconf.Daemon.{
  EsconfDaemon, all_backends, esconf_set_property, esconf_get_property, esconf_reset_property,
}
use esconf.Daemon.Laws.{
  AllAnswer, all_nil, all_cons, SaysFree, is_ok, some_ok, each, daemon_of, lock_of, value_of,
  reset_of, esconf_set_property_denied, esconf_set_property_free, esconf_get_property_found,
  esconf_reset_property-each,
}
use esconf.Tests.Platforms.{test_platform, test_platform-IsSplitter}
use esconf.Tests.Trees.{a-IsComponent}
use esconf.Tests.Channels.{ch, channel, state, state-channel}

abbrev iface : EsconfBackendInterface Xbpx
iface = perchannel_xml test_platform

abbrev empty_state : Xbpx
empty_state = record state { channels = (ch, new_channel) ∷ [] }

abbrev a : Text
a = bytes "/a"

abbrev a_b : Text
a_b = bytes "/a/b"

empty_free : lock_of iface ch a empty_state ≡ (ok false, empty_state)
unfolding esconf.Backend.esconf_backend_is_property_locked is_property_locked
    esconf.Backend.check_names esconf.Names.channel_is_valid esconf.Names.check_channel
    esconf.Names.is_name_char esconf.Names.property_is_valid esconf.Names.check_root
    esconf.Names.check_property esconf.Names.is_property_char perchannel_xml
    esconf.Perchannel.open_channel lookup streq lookup_prop esconf.Tree.lookup_node
    esconf.Names.prop_name_is_valid esconf.Tree.lookup_parts esconf.Tree.find_child
empty_free = refl

state_locked : lock_of iface ch a state ≡ (ok true, state)
unfolding esconf.Backend.esconf_backend_is_property_locked is_property_locked
    esconf.Backend.check_names esconf.Names.channel_is_valid esconf.Names.check_channel
    esconf.Names.is_name_char esconf.Names.property_is_valid esconf.Names.check_root
    esconf.Names.check_property esconf.Names.is_property_char perchannel_xml
    esconf.Perchannel.open_channel lookup streq lookup_prop esconf.Tree.lookup_node
    esconf.Names.prop_name_is_valid esconf.Tree.lookup_parts esconf.Tree.find_child
state_locked = refl

empty_fails : value_of iface ch a empty_state ≡ (err property_not_found, empty_state)
unfolding esconf.Backend.esconf_backend_get check_call esconf.Perchannel.Operations.get
    esconf.Perchannel.Operations.shown_value esconf.Backend.check_names
    esconf.Names.channel_is_valid esconf.Names.check_channel esconf.Names.is_name_char
    esconf.Names.property_is_valid esconf.Names.check_root esconf.Names.check_property
    esconf.Names.is_property_char perchannel_xml esconf.Perchannel.open_channel lookup streq
    lookup_prop esconf.Tree.lookup_node esconf.Names.prop_name_is_valid esconf.Tree.lookup_parts
    esconf.Tree.find_child
empty_fails = refl

state_found : value_of iface ch a state ≡ (ok (int (pos 5)), state)
unfolding esconf.Backend.esconf_backend_get check_call esconf.Perchannel.Operations.get
    esconf.Perchannel.Operations.shown_value esconf.Backend.check_names
    esconf.Names.channel_is_valid esconf.Names.check_channel esconf.Names.is_name_char
    esconf.Names.property_is_valid esconf.Names.check_root esconf.Names.check_property
    esconf.Names.is_property_char perchannel_xml esconf.Perchannel.open_channel lookup streq
    lookup_prop esconf.Tree.lookup_node esconf.Names.prop_name_is_valid esconf.Tree.lookup_parts
    esconf.Tree.find_child
state_found = refl

set_succeeds :
    (esconf_set_property iface ch a_b
      (some (boolean false))
      (record { first = empty_state; next = state ∷ [] })).0
    ≡ ok tt
unfolding esconf_set_property esconf.Daemon.set_first esconf.Daemon.check_locks esconf_backend_set
    check_call set esconf.Perchannel.Operations.open_or_create esconf.Perchannel.Operations.set_in
    esconf.Backend.esconf_backend_is_property_locked is_property_locked esconf.Backend.check_names
    esconf.Names.channel_is_valid esconf.Names.check_channel esconf.Names.is_name_char
    esconf.Names.property_is_valid esconf.Names.check_root esconf.Names.check_property
    esconf.Names.is_property_char perchannel_xml esconf.Perchannel.open_channel lookup streq
    lookup_prop esconf.Tree.lookup_node esconf.Names.prop_name_is_valid esconf.Tree.lookup_parts
    esconf.Tree.find_child
set_succeeds = refl

resets : All (λ b. (reset_of iface ch a_b false b).0 ≢ crash) (empty_state ∷ state ∷ [])
unfolding esconf.Backend.esconf_backend_reset esconf.Backend.check_reset
    esconf.Perchannel.Reset.reset esconf.Perchannel.Reset.reset_property esconf.Tree.proptree_reset
    esconf.Backend.check_names esconf.Names.channel_is_valid esconf.Names.check_channel
    esconf.Names.is_name_char esconf.Names.property_is_valid esconf.Names.check_root
    esconf.Names.check_property esconf.Names.is_property_char perchannel_xml
    esconf.Perchannel.open_channel lookup streq lookup_prop esconf.Tree.lookup_node
    esconf.Names.prop_name_is_valid esconf.Tree.lookup_parts esconf.Tree.find_child
resets = (λ e. ground arith, (λ e. ground arith, tt))

esconf_backend_set_outcome_example :
    ((e : EsconfError) × (check_call ch a ≡ some e)
      × (esconf_backend_set iface ch a (some (int (pos 6))) state ≡ (err e, state)))
    ⊎ ((s : Text) × (ps : List Text) × All IsName (s ∷ ps)
        × (a ≡ path (s ∷ ps))
        × IsSetOutcome test_platform ch
            (s ∷ ps)
            (int (pos 6))
            channel
            state
            (esconf_backend_set iface ch a (some (int (pos 6))) state))
esconf_backend_set_outcome_example =
    esconf_backend_set_outcome test_platform test_platform-IsSplitter ch a (int (pos 6)) channel
      state (omega arith) state-channel

esconf_set_property_denied_example :
    esconf_set_property iface ch a
      (some (int (pos 6)))
      (record { first = empty_state; next = state ∷ [] })
    ≡ (
      err permission_denied,
      daemon_of (record { first = empty_state; next = state ∷ [] }) (empty_state ∷ state ∷ []),
    )
esconf_set_property_denied_example =
    esconf_set_property_denied iface ch a (some (int (pos 6))) empty_state state []
      (empty_state ∷ []) (empty_state ∷ []) [] state state refl
      (all_cons (ok false) empty_free tt all_nil) state_locked

esconf_set_property_free_example :
    (b : Xbpx) × (bs : List Xbpx) × AllAnswer
      (lock_of iface ch a_b)
      SaysFree
      (empty_state ∷ state ∷ [])
      (b ∷ bs)
    × ((esconf_backend_set iface ch a_b (some (boolean false)) b).0 ≡ ok tt)
    × ((esconf_set_property iface ch a_b
          (some (boolean false))
          (record { first = empty_state; next = state ∷ [] })).1
        ≡ record {
          first = (esconf_backend_set iface ch a_b (some (boolean false)) b).1;
          next = bs;
        })
esconf_set_property_free_example =
    esconf_set_property_free iface ch a_b (some (boolean false)) empty_state state [] set_succeeds

esconf_get_property_found_example :
    esconf_get_property iface ch a (record { first = empty_state; next = state ∷ [] }) ≡ (
      ok (int (pos 5)),
      daemon_of (record { first = empty_state; next = state ∷ [] }) (empty_state ∷ state ∷ []),
    )
esconf_get_property_found_example =
    esconf_get_property_found iface ch a (record { first = empty_state; next = state ∷ [] })
      (empty_state ∷ []) (empty_state ∷ []) [] state state (int (pos 5)) refl
      (all_cons (err property_not_found) empty_fails tt all_nil) state_found

esconf_reset_property-each_example :
    ((esconf_reset_property iface ch a_b false
        (record { first = empty_state; next = state ∷ [] })).1
      ≡ daemon_of
          (record { first = empty_state; next = state ∷ [] })
          (each (λ b. (reset_of iface ch a_b false b).1) (empty_state ∷ state ∷ [])))
    × (is_ok
          (esconf_reset_property iface ch a_b false
            (record { first = empty_state; next = state ∷ [] })).0
        ≡ some_ok (reset_of iface ch a_b false) (empty_state ∷ state ∷ []))
esconf_reset_property-each_example =
    esconf_reset_property-each iface ch a_b false
      (record { first = empty_state; next = state ∷ [] }) resets

set-denied_iff_example :
    ((set test_platform ch a (int (pos 6)) state).0 ≡ err permission_denied)
    ↔ ((is_property_locked test_platform ch a state).0 ≡ ok true)
set-denied_iff_example =
    set-denied_iff test_platform ch a (int (pos 6)) channel state state-channel refl

abbrev locked_state : Xbpx
locked_state = record state { channels = (ch, record new_channel { locked = true }) ∷ [] }

locked_state-channel : lookup ch locked_state.channels ≡ some (record new_channel { locked = true })
unfolding lookup streq
locked_state-channel = refl

set-locked_channel_example :
    let (r, x') = set test_platform ch a (int (pos 6)) locked_state in
    ((is_property_locked test_platform ch a locked_state).0 ≡ ok true)
    × (r ≡ ok tt)
    × (channel' : Channel) × (lookup ch x'.channels ≡ some channel')
    × (is_some (lookup_prop test_platform channel'.properties a) ≡ true)
    × (entry_at (bytes "a" ∷ []) channel'.properties ≡ (int (pos 6), unset, false))
unfolding descend esconf.Tree.find_child
set-locked_channel_example =
    set-locked_channel test_platform ch (bytes "a") [] (int (pos 6))
      (record new_channel { locked = true }) locked_state test_platform-IsSplitter
      (a-IsComponent, tt) (omega arith) locked_state-channel refl refl
