-- ===== src/Perchannel/Reset.antt =====
-- `reset` of the back end.
use mathlib.Core.List.{reverse}
use esconf.Prelude.{
  Text, bytes, remove, Bool, Option, none, some, List, [], ◌∷◌, ◌++◌, if◌then◌else◌,
}
use esconf.Platform.{Platform}
use esconf.Error.{channel_not_found, property_not_found, write_failure, ok, err, crash}
use esconf.Tree.{Node, modify, unlink_node, parts_of, lookup_node, proptree_reset}
use esconf.Tree.Traverse.{reset_nodes, reset_names, clean_up}
use esconf.Loader.{Channel}
use esconf.Perchannel.{Xbpx, Op, Opened, opened, missing, dead, signal, schedule_save, open_channel}
use esconf.Perchannel.Operations.{with_properties, is_whole_channel}

-- The callback's calls for a list of names.
unfoldable pub signal_all : Text → List Text → Xbpx → Xbpx
signal_all channel_name [] x = x
signal_all channel_name (name ∷ names) x =
    signal_all channel_name names (signal channel_name name x)

-- A subtree in place of the one at these parts, or nothing.
abbrev pub replace_node : List Text → Option Node → Node → Node
replace_node ps none tree = unlink_node ps tree
replace_node ps (some n) tree = modify ps (λ m. n) tree

module _ (p : Platform) where
  -- The two traversals below `top`, which stands at these parts.
  abbrev pub reset_below : List Text → Node → Node → Node
  reset_below ps top tree = replace_node ps (clean_up (reset_nodes top)) tree

  -- The names on the way up from a node to the root, which is named "/".
  abbrev pub names_up : List Text → List Text
  names_up ps = reverse ps ++ bytes "/" ∷ []

  -- `do_reset_channel`: the channel and the user's file are dropped.
  unfoldable pub reset_channel : Text → Channel → Xbpx → Op (Unit {0})
  reset_channel channel_name channel x =
      let x' = signal_all channel_name (reset_names (names_up []) channel.properties) x in
      let dropped = record x' { channels = remove channel_name x'.channels } in
      elim (p.unlink x'.disk
        (x'.config_save_path ++ (bytes "/" ++ (channel_name ++ bytes ".xml")))) [
          | none ↦ (err write_failure, dropped)
          | some disk ↦ (ok tt, record dropped { disk = disk })
        ]

  -- The recursive reset below a property.
  unfoldable pub reset_subtree : Text → Text → Text → Channel → Xbpx → Op (Unit {0})
  reset_subtree key channel_name property channel x =
      elim (lookup_node p channel.properties property) [
        | none ↦ (err property_not_found, x)
        | some top ↦
            let ps = parts_of p property in
            (
              ok tt,
              schedule_save key (with_properties (reset_below ps top channel.properties) channel)
                  (signal_all channel_name (reset_names (names_up ps) top) x),
            )
      ]

  -- The reset of one property.
  unfoldable pub reset_property : Text → Text → Text → Channel → Xbpx → Op (Unit {0})
  reset_property key channel_name property channel x =
      elim (proptree_reset p channel.properties property) [
        | none ↦ (err property_not_found, x)
        | some tree ↦ (
          ok tt,
          schedule_save key (with_properties tree channel) (signal channel_name property x),
        )
      ]

  abbrev pub reset_opened : Text → Text → Bool → Opened × Xbpx → Op (Unit {0})
  reset_opened channel_name property recursive (opened key channel, x) =
      if recursive
      then (if is_whole_channel property
          then reset_channel channel_name channel x
          else reset_subtree key channel_name property channel x)
      else reset_property key channel_name property channel x
  reset_opened channel_name property recursive (missing, x) = (err channel_not_found, x)
  reset_opened channel_name property recursive (dead, x) = (crash, x)

  -- `esconf_backend_perchannel_xml_reset`
  unfoldable pub reset : Text → Text → Bool → Xbpx → Op (Unit {0})
  reset channel_name property recursive x =
      reset_opened channel_name property recursive (open_channel p channel_name x)
