-- ===== src/Perchannel/LockLaws.antt =====
-- What `esconf_backend_perchannel_xml_is_property_locked` says, and what
-- `esconf_backend_perchannel_xml_set` does about it.
use esconf.Prelude.{
  Text, List, ◌∷◌, All, length, ◌≤◌, is_some, ap, ◌∙◌, lookup, ◌≡◌, ◌↔◌, refl, Bool, true, false,
  Option, none, some, arith, Bool-cases, inl, inr,
}
use esconf.Platform.{Platform, IsSplitter}
use esconf.Error.{permission_denied, ok, err}
use esconf.Value.{GValue, unset, gvalue_is_equal}
use esconf.Names.Paths.{path, IsComponent}
use esconf.Tree.{Property, Node, prop, lookup_node, lookup_prop, add_property}
use esconf.Tree.Walk.{descend, entry_at, same_parts_iff, lookup_node-path}
use esconf.Tree.Add.{add_property-IsAdded}
use esconf.Tree.Traverse.{value_to_get}
use esconf.Loader.{Channel}
use esconf.Perchannel.{Xbpx}
use esconf.Perchannel.Operations.{commit, set, is_property_locked, locked_in}
use esconf.Perchannel.Shown.{prop_of, lookup_prop-path}
use esconf.Perchannel.SetLaws.{
  set_found, set_in-found, open_channel-there, open_or_create-there, commit-IsChange,
}
use esconf.Perchannel.GetSet.{changed_channel, table_there}

set-there :
    (p : Platform) (channel_name property : Text) (value : GValue) (channel : Channel) (x : Xbpx)
    → lookup channel_name x.channels ≡ some channel
    → set p channel_name property value x
      ≡ set_found p channel_name channel_name property value channel x
          (lookup_prop p channel.properties property)
unfolding set
set-there p channel_name property value channel x there =
    rw (open_or_create-there p channel_name x there)
      (set_in-found p channel_name channel_name property value channel x)

is_property_locked-there :
    (p : Platform) (channel_name property : Text) (channel : Channel) (x : Xbpx)
    → lookup channel_name x.channels ≡ some channel
    → is_property_locked p channel_name property x ≡ (ok (locked_in p property channel), x)
unfolding is_property_locked
is_property_locked-there p channel_name property channel x there =
    rw (open_channel-there p channel_name x there)

abbrev says_locked : Option Property → Bool
says_locked none = false
says_locked (some q) = q.locked

locked_in-unlocked :
    (p : Platform) (property : Text) (channel : Channel)
    → channel.locked ≡ false
    → locked_in p property channel ≡ says_locked (lookup_prop p channel.properties property)
locked_in-unlocked p property channel h = rw h (go (lookup_prop p channel.properties property))
  where
    go :
        (o : Option Property)
        → (elim o as (λ x. Bool) [ none ↦ false | some q ↦ q.locked ]) ≡ says_locked o
    go none = refl
    go (some q) = refl

set_found-denied_iff :
    (p : Platform) (channel_name property : Text) (value : GValue) (channel : Channel) (x : Xbpx)
    (o : Option Property)
    → ((set_found p channel_name channel_name property value channel x o).0 ≡ err permission_denied)
      ↔ (says_locked o ≡ true)
set_found-denied_iff p channel_name property value channel x none = ground arith
set_found-denied_iff p channel_name property value channel x (some q) = elim (Bool-cases q.locked) [
  | inl locked ↦ rw locked (ground arith)
  | inr free ↦ rw free (elim (Bool-cases (gvalue_is_equal p (value_to_get q) value)) [
    | inl same ↦ rw same (ground arith)
    | inr differs ↦ rw differs (ground arith)
  ])
]

-- On a channel of the table that is not locked itself, `set` of any value is refused as denied
-- exactly where `is_property_locked` answers TRUE.
pub set-denied_iff :
    (p : Platform) (channel_name property : Text) (value : GValue) (channel : Channel) (x : Xbpx)
    → lookup channel_name x.channels ≡ some channel
    → channel.locked ≡ false
    → ((set p channel_name property value x).0 ≡ err permission_denied)
      ↔ ((is_property_locked p channel_name property x).0 ≡ ok true)
set-denied_iff p channel_name property value channel x there free =
    rw
      (
        set-there p channel_name property value channel x there,
        is_property_locked-there p channel_name property channel x there,
        locked_in-unlocked p property channel free,
      )
      (ground (
        arith,
        set_found-denied_iff p channel_name property value channel x
            (lookup_prop p channel.properties property),
      ))

is_some-lookup_prop :
    (p : Platform) (t : Node) (name : Text)
    → is_some (lookup_prop p t name) ≡ is_some (lookup_node p t name)
unfolding lookup_prop
is_some-lookup_prop p t name = go (lookup_node p t name)
  where
    go :
        (o : Option Node)
        → is_some (elim o as (λ x. Option Property) [ none ↦ none | some n ↦ some (prop n) ])
          ≡ is_some o
    go none = refl
    go (some n) = refl

-- On a channel of the table that is locked, a path of components that fits the buffer and has no
-- node is locked for is_property_locked, and yet set of any value succeeds and creates it: behind
-- it a look-up in the channel of the table finds the property, and its entry holds the value,
-- without a system value or a lock.
pub set-locked_channel :
    (p : Platform) (channel_name s : Text) (ps : List Text) (value : GValue) (channel : Channel)
    (x : Xbpx)
    → IsSplitter p
    → All IsComponent (s ∷ ps)
    → length (path (s ∷ ps)) ≤ 4095
    → lookup channel_name x.channels ≡ some channel
    → channel.locked ≡ true
    → descend (s ∷ ps) channel.properties ≡ none
    → let (r, x') = set p channel_name (path (s ∷ ps)) value x in
      ((is_property_locked p channel_name (path (s ∷ ps)) x).0 ≡ ok true)
      × (r ≡ ok tt)
      × (channel' : Channel) × (lookup channel_name x'.channels ≡ some channel')
      × (is_some (lookup_prop p channel'.properties (path (s ∷ ps))) ≡ true)
      × (entry_at (s ∷ ps) channel'.properties ≡ (value, unset, false))
set-locked_channel p channel_name s ps value channel x splits a short there locked missing =
    let (up, found, distinct) =
      add_property-IsAdded p splits s ps channel.properties value false a short
        (lookup_node-path p splits s ps channel.properties a ∙ missing) in
    let tree = add_property p channel.properties (path (s ∷ ps)) value false in
    let is_missing = lookup_prop-path p splits s ps channel.properties a ∙ ap prop_of missing in
    let e : set p channel_name (path (s ∷ ps)) value x
        ≡ commit p channel_name channel_name (path (s ∷ ps)) tree channel x =
      set-there p channel_name (path (s ∷ ps)) value channel x there ∙ rw is_missing refl in
    (
      rw (is_property_locked-there p channel_name (path (s ∷ ps)) channel x there, locked) refl,
      rw e refl,
      changed_channel tree channel,
      rw e (
          table_there channel_name (path (s ∷ ps)) tree channel x _
            (commit-IsChange p channel_name (path (s ∷ ps)) tree channel x)),
      is_some-lookup_prop p tree (path (s ∷ ps)) ∙ found,
      ground (arith, up (s ∷ ps), (same_parts_iff (s ∷ ps) (s ∷ ps)).1 refl),
    )
