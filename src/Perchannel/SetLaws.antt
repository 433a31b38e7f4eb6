-- ===== src/Perchannel/SetLaws.antt =====
-- `esconf_backend_perchannel_xml_set` on a channel of the table.
use esconf.Prelude.{
  Text, lookup, lookup-insert, streq, length, ◌⊎◌, ◌++◌, [], ◌≡◌, ◌≤◌, refl, ap, ◌∙◌, true, false,
  Option, none, some, List, ◌∷◌, All, if◌then◌else◌, Bool-cases, inl, inr,
}
use esconf.Platform.{Platform, IsSplitter}
use esconf.Error.{permission_denied, ok, err}
use esconf.Value.{GValue, gvalue_is_equal}
use esconf.Names.Paths.{path, IsComponent}
use esconf.Tree.{Property, Node, prop, lookup_prop, add_property}
use esconf.Tree.Walk.{descend, entry_of, entry_at, IsDistinct, lookup_node-path}
use esconf.Tree.Local.{IsUpdate}
use esconf.Tree.Add.{add_property-IsAdded}
use esconf.Tree.Traverse.{value_to_get}
use esconf.Loader.{Channel}
use esconf.Loader.PropertyElem.{edit_prop}
use esconf.Loader.Files.{Loaded, not_found, loaded, read_channel}
use esconf.Perchannel.{
  Xbpx, Op, Opened, opened, missing, dead, load_channel, put_channel, schedule_save, open_channel,
}
use esconf.Perchannel.Operations.{commit, set_in, open_or_create, set}
use esconf.Perchannel.Shown.{shown, prop_of, lookup_prop-path, edit_prop-IsUpdate}

-- What a change of a channel does to the state: in the table only the channel is another one, with
-- the new tree and dirty; the signal is the last one, if there is somebody to tell; the timer runs; and
-- the rest is as it was.
pub record IsChange (channel_name property : Text) (tree : Node) (channel : Channel) (x x' : Xbpx)
    : Type 0 where
  pub table :
      (key : Text)
      → lookup key x'.channels ≡ (
          if streq channel_name key
          then some (record channel { properties = tree; dirty = true })
          else lookup key x.channels)
  pub emitted :
      x'.signals ≡ (if x.notify then x.signals ++ (channel_name, property) ∷ [] else x.signals)
  pub scheduled : x'.save_scheduled ≡ true
  pub files : x'.disk ≡ x.disk
  pub others : (x'.config_save_path ≡ x.config_save_path) × (x'.notify ≡ x.notify)

-- What `set` may do to the path `qs` of a channel. A value that is there is compared, and a path
-- without a node takes any value.
pub data IsSetOutcome (p : Platform) (channel_name : Text) (qs : List Text) (value : GValue)
    (channel : Channel) (x : Xbpx) : Op (Unit {0}) → Type 0 where
  denied :
      (entry_at qs channel.properties).2 ≡ true
      → IsSetOutcome p channel_name qs value channel x (err permission_denied, x)
  unchanged :
      (entry_at qs channel.properties).2 ≡ false
      → gvalue_is_equal p (shown (entry_at qs channel.properties)) value ≡ true
      → IsSetOutcome p channel_name qs value channel x (ok tt, x)
  changed :
      (entry_at qs channel.properties).2 ≡ false
      → (descend qs channel.properties ≡ none)
        ⊎ (gvalue_is_equal p (shown (entry_at qs channel.properties)) value ≡ false)
      → (tree : Node)
      → IsUpdate qs (value, (entry_at qs channel.properties).1, false) channel.properties tree
      → (IsDistinct channel.properties → IsDistinct tree)
      → (x' : Xbpx) → IsChange channel_name (path qs) tree channel x x'
      → IsSetOutcome p channel_name qs value channel x (ok tt, x')

-- The code's change of a channel, with its signal and the save that it schedules.
pub commit-IsChange :
    (p : Platform) (channel_name property : Text) (tree : Node) (channel : Channel) (x : Xbpx)
    → IsChange channel_name property tree channel x
        (commit p channel_name channel_name property tree channel x).1
unfolding schedule_save
commit-IsChange p channel_name property tree channel x = elim (Bool-cases x.notify) [
  | inl told ↦ rw told (record {
    table = λ key. lookup-insert channel_name key _ x.channels;
    emitted = refl;
    scheduled = refl;
    files = refl;
    others = (refl, refl);
  })
  | inr untold ↦ rw untold (record {
    table = λ key. lookup-insert channel_name key _ x.channels;
    emitted = refl;
    scheduled = refl;
    files = refl;
    others = (refl, refl);
  })
]

pub entry_at-of :
    (qs : List Text) (t : Node) (o : Option Node) → descend qs t ≡ o → entry_at qs t ≡ entry_of o
unfolding entry_at
entry_at-of qs t o e = rw e

set_value-name : (v : GValue) (q : Property) → (record q { value = v }).name ≡ q.name
set_value-name v q = refl

-- What `set` does with the property that it finds.
abbrev pub set_found :
    Platform → Text → Text → Text → GValue → Channel → Xbpx → Option Property → Op (Unit {0})
set_found p key channel_name property value channel x none =
    commit p key channel_name property (add_property p channel.properties property value false)
      channel x
set_found p key channel_name property value channel x (some q) =
    if q.locked
    then (err permission_denied, x)
    else if gvalue_is_equal p (value_to_get q) value
    then (ok tt, x)
    else commit p key channel_name property
        (edit_prop p property (λ r. record r { value = value }) channel.properties) channel x

pub set_in-found :
    (p : Platform) (key channel_name property : Text) (value : GValue) (channel : Channel)
    (x : Xbpx)
    → set_in p key channel_name property value channel x
      ≡ set_found p key channel_name property value channel x
          (lookup_prop p channel.properties property)
unfolding set_in
set_in-found p key channel_name property value channel x =
    go (lookup_prop p channel.properties property)
  where
    go :
        (o : Option Property)
        → (elim o as (λ x. Op (Unit {0})) [
          | none ↦
              commit p key channel_name property
                (add_property p channel.properties property value false)
                channel
                x
          | some q ↦
              if q.locked
              then (err permission_denied, x)
              else if gvalue_is_equal p (value_to_get q) value
              then (ok tt, x)
              else commit p key channel_name property
                  (edit_prop p property (λ r. record r { value = value }) channel.properties)
                  channel
                  x
        ])
          ≡ set_found p key channel_name property value channel x o
    go none = refl
    go (some q) = refl

-- What the loader's result does to the table.
abbrev pub load_result : Platform → Text → Xbpx → Loaded → Opened × Xbpx
load_result p channel_name x not_found = (missing, x)
load_result p channel_name x Loaded.crash = (dead, x)
load_result p channel_name x (loaded channel) =
    let key = p.ascii_strdown channel_name in (opened key channel, put_channel key channel x)

pub open_channel-unseen :
    (p : Platform) (channel_name : Text) (x : Xbpx)
    → lookup channel_name x.channels ≡ none
    → open_channel p channel_name x
      ≡ load_result p channel_name x (read_channel p x.disk channel_name)
unfolding open_channel load_channel
open_channel-unseen p channel_name x h =
    rw (h, open_channel) (go (read_channel p x.disk channel_name) refl)
  where
    go :
        (l : Loaded)
        → read_channel p x.disk channel_name ≡ l
        → load_channel p channel_name x ≡ load_result p channel_name x l
    go not_found e = rw (e, load_channel)
    go Loaded.crash e = rw (e, load_channel)
    go (loaded channel) e = rw (e, load_channel)

-- A channel of the table is the one that is worked on.
pub open_channel-there :
    (p : Platform) (channel_name : Text) (x : Xbpx) {channel : Channel}
    → lookup channel_name x.channels ≡ some channel
    → open_channel p channel_name x ≡ (opened channel_name channel, x)
unfolding open_channel
open_channel-there p channel_name x h = rw (h, open_channel)

pub open_or_create-there :
    (p : Platform) (channel_name : Text) (x : Xbpx) {channel : Channel}
    → lookup channel_name x.channels ≡ some channel
    → open_or_create p channel_name x ≡ (opened channel_name channel, x)
unfolding open_or_create
open_or_create-there p channel_name x h = rw (open_channel-there p channel_name x h)

module _ (p : Platform) (splits : IsSplitter p) where
  set_found-IsSetOutcome :
      (channel_name s : Text) (ps : List Text) (value : GValue) (channel : Channel) (x : Xbpx)
      (o : Option Node)
      → All IsComponent (s ∷ ps)
      → length (path (s ∷ ps)) ≤ 4095
      → descend (s ∷ ps) channel.properties ≡ o
      → IsSetOutcome p channel_name
          (s ∷ ps)
          value
          channel
          x
          (set_found p channel_name channel_name (path (s ∷ ps)) value channel x (prop_of o))
  set_found-IsSetOutcome channel_name s ps value channel x none a short at =
      let e = entry_at-of (s ∷ ps) channel.properties none at in
      let (up, there, distinct) =
        add_property-IsAdded p splits s ps channel.properties value false a short
          (lookup_node-path p splits s ps channel.properties a ∙ at) in
      changed (ap (λ x. x.2) e) (inl at) _ (rw e up) distinct _ (
        commit-IsChange p channel_name (path (s ∷ ps))
          (add_property p channel.properties (path (s ∷ ps)) value false) channel x)
  set_found-IsSetOutcome channel_name s ps value channel x (some m) a short at =
      let e = entry_at-of (s ∷ ps) channel.properties (some m) at in
      elim (Bool-cases (prop m).locked) [
        | inl locked ↦ rw locked (denied (ap (λ x. x.2) e ∙ locked))
        | inr free ↦ rw free (elim (Bool-cases (gvalue_is_equal p (value_to_get (prop m)) value)) [
          | inl same ↦ rw same (unchanged (ap (λ x. x.2) e ∙ free) (rw e same))
          | inr differs ↦
              let (up, distinct) =
                edit_prop-IsUpdate p splits s ps (λ r. record r { value = value })
                  channel.properties m a (set_value-name value) at in
              rw differs (
                changed (ap (λ x. x.2) e ∙ free) (inr (rw e differs)) _ (rw (e, ← free) up) distinct
                  _
                  (commit-IsChange p channel_name (path (s ∷ ps))
                    (edit_prop p (path (s ∷ ps)) (λ r. record r { value = value })
                      channel.properties)
                    channel x))
        ])
      ]

  -- On a channel of the table, set of a path of components that fits the buffer has one of three
  -- outcomes: it refuses a locked property and changes nothing; it succeeds and changes nothing
  -- where the property is free and shows an equal value; or the property is free and has no node
  -- or shows a value that is not equal, and it succeeds: in a new tree the path has the value and
  -- no lock, keeps its system value, and every other path's entry stays; in the table only the
  -- channel is another one, dirty and with this tree; the signal is emitted if there is a
  -- callback, a save is scheduled, and no file changes.
  pub set-IsSetOutcome :
      (channel_name s : Text) (ps : List Text) (value : GValue) (channel : Channel) (x : Xbpx)
      → All IsComponent (s ∷ ps)
      → length (path (s ∷ ps)) ≤ 4095
      → lookup channel_name x.channels ≡ some channel
      → IsSetOutcome p channel_name
          (s ∷ ps)
          value
          channel
          x
          (set p channel_name (path (s ∷ ps)) value x)
  unfolding set
  set-IsSetOutcome channel_name s ps value channel x a short there =
      rw (open_or_create-there p channel_name x there) (
        rw (set_in-found p channel_name channel_name (path (s ∷ ps)) value channel x) (
          rw (lookup_prop-path p splits s ps channel.properties a) (
            set_found-IsSetOutcome channel_name s ps value channel x
              (descend (s ∷ ps) channel.properties) a short refl)))
