-- ===== src/Perchannel.antt =====
-- The back end of esconfd/esconf-backend-perchannel-xml.c: its state and its operations. The files
-- are part of the state, and the property-changed callback's calls are recorded in `signals`.
pub mod Operations
pub mod Reset
pub mod Shown
pub mod SetLaws
pub mod GetSet
pub mod ResetLaws
pub mod NameCase
pub mod RecursiveReset
pub mod LockLaws
pub mod Agreement
use esconf.Prelude.{
  Text, bytes, HashTable, lookup, insert, remove, Bool, true, false, Option, none, some, List, [],
  ◌∷◌, ◌++◌, if◌then◌else◌,
}
use esconf.Platform.{Platform, Disk}
use esconf.Error.{EsconfError, channel_not_found, Reply, ok, err, crash}
use esconf.Tree.{Node}
use esconf.Loader.{Channel, new_channel}
use esconf.Loader.Files.{Loaded, not_found, loaded, read_channel}

-- `EsconfBackendPerchannelXml`, with what it acts on. `save_scheduled` is `save_id != 0`, and
-- `notify` is `prop_changed_func != NULL`.
pub record Xbpx : Type 0 where
  pub channels : HashTable Channel
  pub config_save_path : Text
  pub save_scheduled : Bool
  pub notify : Bool
  pub disk : Disk
  pub signals : List (Text × Text)

-- An operation returns its reply and the state that it leaves.
abbrev pub Op {ℓ} : Type ℓ → Type ℓ
Op A = Reply A × Xbpx

-- `prop_changed_func(backend, channel_name, property, prop_changed_data)`, if it is set
abbrev pub signal : Text → Text → Xbpx → Xbpx
signal channel_name property x =
    if x.notify then record x { signals = x.signals ++ (channel_name, property) ∷ [] } else x

-- A write through the pointer to a channel, which stands in the table under `key`.
abbrev pub put_channel : Text → Channel → Xbpx → Xbpx
put_channel key channel x = record x { channels = insert key channel x.channels }

-- `esconf_backend_perchannel_xml_schedule_save`: the timer is started anew.
unfoldable pub schedule_save : Text → Channel → Xbpx → Xbpx
schedule_save key channel x = record (put_channel key (record channel { dirty = true }) x) {
  save_scheduled = true;
}

-- The channel that an operation works on: the key that it has in the table, and the channel; or
-- what its loader says.
pub data Opened : Type 0 where
  opened : Text → Channel → Opened
  missing dead : Opened

module _ (p : Platform) where
  -- `esconf_backend_perchannel_xml_load_channel`, which puts the channel into the table under the
  -- name in lower case
  unfoldable pub load_channel : Text → Xbpx → Opened × Xbpx
  load_channel channel_name x = elim (read_channel p x.disk channel_name) [
    | not_found ↦ (missing, x)
    | Loaded.crash ↦ (dead, x)
    | loaded channel ↦
        let key = p.ascii_strdown channel_name in (opened key channel, put_channel key channel x)
  ]

  -- The head of every operation: the table is asked for the name as it is, then the disk.
  unfoldable pub open_channel : Text → Xbpx → Opened × Xbpx
  open_channel channel_name x = elim (lookup channel_name x.channels) [
    | some channel ↦ (opened channel_name channel, x)
    | none ↦ load_channel channel_name x
  ]

  -- `esconf_backend_perchannel_xml_create_channel`
  unfoldable pub create_channel : Text → Xbpx → Opened × Xbpx
  create_channel channel_name x = elim (lookup channel_name x.channels) [
    | some channel ↦ (opened channel_name channel, x)
    | none ↦
        let key = p.ascii_strdown channel_name in
        (opened key new_channel, put_channel key new_channel x)
  ]
