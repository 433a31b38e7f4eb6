-- ===== src/Loader/Files.antt =====
-- `esconf_backend_perchannel_xml_merge_file`, and the files of a channel in
-- `esconf_backend_perchannel_xml_load_channel`.
use mathlib.Core.List.{reverse}
use esconf.Prelude.{
  Text, bytes, lookup, streq, Bool, true, false, not, ◌&&◌, is_some, Option, none, some, ◌>>=◌,
  List, [], ◌∷◌, ◌++◌, if◌then◌else◌,
}
use esconf.Platform.{Platform, Disk}
use esconf.Loader.{
  Channel, new_channel, elem_none, XmlParserState, Outcome, running, failed, crashed,
}
use esconf.Loader.Elements.{run_parser}

-- The state that the parser starts from.
abbrev pub initial_state : Bool → Channel → XmlParserState
initial_state is_system_file channel = record {
  channel = channel;
  is_system_file = is_system_file;
  cur_elem = elem_none;
  cur_path = [];
  list_property = none;
}

-- `CONFIG_FILE_FMT` with the channel's name
abbrev pub config_file : Text → Text
config_file channel_name =
    bytes "expidus1/esconf/expidus-perchannel-xml/" ++ (channel_name ++ bytes ".xml")

-- `!g_strcmp0(user_file, filename)`
abbrev pub is_user_file : Option Text → Text → Bool
is_user_file none filename = false
is_user_file (some user_file) filename = streq user_file filename

-- What an outcome leaves in the channel; `none` is a crash.
abbrev pub channel_of : Outcome → Option Channel
channel_of (running state) = some state.channel
channel_of (failed state) = some state.channel
channel_of crashed = none

-- What the loader finds on the disk: no file, a channel, or a file that ends the process.
pub data Loaded : Type 0 where
  not_found crash : Loaded
  loaded : Channel → Loaded

abbrev is_empty : List Text → Bool
is_empty [] = true
is_empty (f ∷ filenames) = false

module _ (p : Platform) where
  -- A file that cannot be read changes nothing. The result for the caller, which no caller reads, is
  -- left out. Malformed markup shows in the events that come before it.
  unfoldable pub merge_file : Disk → Text → Bool → Channel → Option Channel
  merge_file disk filename is_system_file channel = elim (lookup filename disk) [
    | none ↦ some channel
    | some contents ↦
        channel_of (run_parser p ((p.markup contents).0) (initial_state is_system_file channel))
  ]

  -- The loop over the system files, in the order in which it visits them.
  unfoldable pub merge_system_files : Disk → Option Text → List Text → Channel → Option Channel
  merge_system_files disk user_file [] channel = some channel
  merge_system_files disk user_file (filename ∷ filenames) channel =
      elim (is_user_file user_file filename) [
        | true ↦ merge_system_files disk user_file filenames channel
        | false ↦
            merge_file disk filename true channel >>= merge_system_files disk user_file filenames
      ]

  -- The user's file comes last, and only where no system file locks the channel.
  unfoldable pub merge_user_file : Disk → Option Text → Channel → Option Channel
  merge_user_file disk none channel = some channel
  merge_user_file disk (some user_file) channel =
      if not channel.locked then merge_file disk user_file false channel else some channel

  -- The channel that the loader builds: the least important system file is read first.
  unfoldable pub build_channel : Disk → Option Text → List Text → Option Channel
  build_channel disk user_file filenames =
      merge_system_files disk user_file (reverse filenames) new_channel
      >>= merge_user_file disk user_file

  -- The loader up to the insertion into the table.
  unfoldable pub read_channel : Disk → Text → Loaded
  read_channel disk channel_name =
      let filenames = p.lookup_all disk (config_file channel_name) in
      let user_file = p.save_location disk (config_file channel_name) in
      if is_empty filenames && not (is_some user_file)
      then not_found
      else elim (build_channel disk user_file filenames) [
        | none ↦ crash
        | some channel ↦ loaded channel
      ]
