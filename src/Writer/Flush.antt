-- ===== src/Writer/Flush.antt =====
-- Writing the channels that changed, esconf_backend_perchannel_xml_flush, and listing the channels.
use esconf.Prelude.{
  Text, bytes, streq, lookup, HashTable, Bool, true, false, Option, none, some, ◌>>=◌, List, [],
  ◌∷◌, ◌++◌, if◌then◌else◌,
}
use esconf.Platform.{Platform, Disk}
use esconf.Error.{EsconfError, channel_not_found, write_failure, Reply, ok, err}
use esconf.Tree.{Node, node, Nodes, children}
use esconf.Loader.{Channel}
use esconf.Perchannel.{Xbpx, put_channel}
use esconf.Writer.{Written, write_nodes, around}

-- `filename`
abbrev pub save_file : Text → Xbpx → Text
save_file channel_name x = x.config_save_path ++ (bytes "/" ++ (channel_name ++ bytes ".xml"))

abbrev pub prolog : Text → Text
prolog channel_name =
    bytes "<?xml version=\"1.0\" encoding=\"UTF-8\"?>\n\n"
    ++ (bytes "<channel name=\"" ++ (channel_name ++ bytes "\" version=\"1.0\">\n"))

-- The channel that a flush leaves: its values as the writer leaves them, and no longer dirty.
abbrev pub flushed : Nodes → Channel → Channel
flushed cs channel = record channel {
  properties = with_children cs channel.properties;
  dirty = false;
}
  where
    with_children : Nodes → Node → Node
    with_children cs (node q old) = node q cs

-- The new file takes the place of the old one when it is complete.
unfoldable pub replace_file : Platform → Text → Bool → Bool × Disk → Reply (Unit {0}) × Disk
replace_file p filename true (true, disk) =
    elim (p.rename disk (filename ++ bytes ".new") filename) [
      | some disk' ↦ (ok tt, disk')
      | none ↦ (err write_failure, disk)
    ]
replace_file p filename _ (_, disk) = (err write_failure, disk)

-- The text of a channel.
unfoldable pub write_channel : Platform → Text → Nodes → Written × Nodes
write_channel p channel_name cs =
    let (text, cs') = write_nodes p 1 cs in
    (around (prolog channel_name) (bytes "</channel>\n") text, cs')

-- What is done with the new file.
unfoldable pub flush_opened : Platform → Text → Channel → Xbpx → Reply (Unit {0}) × Xbpx
flush_opened p channel_name channel x =
    let filename = save_file channel_name x in
    let text = write_channel p channel_name (children channel.properties) in
    let saved =
      replace_file p filename text.0.0 (p.write_file x.disk (filename ++ bytes ".new") text.0.1) in
    (saved.0, put_channel channel_name (flushed text.1 channel) (record x { disk = saved.1 }))

-- `esconf_backend_perchannel_xml_flush_channel`: where the file cannot be opened and begun, the values
-- are as they were.
unfoldable pub flush_found : Platform → Text → Channel → Xbpx → Reply (Unit {0}) × Xbpx
flush_found p channel_name channel x =
    let begun =
      p.open_file x.disk (save_file channel_name x ++ bytes ".new") (prolog channel_name) in
    if begun.0 then flush_opened p channel_name channel x else (
      err write_failure,
      put_channel channel_name (record channel { dirty = false }) (record x { disk = begun.1 }),
    )

unfoldable pub flush_channel : Platform → Text → Xbpx → Reply (Unit {0}) × Xbpx
flush_channel p channel_name x = elim (lookup channel_name x.channels) [
  | none ↦ (err channel_not_found, x)
  | some channel ↦ flush_found p channel_name channel x
]

-- `esconf_backend_perchannel_xml_flush_get_dirty` over the table
unfoldable pub get_dirty : HashTable Channel → List Text → List Text
get_dirty [] dirty = dirty
get_dirty ((key, channel) ∷ channels) dirty =
    get_dirty channels (if channel.dirty then key ∷ dirty else dirty)

-- The first error is kept in `*error`.
abbrev pub first_error : Option EsconfError → Reply (Unit {0}) → Option EsconfError
first_error (some e) r = some e
first_error none (err e) = some e
first_error none _ = none

unfoldable pub flush_all :
    Platform → List Text → Option EsconfError → Xbpx → Option EsconfError × Xbpx
flush_all p [] error x = (error, x)
flush_all p (key ∷ keys) error x =
    let (r, x') = flush_channel p key x in flush_all p keys (first_error error r) x'

-- `esconf_backend_perchannel_xml_flush`, which returns TRUE also when it sets an error.
unfoldable pub flush : Platform → Xbpx → Option EsconfError × Xbpx
flush p x = flush_all p (get_dirty x.channels []) none x

-- `esconf_backend_perchannel_xml_save_timeout`
unfoldable pub save_timeout : Platform → Xbpx → Xbpx
save_timeout p x = (flush p (record x { save_scheduled = false })).1

-- `g_str_has_suffix(name, ".xml")` and the name without it
unfoldable pub without_suffix : Text → Option Text
without_suffix [] = none
without_suffix (c ∷ name) =
    let rest = without_suffix name in
    if streq (c ∷ name) (bytes ".xml") then some [] else rest >>= λ stem. some (c ∷ stem)

abbrev pub is_listed : Text → List Text → Bool
is_listed name [] = false
is_listed name (other ∷ names) = if streq other name then true else is_listed name names

-- The loop over the names in a directory. A channel is prepended once.
unfoldable pub list_names : List Text → List Text → List Text
list_names [] channels = channels
list_names (name ∷ names) channels = elim (without_suffix name) [
  | none ↦ list_names names channels
  | some stem ↦ list_names names (if is_listed stem channels then channels else stem ∷ channels)
]

unfoldable pub list_dirs : Platform → Disk → List Text → List Text → List Text
list_dirs p disk [] channels = channels
list_dirs p disk (dir ∷ dirs) channels = elim (p.read_dir disk dir) [
  | none ↦ list_dirs p disk dirs channels
  | some names ↦ list_dirs p disk dirs (list_names names channels)
]

-- `esconf_backend_perchannel_xml_list_channels` onto the list of the caller
unfoldable pub list_channels : Platform → List Text → Xbpx → List Text
list_channels p channels x =
    list_dirs p x.disk (p.lookup_all x.disk (bytes "expidus1/esconf/expidus-perchannel-xml/"))
      channels
