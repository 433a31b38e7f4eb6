-- ===== src/Tests/Writers.antt =====
-- The writer, at the state with the channel `ch`, on a disk that takes every file.
use esconf.Prelude.{
  Text, bytes, streq, streq_refl, streq_iff, lookup, lookup-insert, insert, remove, Bool,
  Bool-cases, Option-cases, true, false, ◌≡◌, refl, inl, inr, Option, none, some, List, [], ◌∷◌,
  ◌++◌, if◌then◌else◌, arith,
}
use esconf.Platform.{Platform, Disk, Markup, IsSplitter}
use esconf.Value.Parse.RoundTrip.{IsAscii}
use esconf.Tree.{children}
use esconf.Loader.{Channel, new_channel}
use esconf.Loader.Files.{merge_file}
use esconf.Perchannel.{Xbpx}
use esconf.Writer.Flush.{save_file, write_channel, flush_channel, flush, flushed}
use esconf.Writer.Laws.{flush-IsClean}
use esconf.Writer.Saved.{IsFileSystem, IsSaved, flush_channel-IsSaved}
use esconf.Writer.Events.{AreStorableNodes}
use esconf.Writer.Xml.{Reports, Escapes, channel_element, element_text, element_events}
use esconf.Writer.WriteRead.{reloaded, merge_file-flush_channel}
use esconf.Tests.Platforms.{test_platform, test_platform-IsSplitter}
use esconf.Tests.Trees.{tree}
use esconf.Tests.Channels.{ch, channel, state, state-channel}

-- The text that is written for the channel, and a reader that knows this text.
abbrev document : Text
document =
    bytes "<?xml version=\"1.0\" encoding=\"UTF-8\"?>\n\n"
    ++ element_text test_platform (channel_element test_platform ch (children tree)) []

abbrev reader : Text → List Markup × Bool
reader s =
    if streq s document
    then (element_events (channel_element test_platform ch (children tree)) [], true)
    else ([], false)

abbrev reading_platform : Platform
reading_platform = record test_platform { markup = reader }

reading_platform-IsSplitter : IsSplitter reading_platform
reading_platform-IsSplitter = record { strsplit-joined = test_platform-IsSplitter.strsplit-joined }

reading_platform-IsAscii : IsAscii reading_platform
reading_platform-IsAscii = record { strtoull = λ s. refl; strtoll = λ s. refl }

reading_platform-Escapes : Escapes reading_platform
reading_platform-Escapes s h = refl

reading_platform-Reports :
    Reports reading_platform (channel_element reading_platform ch (children tree))
reading_platform-Reports h = rw (streq_refl document) refl

-- Renaming.
abbrev moved : Disk → Text → Text → Option Text → Option Disk
moved disk name other none = none
moved disk name other (some s) = some (insert other s (remove name disk))

reading_platform-IsFileSystem : IsFileSystem reading_platform
reading_platform-IsFileSystem = record {
  written =
      λ disk disk' name s e. ground (arith, lookup-insert name name s disk, streq_refl name, e);
  others = λ disk name other s ne. elim (Bool-cases (streq name other)) [
    | inl same ↦ absurd (ne ((streq_iff name other).0 same))
    | inr different ↦ ground (arith, lookup-insert name other s disk, different)
  ];
  begun = λ disk name other s ne. refl;
  renamed = λ disk disk' name other e. elim (Option-cases (lookup name disk)) [
    | inl missing ↦ absurd (ground (arith, rw missing at e))
    | inr (s, found) ↦ ground (
      arith,
      rw found at e,
      lookup-insert other other s (remove name disk),
      streq_refl other,
      found,
    )
  ];
}

tree-AreStorable : AreStorableNodes [] (children tree)
unfolding esconf.Tree.find_child
tree-AreStorable = ground arith

-- The same state, where the channel waits for a flush.
abbrev changed : Xbpx
changed = record state { channels = (ch, record channel { dirty = true }) ∷ [] }

abbrev written : Channel
written = flushed (children tree) (record channel { dirty = true })

flush-IsClean_example : written.dirty ≡ false
unfolding flush esconf.Writer.Flush.get_dirty esconf.Writer.Flush.flush_all flush_channel lookup
    streq insert esconf.Writer.Flush.flush_found esconf.Writer.Flush.flush_opened
    esconf.Writer.Flush.write_channel esconf.Writer.write_nodes esconf.Writer.write_node
    esconf.Writer.format_xml_tag
flush-IsClean_example = flush-IsClean reading_platform ch written changed refl

flush_channel-IsSaved_example :
    let text = (write_channel reading_platform ch (children channel.properties)).0 in
    let (r, x') = flush_channel reading_platform ch state in
    IsSaved (save_file ch state) text.1 text.0 state.disk (r, x'.disk)
flush_channel-IsSaved_example =
    flush_channel-IsSaved reading_platform ch channel state reading_platform-IsFileSystem
      state-channel

merge_file-flush_channel_example :
    merge_file reading_platform
      (flush_channel reading_platform ch state).1.disk
      (save_file ch state)
      false
      new_channel
    ≡ some (reloaded tree)
unfolding flush_channel lookup streq esconf.Writer.Flush.flush_found
    esconf.Writer.Flush.flush_opened esconf.Writer.Flush.replace_file
    esconf.Writer.Flush.write_channel esconf.Writer.write_nodes esconf.Writer.write_node
    esconf.Writer.format_xml_tag insert
merge_file-flush_channel_example =
    merge_file-flush_channel reading_platform reading_platform-IsSplitter reading_platform-IsAscii
      reading_platform-Escapes reading_platform-IsFileSystem ch channel state
      (flush_channel reading_platform ch state).1 reading_platform-Reports (ground arith) refl
      state-channel tree-AreStorable refl
