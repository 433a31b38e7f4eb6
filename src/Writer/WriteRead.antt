-- ===== src/Writer/WriteRead.antt =====
-- A channel that is flushed and loaded again.
use esconf.Prelude.{
  Text, bytes, lookup, ◌≡◌, refl, ap, ◌∙◌, Bool, true, false, inl, inr, some, List, [], ◌∷◌, All,
  arith,
}
use esconf.Platform.{Platform, Disk, IsSplitter, Markup, end_elem}
use esconf.Value.{unset}
use esconf.Value.Parse.RoundTrip.{IsAscii}
use esconf.Error.{ok}
use esconf.Tree.{Node, node, Nodes, children, new_property}
use esconf.Loader.{Channel, new_channel}
use esconf.Loader.Attributes.{is_given}
use esconf.Loader.Elements.{run_parser}
use esconf.Loader.Files.{merge_file, channel_of, initial_state}
use esconf.Perchannel.{Xbpx}
use esconf.Writer.Flush.{save_file, write_channel, flush_channel}
use esconf.Writer.Saved.{IsFileSystem, flush_channel-IsSaved}
use esconf.Writer.Events.{AreStorableNodes, kept_nodes, channel_events}
use esconf.Writer.RoundTrip.{channel_read}
use esconf.Writer.Xml.{IsPlain, Reports, Escapes, channel_element}
use esconf.Writer.Document.{channel_text}
use esconf.Writer.Reported.{nodes_reported, nodes_readable, IsReadable-of_plain, word-IsReadable}

-- The channel with what a user's file keeps.
abbrev pub reloaded : Node → Channel
reloaded tree = record {
  properties = node (new_property (bytes "/") unset false) (kept_nodes (children tree));
  locked = false;
  dirty = false;
}

merge_file-contents :
    (p : Platform) (disk : Disk) (filename contents : Text) (events : List Markup)
    → lookup filename disk ≡ some contents
    → (p.markup contents).0 ≡ events
    → merge_file p disk filename false new_channel
      ≡ channel_of (run_parser p events (initial_state false new_channel))
unfolding merge_file
merge_file-contents p disk filename contents events found reported =
    rw (found, merge_file) (rw reported refl)

module _ (p : Platform) (splits : IsSplitter p) (ascii : IsAscii p) (escapes : Escapes p) where
  -- What GMarkup reports for the text of a channel.
  written_events :
      (key : Text) (cs : Nodes)
      → Reports p (channel_element p key cs)
      → All IsPlain key
      → AreStorableNodes [] cs
      → (p.markup (write_channel p key cs).0.1).0 ≡ channel_events p key cs
  written_events key cs reports plain h =
      ap (λ (w : Bool × Text). (p.markup w.1).0)
        (channel_text p escapes key cs (escapes key plain) h)
      ∙ reports (
        (IsReadable-of_plain key plain, (word-IsReadable (bytes "1.0") refl, tt)),
        nodes_readable p [] 1 cs h,
      )
      ∙ ap
          (λ (x : List Markup).
            Markup.start_elem (bytes "channel")
              ((bytes "name", key) ∷ (bytes "version", bytes "1.0") ∷ [])
            ∷ x)
          (nodes_reported p [] 1 cs (end_elem (bytes "channel") ∷ []) h)

  pub merge_file-flush_channel :
      (fs : IsFileSystem p) (key : Text) (channel : Channel) (x x' : Xbpx)
      → Reports p (channel_element p key (children channel.properties))
      → All IsPlain key
      → is_given (some key) ≡ true
      → lookup key x.channels ≡ some channel
      → AreStorableNodes [] (children channel.properties)
      → flush_channel p key x ≡ (ok tt, x')
      → merge_file p x'.disk (save_file key x) false new_channel
        ≡ some (reloaded channel.properties)
  merge_file-flush_channel fs key channel x x' reports plain given found h done =
      elim (rw done at (flush_channel-IsSaved p key channel x fs found)) [
        | inl (complete, success, saved) ↦
            merge_file-contents p x'.disk (save_file key x)
              (write_channel p key (children channel.properties)).0.1
              (channel_events p key (children channel.properties)) saved
              (written_events key (children channel.properties) reports plain h)
            ∙ channel_read p key (children channel.properties) splits ascii given h
        | inr (failed, kept) ↦ absurd (ground (arith, failed))
      ]
