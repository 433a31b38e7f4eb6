-- ===== src/Loader/ChannelElem.antt =====
-- `esconf_xml_handle_channel`
use esconf.Prelude.{
  Text, bytes, streq, ◌==◌, Bool, true, false, not, ◌&&◌, ◌||◌, Option, none, some, List, [], ◌∷◌,
  if◌then◌else◌,
}
use esconf.Platform.{Platform}
use esconf.Locking.{is_user_in_list}
use esconf.Loader.{root_node, elem_channel, XmlParserState, Outcome, running, failed}
use esconf.Loader.Attributes.{
  Attributes, no_attributes, is_given, channel_attribute, scan_attributes,
}

-- The version up to its first dot.
unfoldable pub major_version : Text → Text
major_version [] = []
major_version (c ∷ s) = let rest = major_version s in if c == b'.' then [] else c ∷ rest

-- An attribute that is not given is the empty text here; the callers have tested that.
abbrev pub text_of : Option Text → Text
text_of none = []
text_of (some s) = s

module _ (p : Platform) where
  -- `locked_state`: `unlocked` is read first
  unfoldable pub locked_state : Attributes → Bool
  locked_state a =
      if is_given a.unlocked
      then not (is_user_in_list p (text_of a.unlocked))
      else if is_given a.locked
      then is_user_in_list p (text_of a.locked)
      else false

  -- A lock discards what earlier files said; a file without the lock of an earlier one is refused.
  unfoldable pub lock_channel : Bool → XmlParserState → Outcome
  lock_channel lock state =
      let channel = state.channel in
      if channel.locked && not lock
      then failed state
      else if not channel.locked && lock
      then running (record state {
        channel = record channel { properties = root_node; locked = true };
        cur_elem = elem_channel;
      })
      else running (record state { cur_elem = elem_channel })

  unfoldable pub handle_channel_attributes : Attributes → XmlParserState → Outcome
  handle_channel_attributes a state =
      if not (is_given a.name) || not (is_given a.version)
      then failed state
      else if not (streq (major_version (text_of a.version)) (bytes "1"))
      then failed state
      else if is_given a.locked || is_given a.unlocked
      then (if not state.is_system_file then failed state else lock_channel (locked_state a) state)
      else running (record state { cur_elem = elem_channel })

  unfoldable pub handle_channel : List (Text × Text) → XmlParserState → Outcome
  handle_channel attributes state =
      elim (scan_attributes channel_attribute attributes no_attributes) [
        | none ↦ failed state
        | some a ↦ handle_channel_attributes a state
      ]
