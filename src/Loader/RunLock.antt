-- ===== src/Loader/RunLock.antt =====
-- What a run of the parser does to the lock of a channel.
use esconf.Prelude.{
  Text, bytes, lookup, streq, ◌≡◌, ◌⊎◌, refl, ap, ◌∙◌, Bool, true, false, not, ◌&&◌, ◌||◌, Option,
  none, some, List, [], ◌∷◌, strrchr, arith, if◌then◌else◌, inl, inr,
}
use esconf.Platform.{Platform, Disk, Markup, start_elem, end_elem}
use esconf.Loader.{
  Channel, root_node, elem_none, elem_channel, elem_property, elem_value, XmlParserElem,
  XmlParserState, Outcome, running, failed, crashed,
}
use esconf.Loader.Attributes.{
  Attributes, no_attributes, is_given, channel_attribute, scan_attributes,
}
use esconf.Loader.ChannelElem.{
  major_version, locked_state, lock_channel, handle_channel_attributes, handle_channel, text_of,
}
use esconf.Loader.Elements.{
  start_in, start_in_property, end_in, leave_to, handle_markup, run_parser,
}
use esconf.Loader.Files.{initial_state, channel_of, merge_file}
use esconf.Loader.Locks.{
  HasLock, LeavesLock, either, handle_property-LeavesLock, handle_value-LeavesLock,
}

module _ (p : Platform) (locked is_system_file : Bool) where
  -- A system file does not unlock a locked channel, and a user's file leaves the lock as it is.
  handle_channel-LeavesLock :
      (attributes : List (Text × Text)) (state : XmlParserState)
      → (locked ≡ true) ⊎ (is_system_file ≡ false)
      → HasLock locked is_system_file state
      → LeavesLock locked is_system_file (handle_channel p attributes state)
  unfolding handle_channel handle_channel_attributes lock_channel
  handle_channel-LeavesLock attributes state k h =
      go (scan_attributes channel_attribute attributes no_attributes)
    where
      by_lock :
          (l b : Bool)
          → b ≡ true
          → LeavesLock locked is_system_file (
              if b && not l
              then failed state
              else if not b && l
              then running (record state {
                channel = record (state.channel) { properties = root_node; locked = true };
                cur_elem = elem_channel;
              })
              else running (record state { cur_elem = elem_channel }))
      by_lock true true e = h
      by_lock false true e = h
      by_lock l false e = absurd (ground arith)

      system :
          (l : Bool)
          → state.is_system_file ≡ true
          → LeavesLock locked is_system_file (lock_channel p l state)
      system l sys = elim k [
        | inl locks ↦ by_lock l state.channel.locked (h.0 ∙ locks)
        | inr user ↦ absurd (ground (arith, h.1, user, sys))
      ]

      by_kind :
          (l : Bool) (b : Bool)
          → state.is_system_file ≡ b
          → LeavesLock locked is_system_file
              (if not b then failed state else lock_channel p l state)
      by_kind l true e = system l e
      by_kind l false e = h

      go :
          (o : Option Attributes)
          → LeavesLock locked is_system_file (elim o as (λ x. Outcome) [
            | none ↦ failed state
            | some a ↦ handle_channel_attributes p a state
          ])
      go none = h
      go (some a) =
          either p locked is_system_file _ _ (not (is_given a.name) || not (is_given a.version)) h (
            either p locked is_system_file _ _
              (not (streq (major_version (text_of a.version)) (bytes "1"))) h
              (either p locked is_system_file _ _ (is_given a.locked || is_given a.unlocked)
                (by_kind (locked_state p a) state.is_system_file refl) h))

  end_in-LeavesLock :
      (e : XmlParserElem) (state : XmlParserState)
      → HasLock locked is_system_file state
      → HasLock locked is_system_file (end_in e state)
  unfolding end_in
  end_in-LeavesLock elem_none state h = h
  end_in-LeavesLock elem_channel state h = h
  end_in-LeavesLock elem_value state h = h
  end_in-LeavesLock elem_property state h = go (strrchr b'/' state.cur_path)
    where
      left : (cur_path : Text) → HasLock locked is_system_file (leave_to cur_path state)
      left [] = h
      left (c ∷ s) = h

      go :
          (o : Option (Text × Text))
          → HasLock locked is_system_file (elim o as (λ x. XmlParserState) [
            | some (before, after) ↦ leave_to before state
            | none ↦ record state { cur_elem = elem_channel; list_property = none }
          ])
      go none = h
      go (some (before, after)) = left before

  start_in-LeavesLock :
      (e : XmlParserElem) (element : Text) (attributes : List (Text × Text))
      (state : XmlParserState)
      → (locked ≡ true) ⊎ (is_system_file ≡ false)
      → HasLock locked is_system_file state
      → LeavesLock locked is_system_file (start_in p e element attributes state)
  unfolding start_in start_in_property
  start_in-LeavesLock elem_none element attributes state k h =
      either p locked is_system_file _ _ (not (streq element (bytes "channel"))) h
        (handle_channel-LeavesLock attributes state k h)
  start_in-LeavesLock elem_channel element attributes state k h =
      either p locked is_system_file _ _ (streq element (bytes "property"))
        (handle_property-LeavesLock p locked is_system_file attributes state h) h
  start_in-LeavesLock elem_property element attributes state k h =
      either p locked is_system_file _ _ (streq element (bytes "property"))
        (handle_property-LeavesLock p locked is_system_file attributes state h)
        (go state.list_property)
    where
      go :
          (o : Option Text)
          → LeavesLock locked is_system_file (start_in_property p element attributes state o)
      go none = h
      go (some list_property) =
          either p locked is_system_file _ _ (streq element (bytes "value"))
            (handle_value-LeavesLock p locked is_system_file list_property attributes state h) h
  start_in-LeavesLock elem_value element attributes state k h = h

  handle_markup-LeavesLock :
      (m : Markup) (state : XmlParserState)
      → (locked ≡ true) ⊎ (is_system_file ≡ false)
      → HasLock locked is_system_file state
      → LeavesLock locked is_system_file (handle_markup p m state)
  unfolding handle_markup
  handle_markup-LeavesLock (start_elem element attributes) state k h =
      start_in-LeavesLock state.cur_elem element attributes state k h
  handle_markup-LeavesLock (end_elem element) state k h = end_in-LeavesLock state.cur_elem state h

  run_parser-LeavesLock :
      (markup : List Markup) (state : XmlParserState)
      → (locked ≡ true) ⊎ (is_system_file ≡ false)
      → HasLock locked is_system_file state
      → LeavesLock locked is_system_file (run_parser p markup state)
  unfolding run_parser
  run_parser-LeavesLock [] state k h = h
  run_parser-LeavesLock (m ∷ markup) state k h =
      go (handle_markup p m state) (handle_markup-LeavesLock m state k h)
        (λ s. run_parser-LeavesLock markup s k)
    where
      go :
          (o : Outcome)
          → LeavesLock locked is_system_file o
          → ((s : XmlParserState)
              → HasLock locked is_system_file s
              → LeavesLock locked is_system_file (run_parser p markup s))
          → LeavesLock locked is_system_file (elim o as (λ x. Outcome) [
            | running state' ↦ run_parser p markup state'
            | failed state' ↦ failed state'
            | crashed ↦ crashed
          ])
      go (running s) x ih = ih s x
      go (failed s) x ih = x
      go crashed x ih = tt

  -- A file that is merged into a channel.
  pub merge_file-lock :
      (disk : Disk) (filename : Text) (channel channel' : Channel)
      → (locked ≡ true) ⊎ (is_system_file ≡ false)
      → channel.locked ≡ locked
      → merge_file p disk filename is_system_file channel ≡ some channel'
      → channel'.locked ≡ locked
  unfolding merge_file
  merge_file-lock disk filename channel channel' k h = go (lookup filename disk)
    where
      left :
          (o : Outcome)
          → LeavesLock locked is_system_file o
          → channel_of o ≡ some channel'
          → channel'.locked ≡ locked
      left (running s) x e =
          ground
            (arith, x.0, ap (λ o. elim o as (λ x. Bool) [ none ↦ locked | some c ↦ c.locked ]) e)
      left (failed s) x e =
          ground
            (arith, x.0, ap (λ o. elim o as (λ x. Bool) [ none ↦ locked | some c ↦ c.locked ]) e)
      left crashed x e = absurd (ground arith)

      go :
          (o : Option Text)
          → (elim o as (λ x. Option Channel) [
            | none ↦ some channel
            | some contents ↦
                channel_of
                  (run_parser p ((p.markup contents).0) (initial_state is_system_file channel))
          ])
            ≡ some channel'
          → channel'.locked ≡ locked
      go none e =
          ground (arith, h, ap (λ o. elim o as (λ x. Bool) [ none ↦ locked | some c ↦ c.locked ]) e)
      go (some contents) e =
          left _
            (run_parser-LeavesLock ((p.markup contents).0) (initial_state is_system_file channel) k
              (h, refl))
            e
