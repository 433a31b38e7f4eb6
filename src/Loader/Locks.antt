-- ===== src/Loader/Locks.antt =====
-- What the elements of a channel file do to the lock of the channel.
use esconf.Prelude.{
  Text, ◌≡◌, refl, Bool, true, false, not, ◌&&◌, ◌||◌, Option, none, some, List, arith,
  if◌then◌else◌,
}
use esconf.Platform.{Platform}
use esconf.Value.{GType, gtype_from_string}
use esconf.Value.Parse.{Parsed, parsed, rejected, fault, gvalue_from_string}
use esconf.Tree.{Node}
use esconf.Loader.{XmlParserState, Outcome, running, failed, crashed}
use esconf.Loader.Attributes.{
  Attributes, no_attributes, is_given, property_attribute, value_attribute, scan_attributes,
}
use esconf.Loader.ChannelElem.{text_of}
use esconf.Loader.PropertyElem.{
  Prepared, prepared, passed, null_property, prepare, read_value, read_type, read_locks,
  handle_property_attributes, handle_property, full_path, enter_property,
}
use esconf.Loader.ValueElem.{
  add_value, store_value, value_of_type, handle_value_attributes, handle_value,
}

-- The channel has this lock, and the file is of this kind.
abbrev pub HasLock : Bool → Bool → XmlParserState → Type 0
HasLock locked is_system_file state =
    (state.channel.locked ≡ locked) × (state.is_system_file ≡ is_system_file)

-- The same of the state that an outcome leaves.
abbrev pub LeavesLock : Bool → Bool → Outcome → Type 0
LeavesLock locked is_system_file (running state) = HasLock locked is_system_file state
LeavesLock locked is_system_file (failed state) = HasLock locked is_system_file state
LeavesLock locked is_system_file crashed = Unit

module _ (p : Platform) (locked is_system_file : Bool) where
  -- Whichever branch is taken.
  pub either :
      (o o' : Outcome) (b : Bool)
      → LeavesLock locked is_system_file o
      → LeavesLock locked is_system_file o'
      → LeavesLock locked is_system_file (if b then o else o')
  either o o' true h h' = h
  either o o' false h h' = h'

  read_value-LeavesLock :
      (fullpath : Text) (type : GType) (text : Option Text) (tree : Node) (state : XmlParserState)
      → HasLock locked is_system_file state
      → LeavesLock locked is_system_file (read_value p fullpath type text tree state)
  unfolding read_value
  read_value-LeavesLock fullpath type text tree state h = go (gvalue_from_string p type text) refl
    where
      go :
          (o : Parsed)
          → gvalue_from_string p type text ≡ o
          → LeavesLock locked is_system_file (read_value p fullpath type text tree state)
      go fault e = rw (e, read_value) tt
      go rejected e = rw (e, read_value) h
      go (parsed v) e = rw (e, read_value) h

  read_type-LeavesLock :
      (fullpath : Text) (a : Attributes) (tree : Node) (state : XmlParserState)
      → HasLock locked is_system_file state
      → LeavesLock locked is_system_file (read_type p fullpath a tree state)
  unfolding read_type
  read_type-LeavesLock fullpath a tree state h = go (gtype_from_string (text_of a.type)) refl
    where
      go :
          (t : GType)
          → gtype_from_string (text_of a.type) ≡ t
          → LeavesLock locked is_system_file (read_type p fullpath a tree state)
      go GType.invalid e = rw (e, read_type) h
      go GType.void e = rw (e, read_type) h
      go t e = ground (arith, e, read_value-LeavesLock fullpath t a.value tree state h)

  read_locks-LeavesLock :
      (fullpath : Text) (a : Attributes) (tree : Node) (state : XmlParserState)
      → HasLock locked is_system_file state
      → LeavesLock locked is_system_file (read_locks p fullpath a tree state)
  unfolding read_locks
  read_locks-LeavesLock fullpath a tree state h =
      either _ _ (is_given a.locked || is_given a.unlocked)
        (either _ _ (not state.is_system_file) h (read_type-LeavesLock fullpath a _ state h))
        (read_type-LeavesLock fullpath a tree state h)

  -- A property of a file leaves the channel's lock as it is.
  pub handle_property-LeavesLock :
      (attributes : List (Text × Text)) (state : XmlParserState)
      → HasLock locked is_system_file state
      → LeavesLock locked is_system_file (handle_property p attributes state)
  unfolding handle_property handle_property_attributes
  handle_property-LeavesLock attributes state h =
      go (scan_attributes property_attribute attributes no_attributes)
    where
      with_property :
          (a : Attributes) (o : Prepared)
          → LeavesLock locked is_system_file (elim o as (λ x. Outcome) [
            | null_property ↦ crashed
            | passed ↦ running (enter_property p (full_path state.cur_path (text_of a.name)) state)
            | prepared tree ↦ read_locks p (full_path state.cur_path (text_of a.name)) a tree state
          ])
      with_property a null_property = tt
      with_property a passed = h
      with_property a (prepared tree) = read_locks-LeavesLock _ a tree state h

      go :
          (o : Option Attributes)
          → LeavesLock locked is_system_file (elim o as (λ x. Outcome) [
            | none ↦ failed state
            | some a ↦ handle_property_attributes p a state
          ])
      go none = h
      go (some a) = either _ _ (not (is_given a.name) || not (is_given a.type)) h (
          either _ _ (state.channel.locked && not state.is_system_file) tt (
            with_property a (
              prepare p (full_path state.cur_path (text_of a.name)) state.is_system_file
                state.channel)))

  pub handle_value-LeavesLock :
      (list_property : Text) (attributes : List (Text × Text)) (state : XmlParserState)
      → HasLock locked is_system_file state
      → LeavesLock locked is_system_file (handle_value p list_property attributes state)
  unfolding handle_value add_value
  handle_value-LeavesLock list_property attributes state h =
      go (scan_attributes value_attribute attributes no_attributes)
    where
      stored : (o : Parsed) → LeavesLock locked is_system_file (store_value p list_property o state)
      stored fault = tt
      stored rejected = h
      stored (parsed v) = h

      typed :
          (t : GType) (text : Option Text)
          → LeavesLock locked is_system_file (value_of_type p list_property t text state)
      typed GType.ptr_array text = h
      typed GType.invalid text = h
      typed GType.void text = h
      typed _ text = stored _

      given :
          (type text : Option Text)
          → LeavesLock locked is_system_file
              (handle_value_attributes p list_property type text state)
      given none text = tt
      given (some type) text = typed (gtype_from_string type) text

      go :
          (o : Option Attributes)
          → LeavesLock locked is_system_file (elim o as (λ x. Outcome) [
            | none ↦ failed state
            | some a ↦ handle_value_attributes p list_property a.type a.value state
          ])
      go none = h
      go (some a) = given a.type a.value
