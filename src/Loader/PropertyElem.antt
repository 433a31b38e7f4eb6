-- ===== src/Loader/PropertyElem.antt =====
-- `esconf_xml_handle_property`
use esconf.Prelude.{
  Text, bytes, Bool, true, false, not, ◌&&◌, ◌||◌, Option, none, some, List, if◌then◌else◌,
}
use esconf.Platform.{Platform}
use esconf.Value.{GType, GValue, unset, gtype_from_string}
use esconf.Value.Parse.{parsed, rejected, fault, gvalue_from_string, initial_value}
use esconf.Names.{prop_name_is_valid}
use esconf.Locking.{is_user_in_list}
use esconf.Tree.{
  Property, Node, node, modify, strlcpy, parts_of, lookup_prop, add_property, proptree_reset,
}
use esconf.Loader.{
  Channel, elem_property, XmlParserState, Outcome, running, failed, crashed, strlcat,
}
use esconf.Loader.Attributes.{
  Attributes, no_attributes, is_given, property_attribute, scan_attributes,
}
use esconf.Loader.ChannelElem.{text_of}

-- The tree in a channel, and the channel in a parser's state.
abbrev pub with_tree : Node → XmlParserState → XmlParserState
with_tree tree state = record state { channel = record (state.channel) { properties = tree } }

abbrev pub edit : (Property → Property) → Node → Node
edit g (node q cs) = node (g q) cs

-- Both values, or the user's value, unset; the system's value goes in a system file only.
abbrev clear_values : Bool → Property → Property
clear_values true q = record q { value = unset; system_value = unset }
clear_values false q = record q { value = unset }

-- `value_to_set`
abbrev pub set_slot : Bool → GValue → Property → Property
set_slot true v q = record q { system_value = v }
set_slot false v q = record q { value = v }

abbrev set_lock : Bool → Property → Property
set_lock l q = record q { locked = l }

-- `fullpath`
abbrev pub full_path : Text → Text → Text
full_path cur_path name = strlcat (strlcat (strlcpy cur_path) (bytes "/")) name

-- What the handler does about a property of that name before it reads the locks: it goes on with a
-- property without values, passes over a locked one, or uses the NULL that an invalid name gives.
pub data Prepared : Type 0 where
  prepared : Node → Prepared
  passed null_property : Prepared

module _ (p : Platform) where
  -- A write through the `EsconfProperty` pointer that the name finds.
  unfoldable pub edit_prop : Text → (Property → Property) → Node → Node
  edit_prop name g tree = modify (parts_of p name) (edit g) tree

  -- `pnode->data` is read after the addition.
  unfoldable pub add_empty : Text → Bool → Node → Prepared
  add_empty fullpath locked tree =
      if prop_name_is_valid fullpath
      then prepared (add_property p tree fullpath unset locked)
      else null_property

  unfoldable pub prepare : Text → Bool → Channel → Prepared
  prepare fullpath is_system_file channel = elim (lookup_prop p channel.properties fullpath) [
    | none ↦ add_empty fullpath channel.locked channel.properties
    | some q ↦
        if channel.locked
        then prepared (edit_prop fullpath (clear_values true) channel.properties)
        else if q.locked && not is_system_file
        then passed
        else prepared (edit_prop fullpath (clear_values is_system_file) channel.properties)
  ]

  -- The lock that the attributes give the property.
  unfoldable pub property_lock : Attributes → Channel → Bool
  property_lock a channel =
      if channel.locked
      then true
      else if is_given a.unlocked
      then not (is_user_in_list p (text_of a.unlocked))
      else is_user_in_list p (text_of a.locked)

  -- `esconf_proptree_reset`, whose result is not read.
  unfoldable pub reset_quietly : Text → Node → Node
  reset_quietly fullpath tree = elim (proptree_reset p tree fullpath) [ none ↦ tree | some t ↦ t ]

  -- The end of the handler: the element is the current one.
  abbrev pub enter_property : Text → XmlParserState → XmlParserState
  enter_property fullpath state = record state {
    cur_path = strlcpy fullpath;
    cur_elem = elem_property;
  }

  abbrev pub is_array : GType → Bool
  is_array GType.ptr_array = true
  is_array _ = false

  -- The value of a type that is not G_TYPE_NONE. A text that is refused leaves the type's initial value.
  unfoldable pub read_value : Text → GType → Option Text → Node → XmlParserState → Outcome
  read_value fullpath type text tree state =
      let store = λ (v : GValue). edit_prop fullpath (set_slot state.is_system_file v) tree in
      elim (gvalue_from_string p type text) [
        | fault ↦ crashed
        | rejected ↦ failed (with_tree (store (initial_value type)) state)
        | parsed v ↦
            let list = if is_array type then some fullpath else state.list_property in
            running (
              enter_property fullpath (record (with_tree (store v) state) { list_property = list }))
      ]

  -- The part of the handler that reads the type.
  unfoldable pub read_type : Text → Attributes → Node → XmlParserState → Outcome
  read_type fullpath a tree state = elim (gtype_from_string (text_of a.type)) [
    | GType.invalid ↦ failed (with_tree tree state)
    | GType.void ↦ running (enter_property fullpath (with_tree tree state))
    | type ↦ read_value fullpath type a.value tree state
  ]

  -- The part that reads the locks. Only a system file may have them.
  unfoldable pub read_locks : Text → Attributes → Node → XmlParserState → Outcome
  read_locks fullpath a tree state =
      if is_given a.locked || is_given a.unlocked
      then (if not state.is_system_file
          then failed (with_tree (reset_quietly fullpath tree) state)
          else read_type fullpath a
              (edit_prop fullpath (set_lock (property_lock a state.channel)) tree) state)
      else read_type fullpath a tree state

  unfoldable pub handle_property_attributes : Attributes → XmlParserState → Outcome
  handle_property_attributes a state =
      let fullpath = full_path state.cur_path (text_of a.name) in
      if not (is_given a.name) || not (is_given a.type)
      then failed state
      else if state.channel.locked && not state.is_system_file
      then crashed
      else elim (prepare fullpath state.is_system_file state.channel) [
        | null_property ↦ crashed
        | passed ↦ running (enter_property fullpath state)
        | prepared tree ↦ read_locks fullpath a tree state
      ]

  unfoldable pub handle_property : List (Text × Text) → XmlParserState → Outcome
  handle_property attributes state =
      elim (scan_attributes property_attribute attributes no_attributes) [
        | none ↦ failed state
        | some a ↦ handle_property_attributes a state
      ]
