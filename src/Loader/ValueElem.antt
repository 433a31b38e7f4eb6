-- ===== src/Loader/ValueElem.antt =====
-- `esconf_xml_handle_value`
use esconf.Prelude.{Text, true, false, Option, none, some, List}
use esconf.Platform.{Platform}
use esconf.Value.{GType, GValue, GValues, nil, cons, ptr_array, gtype_from_string}
use esconf.Value.Parse.{Parsed, parsed, rejected, fault, gvalue_from_string}
use esconf.Tree.{Property}
use esconf.Loader.{elem_value, XmlParserState, Outcome, running, failed, crashed}
use esconf.Loader.Attributes.{no_attributes, value_attribute, scan_attributes}
use esconf.Loader.PropertyElem.{with_tree, set_slot, edit_prop}

-- `g_ptr_array_add`
unfoldable pub append_value : GValues → GValue → GValues
append_value nil v = cons v nil
append_value (cons w vs) v = cons w (append_value vs v)

-- The array in `*list_value`; there is none in a value of another type, and then nothing is added.
abbrev pub add_to_array : GValue → GValue → GValue
add_to_array v (ptr_array vs) = ptr_array (append_value vs v)
add_to_array v w = w

-- `*list_value`, by the slot that it points at
abbrev pub slot : Property → XmlParserState → GValue
slot q state = elim state.is_system_file [ true ↦ q.system_value | false ↦ q.value ]

module _ (p : Platform) where
  unfoldable pub add_value : Text → GValue → XmlParserState → Outcome
  add_value list_property v state =
      let add = λ (q : Property). set_slot state.is_system_file (add_to_array v (slot q state)) q in
      running (record (with_tree (edit_prop p list_property add state.channel.properties) state) {
        cur_elem = elem_value;
      })

  abbrev pub store_value : Text → Parsed → XmlParserState → Outcome
  store_value list_property fault state = crashed
  store_value list_property rejected state = failed state
  store_value list_property (parsed v) state = add_value list_property v state

  -- The value of a type; an array in an array is refused, as are types that have no name.
  abbrev pub value_of_type : Text → GType → Option Text → XmlParserState → Outcome
  value_of_type list_property GType.ptr_array text state = failed state
  value_of_type list_property GType.invalid text state = failed state
  value_of_type list_property GType.void text state = failed state
  value_of_type list_property t text state =
      store_value list_property (gvalue_from_string p t text) state

  -- A type that is not given is a NULL that `strcmp` reads.
  abbrev pub handle_value_attributes : Text → Option Text → Option Text → XmlParserState → Outcome
  handle_value_attributes list_property none text state = crashed
  handle_value_attributes list_property (some type) text state =
      value_of_type list_property (gtype_from_string type) text state

  unfoldable pub handle_value : Text → List (Text × Text) → XmlParserState → Outcome
  handle_value list_property attributes state =
      elim (scan_attributes value_attribute attributes no_attributes) [
        | none ↦ failed state
        | some a ↦ handle_value_attributes list_property a.type a.value state
      ]
