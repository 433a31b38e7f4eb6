-- ===== src/Loader/Elements.antt =====
-- `esconf_backend_perchannel_xml_start_elem` and `…_end_elem`, and a run of the parser.
use esconf.Prelude.{
  Text, bytes, streq, strrchr, not, Option, none, some, List, [], ◌∷◌, if◌then◌else◌,
}
use esconf.Platform.{Platform, Markup, start_elem, end_elem}
use esconf.Loader.{
  XmlParserElem, elem_none, elem_channel, elem_property, elem_value, XmlParserState, Outcome,
  running, failed, crashed,
}
use esconf.Loader.ChannelElem.{handle_channel}
use esconf.Loader.PropertyElem.{handle_property}
use esconf.Loader.ValueElem.{handle_value}

module _ (p : Platform) where
  -- An element inside a property that is not a property itself.
  unfoldable pub start_in_property :
      Text → List (Text × Text) → XmlParserState → Option Text → Outcome
  start_in_property element attributes state none = failed state
  start_in_property element attributes state (some list_property) =
      if streq element (bytes "value")
      then handle_value p list_property attributes state
      else failed state

  -- The switch over `cur_elem`.
  unfoldable pub start_in : XmlParserElem → Text → List (Text × Text) → XmlParserState → Outcome
  start_in elem_none element attributes state =
      if not (streq element (bytes "channel"))
      then failed state
      else handle_channel p attributes state
  start_in elem_channel element attributes state =
      if streq element (bytes "property") then handle_property p attributes state else failed state
  start_in elem_property element attributes state =
      if streq element (bytes "property")
      then handle_property p attributes state
      else start_in_property element attributes state state.list_property
  start_in elem_value element attributes state = failed state

-- The path of the parent, and the element that it is: the channel where the path is empty.
abbrev pub leave_to : Text → XmlParserState → XmlParserState
leave_to [] state = record state { cur_path = []; cur_elem = elem_channel; list_property = none }
leave_to (c ∷ path) state = record state {
  cur_path = c ∷ path;
  cur_elem = elem_property;
  list_property = none;
}

-- `esconf_backend_perchannel_xml_end_elem`
unfoldable pub end_in : XmlParserElem → XmlParserState → XmlParserState
end_in elem_channel state = record state { cur_elem = elem_none; cur_path = [] }
end_in elem_property state = elim (strrchr b'/' state.cur_path) [
  | some (before, after) ↦ leave_to before state
  | none ↦ record state { cur_elem = elem_channel; list_property = none }
]
end_in elem_value state = record state { cur_elem = elem_property }
end_in elem_none state = state

module _ (p : Platform) where
  unfoldable pub handle_markup : Markup → XmlParserState → Outcome
  handle_markup (start_elem element attributes) state =
      start_in p state.cur_elem element attributes state
  handle_markup (end_elem element) state = running (end_in state.cur_elem state)

  -- GMarkup calls the handlers in document order and stops at the first error.
  unfoldable pub run_parser : List Markup → XmlParserState → Outcome
  run_parser [] state = running state
  run_parser (m ∷ markup) state = elim (handle_markup m state) [
    | running state' ↦ run_parser markup state'
    | failed state' ↦ failed state'
    | crashed ↦ crashed
  ]
