-- ===== src/Writer/Arrays.antt =====
-- The parser at the elements of an array that the writer wrote.
use esconf.Prelude.{
  Text, bytes, streq, ◌≡◌, refl, ap, sym, ◌∙◌, true, false, none, some, List, [], ◌∷◌, ◌++◌, All,
}
use esconf.Platform.{Platform, IsSplitter, Markup, start_elem, end_elem}
use esconf.Value.{
  GValue, GValues, g_value_type, gtype_from_string, string, uchar, uint, uint64, int, int64,
  boolean, ptr_array, nil, cons,
}
use esconf.Value.Parse.Print.{string_from_gvalue}
use esconf.Value.Parse.RoundTrip.{IsAscii, gvalue_from_string-string_from_gvalue}
use esconf.Names.Paths.{path, IsComponent}
use esconf.Tree.{Node, node, Nodes, children, find_child, modify, new_property}
use esconf.Tree.Walk.{descend}
use esconf.Tree.Grow.{append_child}
use esconf.Loader.{elem_value, XmlParserElem, XmlParserState, running}
use esconf.Loader.Attributes.{value_attribute, scan_attributes}
use esconf.Loader.PropertyElem.{set_slot}
use esconf.Loader.ValueElem.{append_value, add_to_array, add_value, handle_value}
use esconf.Loader.Elements.{start_in, start_in_property, end_in, handle_markup, run_parser}
use esconf.Writer.Events.{IsScalar, AreScalar, value_attributes, values_events}
use esconf.Writer.Reading.{inside}
use esconf.Writer.Entering.{elem_at-append, edit_prop-added}

pub run_parser-running :
    (p : Platform) (e : Markup) (events : List Markup) (state state' : XmlParserState)
    → handle_markup p e state ≡ running state'
    → run_parser p (e ∷ events) state ≡ run_parser p events state'
unfolding run_parser
run_parser-running p e events state state' h = rw (h, run_parser) refl

-- A scalar is read from its attributes.
handle_value-scalar :
    (p : Platform) (v : GValue) (fullpath : Text) (state : XmlParserState)
    → IsAscii p
    → IsScalar v
    → handle_value p fullpath (value_attributes p v) state ≡ add_value p fullpath v state
unfolding handle_value scan_attributes value_attribute streq gtype_from_string g_value_type
    string_from_gvalue
handle_value-scalar p (uchar n) fullpath state ascii h =
    rw (gvalue_from_string-string_from_gvalue p (uchar n) ascii h, handle_value) refl
handle_value-scalar p (uint n) fullpath state ascii h =
    rw (gvalue_from_string-string_from_gvalue p (uint n) ascii h, handle_value) refl
handle_value-scalar p (int n) fullpath state ascii h =
    rw (gvalue_from_string-string_from_gvalue p (int n) ascii h, handle_value) refl
handle_value-scalar p (uint64 n) fullpath state ascii h =
    rw (gvalue_from_string-string_from_gvalue p (uint64 n) ascii h, handle_value) refl
handle_value-scalar p (int64 n) fullpath state ascii h =
    rw (gvalue_from_string-string_from_gvalue p (int64 n) ascii h, handle_value) refl
handle_value-scalar p (boolean true) fullpath state ascii h =
    rw (gvalue_from_string-string_from_gvalue p (boolean true) ascii h, handle_value) refl
handle_value-scalar p (boolean false) fullpath state ascii h =
    rw (gvalue_from_string-string_from_gvalue p (boolean false) ascii h, handle_value) refl
handle_value-scalar p (string (some t)) fullpath state ascii h =
    rw (gvalue_from_string-string_from_gvalue p (string (some t)) ascii tt, handle_value) refl
handle_value-scalar p _ fullpath state ascii h = elim h [ ]

-- The elements behind others.
abbrev pub append_values : GValues → GValues → GValues
append_values nil vs = vs
append_values (cons d ds) vs = cons d (append_values ds vs)

append_values-nil : (ds : GValues) → append_values ds nil ≡ ds
append_values-nil nil = refl
append_values-nil (cons d ds) = ap (cons d) (append_values-nil ds)

append_value-append_values :
    (ds : GValues) (v : GValue) (vs : GValues)
    → append_values (append_value ds v) vs ≡ append_values ds (cons v vs)
unfolding append_value
append_value-append_values nil v vs = refl
append_value-append_values (cons d ds) v vs = ap (cons d) (append_value-append_values ds v vs)

module _ (p : Platform) (parts : List Text) (s : Text) (tree m : Node) (splits : IsSplitter p)
    (ascii : IsAscii p) (a : All IsComponent parts) (c : IsComponent s)
    (e : descend parts tree ≡ some m) (free : find_child s (children m) ≡ none) where
  abbrev holding : GValues → Node
  holding ds =
      modify parts (append_child (node (new_property s (ptr_array ds) false) Nodes.nil)) tree

  abbrev here : GValues → XmlParserState
  here ds = inside (parts ++ s ∷ []) (holding ds) (some (path (parts ++ s ∷ [])))

  -- One element, between its tags.
  element_read :
      (ds : GValues) (v : GValue)
      → IsScalar v
      → handle_markup p (start_elem (bytes "value") (value_attributes p v)) (here ds)
        ≡ running (record (here (append_value ds v)) { cur_elem = elem_value })
  unfolding handle_markup start_in start_in_property add_value streq
  element_read ds v h =
      ap (λ (x : XmlParserElem). start_in p x (bytes "value") (value_attributes p v) (here ds))
        (elem_at-append parts s)
      ∙ handle_value-scalar p v (path (parts ++ s ∷ [])) (here ds) ascii h
      ∙ ap
          (λ (t : Node). running (record (here ds) {
            channel = record { properties = t; locked = false; dirty = false };
            cur_elem = elem_value;
          }))
          (edit_prop-added p parts s (λ q. set_slot false (add_to_array v q.value) q)
            (node (new_property s (ptr_array ds) false) Nodes.nil) tree m splits a c e free refl)

  element_left :
      (ds : GValues)
      → handle_markup p (end_elem (bytes "value")) (record (here ds) { cur_elem = elem_value })
        ≡ running (here ds)
  unfolding handle_markup end_in
  element_left ds = rw (elem_at-append parts s) refl

  -- All of them.
  pub values_read :
      (ds vs : GValues) (rest : List Markup)
      → AreScalar vs
      → run_parser p (values_events p vs ++ rest) (here ds)
        ≡ run_parser p rest (here (append_values ds vs))
  values_read ds nil rest h =
      ap (λ (w : GValues). run_parser p rest (here w)) (sym (append_values-nil ds))
  values_read ds (cons v vs) rest h =
      run_parser-running p _ _ (here ds) _ (element_read ds v h.0)
      ∙ run_parser-running p _ _ _ _ (element_left (append_value ds v))
      ∙ values_read (append_value ds v) vs rest h.1
      ∙ ap (λ (w : GValues). run_parser p rest (here w)) (append_value-append_values ds v vs)
