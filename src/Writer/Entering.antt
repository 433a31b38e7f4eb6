-- ===== src/Writer/Entering.antt =====
-- The parser behind the start tag of a property that the writer wrote.
use esconf.Prelude.{
  Text, bytes, streq, take-eq_self, length, ◌≤◌, ◌≡◌, refl, ap, ◌∙◌, true, false, Option, none,
  some, List, [], ◌∷◌, ◌++◌, All, if◌then◌else◌,
}
use esconf.Platform.{Platform, IsSplitter}
use esconf.Value.{
  GType, GValue, g_value_type, gtype_from_string, unset, string, uchar, uint, uint64, int, int64,
  boolean, ptr_array, nil,
}
use esconf.Value.Parse.{parsed, gvalue_from_string}
use esconf.Value.Parse.Print.{string_from_gvalue, printf_u, printf_d}
use esconf.Value.Parse.RoundTrip.{IsAscii, gvalue_from_string-string_from_gvalue}
use esconf.Names.Paths.{path, IsComponent}
use esconf.Tree.{
  Property, Node, Nodes, node, prop, children, find_child, modify, new_property, parts_of,
}
use esconf.Tree.Walk.{descend, parts_of-path}
use esconf.Tree.Added.{All-append}
use esconf.Tree.Grow.{append_child, modify-append_child}
use esconf.Loader.{elem_property, XmlParserState, Outcome, running}
use esconf.Loader.Attributes.{is_given, property_attribute, scan_attributes}
use esconf.Loader.PropertyElem.{
  with_tree, set_slot, edit, edit_prop, enter_property, is_array, read_value, read_type,
  handle_property, handle_property_attributes,
}
use esconf.Writer.Events.{IsStorable, value_attributes, name_attribute}
use esconf.Writer.Reading.{elem_at, inside, named, start-read_type}

-- The value that the start tag gives.
abbrev pub start_value : GValue → GValue
start_value (ptr_array vs) = ptr_array nil
start_value v = v

-- The list that the elements behind it go to.
abbrev pub list_after : GValue → Text → Option Text → Option Text
list_after (ptr_array vs) fullpath list = some fullpath
list_after v fullpath list = list

pub elem_at-append : (parts : List Text) (s : Text) → elem_at (parts ++ s ∷ []) ≡ elem_property
elem_at-append [] s = refl
elem_at-append (q ∷ parts) s = refl

entered :
    (p : Platform) (parts : List Text) (s : Text) (t tree : Node) (before list : Option Text)
    → length (path (parts ++ s ∷ [])) ≤ 4095
    → enter_property p
        (path (parts ++ s ∷ []))
        (record (with_tree t (inside parts tree before)) { list_property = list })
      ≡ inside (parts ++ s ∷ []) t list
entered p parts s t tree before list short =
    ap (λ (x : Text). record (inside parts t list) { cur_elem = elem_property; cur_path = x })
      (take-eq_self 4095 (path (parts ++ s ∷ [])) short)
    ∙ rw (elem_at-append parts s) refl

parts_of-append :
    (p : Platform) (parts : List Text) (s : Text)
    → IsSplitter p
    → All IsComponent parts
    → IsComponent s
    → parts_of p (path (parts ++ s ∷ [])) ≡ parts ++ s ∷ []
parts_of-append p [] s splits a c = parts_of-path p splits s [] (c, tt)
parts_of-append p (q ∷ parts) s splits a c =
    parts_of-path p splits q (parts ++ s ∷ []) (a.0, All-append parts s a.1 c)

-- A value is stored in the property that was just added.
pub edit_prop-added :
    (p : Platform) (parts : List Text) (s : Text) (g : Property → Property) (c tree m : Node)
    → IsSplitter p
    → All IsComponent parts
    → IsComponent s
    → descend parts tree ≡ some m
    → find_child s (children m) ≡ none
    → (prop c).name ≡ s
    → edit_prop p (path (parts ++ s ∷ [])) g (modify parts (append_child c) tree)
      ≡ modify parts (append_child (edit g c)) tree
unfolding edit_prop
edit_prop-added p parts s g c tree m splits a comp e free same =
    ap (λ (ps : List Text). modify ps (edit g) (modify parts (append_child c) tree))
      (parts_of-append p parts s splits a comp)
    ∙ modify-append_child parts s (edit g) c tree m e free same

read_value-parsed :
    (p : Platform) (parts : List Text) (s : Text) (type : GType) (text list : Option Text)
    (v : GValue) (tree m : Node)
    → IsSplitter p
    → All IsComponent parts
    → IsComponent s
    → length (path (parts ++ s ∷ [])) ≤ 4095
    → descend parts tree ≡ some m
    → find_child s (children m) ≡ none
    → gvalue_from_string p type text ≡ parsed v
    → read_value p
        (path (parts ++ s ∷ []))
        type
        text
        (modify parts (append_child (node (new_property s unset false) Nodes.nil)) tree)
        (inside parts tree list)
      ≡ running (
          inside
            (parts ++ s ∷ [])
            (modify parts (append_child (node (new_property s v false) Nodes.nil)) tree)
            (if is_array p type then some (path (parts ++ s ∷ [])) else list))
unfolding read_value
read_value-parsed p parts s type text list v tree m splits a c short e free read =
    rw (read, read_value)
      (ap running (
        ap
          (λ (t : Node).
            enter_property p (path (parts ++ s ∷ []))
              (record (with_tree t (inside parts tree list)) {
                list_property = if is_array p type then some (path (parts ++ s ∷ [])) else list;
              }))
          (edit_prop-added p parts s (set_slot false v)
            (node (new_property s unset false) Nodes.nil) tree m splits a c e free refl)
        ∙ entered p parts s
            (modify parts (append_child (node (new_property s v false) Nodes.nil)) tree) tree list
            (if is_array p type then some (path (parts ++ s ∷ [])) else list) short))

-- The type is looked up.
abbrev IsValueType : GType → Type 0
IsValueType GType.invalid = ⊥
IsValueType GType.void = ⊥
IsValueType _ = Unit

read_type-eq :
    (p : Platform) (fullpath s type : Text) (g : GType) (value : Option Text) (tree : Node)
    (state : XmlParserState)
    → gtype_from_string type ≡ g
    → IsValueType g
    → read_type p fullpath (named s type value) tree state
      ≡ read_value p fullpath g value tree state
unfolding read_type
read_type-eq p fullpath s type GType.invalid value tree state e h = elim h [ ]
read_type-eq p fullpath s type GType.void value tree state e h = elim h [ ]
read_type-eq p fullpath s type _ value tree state e h = rw (e, read_type) refl

-- The handler, from the attributes.
abbrev IsStarted : Platform → List Text → Text → GValue → Option Text → Node → Outcome → Type 0
IsStarted p parts s v list tree r =
    r
    ≡ running (
        inside (parts ++ s ∷ [])
          (modify parts (append_child (node (new_property s (start_value v) false) Nodes.nil)) tree)
          (list_after v (path (parts ++ s ∷ [])) list))

module _ (p : Platform) (parts : List Text) (s : Text) (list : Option Text) (tree m : Node)
    (splits : IsSplitter p) (a : All IsComponent parts) (c : IsComponent s)
    (short : length (path (parts ++ s ∷ [])) ≤ 4095) (e : descend parts tree ≡ some m)
    (free : find_child s (children m) ≡ none) where
  with_value :
      (type : Text) (g : GType) (text : Option Text) (v : GValue)
      → is_given (some type) ≡ true
      → gtype_from_string type ≡ g
      → IsValueType g
      → gvalue_from_string p g text ≡ parsed v
      → handle_property_attributes p (named s type text) (inside parts tree list)
        ≡ running (
            inside
              (parts ++ s ∷ [])
              (modify parts (append_child (node (new_property s v false) Nodes.nil)) tree)
              (if is_array p g then some (path (parts ++ s ∷ [])) else list))
  with_value type g text v given named_type value_type read =
      start-read_type p parts s type text list tree m splits a c short e free given
      ∙ read_type-eq p (path (parts ++ s ∷ [])) s type g text
          (modify parts (append_child (node (new_property s unset false) Nodes.nil)) tree)
          (inside parts tree list) named_type value_type
      ∙ read_value-parsed p parts s g text list v tree m splits a c short e free read

  pub handle_property-IsStarted :
      (v : GValue)
      → IsAscii p
      → IsStorable v
      → IsStarted p parts s v list tree
          (handle_property p (name_attribute s (value_attributes p v)) (inside parts tree list))
  unfolding handle_property scan_attributes property_attribute streq gtype_from_string g_value_type
      string_from_gvalue read_type
  handle_property-IsStarted (uchar n) ascii h =
      with_value (bytes "uchar") GType.uchar (some (printf_u n)) (uchar n) refl refl tt
        (gvalue_from_string-string_from_gvalue p (uchar n) ascii h)
  handle_property-IsStarted (uint n) ascii h =
      with_value (bytes "uint") GType.uint (some (printf_u n)) (uint n) refl refl tt
        (gvalue_from_string-string_from_gvalue p (uint n) ascii h)
  handle_property-IsStarted (int n) ascii h =
      with_value (bytes "int") GType.int (some (printf_d n)) (int n) refl refl tt
        (gvalue_from_string-string_from_gvalue p (int n) ascii h)
  handle_property-IsStarted (uint64 n) ascii h =
      with_value (bytes "uint64") GType.uint64 (some (printf_u n)) (uint64 n) refl refl tt
        (gvalue_from_string-string_from_gvalue p (uint64 n) ascii h)
  handle_property-IsStarted (int64 n) ascii h =
      with_value (bytes "int64") GType.int64 (some (printf_d n)) (int64 n) refl refl tt
        (gvalue_from_string-string_from_gvalue p (int64 n) ascii h)
  handle_property-IsStarted (boolean true) ascii h =
      with_value (bytes "bool") GType.boolean (some (bytes "true")) (boolean true) refl refl tt
        (gvalue_from_string-string_from_gvalue p (boolean true) ascii h)
  handle_property-IsStarted (boolean false) ascii h =
      with_value (bytes "bool") GType.boolean (some (bytes "false")) (boolean false) refl refl tt
        (gvalue_from_string-string_from_gvalue p (boolean false) ascii h)
  handle_property-IsStarted (string (some t)) ascii h =
      with_value (bytes "string") GType.string (some (t)) (string (some t)) refl refl tt
        (gvalue_from_string-string_from_gvalue p (string (some t)) ascii tt)
  handle_property-IsStarted (ptr_array vs) ascii h =
      with_value (bytes "array") GType.ptr_array none (ptr_array nil) refl refl tt array_read
    where
      array_read : gvalue_from_string p GType.ptr_array none ≡ parsed (ptr_array nil)
      array_read = unfold gvalue_from_string in refl
  handle_property-IsStarted unset ascii h =
      start-read_type p parts s (bytes "empty") none list tree m splits a c short e free refl
      ∙ ap running (
          entered p parts s
            (modify parts (append_child (node (new_property s unset false) Nodes.nil)) tree) tree
            list list short)
  handle_property-IsStarted _ ascii h = elim h [ ]
