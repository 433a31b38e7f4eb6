-- ===== src/Writer/Xml.antt =====
-- XML elements with their layout, as a reader of the written files sees them: their text and what
-- GMarkup reports for it.
use esconf.Prelude.{Text, bytes, ℕ, suc, ◌≡◌, ◌≢◌, ◌≤◌, Bool, true, false, List, [], ◌∷◌, ◌++◌, All}
use esconf.Platform.{Platform, Markup, start_elem, end_elem}
use esconf.Value.{GValue, GValues, nil, cons, ptr_array, strv}
use esconf.Tree.{Node, node, Nodes}
use esconf.Writer.{spaces_of, cut_depth}
use esconf.Writer.Events.{IsReadable, value_attributes, name_attribute}

-- An element stands behind spaces, on lines of its own; so does its end tag, if it is not closed at
-- once.
mutual
  pub data Element : Type 0 where
    element : Text → Text → List (Text × Text) → Content → Element

  pub data Content : Type 0 where
    closed : Content
    content : Elements → Text → Content

  pub data Elements : Type 0 where
    no_elements : Elements
    then_element : Element → Elements → Elements

module _ (p : Platform) where
  abbrev pub attributes_text : List (Text × Text) → Text → Text
  attributes_text [] rest = rest
  attributes_text ((name, value) ∷ attributes) rest =
      b' '
      ∷ (name
          ++ (bytes "=\""
              ++ (p.markup_escape_text value ++ (b'"' ∷ attributes_text attributes rest))))

  -- The text of an element, in front of the others.
  abbrev mutual
    pub element_text : Element → Text → Text
    element_text (element indent name attributes inner) rest =
        indent ++ (b'<' ∷ (name ++ attributes_text attributes (content_text name inner rest)))

    pub content_text : Text → Content → Text → Text
    content_text name closed rest = bytes "/>\n" ++ rest
    content_text name (content es indent) rest =
        bytes ">\n" ++ elements_text es (indent ++ (bytes "</" ++ (name ++ (bytes ">\n" ++ rest))))

    pub elements_text : Elements → Text → Text
    elements_text no_elements rest = rest
    elements_text (then_element e es) rest = element_text e (elements_text es rest)

-- The events of an element, in front of the others.
abbrev mutual
  pub element_events : Element → List Markup → List Markup
  element_events (element indent name attributes inner) rest =
      start_elem name attributes ∷ content_events inner (end_elem name ∷ rest)

  pub content_events : Content → List Markup → List Markup
  content_events closed rest = rest
  content_events (content es indent) rest = elements_events es rest

  pub elements_events : Elements → List Markup → List Markup
  elements_events no_elements rest = rest
  elements_events (then_element e es) rest = element_events e (elements_events es rest)

-- A byte that `g_markup_escape_text` leaves as it is: no control byte, and none of & < > " and '.
abbrev pub IsPlain : ℕ → Type 0
IsPlain c = (c ≢ b'&') × (c ≢ b'<') × (c ≢ b'>') × (c ≢ b'"') × (c ≢ 39) × (32 ≤ c) × (c ≤ 126)

-- The elements whose attributes are printable ASCII.
abbrev mutual
  pub IsReadableElement : Element → Type 0
  IsReadableElement (element indent name attributes inner) =
      All (λ (a : Text × Text). IsReadable a.1) attributes × IsReadableContent inner

  pub IsReadableContent : Content → Type 0
  IsReadableContent closed = Unit
  IsReadableContent (content es indent) = AreReadable es

  pub AreReadable : Elements → Type 0
  AreReadable no_elements = Unit
  AreReadable (then_element e es) = IsReadableElement e × AreReadable es

-- The documented behaviour of GMarkup for a document: it reports the elements, with the attributes that
-- were escaped.
abbrev pub Reports : Platform → Element → Type 0
Reports p e =
    IsReadableElement e
    → (p.markup (bytes "<?xml version=\"1.0\" encoding=\"UTF-8\"?>\n\n" ++ element_text p e [])).0
      ≡ element_events e []

-- The documented behaviour of `g_markup_escape_text` for plain texts.
abbrev pub Escapes : Platform → Type 0
Escapes p = (s : Text) → All IsPlain s → p.markup_escape_text s ≡ s

-- The elements of an array.
abbrev pub value_elements : Platform → Text → GValues → Elements → Elements
value_elements p spaces nil rest = rest
value_elements p spaces (cons v vs) rest =
    then_element (element (spaces ++ bytes "  ") (bytes "value") (value_attributes p v) closed)
      (value_elements p spaces vs rest)

-- What stands in a property's element: those of an array, and those of the children.
abbrev pub holds_array : GValue → Bool
holds_array (ptr_array vs) = true
holds_array (strv ss) = true
holds_array v = false

abbrev pub with_values : Platform → Text → GValue → Elements → Elements
with_values p spaces (ptr_array vs) es = value_elements p spaces vs es
with_values p spaces v es = es

abbrev pub layout : Bool → Elements → Text → Content
layout true es spaces = content es spaces
layout false no_elements spaces = closed
layout false (then_element e es) spaces = content (then_element e es) spaces

abbrev mutual
  pub node_element : Platform → ℕ → Node → Element
  node_element p depth (node q cs) =
      element (spaces_of (cut_depth depth)) (bytes "property")
        (name_attribute q.name (value_attributes p q.value))
        (layout (holds_array q.value)
          (with_values p (spaces_of (cut_depth depth)) q.value
            (node_elements p (suc (cut_depth depth)) cs))
          (spaces_of (cut_depth depth)))

  pub node_elements : Platform → ℕ → Nodes → Elements
  node_elements p depth Nodes.nil = no_elements
  node_elements p depth (Nodes.cons c cs) =
      then_element (node_element p depth c) (node_elements p depth cs)

abbrev pub channel_element : Platform → Text → Nodes → Element
channel_element p channel_name cs =
    element [] (bytes "channel") (name_attribute channel_name ((bytes "version", bytes "1.0") ∷ []))
      (content (node_elements p 1 cs) [])
