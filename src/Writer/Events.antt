-- ===== src/Writer/Events.antt =====
-- What GMarkup reports for the text that the writer gives a tree, and which trees come back.
use esconf.Prelude.{
  Text, bytes, ◌≤◌, length, true, false, none, some, List, [], ◌∷◌, ◌++◌, All, ◌≡◌,
}
use esconf.Platform.{Platform, Markup, start_elem, end_elem}
use esconf.Value.{
  GValue, GValues, nil, cons, unset, string, uchar, uint, uint64, uint16, char, int, int64, int16,
  float, double, boolean, ptr_array, strv,
}
use esconf.Value.Parse.Print.{printf_u, printf_d}
use esconf.Value.Parse.RoundTrip.{IsPrintable}
use esconf.Names.Paths.{path, IsComponent}
use esconf.Tree.{Node, node, Nodes, prop, find_child}

abbrev attribute : Text → Text → Text × Text
attribute name value = (name, value)

abbrev typed : Text → Text → List (Text × Text)
typed type value = attribute (bytes "type") type ∷ attribute (bytes "value") value ∷ []

-- The attributes of a value.
abbrev pub value_attributes : Platform → GValue → List (Text × Text)
value_attributes p (string none) = typed (bytes "string") (bytes "(null)")
value_attributes p (string (some s)) = typed (bytes "string") s
value_attributes p (uchar n) = typed (bytes "uchar") (printf_u n)
value_attributes p (char z) = typed (bytes "char") (printf_u 0)
value_attributes p (uint n) = typed (bytes "uint") (printf_u n)
value_attributes p (int z) = typed (bytes "int") (printf_d z)
value_attributes p (uint64 n) = typed (bytes "uint64") (printf_u n)
value_attributes p (int64 z) = typed (bytes "int64") (printf_d z)
value_attributes p (float x) = typed (bytes "float") (p.printf_f (p.to_double x))
value_attributes p (double x) = typed (bytes "double") (p.printf_f x)
value_attributes p (boolean true) = typed (bytes "bool") (bytes "true")
value_attributes p (boolean false) = typed (bytes "bool") (bytes "false")
value_attributes p (ptr_array vs) = attribute (bytes "type") (bytes "array") ∷ []
value_attributes p (strv ss) = attribute (bytes "type") (bytes "array") ∷ []
value_attributes p (uint16 n) = attribute (bytes "type") (bytes "empty") ∷ []
value_attributes p (int16 z) = attribute (bytes "type") (bytes "empty") ∷ []
value_attributes p unset = attribute (bytes "type") (bytes "empty") ∷ []

-- The elements of an array.
abbrev pub values_events : Platform → GValues → List Markup
values_events p nil = []
values_events p (cons v vs) =
    start_elem (bytes "value") (value_attributes p v)
    ∷ end_elem (bytes "value")
    ∷ values_events p vs

abbrev pub strings_events : List Text → List Markup
strings_events [] = []
strings_events (s ∷ ss) =
    start_elem (bytes "value") (typed (bytes "string") s)
    ∷ end_elem (bytes "value")
    ∷ strings_events ss

abbrev pub value_events : Platform → GValue → List Markup
value_events p (ptr_array vs) = values_events p vs
value_events p (strv ss) = strings_events ss
value_events p _ = []

abbrev pub name_attribute : Text → List (Text × Text) → List (Text × Text)
name_attribute name attributes = attribute (bytes "name") name ∷ attributes

-- The events of a node, and of its children, in front of the others.
abbrev mutual
  pub node_events : Platform → Node → List Markup → List Markup
  node_events p (node q cs) rest =
      start_elem (bytes "property") (name_attribute q.name (value_attributes p q.value))
      ∷ (value_events p q.value ++ nodes_events p cs (end_elem (bytes "property") ∷ rest))

  pub nodes_events : Platform → Nodes → List Markup → List Markup
  nodes_events p Nodes.nil rest = rest
  nodes_events p (Nodes.cons c cs) rest = node_events p c (nodes_events p cs rest)

abbrev pub channel_events : Platform → Text → Nodes → List Markup
channel_events p channel_name cs =
    start_elem (bytes "channel")
      (attribute (bytes "name") channel_name ∷ attribute (bytes "version") (bytes "1.0") ∷ [])
    ∷ nodes_events p cs (end_elem (bytes "channel") ∷ [])

-- Printable ASCII: GMarkup makes a space of a tab or of a line break in an attribute.
abbrev pub IsReadable : Text → Type 0
IsReadable = All (λ c. (32 ≤ c) × (c ≤ 126))

-- The values that come back: what has a text that is read as it was, and arrays of those. A char, a
-- 16-bit integer and a NULL string do not, and a floating point number has six decimals only.
abbrev pub IsScalar : GValue → Type 0
IsScalar (char z) = ⊥
IsScalar (uint16 n) = ⊥
IsScalar (int16 z) = ⊥
IsScalar (string none) = ⊥
IsScalar (string (some s)) = IsReadable s
IsScalar v = IsPrintable v

abbrev pub AreScalar : GValues → Type 0
AreScalar nil = Unit
AreScalar (cons v vs) = IsScalar v × AreScalar vs

abbrev pub IsStorable : GValue → Type 0
IsStorable unset = Unit
IsStorable (ptr_array vs) = AreScalar vs
IsStorable v = IsScalar v

-- The trees that come back: distinct names that are components, paths that fit the buffer, and such
-- values.
abbrev mutual
  pub IsStorableNode : List Text → Node → Type 0
  IsStorableNode parts (node q cs) =
      IsComponent q.name
      × IsReadable q.name
      × (length (path (parts ++ q.name ∷ [])) ≤ 4095)
      × IsStorable q.value
      × AreStorableNodes (parts ++ q.name ∷ []) cs

  pub AreStorableNodes : List Text → Nodes → Type 0
  AreStorableNodes parts Nodes.nil = Unit
  AreStorableNodes parts (Nodes.cons c cs) =
      IsStorableNode parts c × (find_child (prop c).name cs ≡ none) × AreStorableNodes parts cs

-- What a user's file keeps of a node: not the system's value and the lock.
abbrev mutual
  pub kept_node : Node → Node
  kept_node (node q cs) = node (record q { system_value = unset; locked = false }) (kept_nodes cs)

  pub kept_nodes : Nodes → Nodes
  kept_nodes Nodes.nil = Nodes.nil
  kept_nodes (Nodes.cons c cs) = Nodes.cons (kept_node c) (kept_nodes cs)
