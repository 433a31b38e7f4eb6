-- ===== src/Writer/Reported.antt =====
-- What GMarkup reports for the elements of a tree, and that it can read them.
use esconf.Prelude.{
  Text, bytes, ℕ, suc, ◌≡◌, refl, ap, ◌∙◌, Bool, true, false, some, List, [], ◌∷◌, ◌++◌, All,
}
use esconf.Platform.{Platform, Markup, start_elem, end_elem}
use esconf.Value.{
  GValue, GValues, unset, string, uchar, uint, uint64, int, int64, boolean, ptr_array, strv,
}
use esconf.Value.Parse.Print.{printf_u, printf_d}
use esconf.Tree.{node, Nodes, nil, cons}
use esconf.Writer.{spaces_of, cut_depth}
use esconf.Writer.Events.{
  IsReadable, IsScalar, AreScalar, IsStorable, AreStorableNodes, value_attributes, name_attribute,
  values_events, value_events, nodes_events,
}
use esconf.Writer.Xml.{
  Elements, no_elements, then_element, IsPlain, IsReadableContent, AreReadable, elements_events,
  content_events, value_elements, holds_array, with_values, layout, node_elements,
}
use esconf.Writer.Layout.{is_word, IsPlain-of_word, printf_u-IsPlain, printf_d-IsPlain}

layout-events :
    (a : Bool) (es : Elements) (spaces : Text) (rest : List Markup)
    → content_events (layout a es spaces) rest ≡ elements_events es rest
layout-events true es spaces rest = refl
layout-events false no_elements spaces rest = refl
layout-events false (then_element e es) spaces rest = refl

values_reported :
    (p : Platform) (spaces : Text) (vs : GValues) (es : Elements) (rest : List Markup)
    → elements_events (value_elements p spaces vs es) rest
      ≡ values_events p vs ++ elements_events es rest
values_reported p spaces GValues.nil es rest = refl
values_reported p spaces (GValues.cons v vs) es rest =
    ap
      (λ (x : List Markup).
        start_elem (bytes "value") (value_attributes p v) ∷ end_elem (bytes "value") ∷ x)
      (values_reported p spaces vs es rest)

value_reported :
    (p : Platform) (spaces : Text) (v : GValue) (es : Elements) (rest : List Markup)
    → IsStorable v
    → elements_events (with_values p spaces v es) rest ≡ value_events p v ++ elements_events es rest
value_reported p spaces (ptr_array vs) es rest h = values_reported p spaces vs es rest
value_reported p spaces (strv ss) es rest h = elim h [ ]
value_reported p spaces _ es rest h = refl

pub nodes_reported :
    (p : Platform) (parts : List Text) (depth : ℕ) (cs : Nodes) (rest : List Markup)
    → AreStorableNodes parts cs
    → elements_events (node_elements p depth cs) rest ≡ nodes_events p cs rest
nodes_reported p parts depth nil rest h = refl
nodes_reported p parts depth (cons (node q kids) cs) rest h =
    let (storable, apart, others) = h in
    let (comp, readable, short, value, below) = storable in
    let spaces = spaces_of (cut_depth depth) in
    let inner = node_elements p (suc (cut_depth depth)) kids in
    let next = end_elem (bytes "property") ∷ elements_events (node_elements p depth cs) rest in
    ap
      (λ (x : List Markup).
        start_elem (bytes "property") (name_attribute q.name (value_attributes p q.value)) ∷ x)
      (layout-events (holds_array q.value) (with_values p spaces q.value inner) spaces next
        ∙ value_reported p spaces q.value inner next value
        ∙ ap (λ (x : List Markup). value_events p q.value ++ x)
            (nodes_reported p (parts ++ q.name ∷ []) (suc (cut_depth depth)) kids next below)
        ∙ ap
            (λ (x : List Markup).
              value_events p q.value ++ nodes_events p kids (end_elem (bytes "property") ∷ x))
            (nodes_reported p parts depth cs rest others))

pub IsReadable-of_plain : (s : Text) → All IsPlain s → IsReadable s
IsReadable-of_plain [] h = tt
IsReadable-of_plain (c ∷ s) h = ((h.0.5, h.0.6), IsReadable-of_plain s h.1)

pub word-IsReadable : (s : Text) → is_word s ≡ true → IsReadable s
word-IsReadable s h = IsReadable-of_plain s (IsPlain-of_word s h)

abbrev AllReadable : List (Text × Text) → Type 0
AllReadable = All (λ (a : Text × Text). IsReadable a.1)

typed_readable :
    (type value : Text)
    → is_word type ≡ true
    → IsReadable value
    → AllReadable ((bytes "type", type) ∷ (bytes "value", value) ∷ [])
typed_readable type value h k = (word-IsReadable type h, (k, tt))

scalar_readable : (p : Platform) (v : GValue) → IsScalar v → AllReadable (value_attributes p v)
scalar_readable p (uchar n) h =
    typed_readable (bytes "uchar") (printf_u n) refl
      (IsReadable-of_plain (printf_u n) (printf_u-IsPlain n))
scalar_readable p (uint n) h =
    typed_readable (bytes "uint") (printf_u n) refl
      (IsReadable-of_plain (printf_u n) (printf_u-IsPlain n))
scalar_readable p (uint64 n) h =
    typed_readable (bytes "uint64") (printf_u n) refl
      (IsReadable-of_plain (printf_u n) (printf_u-IsPlain n))
scalar_readable p (int z) h =
    typed_readable (bytes "int") (printf_d z) refl
      (IsReadable-of_plain (printf_d z) (printf_d-IsPlain z))
scalar_readable p (int64 z) h =
    typed_readable (bytes "int64") (printf_d z) refl
      (IsReadable-of_plain (printf_d z) (printf_d-IsPlain z))
scalar_readable p (boolean true) h =
    typed_readable (bytes "bool") (bytes "true") refl (word-IsReadable (bytes "true") refl)
scalar_readable p (boolean false) h =
    typed_readable (bytes "bool") (bytes "false") refl (word-IsReadable (bytes "false") refl)
scalar_readable p (string (some s)) h = typed_readable (bytes "string") s refl h
scalar_readable p _ h = elim h [ ]

value_readable : (p : Platform) (v : GValue) → IsStorable v → AllReadable (value_attributes p v)
value_readable p unset h = (word-IsReadable (bytes "empty") refl, tt)
value_readable p (ptr_array vs) h = (word-IsReadable (bytes "array") refl, tt)
value_readable p (uchar n) h = scalar_readable p (uchar n) h
value_readable p (uint n) h = scalar_readable p (uint n) h
value_readable p (uint64 n) h = scalar_readable p (uint64 n) h
value_readable p (int z) h = scalar_readable p (int z) h
value_readable p (int64 z) h = scalar_readable p (int64 z) h
value_readable p (boolean b) h = scalar_readable p (boolean b) h
value_readable p (string (some s)) h = scalar_readable p (string (some s)) h
value_readable p _ h = elim h [ ]

elements_readable :
    (p : Platform) (spaces : Text) (v : GValue) (es : Elements)
    → IsStorable v
    → AreReadable es
    → AreReadable (with_values p spaces v es)
elements_readable p spaces (ptr_array vs) es h k = values vs h
  where
    values : (ws : GValues) → AreScalar ws → AreReadable (value_elements p spaces ws es)
    values GValues.nil m = k
    values (GValues.cons w ws) m = ((scalar_readable p w m.0, tt), values ws m.1)
elements_readable p spaces _ es h k = k

layout_readable :
    (a : Bool) (es : Elements) (spaces : Text)
    → AreReadable es
    → IsReadableContent (layout a es spaces)
layout_readable true es spaces h = h
layout_readable false no_elements spaces h = tt
layout_readable false (then_element e es) spaces h = h

pub nodes_readable :
    (p : Platform) (parts : List Text) (depth : ℕ) (cs : Nodes)
    → AreStorableNodes parts cs
    → AreReadable (node_elements p depth cs)
nodes_readable p parts depth nil h = tt
nodes_readable p parts depth (cons (node q kids) cs) h =
    let (storable, apart, others) = h in
    let (comp, readable, short, value, below) = storable in
    let spaces = spaces_of (cut_depth depth) in
    let inner = node_elements p (suc (cut_depth depth)) kids in
    (
      (
        (readable, value_readable p q.value value),
        layout_readable (holds_array q.value) (with_values p spaces q.value inner) spaces (
            elements_readable p spaces q.value inner value
              (nodes_readable p (parts ++ q.name ∷ []) (suc (cut_depth depth)) kids below)),
      ),
      nodes_readable p parts depth cs others,
    )
