-- ===== src/Writer/Document.antt =====
-- The text of a node, of its children and of a channel is the text of their elements.
use esconf.Prelude.{
  Text, bytes, ℕ, suc, ◌≡◌, refl, ap, ◌∙◌, Bool, true, false, some, List, [], ◌∷◌, ◌++◌,
}
use mathlib.Core.List.{append_assoc}
use esconf.Platform.{Platform}
use esconf.Value.{GValue, unset, string, uchar, uint, uint64, int, int64, boolean, ptr_array}
use esconf.Tree.{Property, Node, node, Nodes, nil, cons}
use esconf.Writer.{
  Written, format_xml_tag, around, then_write, tag_end, end_tag, start_tag, spaces_of, cut_depth,
  tagged_node, write_node, write_nodes,
}
use esconf.Writer.Flush.{write_channel}
use esconf.Writer.Events.{IsStorable, AreStorableNodes, value_attributes}
use esconf.Writer.Xml.{
  Elements, no_elements, then_element, Escapes, attributes_text, content_text, elements_text,
  element_text, holds_array, with_values, layout, node_elements, channel_element,
}
use esconf.Writer.Layout.{word, scalar_text, values_text}

-- The end of the start tag and the end tag, by the elements between them.
abbrev tag_close : Bool → Elements → Text
tag_close true es = []
tag_close false no_elements = bytes "/>\n"
tag_close false (then_element e es) = bytes ">\n"

abbrev behind_elements : Bool → Elements → Text → Text → Text
behind_elements true es spaces rest = spaces ++ (bytes "</property>\n" ++ rest)
behind_elements false no_elements spaces rest = rest
behind_elements false (then_element e es) spaces rest = spaces ++ (bytes "</property>\n" ++ rest)

tag_end-close :
    (p : Platform) (a : Bool) (depth : ℕ) (cs : Nodes)
    → tag_end a cs ≡ tag_close a (node_elements p depth cs)
tag_end-close p true depth cs = refl
tag_end-close p false depth nil = refl
tag_end-close p false depth (cons c cs) = refl

end_tag-behind :
    (p : Platform) (a : Bool) (depth : ℕ) (cs : Nodes) (spaces rest : Text)
    → end_tag a cs spaces ++ rest ≡ behind_elements a (node_elements p depth cs) spaces rest
end_tag-behind p true depth cs spaces rest = append_assoc spaces (bytes "</property>\n") rest
end_tag-behind p false depth nil spaces rest = refl
end_tag-behind p false depth (cons c cs) spaces rest =
    append_assoc spaces (bytes "</property>\n") rest

-- The tag of a property and all that is between it and the rest.
IsPropertyTag : Platform → Text → GValue → Text → Type 0
IsPropertyTag p spaces v tag =
    (format_xml_tag p false spaces v ≡ some (tag, holds_array v))
    × ((es : Elements) (rest : Text)
        → tag
            ++ (tag_close (holds_array v) es
                ++ elements_text p es (behind_elements (holds_array v) es spaces rest))
          ≡ attributes_text p (value_attributes p v) (
              content_text p (bytes "property")
                (layout (holds_array v) (with_values p spaces v es) spaces) rest))

module _ (p : Platform) (plain : Escapes p) where
  plain_tag :
      (spaces tag : Text) (attributes : List (Text × Text))
      → ((rest : Text) → tag ++ rest ≡ attributes_text p attributes rest)
      → (es : Elements) (rest : Text)
      → tag ++ (tag_close false es ++ elements_text p es (behind_elements false es spaces rest))
        ≡ attributes_text p attributes
            (content_text p (bytes "property") (layout false es spaces) rest)
  plain_tag spaces tag attributes same no_elements rest = same (bytes "/>\n" ++ rest)
  plain_tag spaces tag attributes same (then_element e es) rest = same (
      bytes ">\n"
      ++ elements_text p (then_element e es) (spaces ++ (bytes "</property>\n" ++ rest)))

  property_tag :
      (spaces : Text) (v : GValue) → IsStorable v → (tag : Text) × IsPropertyTag p spaces v tag
  unfolding format_xml_tag IsPropertyTag
  property_tag spaces (ptr_array vs) h =
      let (text, written, same) = values_text p plain spaces vs h in
      (
        bytes " type=\"array\">\n" ++ text,
        (
          rw written refl,
          λ es rest. rw (word p plain (bytes "array") refl) (
              ap (λ (x : Text). bytes " type=\"array\">\n" ++ x)
                (same es (spaces ++ (bytes "</property>\n" ++ rest)))),
        ),
      )
  property_tag spaces unset h = (
    bytes " type=\"empty\"",
    (
      refl,
      plain_tag spaces (bytes " type=\"empty\"") (value_attributes p unset)
          (λ rest. rw (word p plain (bytes "empty") refl) refl),
    ),
  )
  property_tag spaces (uchar n) h =
      let (tag, formatted, same) = scalar_text p plain false spaces (uchar n) h in
      (tag, (formatted, plain_tag spaces tag (value_attributes p (uchar n)) same))
  property_tag spaces (uint n) h =
      let (tag, formatted, same) = scalar_text p plain false spaces (uint n) h in
      (tag, (formatted, plain_tag spaces tag (value_attributes p (uint n)) same))
  property_tag spaces (int n) h =
      let (tag, formatted, same) = scalar_text p plain false spaces (int n) h in
      (tag, (formatted, plain_tag spaces tag (value_attributes p (int n)) same))
  property_tag spaces (uint64 n) h =
      let (tag, formatted, same) = scalar_text p plain false spaces (uint64 n) h in
      (tag, (formatted, plain_tag spaces tag (value_attributes p (uint64 n)) same))
  property_tag spaces (int64 n) h =
      let (tag, formatted, same) = scalar_text p plain false spaces (int64 n) h in
      (tag, (formatted, plain_tag spaces tag (value_attributes p (int64 n)) same))
  property_tag spaces (boolean true) h =
      let (tag, formatted, same) = scalar_text p plain false spaces (boolean true) h in
      (tag, (formatted, plain_tag spaces tag (value_attributes p (boolean true)) same))
  property_tag spaces (boolean false) h =
      let (tag, formatted, same) = scalar_text p plain false spaces (boolean false) h in
      (tag, (formatted, plain_tag spaces tag (value_attributes p (boolean false)) same))
  property_tag spaces (string (some t)) h =
      let (tag, formatted, same) = scalar_text p plain false spaces (string (some t)) h in
      (tag, (formatted, plain_tag spaces tag (value_attributes p (string (some t))) same))
  property_tag spaces _ h = elim h [ ]

  -- A node, with the text of its children.
  node_line :
      (indent name tag close text behind rest : Text)
      → (((indent ++ (bytes "<property name=\"" ++ (name ++ bytes "\""))) ++ (tag ++ close))
            ++ (text ++ behind))
          ++ rest
        ≡ indent
          ++ (bytes "<property name=\""
              ++ (name ++ (b'"' ∷ (tag ++ (close ++ (text ++ (behind ++ rest)))))))
  node_line indent name tag close text behind rest = simp append_assoc

  IsWritten : Written → Elements → Type 0
  IsWritten w es =
      (text : Text) × (w ≡ (true, text)) × ((rest : Text) → text ++ rest ≡ elements_text p es rest)

  node_written :
      (depth : ℕ) (q : Property) (kids : Nodes) (tag text : Text) (a : Bool)
      → format_xml_tag p false (spaces_of (cut_depth depth)) q.value ≡ some (tag, a)
      → (write_nodes p (suc (cut_depth depth)) kids).0 ≡ (true, text)
      → (write_node p depth (node q kids)).0 ≡ (
        true,
        (start_tag p (spaces_of (cut_depth depth)) q.name ++ (tag ++ tag_end a kids))
            ++ (text ++ end_tag a kids (spaces_of (cut_depth depth))),
      )
  unfolding write_node
  node_written depth q kids tag text a formatted written =
      ap (λ (r : Written × Node). r.0)
        (ap
          (tagged_node p (spaces_of (cut_depth depth)) q kids
            (write_nodes p (suc (cut_depth depth)) kids))
          formatted)
      ∙ ap
          (around (start_tag p (spaces_of (cut_depth depth)) q.name ++ (tag ++ tag_end a kids))
            (end_tag a kids (spaces_of (cut_depth depth))))
          written

  nodes_text :
      (parts : List Text) (depth : ℕ) (cs : Nodes)
      → AreStorableNodes parts cs
      → IsWritten (write_nodes p depth cs).0 (node_elements p depth cs)
  unfolding write_node IsWritten IsPropertyTag
  nodes_text parts depth nil h = ([], refl, λ rest. refl)
  nodes_text parts depth (cons (node q kids) cs) h =
      let (storable, apart, others) = h in
      let (comp, readable, short, value, below) = storable in
      let spaces = spaces_of (cut_depth depth) in
      let a = holds_array q.value in
      let (tag, tagged) = property_tag spaces q.value value in
      let (kids_text, kids_written, kids_same) =
        nodes_text (parts ++ q.name ∷ []) (suc (cut_depth depth)) kids below in
      let (cs_text, cs_written, cs_same) = nodes_text parts depth cs others in
      let inner = node_elements p (suc (cut_depth depth)) kids in
      let first =
        (start_tag p spaces q.name ++ (tag ++ tag_end a kids))
        ++ (kids_text ++ end_tag a kids spaces) in
      (
        first ++ cs_text,
        ap (λ (w : Written). then_write w (write_nodes p depth cs).0)
              (node_written depth q kids tag kids_text a tagged.0 kids_written)
            ∙ ap (then_write (true, first)) cs_written,
        λ rest.
            let next = elements_text p (node_elements p depth cs) rest in
            append_assoc first cs_text rest
            ∙ ap (λ (x : Text). first ++ x) (cs_same rest)
            ∙ node_line spaces (p.markup_escape_text q.name) tag (tag_end a kids) kids_text
                (end_tag a kids spaces) next
            ∙ ap
                (λ (x : Text).
                  spaces
                  ++ (bytes "<property name=\"" ++ (p.markup_escape_text q.name ++ (b'"' ∷ x))))
                (ap (λ (x : Text). tag ++ (x ++ (kids_text ++ (end_tag a kids spaces ++ next))))
                    (tag_end-close p a (suc (cut_depth depth)) kids)
                  ∙ ap (λ (x : Text). tag ++ (tag_close a inner ++ (kids_text ++ x)))
                      (end_tag-behind p a (suc (cut_depth depth)) kids spaces next)
                  ∙ ap (λ (x : Text). tag ++ (tag_close a inner ++ x))
                      (kids_same (behind_elements a inner spaces next))
                  ∙ tagged.1 inner next),
      )

  -- The text of a channel.
  pub channel_text :
      (channel_name : Text) (cs : Nodes)
      → p.markup_escape_text channel_name ≡ channel_name
      → AreStorableNodes [] cs
      → (write_channel p channel_name cs).0 ≡ (
        true,
        bytes "<?xml version=\"1.0\" encoding=\"UTF-8\"?>\n\n"
            ++ element_text p (channel_element p channel_name cs) [],
      )
  unfolding write_channel IsWritten
  channel_text channel_name cs plain_name h =
      let (text, written, same) = nodes_text [] 1 cs h in
      rw written (
        rw (plain_name, word p plain (bytes "1.0") refl)
          (ap
            (λ (x : Text).
              (true, bytes "<?xml version=\"1.0\" encoding=\"UTF-8\"?>\n\n<channel name=\"" ++ x))
            (append_assoc channel_name (bytes "\" version=\"1.0\">\n")
                (text ++ bytes "</channel>\n")
              ∙ ap (λ (x : Text). channel_name ++ (bytes "\" version=\"1.0\">\n" ++ x))
                  (same (bytes "</channel>\n")))))
