-- ===== src/Writer.antt =====
-- The writer of the channel files in esconfd/esconf-backend-perchannel-xml.c: the text of a value and
-- of a property.
pub mod Flush
pub mod Listed
pub mod Laws
pub mod Saved
pub mod Events
pub mod Reading
pub mod Entering
pub mod Arrays
pub mod RoundTrip
pub mod Xml
pub mod Layout
pub mod Document
pub mod Reported
pub mod WriteRead
use esconf.Prelude.{
  Text, bytes, ℕ, zero, suc, ◌+◌, ◌*◌, ◌/◌, ◌-◌, ltb, Bool, true, false, not, ◌||◌, Option, none,
  some, ◌>>=◌, List, [], ◌∷◌, ◌++◌, if◌then◌else◌,
}
use esconf.Platform.{Platform}
use esconf.Value.{
  GValue, GValues, nil, cons, unset, string, uchar, uint, uint64, uint16, char, int, int64, int16,
  float, double, boolean, ptr_array, strv,
}
use esconf.Value.Parse.Print.{printf_u, printf_d}
use esconf.Tree.{Property, Node, node, Nodes}

-- `printf` of ` type="%s" value="%s"`
abbrev pub attributes : Text → Text → Text
attributes type value = bytes " type=\"" ++ (type ++ (bytes "\" value=\"" ++ (value ++ bytes "\"")))

-- `g_markup_escape_text`, which gives NULL for a NULL string, and `printf` of that
abbrev pub escaped : Platform → Option Text → Text
escaped p none = bytes "(null)"
escaped p (some s) = p.markup_escape_text s

-- The loop over a list of strings.
unfoldable pub format_strings : Platform → Text → List Text → Text
format_strings p spaces [] = []
format_strings p spaces (s ∷ ss) =
    spaces
    ++ (bytes "  <value type=\"string\" value=\""
        ++ (p.markup_escape_text s ++ (bytes "\"/>\n" ++ format_strings p spaces ss)))

-- `esconf_format_xml_tag`: what it appends, and `*is_array`; `none` is FALSE. A char is read by the
-- getter of a uchar, which answers 0. A value of a type without a name is treated as a branch.
unfoldable mutual
  pub format_xml_tag : Platform → Bool → Text → GValue → Option (Text × Bool)
  format_xml_tag p is_array_value spaces (string s) =
      some (attributes (bytes "string") (escaped p s), false)
  format_xml_tag p is_array_value spaces (uchar n) =
      some (attributes (bytes "uchar") (printf_u n), false)
  format_xml_tag p is_array_value spaces (char z) =
      some (attributes (bytes "char") (printf_u 0), false)
  format_xml_tag p is_array_value spaces (uint n) =
      some (attributes (bytes "uint") (printf_u n), false)
  format_xml_tag p is_array_value spaces (int z) =
      some (attributes (bytes "int") (printf_d z), false)
  format_xml_tag p is_array_value spaces (uint64 n) =
      some (attributes (bytes "uint64") (printf_u n), false)
  format_xml_tag p is_array_value spaces (int64 z) =
      some (attributes (bytes "int64") (printf_d z), false)
  format_xml_tag p is_array_value spaces (float x) =
      some (attributes (bytes "float") (p.printf_f (p.to_double x)), false)
  format_xml_tag p is_array_value spaces (double x) =
      some (attributes (bytes "double") (p.printf_f x), false)
  format_xml_tag p is_array_value spaces (boolean true) =
      some (attributes (bytes "bool") (bytes "true"), false)
  format_xml_tag p is_array_value spaces (boolean false) =
      some (attributes (bytes "bool") (bytes "false"), false)
  format_xml_tag p false spaces (strv ss) =
      some (bytes " type=\"array\">\n" ++ format_strings p spaces ss, true)
  format_xml_tag p false spaces (ptr_array vs) =
      format_values p spaces vs >>= λ text. some (bytes " type=\"array\">\n" ++ text, true)
  format_xml_tag p false spaces unset = some (bytes " type=\"empty\"", false)
  format_xml_tag p false spaces (uint16 n) = some (bytes " type=\"empty\"", false)
  format_xml_tag p false spaces (int16 z) = some (bytes " type=\"empty\"", false)
  format_xml_tag p true spaces _ = none

  -- The loop over an array.
  pub format_values : Platform → Text → GValues → Option Text
  format_values p spaces nil = some []
  format_values p spaces (cons v vs) =
      let rest = format_values p spaces vs in
      format_xml_tag p true spaces v >>= λ tag.
      rest >>= λ text. some (spaces ++ (bytes "  <value" ++ (tag.0 ++ (bytes "/>\n" ++ text))))

-- What `esconf_format_xml_tag` leaves of a value: the ones of a type without a name are unset.
abbrev pub value_left : GValue → GValue
value_left (uint16 n) = unset
value_left (int16 z) = unset
value_left v = v

abbrev pub with_value_left : Property → Property
with_value_left q = record q { value = value_left q.value }

-- `depth`, cut so that the spaces fit MAX_PROP_PATH, and the spaces.
abbrev pub cut_depth : ℕ → ℕ
cut_depth depth = if ltb (4096 + 1) (depth * 2) then 4096 / 2 - 1 else depth

unfoldable pub spaces_of : ℕ → Text
spaces_of zero = []
spaces_of (suc depth) = b' ' ∷ b' ' ∷ spaces_of depth

-- The end of the start tag, and the end tag.
abbrev pub has_child : Nodes → Bool
has_child Nodes.nil = false
has_child (Nodes.cons c cs) = true

abbrev pub tag_end : Bool → Nodes → Text
tag_end true cs = []
tag_end false Nodes.nil = bytes "/>\n"
tag_end false (Nodes.cons c cs) = bytes ">\n"

abbrev pub end_tag : Bool → Nodes → Text → Text
end_tag is_array cs spaces =
    if is_array || has_child cs then spaces ++ bytes "</property>\n" else []

abbrev pub start_tag : Platform → Text → Text → Text
start_tag p spaces name =
    spaces ++ (bytes "<property name=\"" ++ (p.markup_escape_text name ++ bytes "\""))

-- What is written: whether all of it is, and the text up to there.
abbrev pub Written : Type 0
Written = Bool × Text

-- `text` in front of what is written, and the end tag behind it if all of it is.
abbrev pub around : Text → Text → Written → Written
around before after (true, text) = (true, before ++ (text ++ after))
around before after (false, text) = (false, before ++ text)

-- The rest is written if the first is.
abbrev pub then_write : Written → Written → Written
then_write (true, text) (ok, rest) = (ok, text ++ rest)
then_write (false, text) rest = (false, text)

-- A node, once the tag of its value is known, with what is written of its children.
abbrev pub tagged_node :
    Platform → Text → Property → Nodes → Written × Nodes → Option (Text × Bool) → Written × Node
tagged_node p spaces q cs below none = ((false, []), node q cs)
tagged_node p spaces q cs below (some (tag, is_array)) = (
  around (start_tag p spaces q.name ++ (tag ++ tag_end is_array cs)) (end_tag is_array cs spaces)
      below.0,
  node (with_value_left q) below.1,
)

-- `esconf_backend_perchannel_xml_write_node`: what is written, and the nodes with the values that are
-- left.
unfoldable mutual
  pub write_node : Platform → ℕ → Node → Written × Node
  write_node p depth (node q cs) =
      tagged_node p (spaces_of (cut_depth depth)) q cs (write_nodes p (suc (cut_depth depth)) cs)
        (format_xml_tag p false (spaces_of (cut_depth depth)) q.value)

  pub write_nodes : Platform → ℕ → Nodes → Written × Nodes
  write_nodes p depth Nodes.nil = ((true, []), Nodes.nil)
  write_nodes p depth (Nodes.cons c cs) =
      let first = write_node p depth c in
      let rest = write_nodes p depth cs in
      (then_write first.0 rest.0, Nodes.cons first.1 (if first.0.0 then rest.1 else cs))
