-- ===== src/Writer/Reading.antt =====
-- The parser at the start of a property that the writer wrote.
use esconf.Prelude.{
  Text, take, take-eq_self, length, length-append, ℕ, ◌≤◌, ◌≡◌, refl, ap, sym, ◌∙◌, true, false,
  Option, none, some, List, [], ◌∷◌, ◌++◌, All, arith,
}
use mathlib.Core.List.{append_assoc}
use esconf.Platform.{Platform, IsSplitter}
use esconf.Value.{unset}
use esconf.Names.{prop_name_is_valid}
use esconf.Names.Paths.{path, IsComponent, path-append}
use esconf.Tree.{
  Property, Node, node, nil, prop, children, find_child, modify, append_node, new_property,
  lookup_node, lookup_prop, add_property,
}
use esconf.Tree.Walk.{descend, descend-append, lookup_node-path}
use esconf.Tree.Add.{add_fuel-path}
use esconf.Tree.Added.{All-append, prop_name_is_valid-append}
use esconf.Tree.Grow.{append_child, modify-at}
use esconf.Loader.{Channel, XmlParserElem, elem_channel, elem_property, XmlParserState}
use esconf.Loader.Attributes.{Attributes, is_given}
use esconf.Loader.PropertyElem.{
  prepared, prepare, add_empty, full_path, read_type, read_locks, handle_property_attributes,
}

-- The parser of a user's file inside the element at a path.
abbrev pub elem_at : List Text → XmlParserElem
elem_at [] = elem_channel
elem_at (s ∷ parts) = elem_property

abbrev pub inside : List Text → Node → Option Text → XmlParserState
inside parts tree list = record {
  channel = record { properties = tree; locked = false; dirty = false };
  is_system_file = false;
  cur_elem = elem_at parts;
  cur_path = path parts;
  list_property = list;
}

abbrev pub named : Text → Text → Option Text → Attributes
named name type value = record {
  name = some name;
  version = none;
  type = some type;
  value = value;
  locked = none;
  unlocked = none;
}

joined_in_buffer :
    (n : ℕ) (x s : Text)
    → length (x ++ b'/' ∷ s) ≤ n
    → take n (take n (take n x ++ b'/' ∷ []) ++ s) ≡ x ++ b'/' ∷ s
joined_in_buffer n x s h =
    ap (λ (y : Text). take n (take n (y ++ b'/' ∷ []) ++ s))
      (take-eq_self n x (omega (arith, h, length-append x (b'/' ∷ s))))
    ∙ ap (λ (y : Text). take n (y ++ s))
        (take-eq_self n (x ++ b'/' ∷ [])
          (omega (arith, h, length-append x (b'/' ∷ s), length-append x (b'/' ∷ []))))
    ∙ ap (take n) (append_assoc x (b'/' ∷ []) s)
    ∙ take-eq_self n (x ++ b'/' ∷ s) h

pub full_path-path :
    (parts : List Text) (s : Text)
    → length (path (parts ++ s ∷ [])) ≤ 4095
    → full_path (path parts) s ≡ path (parts ++ s ∷ [])
full_path-path parts s short =
    joined_in_buffer 4095 (path parts) s (rw (sym (path-append parts s)) short)
    ∙ sym (path-append parts s)

lookup_prop-missing :
    (p : Platform) (parts : List Text) (s : Text) (tree m : Node)
    → IsSplitter p
    → All IsComponent parts
    → IsComponent s
    → descend parts tree ≡ some m
    → find_child s (children m) ≡ none
    → lookup_prop p tree (path (parts ++ s ∷ [])) ≡ none
unfolding lookup_prop
lookup_prop-missing p parts s tree m splits a c e free = ap prop_of (found parts a e)
  where
    prop_of : Option Node → Option Property
    prop_of o = elim o [ none ↦ none | some n ↦ some (prop n) ]

    none_there : (qs : List Text) → descend qs tree ≡ some m → descend (qs ++ s ∷ []) tree ≡ none
    none_there qs there =
        descend-append qs (s ∷ []) tree ∙ rw there (unfold descend in rw free refl)

    found :
        (qs : List Text)
        → All IsComponent qs
        → descend qs tree ≡ some m
        → lookup_node p tree (path (qs ++ s ∷ [])) ≡ none
    found [] b there = lookup_node-path p splits s [] tree (c, tt) ∙ none_there [] there
    found (q ∷ qs) b there =
        lookup_node-path p splits q (qs ++ s ∷ []) tree (b.0, All-append qs s b.1 c)
        ∙ none_there (q ∷ qs) there

add_property-below :
    (p : Platform) (parts : List Text) (s : Text) (tree m : Node)
    → IsSplitter p
    → All IsComponent parts
    → IsComponent s
    → length (path (parts ++ s ∷ [])) ≤ 4095
    → descend parts tree ≡ some m
    → add_property p tree (path (parts ++ s ∷ [])) unset false
      ≡ modify parts (append_child (node (new_property s unset false) nil)) tree
unfolding add_property
add_property-below p parts s tree m splits a c short e =
    add_fuel-path p splits (length (path (parts ++ s ∷ []))) parts s tree unset false a c short
    ∙ rw e (
        modify-at parts (append_node (new_property s unset false))
          (append_child (node (new_property s unset false) nil)) tree m e (same m))
  where
    same :
        (n : Node)
        → append_node (new_property s unset false) n
          ≡ append_child (node (new_property s unset false) nil) n
    same (node q cs) = refl

IsComponent-is_given : (s : Text) → IsComponent s → is_given (some s) ≡ true
IsComponent-is_given [] c = elim c [ ]
IsComponent-is_given (d ∷ s) c = refl

prepare-missing :
    (p : Platform) (fullpath : Text) (channel : Channel) (tree : Node)
    → channel.locked ≡ false
    → lookup_prop p channel.properties fullpath ≡ none
    → prop_name_is_valid fullpath ≡ true
    → add_property p channel.properties fullpath unset false ≡ tree
    → prepare p fullpath false channel ≡ prepared tree
unfolding prepare add_empty
prepare-missing p fullpath channel tree unlocked missing is_valid added =
    rw (missing, prepare) (rw (is_valid, unlocked, added) refl)

prepared-read_type :
    (p : Platform) (parts : List Text) (s type fullpath : Text) (value list : Option Text)
    (tree tree' : Node)
    → is_given (some s) ≡ true
    → is_given (some type) ≡ true
    → full_path (path parts) s ≡ fullpath
    → prepare p fullpath false (record { properties = tree; locked = false; dirty = false })
      ≡ prepared tree'
    → handle_property_attributes p (named s type value) (inside parts tree list)
      ≡ read_type p fullpath (named s type value) tree' (inside parts tree list)
unfolding handle_property_attributes read_locks
prepared-read_type p parts s type fullpath value list tree tree' given given' whole ready =
    rw (given, given', whole, handle_property_attributes)
      (rw (ready, handle_property_attributes)
        (ap (λ (f : Text). read_type p f (named s type value) tree' (inside parts tree list))
          whole))

-- Up to the type.
pub start-read_type :
    (p : Platform) (parts : List Text) (s type : Text) (value list : Option Text) (tree m : Node)
    → IsSplitter p
    → All IsComponent parts
    → IsComponent s
    → length (path (parts ++ s ∷ [])) ≤ 4095
    → descend parts tree ≡ some m
    → find_child s (children m) ≡ none
    → is_given (some type) ≡ true
    → handle_property_attributes p (named s type value) (inside parts tree list)
      ≡ read_type p
          (path (parts ++ s ∷ []))
          (named s type value)
          (modify parts (append_child (node (new_property s unset false) nil)) tree)
          (inside parts tree list)
start-read_type p parts s type value list tree m splits a c short e free given =
    prepared-read_type p parts s type (path (parts ++ s ∷ [])) value list tree
      (modify parts (append_child (node (new_property s unset false) nil)) tree)
      (IsComponent-is_given s c) given (full_path-path parts s short)
      (prepare-missing p (path (parts ++ s ∷ []))
        (record { properties = tree; locked = false; dirty = false })
        (modify parts (append_child (node (new_property s unset false) nil)) tree) refl
        (lookup_prop-missing p parts s tree m splits a c e free)
        (prop_name_is_valid-append parts s a c)
        (add_property-below p parts s tree m splits a c short e))
