-- ===== src/Tree.antt =====
-- The property tree of esconfd/esconf-backend-perchannel-xml.c: a `GNode` with an
-- `EsconfProperty`. A pointer to a node is the list of the names on the way to it from the root.
pub mod Walk
pub mod Modify
pub mod Local
pub mod Distinct
pub mod Unlink
pub mod Added
pub mod Add
pub mod Reset
pub mod Traverse
pub mod Cleanup
pub mod Replace
pub mod Grow
use mathlib.Core.List.{reverse, tail}
use esconf.Prelude.{
  Text, bytes, streq, strrchr, take, length, ℕ, zero, suc, ◌==◌, ltb, Bool, true, false, not, ◌&&◌,
  ◌||◌, is_some, Option, none, some, ◌>>=◌, List, [], ◌∷◌, ◌++◌, if◌then◌else◌,
}
use esconf.Platform.{Platform}
use esconf.Value.{GValue, unset, is_set}
use esconf.Names.{prop_name_is_valid}
use esconf.Names.Paths.{path}

-- `EsconfProperty`
pub record Property : Type 0 where
  pub name : Text
  pub value : GValue
  pub system_value : GValue
  pub locked : Bool

mutual
  pub data Node : Type 0 where
    node : Property → Nodes → Node

  pub data Nodes : Type 0 where
    nil : Nodes
    cons : Node → Nodes → Nodes

-- `node->data` and `node->children`
abbrev pub prop : Node → Property
prop (node q cs) = q

abbrev pub children : Node → Nodes
children (node q cs) = cs

-- The loop over the children with its `strcmp`.
unfoldable pub find_child : Text → Nodes → Option Node
find_child s nil = none
find_child s (cons c cs) = if streq (prop c).name s then some c else find_child s cs

-- The loop over `parts`: the last part's node is the one that is found.
unfoldable pub lookup_parts : List Text → Node → Option Node
lookup_parts [] parent = none
lookup_parts (s ∷ []) parent = find_child s (children parent)
lookup_parts (s ∷ t ∷ parts) parent = find_child s (children parent) >>= lookup_parts (t ∷ parts)

-- `h` at the first child of that name
unfoldable pub modify_child : Text → (Node → Node) → Nodes → Nodes
modify_child s h nil = nil
modify_child s h (cons c cs) =
    if streq (prop c).name s then cons (h c) cs else cons c (modify_child s h cs)

-- A write through a pointer to the node at these parts.
unfoldable pub modify : List Text → (Node → Node) → Node → Node
modify [] h n = h n
modify (s ∷ parts) h (node q cs) = node q (modify_child s (modify parts h) cs)

-- `g_node_append_data(parent, prop)`
unfoldable pub append_data : Nodes → Node → Nodes
append_data nil c = cons c nil
append_data (cons d cs) c = cons d (append_data cs c)

abbrev pub append_node : Property → Node → Node
append_node new (node q cs) = node q (append_data cs (node new nil))

-- `g_node_unlink` of the first child of that name
unfoldable pub unlink_child : Text → Nodes → Nodes
unlink_child s nil = nil
unlink_child s (cons c cs) = if streq (prop c).name s then cs else cons c (unlink_child s cs)

-- `g_node_unlink` and `esconf_proptree_destroy` of the node at these parts
unfoldable pub unlink_node : List Text → Node → Node
unlink_node [] n = n
unlink_node (s ∷ []) (node q cs) = node q (unlink_child s cs)
unlink_node (s ∷ t ∷ parts) (node q cs) = node q (modify_child s (unlink_node (t ∷ parts)) cs)

abbrev pub no_children : Node → Bool
no_children (node q nil) = true
no_children (node q (cons c cs)) = false

-- `g_slice_new0(EsconfProperty)` with a name, a value and a lock; a value that is not given stays
-- unset, and the system value is never written.
abbrev pub new_property : Text → GValue → Bool → Property
new_property name value locked = record {
  name = name;
  value = value;
  system_value = unset;
  locked = locked;
}

-- `MAX_PROP_PATH` and `g_strlcpy` into a buffer of that size
abbrev pub max_prop_path : ℕ
max_prop_path = 4096

abbrev pub strlcpy : Text → Text
strlcpy = take 4095

-- `name + 1`
abbrev pub behind_first : Text → Text
behind_first [] = []
behind_first (c ∷ s) = s

-- `strrchr(name, '/') + 1`
abbrev pub last_part : Text → Text
last_part name = elim (strrchr b'/' name) [ none ↦ name | some (before, after) ↦ after ]

-- The name of the parent: the copy in the buffer, cut at its last slash. The root has the empty name.
abbrev pub parent_name : Text → Text
parent_name name = elim (strrchr b'/' (strlcpy name)) [ none ↦ [] | some (before, after) ↦ before ]

-- May the loop of `esconf_proptree_reset` unlink this parent?
abbrev pub is_bare : Node → Bool
is_bare n =
    not (is_set (prop n).value)
    && (not (is_set (prop n).system_value)
        && (no_children n && not (streq (prop n).name (bytes "/"))))

-- The loop over the parents, innermost first, by their names in that order. The root, the empty
-- list, is named "/" and ends it.
unfoldable pub prune_parents : List Text → Node → Node
prune_parents [] tree = tree
prune_parents (s ∷ parents) tree =
    let here = reverse parents ++ s ∷ [] in
    let rest = prune_parents parents (unlink_node here tree) in
    elim (lookup_parts here tree) [ none ↦ tree | some n ↦ if is_bare n then rest else tree ]

abbrev pub unset_value : Node → Node
unset_value (node q cs) = node (record q { value = unset }) cs

module _ (p : Platform) where
  -- `parts`, for a name that passed the check
  abbrev pub parts_of : Text → List Text
  parts_of name = p.strsplit b'/' (behind_first name)

  -- `esconf_proptree_lookup_node`
  unfoldable pub lookup_node : Node → Text → Option Node
  lookup_node tree name =
      if prop_name_is_valid name then lookup_parts (parts_of name) tree else none

  -- `esconf_proptree_lookup`
  unfoldable pub lookup_prop : Node → Text → Option Property
  lookup_prop tree name = elim (lookup_node tree name) [ none ↦ none | some n ↦ some (prop n) ]

  -- `g_node_append_data` below the node that the name `parent` finds; the empty name is the root.
  unfoldable pub append_below : Text → Property → Node → Node
  append_below [] new tree = append_node new tree
  append_below (c ∷ parent) new tree = modify (parts_of (c ∷ parent)) (append_node new) tree

  -- Is there no node of the parent's name? The root is always there.
  unfoldable pub is_missing : Node → Text → Bool
  is_missing tree [] = false
  is_missing tree (c ∷ parent) = not (is_some (lookup_node tree (c ∷ parent)))

  -- `esconf_proptree_add_property`, where no more than `fuel` calls are nested. An invalid name
  -- adds nothing; its result is NULL.
  unfoldable pub add_fuel : ℕ → Node → Text → GValue → Bool → Node
  add_fuel zero tree name value locked = tree
  add_fuel (suc fuel) tree name value locked =
      let parent = parent_name name in
      let parents = add_fuel fuel tree parent unset false in
      let tree' = if is_missing tree parent then parents else tree in
      if prop_name_is_valid name
      then append_below parent (new_property (last_part name) value locked) tree'
      else tree

  -- The name of the parent is shorter, so the length of the name is enough.
  unfoldable pub add_property : Node → Text → GValue → Bool → Node
  add_property tree name value locked = add_fuel (suc (length name)) tree name value locked

  -- `esconf_proptree_reset`: the tree that is left, or `none` for FALSE
  unfoldable pub proptree_reset : Node → Text → Option Node
  proptree_reset tree name = elim (lookup_node tree name) [
    | none ↦ none
    | some n ↦
        if is_set (prop n).value
        then (if not (no_children n) || is_set (prop n).system_value
            then some (modify (parts_of name) unset_value tree)
            else some
                (prune_parents (tail (reverse (parts_of name))) (unlink_node (parts_of name) tree)))
        else none
  ]
