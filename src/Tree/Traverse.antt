-- ===== src/Tree/Traverse.antt =====
-- The walks over a whole subtree: the recursive reset, the clean-up behind it, and the listing of
-- the values.
use mathlib.Core.List.{reverse}
use esconf.Prelude.{
  Text, bytes, HashTable, insert, strrchr, take, ◌==◌, Bool, not, ◌&&◌, Option, none, some, List,
  [], ◌∷◌, ◌++◌, if◌then◌else◌,
}
use esconf.Value.{GValue, unset, is_set}
use esconf.Tree.{Property, Node, node, Nodes, nil, cons, prop, no_children}

-- The names on the way up from a node, before the first one of a single byte, which the loop of
-- `esconf_proptree_build_propname` takes for the root's. An empty name, whose second byte is not
-- there, is taken so too.
unfoldable pub components_up : List Text → List Text
components_up [] = []
components_up ([] ∷ names) = []
components_up ((c ∷ []) ∷ names) = []
components_up ((c ∷ d ∷ s) ∷ names) = (c ∷ d ∷ s) ∷ components_up names

-- Each component behind a slash, in a buffer of MAX_PROP_PATH bytes.
unfoldable pub concat_components : Text → List Text → Text
concat_components buf [] = buf
concat_components buf (s ∷ names) =
    concat_components (take 4095 (take 4095 (buf ++ bytes "/") ++ s)) names

-- `esconf_proptree_build_propname`, for a node by the names on the way up to the root
unfoldable pub build_propname : List Text → Text
build_propname up = concat_components [] (reverse (components_up up))

-- `g_node_traverse` in post-order with `nodes_do_prop_reset`: the tree, and the names that are
-- signalled, which are those of the nodes with a value. `up` holds the names on the way up.
unfoldable mutual
  pub reset_nodes : Node → Node
  reset_nodes (node q cs) = node (record q { value = unset }) (reset_children cs)

  pub reset_children : Nodes → Nodes
  reset_children nil = nil
  reset_children (cons c cs) = cons (reset_nodes c) (reset_children cs)

unfoldable mutual
  pub reset_names : List Text → Node → List Text
  reset_names up (node q cs) =
      children_reset_names up cs ++ (if is_set q.value then build_propname up ∷ [] else [])

  pub children_reset_names : List Text → Nodes → List Text
  children_reset_names up nil = []
  children_reset_names up (cons c cs) =
      reset_names ((prop c).name ∷ up) c ++ children_reset_names up cs

-- The test of `nodes_clean_up`, once the children are cleaned up.
abbrev pub is_dangling : Node → Bool
is_dangling n =
    no_children n
    && (not (is_set (prop n).value) && (not (is_set (prop n).system_value) && not (prop n).locked))

-- `g_node_traverse` in post-order with `nodes_clean_up`; `none` is a node that was unlinked.
abbrev pub keep_node : Node → Option Node
keep_node n = if is_dangling n then none else some n

abbrev pub cons_kept : Option Node → Nodes → Nodes
cons_kept none cs = cs
cons_kept (some c) cs = cons c cs

unfoldable mutual
  pub clean_up : Node → Option Node
  clean_up (node q cs) = keep_node (node q (clean_up_children cs))

  pub clean_up_children : Nodes → Nodes
  clean_up_children nil = nil
  clean_up_children (cons c cs) = cons_kept (clean_up c) (clean_up_children cs)

-- The value that a property shows: the user's, else the system's.
abbrev pub value_to_get : Property → GValue
value_to_get q = if is_set q.value then q.value else q.system_value

-- The path in the buffer, with a name behind it unless the name begins with a slash, as the root's.
abbrev pub enter_path : Text → Text → Text
enter_path [] cur_path = take 4095 (cur_path ++ bytes "/")
enter_path (c ∷ name) cur_path =
    if c == b'/' then cur_path else take 4095 (take 4095 (cur_path ++ bytes "/") ++ c ∷ name)

-- The path in the buffer, cut at its last slash.
abbrev pub leave_path : Text → Text
leave_path cur_path = elim (strrchr b'/' cur_path) [
  | none ↦ cur_path
  | some (before, after) ↦ before
]

abbrev pub insert_value : Property → Text → HashTable GValue → HashTable GValue
insert_value q cur_path props =
    if is_set (value_to_get q)
    then insert (cur_path ++ (bytes "/" ++ q.name)) (value_to_get q) props
    else props

-- `esconf_proptree_node_to_hash_table`: the table, and the path that is left in the buffer.
unfoldable mutual
  pub node_to_hash_table : Node → HashTable GValue → Text → HashTable GValue × Text
  node_to_hash_table (node q nil) props cur_path = (insert_value q cur_path props, cur_path)
  node_to_hash_table (node q (cons c cs)) props cur_path =
      let (props', cur_path') =
        nodes_to_hash_table (cons c cs) (insert_value q cur_path props)
          (enter_path q.name cur_path) in
      (props', leave_path cur_path')

  pub nodes_to_hash_table : Nodes → HashTable GValue → Text → HashTable GValue × Text
  nodes_to_hash_table nil props cur_path = (props, cur_path)
  nodes_to_hash_table (cons c cs) props cur_path =
      let (props', cur_path') = node_to_hash_table c props cur_path in
      nodes_to_hash_table cs props' cur_path'
