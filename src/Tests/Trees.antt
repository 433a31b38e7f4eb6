-- ===== src/Tests/Trees.antt =====
-- The operations on a tree, at a concrete tree.
use esconf.Prelude.{
  none, some, inl, inr, Text, bytes, ◌↔◌, ◌++◌, streq, ◌≡◌, refl, Bool, true, false, is_some, List,
  [], ◌∷◌, arith,
}
use esconf.Value.{GValue, unset, int, boolean}
use esconf.Prelude.{pos}
use esconf.Names.Paths.{path, IsComponent}
use esconf.Tree.{Property, Node, node, Nodes, nil, cons, lookup_node, add_property, proptree_reset}
use esconf.Tree.Walk.{IsDistinct}
use esconf.Tree.Local.{IsUpdate}
use esconf.Tree.Add.{add_property-IsAdded}
use esconf.Tree.Reset.{IsOutcome, proptree_reset-IsOutcome}
use esconf.Platform.{joined}
use esconf.Tree.Walk.{entry_at}
use esconf.Tree.Traverse.{reset_nodes, clean_up}
use esconf.Tree.Cleanup.{kept_entry, without_user, clean_up-reset_nodes}
use esconf.Locking.{GroupCache, user_is_in_list}
use esconf.Locking.Laws.{Any, IsNamedBy, InForce, user_is_in_list_iff}
use esconf.Tests.Platforms.{test_platform, test_platform-IsSplitter}

abbrev property : Text → GValue → GValue → Bool → Property
property name value system_value locked = record {
  name = name;
  value = value;
  system_value = system_value;
  locked = locked;
}

-- The root, with `/a`, which the system gives a value and a lock, and `/a/b`, which the user has set.
abbrev pub tree : Node
tree = node (property (bytes "/") unset unset false) (
    cons
      (node (property (bytes "a") unset (int (pos 5)) true)
        (cons (node (property (bytes "b") (boolean true) unset false) nil) nil))
      nil)

pub tree-IsDistinct : IsDistinct tree
unfolding esconf.Tree.find_child
tree-IsDistinct = ground arith

pub a-IsComponent : IsComponent (bytes "a")
a-IsComponent = ground arith

pub b-IsComponent : IsComponent (bytes "b")
b-IsComponent = ground arith

pub c-IsComponent : IsComponent (bytes "c")
c-IsComponent = ground arith

abbrev pub a_b : List Text
a_b = bytes "a" ∷ bytes "b" ∷ []

abbrev c_b : List Text
c_b = bytes "c" ∷ bytes "b" ∷ []

add_property-IsAdded_example :
    IsUpdate c_b
      (boolean false, unset, false)
      tree
      (add_property test_platform tree (path c_b) (boolean false) false)
    × (is_some (
          lookup_node test_platform
            (add_property test_platform tree (path c_b) (boolean false) false)
            (path c_b))
        ≡ true)
    × (IsDistinct tree
        → IsDistinct (add_property test_platform tree (path c_b) (boolean false) false))
unfolding lookup_node esconf.Names.prop_name_is_valid esconf.Tree.lookup_parts
    esconf.Tree.find_child streq
add_property-IsAdded_example =
    add_property-IsAdded test_platform test_platform-IsSplitter (bytes "c") (bytes "b" ∷ []) tree
      (boolean false) false (c-IsComponent, (b-IsComponent, tt)) (omega arith) refl

proptree_reset-IsOutcome_example : IsOutcome a_b tree (proptree_reset test_platform tree (path a_b))
proptree_reset-IsOutcome_example =
    proptree_reset-IsOutcome test_platform test_platform-IsSplitter (bytes "a") (bytes "b" ∷ [])
      tree (a-IsComponent, (b-IsComponent, tt)) tree-IsDistinct

clean_up-reset_nodes_example :
    kept_entry a_b (clean_up (reset_nodes tree)) ≡ without_user (entry_at a_b tree)
clean_up-reset_nodes_example = clean_up-reset_nodes a_b tree tree-IsDistinct

-- Nothing is cached yet.
abbrev no_cache : GroupCache
no_cache = record { etc_group_mtime = 0; group_cache = none }

user_is_in_list_iff_example :
    let (answer, s) =
      user_is_in_list test_platform (bytes "bob" ++ joined b';' (bytes "@staff" ∷ [])) no_cache in
    ((answer ≡ true)
      ↔ Any
          (IsNamedBy test_platform.user_name test_platform.groups)
          (bytes "bob" ∷ bytes "@staff" ∷ []))
    × InForce test_platform s test_platform.groups
user_is_in_list_iff_example =
    user_is_in_list_iff test_platform (bytes "bob") (bytes "@staff" ∷ []) test_platform.groups
      no_cache test_platform-IsSplitter (ground arith) (ground arith) (λ e. ground arith)
      (inl (refl, inr (inl refl)))

-- A cache that is newer than the group file stays, though the file has the group.
stale_cache :
    (user_is_in_list test_platform
      (bytes "@staff")
      (record { etc_group_mtime = 9; group_cache = some [] })).0
    ≡ false
unfolding user_is_in_list esconf.Locking.some_token_matches esconf.Locking.token_matches
    esconf.Locking.user_is_in_group esconf.Locking.ensure_group_cache esconf.Prelude.lookup
stale_cache = refl
