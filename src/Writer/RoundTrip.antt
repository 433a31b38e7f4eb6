-- ===== src/Writer/RoundTrip.antt =====
-- A tree that is written and read again.
use esconf.Prelude.{
  Text, bytes, streq, streq_iff, strrchr, length, ◌≤◌, ◌≡◌, refl, ap, sym, ◌∙◌, true, false, Option,
  none, some, List, [], ◌∷◌, ◌++◌, All, arith,
}
use esconf.Platform.{Platform, IsSplitter, Markup, start_elem, end_elem}
use esconf.Value.{GValue, GValues, unset, string, ptr_array, strv}
use esconf.Value.Parse.RoundTrip.{IsAscii}
use esconf.Names.Paths.{path, IsComponent, path-append, strrchr-append}
use esconf.Tree.{
  Property, Node, node, Nodes, nil, cons, prop, children, find_child, modify, append_data,
  append_node, new_property,
}
use esconf.Tree.Walk.{descend, IsComponent-Lacks}
use esconf.Tree.Distinct.{descend-modify}
use esconf.Tree.Local.{find_child-append_data}
use esconf.Tree.Added.{All-append, append_node-IsAdded}
use esconf.Tree.Grow.{
  append_child, modify-at, modify_id, modify-modify, modify-append_child, append_child-KeepsName,
}
use esconf.Loader.{XmlParserElem, elem_none, running, new_channel, root_node}
use esconf.Loader.Attributes.{is_given, channel_attribute, scan_attributes}
use esconf.Loader.ChannelElem.{handle_channel, handle_channel_attributes, major_version}
use esconf.Loader.Files.{initial_state, channel_of}
use esconf.Loader.PropertyElem.{handle_property}
use esconf.Loader.Elements.{start_in, end_in, leave_to, handle_markup, run_parser}
use esconf.Writer.Events.{
  IsStorable, AreStorableNodes, kept_nodes, name_attribute, value_attributes, value_events,
  nodes_events, channel_events,
}
use esconf.Writer.Reading.{inside}
use esconf.Writer.Entering.{start_value, list_after, elem_at-append, handle_property-IsStarted}
use esconf.Writer.Arrays.{run_parser-running, values_read}

-- Children behind others, and behind those of a node.
abbrev pub append_all : Nodes → Nodes → Nodes
append_all nil ks = ks
append_all (cons d ds) ks = cons d (append_all ds ks)

abbrev pub append_nodes : Nodes → Node → Node
append_nodes ks (node q ds) = node q (append_all ds ks)

append_all-nil : (ds : Nodes) → append_all ds nil ≡ ds
append_all-nil nil = refl
append_all-nil (cons d ds) = ap (cons d) (append_all-nil ds)

append_all-append_data :
    (ds : Nodes) (c : Node) (ks : Nodes)
    → append_all (append_data ds c) ks ≡ append_all ds (cons c ks)
unfolding append_data
append_all-append_data nil c ks = refl
append_all-append_data (cons d ds) c ks = ap (cons d) (append_all-append_data ds c ks)

-- None of these nodes has the name of one of those.
abbrev AreNew : Nodes → Nodes → Type 0
AreNew nil ds = Unit
AreNew (cons c cs) ds = (find_child (prop c).name ds ≡ none) × AreNew cs ds

AreNew-nil : (cs : Nodes) → AreNew cs nil
unfolding find_child
AreNew-nil nil = tt
AreNew-nil (cons c cs) = (refl, AreNew-nil cs)

-- Behind a new node the next ones are still new.
AreNew-append_data :
    (cs ds : Nodes) (c : Node)
    → find_child (prop c).name ds ≡ none
    → find_child (prop c).name cs ≡ none
    → AreNew cs ds
    → AreNew cs (append_data ds c)
unfolding find_child
AreNew-append_data nil ds c free apart h = tt
AreNew-append_data (cons d cs) ds c free apart h = (
  rw (find_child-append_data (prop d).name ds c free) (
      ground (
        arith,
        h.0,
        apart,
        streq_iff (prop c).name (prop d).name,
        streq_iff (prop d).name (prop c).name,
      )),
  AreNew-append_data cs ds c free (ground (arith, apart)) h.1,
)

property_started :
    (p : Platform) (parts : List Text) (attributes : List (Text × Text)) (tree : Node)
    (list : Option Text)
    → handle_markup p (start_elem (bytes "property") attributes) (inside parts tree list)
      ≡ handle_property p attributes (inside parts tree list)
unfolding handle_markup start_in streq
property_started p [] attributes tree list = refl
property_started p (q ∷ parts) attributes tree list = refl

-- The start tag, with the elements of an array.
started :
    (p : Platform) (parts : List Text) (s : Text) (v : GValue) (list : Option Text) (tree m : Node)
    (rest : List Markup)
    → IsSplitter p
    → IsAscii p
    → All IsComponent parts
    → IsComponent s
    → length (path (parts ++ s ∷ [])) ≤ 4095
    → descend parts tree ≡ some m
    → find_child s (children m) ≡ none
    → IsStorable v
    → run_parser p
        (start_elem (bytes "property") (name_attribute s (value_attributes p v))
          ∷ (value_events p v ++ rest))
        (inside parts tree list)
      ≡ run_parser p rest (
          inside
            (parts ++ s ∷ [])
            (modify parts (append_child (node (new_property s v false) nil)) tree)
            (list_after v (path (parts ++ s ∷ [])) list))
started p parts s v list tree m rest splits ascii a c short e free h =
    run_parser-running p _ (value_events p v ++ rest) (inside parts tree list) _ (
      property_started p parts (name_attribute s (value_attributes p v)) tree list
      ∙ handle_property-IsStarted p parts s list tree m splits a c short e free v ascii h)
    ∙ elements v h
  where
    elements :
        (w : GValue)
        → IsStorable w
        → run_parser p (value_events p w ++ rest) (
            inside
              (parts ++ s ∷ [])
              (modify parts (append_child (node (new_property s (start_value w) false) nil)) tree)
              (list_after w (path (parts ++ s ∷ [])) list))
          ≡ run_parser p rest (
              inside
                (parts ++ s ∷ [])
                (modify parts (append_child (node (new_property s w false) nil)) tree)
                (list_after w (path (parts ++ s ∷ [])) list))
    elements (ptr_array vs) k =
        values_read p parts s tree m splits ascii a c e free GValues.nil vs rest k
    elements (string t) k = refl
    elements (strv ss) k = elim k [ ]
    elements _ k = refl

-- The end tag.
ended :
    (p : Platform) (parts : List Text) (s : Text) (tree : Node) (list : Option Text)
    → IsComponent s
    → handle_markup p (end_elem (bytes "property")) (inside (parts ++ s ∷ []) tree list)
      ≡ running (inside parts tree none)
unfolding handle_markup end_in
ended p parts s tree list c =
    ap (λ (x : XmlParserElem). running (end_in x (inside (parts ++ s ∷ []) tree list)))
      (elem_at-append parts s)
    ∙ ap running (rw (cut, end_in) (left parts))
  where
    cut : strrchr b'/' (path (parts ++ s ∷ [])) ≡ some (path parts, s)
    cut = rw path-append (strrchr-append b'/' (path parts) s (IsComponent-Lacks s c))

    left :
        (qs : List Text)
        → leave_to (path qs) (inside (parts ++ s ∷ []) tree list) ≡ inside qs tree none
    left [] = refl
    left (q ∷ qs) = refl

-- The node that was appended is found.
appended_there :
    (parts : List Text) (new : Property) (tree m : Node)
    → descend parts tree ≡ some m
    → find_child new.name (children m) ≡ none
    → descend (parts ++ new.name ∷ []) (modify parts (append_child (node new nil)) tree)
      ≡ some (node new nil)
appended_there parts new tree m e free =
    ap (descend (parts ++ new.name ∷ []))
      (modify-at parts (append_child (node new nil)) (append_node new) tree m e (same m))
    ∙ (append_node-IsAdded parts new tree m e free).there
  where
    same : (n : Node) → append_child (node new nil) n ≡ append_node new n
    same (node q cs) = refl

append_child-children : (c m : Node) → children (append_child c m) ≡ append_data (children m) c
append_child-children c (node q ds) = refl

-- One node behind another is both of them at once.
append_nodes-append_child :
    (parts : List Text) (c : Node) (ks : Nodes) (tree : Node) (m : Node)
    → descend parts tree ≡ some m
    → modify parts (append_nodes ks) (modify parts (append_child c) tree)
      ≡ modify parts (append_nodes (cons c ks)) tree
append_nodes-append_child parts c ks tree m e =
    modify-modify parts (append_nodes ks) (append_child c) tree (append_child-KeepsName c)
    ∙ modify-at parts (λ n. append_nodes ks (append_child c n)) (append_nodes (cons c ks)) tree m e
        (same m)
  where
    same : (n : Node) → append_nodes ks (append_child c n) ≡ append_nodes (cons c ks) n
    same (node q ds) = ap (node q) (append_all-append_data ds c ks)

append_nodes-nil : (n : Node) → append_nodes nil n ≡ n
append_nodes-nil (node q ds) = ap (node q) (append_all-nil ds)

pub nodes_read :
    (p : Platform) (parts : List Text) (cs : Nodes) (tree m : Node) (list : Option Text)
    (rest : List Markup)
    → IsSplitter p
    → IsAscii p
    → All IsComponent parts
    → descend parts tree ≡ some m
    → AreStorableNodes parts cs
    → AreNew cs (children m)
    → (list' : Option Text) × (run_parser p (nodes_events p cs rest) (inside parts tree list)
        ≡ run_parser p rest (inside parts (modify parts (append_nodes (kept_nodes cs)) tree) list'))
nodes_read p parts nil tree m list rest splits ascii a e h new = (
  list,
  ap (λ (t : Node). run_parser p rest (inside parts t list))
      (sym (modify_id parts (append_nodes nil) tree append_nodes-nil)),
)
nodes_read p parts (cons (node q kids) cs) tree m list rest splits ascii a e h new =
    let (storable, apart, others) = h in
    let (comp, readable, short, value, below) = storable in
    let added = new_property q.name q.value false in
    let whole = node added (kept_nodes kids) in
    let tree1 = modify parts (append_child (node added nil)) tree in
    let tree2 = modify parts (append_child whole) tree in
    let inner = parts ++ q.name ∷ [] in
    let (l1, kids_read) =
      nodes_read p inner kids tree1 (node added nil) (list_after q.value (path inner) list)
        (end_elem (bytes "property") ∷ nodes_events p cs rest) splits ascii
        (All-append parts q.name a comp) (appended_there parts added tree m e new.0) below
        (AreNew-nil kids) in
    let (l2, cs_read) =
      nodes_read p parts cs tree2 (append_child whole m) none rest splits ascii a
        (descend-modify parts (append_child whole) tree m (append_child-KeepsName whole) e) others
        (rw (append_child-children whole m)
          (AreNew-append_data cs (children m) whole new.0 apart new.1)) in
    (
      l2,
      started p parts q.name q.value list tree m
            (nodes_events p kids (end_elem (bytes "property") ∷ nodes_events p cs rest)) splits
            ascii a comp short e new.0 value
          ∙ kids_read
          ∙ ap
              (λ (t : Node).
                run_parser p (end_elem (bytes "property") ∷ nodes_events p cs rest)
                  (inside inner t l1))
              (modify-append_child parts q.name (append_nodes (kept_nodes kids)) (node added nil)
                tree m e new.0 refl)
          ∙ run_parser-running p (end_elem (bytes "property")) (nodes_events p cs rest)
              (inside inner tree2 l1) (inside parts tree2 none) (ended p parts q.name tree2 l1 comp)
          ∙ cs_read
          ∙ ap (λ (t : Node). run_parser p rest (inside parts t l2))
              (append_nodes-append_child parts whole (kept_nodes cs) tree m e),
    )

channel_started :
    (p : Platform) (channel_name : Text)
    → is_given (some channel_name) ≡ true
    → handle_markup p
        (start_elem
          (bytes "channel")
          (name_attribute channel_name ((bytes "version", bytes "1.0") ∷ [])))
        (initial_state false new_channel)
      ≡ running (inside [] root_node none)
unfolding handle_markup start_in streq handle_channel scan_attributes channel_attribute
    handle_channel_attributes major_version
channel_started p channel_name given = rw given refl

-- A user's file into a new channel.
pub channel_read :
    (p : Platform) (channel_name : Text) (cs : Nodes)
    → IsSplitter p
    → IsAscii p
    → is_given (some channel_name) ≡ true
    → AreStorableNodes [] cs
    → channel_of (run_parser p (channel_events p channel_name cs) (initial_state false new_channel))
      ≡ some (record {
        properties = node (new_property (bytes "/") unset false) (kept_nodes cs);
        locked = false;
        dirty = false;
      })
unfolding descend modify run_parser handle_markup end_in
channel_read p channel_name cs splits ascii given h =
    let (list, read) =
      nodes_read p [] cs root_node root_node none (end_elem (bytes "channel") ∷ []) splits ascii tt
        refl h (AreNew-nil cs) in
    ap channel_of (
      run_parser-running p
        (start_elem (bytes "channel")
          (name_attribute channel_name ((bytes "version", bytes "1.0") ∷ [])))
        (nodes_events p cs (end_elem (bytes "channel") ∷ [])) (initial_state false new_channel)
        (inside [] root_node none) (channel_started p channel_name given)
      ∙ read
      ∙ run_parser-running p (end_elem (bytes "channel")) []
          (inside [] (modify [] (append_nodes (kept_nodes cs)) root_node) list)
          (record (inside [] (modify [] (append_nodes (kept_nodes cs)) root_node) list) {
            cur_elem = elem_none;
            cur_path = [];
          })
          refl)
