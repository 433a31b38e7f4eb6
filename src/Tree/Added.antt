-- ===== src/Tree/Added.antt =====
-- A property that is appended to a node of the tree, and the names of it and of its parent.
use esconf.Prelude.{
  Text, streq_refl, take-eq_self, length, length-append, ◌≤◌, ◌≡◌, refl, sym, ◌∙◌, true, Option,
  none, some, ◌>>=◌, List, [], ◌∷◌, ◌++◌, All, arith,
}
use esconf.Names.{prop_name_is_valid}
use esconf.Names.Paths.{path, IsComponent, path-append, strrchr-append, prop_name_is_valid-path}
use esconf.Tree.{
  Property, Node, node, nil, children, find_child, modify, append_node, last_part, parent_name,
}
use esconf.Tree.Walk.{descend, descend-append, entry_of, entry_at, IsDistinct, IsComponent-Lacks}
use esconf.Tree.Modify.{KeepsName}
use esconf.Tree.Local.{IsUpdate, modify-IsUpdate, append_node-IsUpdate, find_child-append_data}
use esconf.Tree.Distinct.{
  modify-IsDistinct, append_node-IsDistinct, descend-IsDistinct, descend-modify,
}

pub All-append_inv :
    (qs : List Text) (s : Text)
    → All IsComponent (qs ++ s ∷ [])
    → All IsComponent qs × IsComponent s
All-append_inv [] s h = (tt, h.0)
All-append_inv (q ∷ qs) s h = let (a, c) = All-append_inv qs s h.1 in ((h.0, a), c)

pub All-append :
    (qs : List Text) (s : Text)
    → All IsComponent qs
    → IsComponent s
    → All IsComponent (qs ++ s ∷ [])
All-append [] s a c = (c, tt)
All-append (q ∷ qs) s a c = (a.0, All-append qs s a.1 c)

pub prop_name_is_valid-append :
    (qs : List Text) (s : Text)
    → All IsComponent qs
    → IsComponent s
    → prop_name_is_valid (path (qs ++ s ∷ [])) ≡ true
prop_name_is_valid-append [] s a c = prop_name_is_valid-path s [] (c, tt)
prop_name_is_valid-append (q ∷ qs) s a c =
    prop_name_is_valid-path q (qs ++ s ∷ []) (a.0, All-append qs s a.1 c)

pub length-path-append :
    (qs : List Text) (s : Text) → length (path qs) ≤ length (path (qs ++ s ∷ []))
length-path-append qs s = rw path-append (omega (arith, length-append (path qs) (b'/' ∷ s)))

-- What an addition at `ps` of the property `new` does.
pub record IsAdded (ps : List Text) (new : Property) (t t' : Node) : Type 0 where
  pub update : IsUpdate ps (new.value, new.system_value, new.locked) t t'
  pub there : descend ps t' ≡ some (node new nil)
  pub distinct : IsDistinct t → IsDistinct t'

append_node-KeepsName : (new : Property) → KeepsName (append_node new)
append_node-KeepsName new (node q cs) = refl

-- Behind an append the walk to the new child ends there.
descend-append_node :
    (qs : List Text) (new : Property) (t m : Node)
    → descend qs t ≡ some m
    → find_child new.name (children m) ≡ none
    → descend (qs ++ new.name ∷ []) (modify qs (append_node new) t) ≡ some (node new nil)
descend-append_node qs new t m e h =
    rw (descend-append, descend-modify qs (append_node new) t m (append_node-KeepsName new) e)
      (at_child m h)
  where
    at_child :
        (m' : Node)
        → find_child new.name (children m') ≡ none
        → descend (new.name ∷ []) (append_node new m') ≡ some (node new nil)
    at_child (node q cs) x =
        unfold descend in
        rw (find_child-append_data new.name cs (node new nil) x, streq_refl new.name)

pub append_node-IsAdded :
    (qs : List Text) (new : Property) (t m : Node)
    → descend qs t ≡ some m
    → find_child new.name (children m) ≡ none
    → IsAdded (qs ++ new.name ∷ []) new t (modify qs (append_node new) t)
append_node-IsAdded qs new t m e h = record {
  update =
      modify-IsUpdate qs (new.name ∷ []) _ (append_node new) t m (append_node-KeepsName new) e
        (append_node-IsUpdate new m h);
  there = descend-append_node qs new t m e h;
  distinct = λ d.
      modify-IsDistinct qs (append_node new) t m (append_node-KeepsName new) e d
        (append_node-IsDistinct new m h (descend-IsDistinct qs t m e d));
}

pub parent_name-path :
    (qs : List Text) (s : Text)
    → IsComponent s
    → length (path (qs ++ s ∷ [])) ≤ 4095
    → parent_name (path (qs ++ s ∷ [])) ≡ path qs
parent_name-path qs s c short = rw (
  take-eq_self 4095 _ short,
  path-append qs s,
  strrchr-append b'/' (path qs) s (IsComponent-Lacks s c),
  parent_name,
)

pub last_part-path :
    (qs : List Text) (s : Text) → IsComponent s → last_part (path (qs ++ s ∷ [])) ≡ s
last_part-path qs s c =
    rw (path-append qs s, strrchr-append b'/' (path qs) s (IsComponent-Lacks s c), last_part)

-- Without a node at the path there is no such child of the parent.
pub find_child-missing :
    (qs : List Text) (s : Text) (t m : Node)
    → descend qs t ≡ some m
    → descend (qs ++ s ∷ []) t ≡ none
    → find_child s (children m) ≡ none
find_child-missing qs s t m e h = no_child (find_child s (children m)) refl
  where
    x : (descend qs t >>= descend (s ∷ [])) ≡ none
    x = sym (descend-append qs (s ∷ []) t) ∙ h

    no_child : (o : Option Node) → find_child s (children m) ≡ o → o ≡ none
    no_child none k = refl
    no_child (some c) k = absurd (unfold descend in ground (arith, x, e, k))

pub entry_at-none :
    (ps : List Text) (t : Node) → descend ps t ≡ none → entry_at ps t ≡ entry_of none
unfolding entry_at
entry_at-none ps t h = rw h
