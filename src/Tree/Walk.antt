-- ===== src/Tree/Walk.antt =====
-- What is found at the end of a walk from the root: the tree as a map from paths to entries.
use mathlib.Core.Path.{fun_ext}
use esconf.Prelude.{
  Text, streq, streq_iff, ◌≡◌, ◌≢◌, ◌↔◌, refl, ap, sym, ◌∙◌, Bool, true, false, ◌&&◌, Option, none,
  some, ◌>>=◌, List, [], ◌∷◌, ◌++◌, All, arith,
}
use esconf.Platform.{Platform, IsSplitter, Lacks}
use esconf.Value.{GValue, unset}
use esconf.Names.Paths.{path, IsComponent, prop_name_is_valid-path}
use esconf.Tree.{
  Node, node, Nodes, nil, cons, prop, children, find_child, lookup_parts, lookup_node, parts_of,
}

-- The node at the end of a walk; the root at the end of the empty one.
unfoldable pub descend : List Text → Node → Option Node
descend [] n = some n
descend (s ∷ ps) n = find_child s (children n) >>= descend ps

-- The loop of `esconf_proptree_lookup_node` is a walk.
pub lookup_parts-eq-descend :
    (s : Text) (ps : List Text) (n : Node) → lookup_parts (s ∷ ps) n ≡ descend (s ∷ ps) n
unfolding descend lookup_parts
lookup_parts-eq-descend s [] n = ground arith
lookup_parts-eq-descend s (t ∷ ps) n =
    ap (λ (f : Node → Option Node). find_child s (children n) >>= f)
      (fun_ext (lookup_parts-eq-descend t ps))

bind_assoc :
    (o : Option Node) (f g : Node → Option Node) → ((o >>= f) >>= g) ≡ (o >>= λ n. f n >>= g)
bind_assoc none f g = refl
bind_assoc (some n) f g = refl

pub descend-append :
    (ps qs : List Text) (n : Node) → descend (ps ++ qs) n ≡ (descend ps n >>= descend qs)
unfolding descend
descend-append [] qs n = refl
descend-append (s ∷ ps) qs n =
    ap (λ (f : Node → Option Node). find_child s (children n) >>= f)
      (fun_ext (descend-append ps qs))
    ∙ sym (bind_assoc (find_child s (children n)) (descend ps) (descend qs))

-- Equality of walks.
unfoldable pub same_parts : List Text → List Text → Bool
same_parts [] [] = true
same_parts [] (t ∷ qs) = false
same_parts (s ∷ ps) [] = false
same_parts (s ∷ ps) (t ∷ qs) = streq s t && same_parts ps qs

pub same_parts_iff : (ps qs : List Text) → (same_parts ps qs ≡ true) ↔ (ps ≡ qs)
unfolding same_parts
same_parts_iff [] [] = ground arith
same_parts_iff [] (t ∷ qs) = ground arith
same_parts_iff (s ∷ ps) [] = ground arith
same_parts_iff (s ∷ ps) (t ∷ qs) = ground (arith, streq_iff s t, same_parts_iff ps qs)

-- What a path holds: the user's value, the system's value and the lock. A path without a node
-- holds no value and no lock.
abbrev pub Entry : Type 0
Entry = GValue × GValue × Bool

abbrev pub entry_of : Option Node → Entry
entry_of none = (unset, unset, false)
entry_of (some n) = ((prop n).value, (prop n).system_value, (prop n).locked)

unfoldable pub entry_at : List Text → Node → Entry
entry_at ps n = entry_of (descend ps n)

-- Every name is the name of one child only.
abbrev mutual
  pub IsDistinct : Node → Type 0
  IsDistinct (node q cs) = AreDistinct cs

  pub AreDistinct : Nodes → Type 0
  AreDistinct nil = Unit
  AreDistinct (cons c cs) = (find_child (prop c).name cs ≡ none) × IsDistinct c × AreDistinct cs

pub IsComponent-Lacks : (s : Text) → IsComponent s → Lacks b'/' s
IsComponent-Lacks [] h = elim h [ ]
IsComponent-Lacks (c ∷ s) h = h

All-Lacks : (ps : List Text) → All IsComponent ps → All (Lacks b'/') ps
All-Lacks [] h = tt
All-Lacks (s ∷ ps) h = (IsComponent-Lacks s h.0, All-Lacks ps h.1)

IsComponent-joined : (s : Text) (ps : List Text) → IsComponent s → s ++ path ps ≢ []
IsComponent-joined [] ps h = elim h [ ]
IsComponent-joined (c ∷ s) ps h = λ e. ground arith

module _ (p : Platform) (splits : IsSplitter p) where
  -- The parts of a path are its components.
  pub parts_of-path :
      (s : Text) (ps : List Text) → All IsComponent (s ∷ ps) → parts_of p (path (s ∷ ps)) ≡ s ∷ ps
  parts_of-path s ps h =
      splits.strsplit-joined b'/' s ps (IsComponent-Lacks s h.0) (All-Lacks ps h.1)
        (IsComponent-joined s ps h.0)

  -- A look-up by name is a walk along the components of the name.
  pub lookup_node-path :
      (s : Text) (ps : List Text) (n : Node)
      → All IsComponent (s ∷ ps)
      → lookup_node p n (path (s ∷ ps)) ≡ descend (s ∷ ps) n
  unfolding lookup_node
  lookup_node-path s ps n h =
      rw (prop_name_is_valid-path s ps h)
        (rw (parts_of-path s ps h) (lookup_parts-eq-descend s ps n))
