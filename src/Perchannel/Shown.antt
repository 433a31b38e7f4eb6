-- ===== src/Perchannel/Shown.antt =====
-- What the look-ups and the writes of the back end say about the entry of a path.
use mathlib.Core.Path.{subst}
use mathlib.Core.List.{append-nil}
use esconf.Prelude.{Text, ◌≡◌, refl, Option, none, some, List, [], ◌∷◌, All, if◌then◌else◌}
use esconf.Platform.{Platform, IsSplitter}
use esconf.Value.{GValue, unset, is_set}
use esconf.Names.Paths.{path, IsComponent}
use esconf.Tree.{Property, Node, node, prop, modify, lookup_prop}
use esconf.Tree.Walk.{
  descend, Entry, entry_of, entry_at, IsDistinct, same_parts, parts_of-path, lookup_node-path,
}
use esconf.Tree.Modify.{KeepsName}
use esconf.Tree.Local.{IsUpdate, modify-IsUpdate}
use esconf.Tree.Distinct.{modify-IsDistinct, descend-IsDistinct}
use esconf.Tree.Traverse.{value_to_get}
use esconf.Loader.PropertyElem.{edit, edit_prop}
use esconf.Perchannel.Operations.{shown_value}

-- The value that an entry shows.
abbrev pub shown : Entry → GValue
shown e = if is_set e.0 then e.0 else e.1

-- The property of a node that is there.
abbrev pub prop_of : Option Node → Option Property
prop_of none = none
prop_of (some n) = some (prop n)

-- `g` changes a property, and not its name.
abbrev pub KeepsPropName : (Property → Property) → Type 0
KeepsPropName g = (q : Property) → (g q).name ≡ q.name

edit-KeepsName : (g : Property → Property) → KeepsPropName g → KeepsName (edit g)
edit-KeepsName g k (node q cs) = k q

edit-IsUpdate :
    (g : Property → Property) (m : Node)
    → IsUpdate [] ((g (prop m)).value, (g (prop m)).system_value, (g (prop m)).locked) m (edit g m)
unfolding same_parts entry_at descend
edit-IsUpdate g (node q cs) [] = refl
edit-IsUpdate g (node q cs) (s ∷ r) = refl

edit-IsDistinct : (g : Property → Property) (m : Node) → IsDistinct m → IsDistinct (edit g m)
edit-IsDistinct g (node q cs) d = d

module _ (p : Platform) (splits : IsSplitter p) where
  pub lookup_prop-path :
      (s : Text) (ps : List Text) (t : Node)
      → All IsComponent (s ∷ ps)
      → lookup_prop p t (path (s ∷ ps)) ≡ prop_of (descend (s ∷ ps) t)
  unfolding lookup_prop descend
  lookup_prop-path s ps t a =
      rw (lookup_prop, lookup_node-path p splits s ps t a) (go (descend (s ∷ ps) t))
    where
      go :
          (o : Option Node)
          → (elim o as (λ x. Option Property) [ none ↦ none | some n ↦ some (prop n) ]) ≡ prop_of o
      go none = refl
      go (some n) = refl

  pub shown_value-path :
      (s : Text) (ps : List Text) (t : Node)
      → All IsComponent (s ∷ ps)
      → shown_value p t (path (s ∷ ps)) ≡ shown (entry_at (s ∷ ps) t)
  unfolding shown_value entry_at
  shown_value-path s ps t a = rw (lookup_prop-path s ps t a, shown_value) (go (descend (s ∷ ps) t))
    where
      go :
          (o : Option Node)
          → (elim (prop_of o) as (λ x. GValue) [ none ↦ unset | some q ↦ value_to_get q ])
            ≡ shown (entry_of o)
      go none = refl
      go (some n) = refl

  -- A write through the pointer that a look-up gives.
  pub edit_prop-IsUpdate :
      (s : Text) (ps : List Text) (g : Property → Property) (t m : Node)
      → All IsComponent (s ∷ ps)
      → KeepsPropName g
      → descend (s ∷ ps) t ≡ some m
      → IsUpdate
          (s ∷ ps)
          ((g (prop m)).value, (g (prop m)).system_value, (g (prop m)).locked)
          t
          (edit_prop p (path (s ∷ ps)) g t)
        × (IsDistinct t → IsDistinct (edit_prop p (path (s ∷ ps)) g t))
  unfolding edit_prop
  edit_prop-IsUpdate s ps g t m a k at = rw (parts_of-path p splits s ps a) (
    subst
        (λ qs.
          IsUpdate qs ((g (prop m)).value, (g (prop m)).system_value, (g (prop m)).locked) t
            (modify (s ∷ ps) (edit g) t))
        (append-nil (s ∷ ps))
        (modify-IsUpdate (s ∷ ps) [] _ (edit g) t m (edit-KeepsName g k) at (edit-IsUpdate g m)),
    λ d.
        modify-IsDistinct (s ∷ ps) (edit g) t m (edit-KeepsName g k) at d
          (edit-IsDistinct g m (descend-IsDistinct (s ∷ ps) t m at d)),
  )
