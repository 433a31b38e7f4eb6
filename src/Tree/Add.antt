-- ===== src/Tree/Add.antt =====
-- `esconf_proptree_add_property`, seen at the paths of the tree.
use mathlib.Core.Path.{subst}
use mathlib.Core.List.{reverse, reverse-cons, reverse-append}
use esconf.Prelude.{
  Text, length, length-append, ℕ, zero, suc, ◌≤◌, ◌<◌, ◌≡◌, refl, ap, sym, ◌∙◌, Bool, true, false,
  not, is_some, none, List, [], ◌∷◌, ◌++◌, All, arith, if◌then◌else◌, Bool-cases, Option-cases, inl,
  inr,
}
use esconf.Platform.{Platform, IsSplitter}
use esconf.Value.{GValue, unset}
use esconf.Names.{prop_name_is_valid}
use esconf.Names.Paths.{path, IsComponent}
use esconf.Tree.{
  Property, Node, node, nil, find_child, modify, append_node, new_property, last_part, parent_name,
  append_below, is_missing, lookup_node, add_fuel, add_property,
}
use esconf.Tree.Walk.{
  descend, same_parts, same_parts_iff, entry_at, IsDistinct, parts_of-path, lookup_node-path,
}
use esconf.Tree.Local.{IsUpdate}
use esconf.Tree.Added.{
  IsAdded, All-append_inv, prop_name_is_valid-append, length-path-append, append_node-IsAdded,
  parent_name-path, last_part-path, find_child-missing, entry_at-none,
}

module _ (p : Platform) (splits : IsSplitter p) where
  append_below-path :
      (qs : List Text) (new : Property) (t : Node)
      → All IsComponent qs
      → append_below p (path qs) new t ≡ modify qs (append_node new) t
  unfolding append_below
  append_below-path [] new t h = unfold modify in refl
  append_below-path (q ∷ qs) new t h = rw (parts_of-path p splits q qs h)

  is_missing-path :
      (qs : List Text) (t : Node)
      → All IsComponent qs
      → is_missing p t (path qs) ≡ not (is_some (descend qs t))
  unfolding is_missing
  is_missing-path [] t h = unfold descend in refl
  is_missing-path (q ∷ qs) t h = rw (lookup_node-path p splits q qs t h)

  -- One call, once the names are taken apart.
  pub add_fuel-path :
      (f : ℕ) (qs : List Text) (s : Text) (t : Node) (v : GValue) (l : Bool)
      → All IsComponent qs
      → IsComponent s
      → length (path (qs ++ s ∷ [])) ≤ 4095
      → add_fuel p (suc f) t (path (qs ++ s ∷ [])) v l
        ≡ modify qs
            (append_node (new_property s v l))
            (if not (is_some (descend qs t)) then add_fuel p f t (path qs) unset false else t)
  add_fuel-path f qs s t v l a c short =
      step _ _ _ (parent_name-path qs s c short) (last_part-path qs s c)
        (prop_name_is_valid-append qs s a c)
      ∙ append_below-path qs _ _ a
      ∙ rw (is_missing-path qs t a)
    where
      step :
          (name parent last : Text)
          → parent_name name ≡ parent
          → last_part name ≡ last
          → prop_name_is_valid name ≡ true
          → add_fuel p (suc f) t name v l
            ≡ append_below p parent
                (new_property last v l)
                (if is_missing p t parent then add_fuel p f t parent unset false else t)
      step name parent last e1 e2 e3 = unfold add_fuel in rw (e3, e1, e2)

  -- Below a parent that was itself just added: the parent holds nothing, as it did before.
  IsAdded-below :
      (qs : List Text) (s s' : Text) (v : GValue) (l : Bool) (t t1 : Node)
      → descend qs t ≡ none
      → IsAdded qs (new_property s' unset false) t t1
      → IsAdded
          (qs ++ s ∷ [])
          (new_property s v l)
          t
          (modify qs (append_node (new_property s v l)) t1)
  IsAdded-below qs s s' v l t t1 missing below =
      let new = new_property s v l in
      let up =
        append_node-IsAdded qs new t1 (node (new_property s' unset false) nil) below.there
          (unfold find_child in refl) in
      record {
        update = λ r.
            up.update r
            ∙ ap (λ x. if same_parts (qs ++ s ∷ []) r then (v, unset, l) else x) (same_below r);
        there = up.there;
        distinct = λ d. up.distinct (below.distinct d);
      }
    where
      same_below : (r : List Text) → entry_at r t1 ≡ entry_at r t
      same_below r = elim (Bool-cases (same_parts qs r)) [
        | inl same ↦
            below.update r
            ∙ rw same (sym (rw (← (same_parts_iff qs r).0 same) (entry_at-none qs t missing)))
        | inr other ↦ below.update r ∙ rw other
      ]

  -- One call, with what its nested call does if the parent is missing.
  add_fuel-step :
      (f : ℕ) (qs : List Text) (s : Text) (t : Node) (v : GValue) (l : Bool)
      → All IsComponent qs
      → IsComponent s
      → length (path (qs ++ s ∷ [])) ≤ 4095
      → descend (qs ++ s ∷ []) t ≡ none
      → (descend qs t ≡ none
          → (s' : Text) × IsAdded qs
              (new_property s' unset false)
              t
              (add_fuel p f t (path qs) unset false))
      → IsAdded
          (qs ++ s ∷ [])
          (new_property s v l)
          t
          (add_fuel p (suc f) t (path (qs ++ s ∷ [])) v l)
  add_fuel-step f qs s t v l a c short missing nested =
      rw (add_fuel-path f qs s t v l a c short) (elim (Option-cases (descend qs t)) [
        | inl none_there ↦
            rw none_there (
              let (s', below) = nested none_there in IsAdded-below qs s s' v l t _ none_there below)
        | inr (m, there) ↦ rw there (
            append_node-IsAdded qs (new_property s v l) t m there
              (find_child-missing qs s t m there missing))
      ])

  -- The calls nest once for each component whose node is missing, so a fuel above the number of
  -- components is enough.
  add_fuel-IsAdded :
      (f : ℕ) (rs : List Text) (s : Text) (t : Node) (v : GValue) (l : Bool)
      → length rs < f
      → All IsComponent (reverse rs)
      → IsComponent s
      → length (path (reverse rs ++ s ∷ [])) ≤ 4095
      → descend (reverse rs ++ s ∷ []) t ≡ none
      → IsAdded
          (reverse rs ++ s ∷ [])
          (new_property s v l)
          t
          (add_fuel p f t (path (reverse rs ++ s ∷ [])) v l)
  add_fuel-IsAdded zero rs s t v l h a c short missing = absurd (omega arith)
  add_fuel-IsAdded (suc f) [] s t v l h a c short missing =
      add_fuel-step f [] s t v l a c short missing (λ e. absurd (unfold descend in ground arith))
  add_fuel-IsAdded (suc f) (s' ∷ rs) s t v l h a c short missing =
      add_fuel-step f (reverse (s' ∷ rs)) s t v l a c short missing λ e. (
        s',
        subst
            (λ qs.
              IsAdded qs (new_property s' unset false) t (add_fuel p f t (path qs) unset false))
            (sym x)
            (add_fuel-IsAdded f rs s' t unset false (omega arith) parents.0 parents.1
              (rw (← x) (omega (arith, length-path-append (reverse (s' ∷ rs)) s)))
              (subst (λ qs. descend qs t ≡ none) x e)),
      )
    where
      x : reverse (s' ∷ rs) ≡ reverse rs ++ s' ∷ []
      x = reverse-cons s' rs

      parents : All IsComponent (reverse rs) × IsComponent s'
      parents = All-append_inv (reverse rs) s' (subst (All IsComponent) x a)

-- A list that is not empty, from its end.
pub from_end :
    (s : Text) (ps : List Text)
    → (rs : List Text) × (l : Text) × (s ∷ ps ≡ reverse rs ++ l ∷ []) × (length rs ≤ length ps)
from_end s [] = ([], s, refl, omega arith)
from_end s (t ∷ ps) =
    let (rs, l, e, h) = from_end t ps in
    (
      rs ++ s ∷ [],
      l,
      rw reverse-append (ap (λ qs. s ∷ qs) e),
      omega (arith, length-append rs (s ∷ [])),
    )

length-path : (ps : List Text) → length ps ≤ length (path ps)
length-path [] = omega arith
length-path (s ∷ ps) = omega (arith, length-path ps, length-append s (path ps))

module _ (p : Platform) (splits : IsSplitter p) where
  -- For a path of components that fits the buffer and has no node yet: `esconf_proptree_add_property`
  -- gives the path the value and the lock, with no system value, creates its node, and changes what
  -- no other path holds, though it may add the missing parents. Distinct names stay distinct.
  pub add_property-IsAdded :
      (s : Text) (ps : List Text) (t : Node) (v : GValue) (l : Bool)
      → All IsComponent (s ∷ ps)
      → length (path (s ∷ ps)) ≤ 4095
      → lookup_node p t (path (s ∷ ps)) ≡ none
      → IsUpdate (s ∷ ps) (v, unset, l) t (add_property p t (path (s ∷ ps)) v l)
        × (is_some (lookup_node p (add_property p t (path (s ∷ ps)) v l) (path (s ∷ ps))) ≡ true)
        × (IsDistinct t → IsDistinct (add_property p t (path (s ∷ ps)) v l))
  add_property-IsAdded s ps t v l a short missing =
      let (rs, k, e, h) = from_end s ps in
      let added : IsAdded (s ∷ ps) (new_property k v l) t (add_property p t (path (s ∷ ps)) v l) =
        at_path rs k e (omega (arith, length-path (s ∷ ps))) in
      (added.update, rw (lookup_node-path p splits s ps _ a, added.there), added.distinct)
    where
      gone : descend (s ∷ ps) t ≡ none
      gone = sym (lookup_node-path p splits s ps t a) ∙ missing

      at_path :
          (rs : List Text) (k : Text)
          → s ∷ ps ≡ reverse rs ++ k ∷ []
          → length rs < suc (length (path (s ∷ ps)))
          → IsAdded (s ∷ ps) (new_property k v l) t (add_property p t (path (s ∷ ps)) v l)
      at_path rs k e h =
          unfold add_property in
          subst
            (λ qs.
              IsAdded qs (new_property k v l) t
                (add_fuel p (suc (length (path (s ∷ ps)))) t (path qs) v l))
            (sym e)
            (add_fuel-IsAdded p splits (suc (length (path (s ∷ ps)))) rs k t v l h
              (All-append_inv (reverse rs) k (subst (All IsComponent) e a)).0
              (All-append_inv (reverse rs) k (subst (All IsComponent) e a)).1
              (subst (λ qs. length (path qs) ≤ 4095) e short)
              (subst (λ qs. descend qs t ≡ none) e gone))
