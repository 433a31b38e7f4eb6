-- ===== src/Tree/Reset.antt =====
-- `esconf_proptree_reset`, seen at the paths of the tree.
use mathlib.Core.Path.{subst}
use mathlib.Core.List.{reverse, tail, append-nil}
use esconf.Prelude.{
  Text, ◌≡◌, ◌≢◌, refl, sym, ◌∙◌, true, false, not, ◌||◌, Option, none, some, List, [], ◌∷◌, ◌++◌,
  All, arith, if◌then◌else◌, Bool-cases, Option-cases, inl, inr,
}
use esconf.Platform.{Platform, IsSplitter}
use esconf.Value.{GValue, unset, is_set}
use esconf.Names.Paths.{path, IsComponent}
use esconf.Tree.{
  Property, Node, node, nil, cons, prop, no_children, modify, unset_value, unlink_node,
  prune_parents, proptree_reset,
}
use esconf.Tree.Walk.{
  descend, same_parts, Entry, entry_of, entry_at, IsDistinct, parts_of-path, lookup_node-path,
}
use esconf.Tree.Modify.{KeepsName}
use esconf.Tree.Local.{IsUpdate, modify-IsUpdate}
use esconf.Tree.Distinct.{modify-IsDistinct, descend-IsDistinct}
use esconf.Tree.Unlink.{Values, values_at, unlink_node-IsUpdate, prune_parents-HasSameValues}
use esconf.Tree.Add.{from_end}

-- `t'` holds the values `w` at `ps`, and the values that `t` holds elsewhere.
abbrev pub IsValueUpdate : List Text → Values → Node → Node → Type 0
IsValueUpdate ps w t t' =
    (r : List Text) → values_at r t' ≡ (if same_parts ps r then w else values_at r t)

-- An update is one of the values.
pub IsUpdate-values :
    (ps : List Text) (e : Entry) (t t' : Node)
    → IsUpdate ps e t t'
    → IsValueUpdate ps (e.0, e.1) t t'
unfolding values_at
IsUpdate-values ps e t t' up r = ground (arith, up r)

unset_value-KeepsName : KeepsName unset_value
unset_value-KeepsName (node q cs) = refl

unset_value-IsUpdate :
    (m : Node) → IsUpdate [] (unset, (prop m).system_value, (prop m).locked) m (unset_value m)
unfolding same_parts entry_at descend
unset_value-IsUpdate (node q cs) [] = refl
unset_value-IsUpdate (node q cs) (s ∷ r) = refl

unset_value-IsDistinct : (m : Node) → IsDistinct m → IsDistinct (unset_value m)
unset_value-IsDistinct (node q cs) d = d

-- What a reset of the value at `ps` must do.
pub record IsReset (ps : List Text) (sys : GValue) (t t' : Node) : Type 0 where
  pub update : IsValueUpdate ps (unset, sys) t t'
  pub distinct : IsDistinct t'

-- The value is blanked out.
blank-IsReset :
    (ps : List Text) (t m : Node)
    → IsDistinct t
    → descend ps t ≡ some m
    → IsReset ps (prop m).system_value t (modify ps unset_value t)
blank-IsReset ps t m d at = record {
  update =
      IsUpdate-values ps (unset, (prop m).system_value, (prop m).locked) t _
        (subst
          (λ qs.
            IsUpdate qs (unset, (prop m).system_value, (prop m).locked) t (modify ps unset_value t))
          (append-nil ps)
          (modify-IsUpdate ps [] _ unset_value t m unset_value-KeepsName at
            (unset_value-IsUpdate m)));
  distinct =
      modify-IsDistinct ps unset_value t m unset_value-KeepsName at d
        (unset_value-IsDistinct m (descend-IsDistinct ps t m at d));
}

-- The node is unlinked, and its parents are pruned.
unlink-IsReset :
    (rs qs : List Text) (s : Text) (t : Node) {q : Property}
    → IsDistinct t
    → descend (qs ++ s ∷ []) t ≡ some (node q nil)
    → IsReset (qs ++ s ∷ []) unset t (prune_parents rs (unlink_node (qs ++ s ∷ []) t))
unlink-IsReset rs qs s t d at =
    let cut = unlink_node-IsUpdate qs s t d at in
    let pruned = prune_parents-HasSameValues rs (unlink_node (qs ++ s ∷ []) t) cut.1 in
    record {
      update = λ r. pruned.0 r ∙ IsUpdate-values (qs ++ s ∷ []) (entry_of none) t _ cut.0 r;
      distinct = pruned.1;
    }

-- What the code does with the node that it has found.
abbrev reset_found : List Text → Node → Node → Option Node
reset_found ps t n =
    if is_set (prop n).value
    then (if not (no_children n) || is_set (prop n).system_value
        then some (modify ps unset_value t)
        else some (prune_parents (tail (reverse ps)) (unlink_node ps t)))
    else none

module _ (p : Platform) (splits : IsSplitter p) where
  proptree_reset-path :
      (s : Text) (ps : List Text) (t n : Node)
      → All IsComponent (s ∷ ps)
      → descend (s ∷ ps) t ≡ some n
      → proptree_reset p t (path (s ∷ ps)) ≡ reset_found (s ∷ ps) t n
  proptree_reset-path s ps t n a at =
      unfold proptree_reset in
      rw (lookup_node-path p splits s ps t a ∙ at, proptree_reset)
        (rw (parts_of-path p splits s ps a))

  proptree_reset-none :
      (s : Text) (ps : List Text) (t : Node)
      → All IsComponent (s ∷ ps)
      → descend (s ∷ ps) t ≡ none
      → proptree_reset p t (path (s ∷ ps)) ≡ none
  proptree_reset-none s ps t a at =
      unfold proptree_reset in rw (lookup_node-path p splits s ps t a ∙ at, proptree_reset)

-- The outcome of a reset: FALSE where the user has set no value, and else TRUE and a tree in which
-- only the system's value is left at the path.
abbrev pub IsOutcome : List Text → Node → Option Node → Type 0
IsOutcome ps t none = is_set (values_at ps t).0 ≡ false
IsOutcome ps t (some t') = (is_set (values_at ps t).0 ≡ true) × IsReset ps (values_at ps t).1 t t'

values_at-some :
    (ps : List Text) (t n : Node)
    → descend ps t ≡ some n
    → values_at ps t ≡ ((prop n).value, (prop n).system_value)
unfolding values_at entry_at
values_at-some ps t n e = rw e

-- A path that is not the root's has a last component.
snoc-view : (ps : List Text) → ps ≢ [] → (rs : List Text) × (k : Text) × (ps ≡ reverse rs ++ k ∷ [])
snoc-view [] ne = absurd (ne refl)
snoc-view (s ∷ ps) ne = let (rs, k, e, h) = from_end s ps in (rs, k, e)

reset_found-IsOutcome :
    (ps : List Text) (t n : Node)
    → IsDistinct t
    → ps ≢ []
    → descend ps t ≡ some n
    → IsOutcome ps t (reset_found ps t n)
reset_found-IsOutcome ps t n d ne at = elim (Bool-cases (is_set (prop n).value)) [
  | inl user ↦ rw user (elim (Bool-cases (not (no_children n) || is_set (prop n).system_value)) [
    | inl keep ↦ rw (keep, values_at-some ps t n at) (user, blank-IsReset ps t n d at)
    | inr drop ↦ rw (drop, values_at-some ps t n at) (user, dropped n at drop (snoc-view ps ne))
  ])
  | inr none_set ↦ rw (none_set, values_at-some ps t n at) none_set
]
  where
    dropped :
        (m : Node)
        → descend ps t ≡ some m
        → (not (no_children m) || is_set (prop m).system_value) ≡ false
        → (rs : List Text) × (k : Text) × (ps ≡ reverse rs ++ k ∷ [])
        → IsReset ps (prop m).system_value t (prune_parents (tail (reverse ps)) (unlink_node ps t))
    dropped (node q (cons c cs)) x y view = cc
    dropped (node q nil) x y (rs, k, e) =
        let sys : q.system_value ≡ unset = ground arith in
        rw sys (
          subst (λ qs. IsReset qs unset t (prune_parents (tail (reverse ps)) (unlink_node qs t)))
            (sym e)
            (unlink-IsReset (tail (reverse ps)) (reverse rs) k t d
              (subst (λ qs. descend qs t ≡ some (node q nil)) e x)))

module _ (p : Platform) (splits : IsSplitter p) where
  -- In a tree with distinct names, `esconf_proptree_reset` of a path of components fails exactly if
  -- the user has set no value there. Otherwise it leaves the system's value alone at the path, the
  -- values of every other path as they were, whatever parents it unlinks, and distinct names.
  pub proptree_reset-IsOutcome :
      (s : Text) (ps : List Text) (t : Node)
      → All IsComponent (s ∷ ps)
      → IsDistinct t
      → IsOutcome (s ∷ ps) t (proptree_reset p t (path (s ∷ ps)))
  proptree_reset-IsOutcome s ps t a d = elim (Option-cases (descend (s ∷ ps) t)) [
    | inl missing ↦
        rw (proptree_reset-none p splits s ps t a missing) (unfold values_at entry_at in rw missing)
    | inr (n, at) ↦
        rw (proptree_reset-path p splits s ps t n a at)
          (reset_found-IsOutcome (s ∷ ps) t n d (λ e. ground arith) at)
  ]
