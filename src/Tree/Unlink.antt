-- ===== src/Tree/Unlink.antt =====
-- Unlinking a node without children, and the loop of `esconf_proptree_reset` over the parents.
use mathlib.Core.Path.{fun_ext}
use mathlib.Core.List.{reverse}
use esconf.Prelude.{
  Text, ◌≡◌, refl, ap, sym, ◌∙◌, true, Option, none, some, ◌>>=◌, List, [], ◌∷◌, ◌++◌, arith,
  if◌then◌else◌, Bool-cases, inl, inr,
}
use esconf.Value.{GValue, unset}
use esconf.Tree.{
  Property, Node, node, nil, cons, children, find_child, lookup_parts, modify_child, modify,
  unlink_node, is_bare, prune_parents,
}
use esconf.Tree.Walk.{
  descend, descend-append, lookup_parts-eq-descend, same_parts, same_parts_iff, entry_of, entry_at,
  IsDistinct,
}
use esconf.Tree.Modify.{KeepsName}
use esconf.Tree.Local.{IsUpdate, modify-IsUpdate, unlink_at, unlink_at-IsUpdate}
use esconf.Tree.Distinct.{modify-IsDistinct, descend-IsDistinct, unlink_at-IsDistinct}

unlink_node-append :
    (qs : List Text) (s : Text) (n : Node)
    → unlink_node (qs ++ s ∷ []) n ≡ modify qs (unlink_at s) n
unfolding unlink_node modify
unlink_node-append [] s (node q cs) = refl
unlink_node-append (t ∷ []) s (node q cs) =
    ap (λ (h : Node → Node). node q (modify_child t h cs)) (fun_ext (unlink_node-append [] s))
unlink_node-append (t ∷ u ∷ qs) s (node q cs) =
    ap (λ (h : Node → Node). node q (modify_child t h cs)) (fun_ext (unlink_node-append (u ∷ qs) s))

unlink_at-KeepsName : (s : Text) → KeepsName (unlink_at s)
unlink_at-KeepsName s (node q cs) = refl

-- The parent of a node that is there is there, and has it for a child.
descend-parent :
    (qs : List Text) (s : Text) (t : Node) {n : Node}
    → descend (qs ++ s ∷ []) t ≡ some n
    → (m : Node) × (descend qs t ≡ some m) × (find_child s (children m) ≡ some n)
descend-parent qs s t {n} h = split (descend qs t) refl
  where
    x : (descend qs t >>= descend (s ∷ [])) ≡ some n
    x = sym (descend-append qs (s ∷ []) t) ∙ h

    split :
        (o : Option Node)
        → descend qs t ≡ o
        → (m : Node) × (descend qs t ≡ some m) × (find_child s (children m) ≡ some n)
    split none e = absurd (unfold descend in ground (arith, x, e))
    split (some m) e = (m, e, unfold descend in ground (arith, x, e))

pub unlink_node-IsUpdate :
    (qs : List Text) (s : Text) (t : Node) {q : Property}
    → IsDistinct t
    → descend (qs ++ s ∷ []) t ≡ some (node q nil)
    → IsUpdate (qs ++ s ∷ []) (entry_of none) t (unlink_node (qs ++ s ∷ []) t)
      × IsDistinct (unlink_node (qs ++ s ∷ []) t)
unlink_node-IsUpdate qs s t d h =
    let (m, at, child) = descend-parent qs s t h in
    let dm = descend-IsDistinct qs t m at d in
    rw unlink_node-append (
      modify-IsUpdate qs (s ∷ []) (entry_of none) (unlink_at s) t m (unlink_at-KeepsName s) at
          (unlink_at-IsUpdate s m dm child),
      modify-IsDistinct qs (unlink_at s) t m (unlink_at-KeepsName s) at d
          (unlink_at-IsDistinct s m dm),
    )

-- The two values that a path holds.
abbrev pub Values : Type 0
Values = GValue × GValue

unfoldable pub values_at : List Text → Node → Values
values_at r n = let e = entry_at r n in (e.0, e.1)

-- `t'` holds the values that `t` holds, at every path.
abbrev pub HasSameValues : Node → Node → Type 0
HasSameValues t t' = (r : List Text) → values_at r t' ≡ values_at r t

is_bare-leaf :
    (n : Node)
    → is_bare n ≡ true
    → (q : Property) × (n ≡ node q nil) × (q.value ≡ unset) × (q.system_value ≡ unset)
is_bare-leaf (node q nil) h = (q, refl, ground arith, ground arith)
is_bare-leaf (node q (cons c cs)) h = ground arith

unlink_bare :
    (qs : List Text) (s : Text) (t n : Node)
    → IsDistinct t
    → descend (qs ++ s ∷ []) t ≡ some n
    → is_bare n ≡ true
    → HasSameValues t (unlink_node (qs ++ s ∷ []) t) × IsDistinct (unlink_node (qs ++ s ∷ []) t)
unlink_bare qs s t n d h bare =
    let (q, e, v, w) = is_bare-leaf n bare in
    let leaf : descend (qs ++ s ∷ []) t ≡ some (node q nil) = h ∙ ap some e in
    let up = unlink_node-IsUpdate qs s t d leaf in (λ r. same_values q v w leaf r (up.0 r), up.1)
  where
    same_values :
        (q : Property)
        → q.value ≡ unset
        → q.system_value ≡ unset
        → descend (qs ++ s ∷ []) t ≡ some (node q nil)
        → (r : List Text)
        → entry_at r (unlink_node (qs ++ s ∷ []) t)
          ≡ (if same_parts (qs ++ s ∷ []) r then entry_of none else entry_at r t)
        → values_at r (unlink_node (qs ++ s ∷ []) t) ≡ values_at r t
    same_values q v w leaf r x = elim (Bool-cases (same_parts (qs ++ s ∷ []) r)) [
      | inl same ↦
          let y : entry_at r t ≡ (q.value, q.system_value, q.locked) =
            rw (← (same_parts_iff _ r).0 same) (unfold entry_at in rw leaf) in
          unfold values_at in ground (arith, x, same, y, v, w)
      | inr other ↦ unfold values_at in ground (arith, x, other)
    ]

lookup_parts-append :
    (qs : List Text) (s : Text) (t : Node)
    → lookup_parts (qs ++ s ∷ []) t ≡ descend (qs ++ s ∷ []) t
lookup_parts-append [] s t = lookup_parts-eq-descend s [] t
lookup_parts-append (q ∷ qs) s t = lookup_parts-eq-descend q (qs ++ s ∷ []) t

-- One round of the loop, from the node that its walk finds.
abbrev round : List Text → Text → Node → Option Node → Node
round rs s t none = t
round rs s t (some n) =
    if is_bare n then prune_parents rs (unlink_node (reverse rs ++ s ∷ []) t) else t

prune_parents-cons :
    (rs : List Text) (s : Text) (t : Node)
    → prune_parents (s ∷ rs) t ≡ round rs s t (descend (reverse rs ++ s ∷ []) t)
unfolding prune_parents
prune_parents-cons rs s t =
    rw (← lookup_parts-append (reverse rs) s t) (go (lookup_parts (reverse rs ++ s ∷ []) t))
  where
    go :
        (o : Option Node)
        → elim o [
          | none ↦ t
          | some n ↦
              if is_bare n then prune_parents rs (unlink_node (reverse rs ++ s ∷ []) t) else t
        ]
          ≡ round rs s t o
    go none = refl
    go (some n) = refl

-- The loop over the parents unlinks nodes that hold no value and have no children, and stops at
-- the first other one: no path's values change, and distinct names stay distinct.
pub prune_parents-HasSameValues :
    (rs : List Text) (t : Node)
    → IsDistinct t
    → HasSameValues t (prune_parents rs t) × IsDistinct (prune_parents rs t)
prune_parents-HasSameValues [] t d = unfold prune_parents in (λ r. refl, d)
prune_parents-HasSameValues (s ∷ rs) t d =
    rw prune_parents-cons
      (go (descend (reverse rs ++ s ∷ []) t) refl (λ t'. prune_parents-HasSameValues rs t'))
  where
    go :
        (o : Option Node)
        → descend (reverse rs ++ s ∷ []) t ≡ o
        → ((t' : Node)
            → IsDistinct t'
            → HasSameValues t' (prune_parents rs t') × IsDistinct (prune_parents rs t'))
        → HasSameValues t (round rs s t o) × IsDistinct (round rs s t o)
    go none e ih = (λ r. refl, d)
    go (some n) e ih = elim (Bool-cases (is_bare n)) [
      | inl bare ↦
          let cut = unlink_bare (reverse rs) s t n d e bare in
          let rest = ih (unlink_node (reverse rs ++ s ∷ []) t) cut.1 in
          rw bare (λ r. rest.0 r ∙ cut.0 r, rest.1)
      | inr other ↦ rw other (λ r. refl, d)
    ]
