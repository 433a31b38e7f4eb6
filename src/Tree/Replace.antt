-- ===== src/Tree/Replace.antt =====
-- A subtree in place of another one, and a subtree that is taken out whole.
use mathlib.Core.Path.{subst, fun_ext}
use mathlib.Core.List.{append-nil}
use esconf.Prelude.{
  Text, streq, ◌≡◌, refl, ap, ◌∙◌, Bool, false, is_some, Option, none, some, ◌>>=◌, List, [], ◌∷◌,
  ◌++◌, arith, if◌then◌else◌, Bool-cases, inl, inr,
}
use esconf.Tree.{
  Node, node, Nodes, nil, cons, prop, children, find_child, modify_child, modify, unlink_child,
  unlink_node,
}
use esconf.Tree.Walk.{descend, same_parts, Entry, entry_of, entry_at, IsDistinct}
use esconf.Tree.Modify.{KeepsName, modify-KeepsName, strip, entry_at-modify}
use esconf.Tree.Local.{same_parts-strip}
use esconf.Tree.Distinct.{descend-modify, modify-IsDistinct}
use esconf.Tree.Unlink.{unlink_node-IsUpdate}

-- Is `r` a path to or below the node at `ps`?
abbrev pub is_below : List Text → List Text → Bool
is_below ps r = is_some (strip ps r)

modify_child-cong :
    (s : Text) (ps : List Text) (g h : Node → Node) (cs : Nodes) {m : Node}
    → ((n : Node) → descend ps n ≡ some m → modify ps g n ≡ modify ps h n)
    → (find_child s cs >>= descend ps) ≡ some m
    → modify_child s (modify ps g) cs ≡ modify_child s (modify ps h) cs
unfolding find_child modify_child
modify_child-cong s ps g h nil ih e = refl
modify_child-cong s ps g h (cons c cs) {m} ih e = elim (Bool-cases (streq (prop c).name s)) [
  | inl x ↦ rw x (ap (λ n. cons n cs) (ih c (ground (arith, e, x))))
  | inr x ↦ rw x (ap (cons c) (modify_child-cong s ps g h cs ih (ground (arith, e, x))))
]

-- Writes that agree on the node at a path give one tree.
modify-cong :
    (ps : List Text) (g h : Node → Node) (t : Node) {m : Node}
    → g m ≡ h m
    → descend ps t ≡ some m
    → modify ps g t ≡ modify ps h t
unfolding modify
modify-cong [] g h t {m} same e = let x : t ≡ m = unfold descend in ground (arith, e) in rw x same
modify-cong (s ∷ ps) g h (node q cs) {m} same e =
    ap (node q)
      (modify_child-cong s ps g h cs (λ n. modify-cong ps g h n same) (unfold descend in e))

-- A name is put back, so that a write keeps it.
abbrev put : Node → Node → Node
put n m = node (record ((prop n)) { name = (prop m).name }) (children n)

put-KeepsName : (n : Node) → KeepsName (put n)
put-KeepsName n (node q cs) = refl

put_self : (n m : Node) → (prop n).name ≡ (prop m).name → put n m ≡ n
put_self (node q cs) m e = rw (← e)

-- A subtree of the same name in place of the one at a path.
pub modify-replaced :
    (ps r : List Text) (t m n : Node)
    → descend ps t ≡ some m
    → (prop n).name ≡ (prop m).name
    → entry_at r (modify ps (λ x. n) t)
      ≡ elim (strip ps r) [ none ↦ entry_at r t | some qs ↦ entry_at qs n ]
modify-replaced ps r t m n at name =
    rw (← modify-cong ps (put n) (λ x. n) t (put_self n m name) at)
      (entry_at-modify ps r (put n) t (put-KeepsName n) ∙ go (strip ps r))
  where
    go :
        (o : Option (List Text))
        → (elim o as (λ x. Entry) [
          | none ↦ entry_at r t
          | some qs ↦ entry_of (descend ps t >>= λ m. descend qs (put n m))
        ])
          ≡ (elim o as (λ x. Entry) [ none ↦ entry_at r t | some qs ↦ entry_at qs n ])
    go none = refl
    go (some qs) = rw (at, put_self n m name) (unfold entry_at in refl)

abbrev leaf : Node → Node
leaf m = node (prop m) nil

leaf-KeepsName : KeepsName leaf
leaf-KeepsName (node q cs) = refl

unlink_child-leaf :
    (s : Text) (cs : Nodes) → unlink_child s (modify_child s leaf cs) ≡ unlink_child s cs
unfolding unlink_child modify_child
unlink_child-leaf s nil = refl
unlink_child-leaf s (cons c cs) = elim (Bool-cases (streq (prop c).name s)) [
  | inl x ↦ rw (x, x) refl
  | inr x ↦ rw (x, x) (ap (cons c) (unlink_child-leaf s cs))
]

modify_child-twice :
    (s : Text) (g h : Node → Node) (cs : Nodes)
    → KeepsName h
    → modify_child s g (modify_child s h cs) ≡ modify_child s (λ n. g (h n)) cs
unfolding modify_child
modify_child-twice s g h nil k = refl
modify_child-twice s g h (cons c cs) k = elim (Bool-cases (streq (prop c).name s)) [
  | inl x ↦ rw x (rw (k c, x) refl)
  | inr x ↦ rw x (rw x (ap (cons c) (modify_child-twice s g h cs k)))
]

unlink_node-leaf :
    (s : Text) (ps : List Text) (t : Node)
    → unlink_node (s ∷ ps) (modify (s ∷ ps) leaf t) ≡ unlink_node (s ∷ ps) t
unfolding unlink_node modify
unlink_node-leaf s [] (node q cs) = ap (node q) (
    ap (λ (h : Node → Node). unlink_child s (modify_child s h cs)) (fun_ext (λ n. refl))
    ∙ unlink_child-leaf s cs)
unlink_node-leaf s (u ∷ ps) (node q cs) = ap (node q) (
    modify_child-twice s (unlink_node (u ∷ ps)) (modify (u ∷ ps) leaf) cs
      (modify-KeepsName (u ∷ ps) leaf leaf-KeepsName)
    ∙ ap (λ (h : Node → Node). modify_child s h cs) (fun_ext (unlink_node-leaf u ps)))

unlink_node-leaf_at :
    (qs : List Text) (s : Text) (t : Node)
    → unlink_node (qs ++ s ∷ []) (modify (qs ++ s ∷ []) leaf t) ≡ unlink_node (qs ++ s ∷ []) t
unlink_node-leaf_at [] s t = unlink_node-leaf s [] t
unlink_node-leaf_at (q ∷ qs) s t = unlink_node-leaf q (qs ++ s ∷ []) t

leaf-IsDistinct : (m : Node) → IsDistinct (leaf m)
leaf-IsDistinct (node q cs) = tt

-- What a leaf in place of a subtree, and then nothing in place of the leaf, leave at a path.
leaf_entry :
    (ps r : List Text) (t m : Node)
    → descend ps t ≡ some m
    → Path Entry
        (if same_parts ps r then entry_of none else entry_at r (modify ps leaf t))
        (if is_below ps r then entry_of none else entry_at r t)
leaf_entry ps r t m at = rw (entry_at-modify ps r leaf t leaf-KeepsName, same) (go (strip ps r))
  where
    same : same_parts ps r ≡ elim (strip ps r) [ none ↦ false | some r' ↦ same_parts [] r' ]
    same =
        subst
          (λ qs. same_parts qs r ≡ elim (strip ps r) [ none ↦ false | some r' ↦ same_parts [] r' ])
          (append-nil ps) (same_parts-strip ps [] r)

    go :
        (o : Option (List Text))
        → (if (elim o as (λ x. Bool) [ none ↦ false | some r' ↦ same_parts [] r' ])
            then entry_of none
            else (elim o as (λ x. Entry) [
              | none ↦ entry_at r t
              | some qs ↦ entry_of (descend ps t >>= λ m. descend qs (leaf m))
            ]))
          ≡ (if is_some o then entry_of none else entry_at r t)
    go none = refl
    go (some []) = unfold same_parts in refl
    go (some (u ∷ qs)) = rw at (unfold same_parts descend find_child in refl)

-- A subtree that is unlinked whole: nothing is left at or below its path, and all else is as it was.
pub unlink_node-whole :
    (qs : List Text) (s : Text) (r : List Text) (t m : Node)
    → IsDistinct t
    → descend (qs ++ s ∷ []) t ≡ some m
    → entry_at r (unlink_node (qs ++ s ∷ []) t)
      ≡ (if is_below (qs ++ s ∷ []) r then entry_of none else entry_at r t)
unlink_node-whole qs s r t m d at = rw (← unlink_node-leaf_at qs s t) (
    (unlink_node-IsUpdate qs s (modify (qs ++ s ∷ []) leaf t)
        (modify-IsDistinct (qs ++ s ∷ []) leaf t m leaf-KeepsName at d (leaf-IsDistinct m))
        (descend-modify (qs ++ s ∷ []) leaf t m leaf-KeepsName at)).0
      r
    ∙ leaf_entry (qs ++ s ∷ []) r t m at)
