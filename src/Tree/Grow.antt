-- ===== src/Tree/Grow.antt =====
-- Writes through pointers, one behind another: to one node, and to a child that was just appended.
use mathlib.Core.Path.{fun_ext}
use esconf.Prelude.{
  Text, streq_refl, ◌≡◌, refl, ap, ◌∙◌, Option-cases, inl, inr, none, some, List, [], ◌∷◌, ◌++◌,
  arith,
}
use esconf.Tree.{
  Node, node, Nodes, nil, cons, prop, children, find_child, modify_child, modify, append_data,
}
use esconf.Tree.Walk.{descend}
use esconf.Tree.Modify.{KeepsName, modify-KeepsName}

-- A node behind the children of another.
abbrev pub append_child : Node → Node → Node
append_child c (node q cs) = node q (append_data cs c)

modify_child-at :
    (s : Text) (h k : Node → Node) (cs : Nodes) (c : Node)
    → find_child s cs ≡ some c
    → h c ≡ k c
    → modify_child s h cs ≡ modify_child s k cs
unfolding find_child modify_child
modify_child-at s h k nil c e same = refl
modify_child-at s h k (cons d cs) c e same = ground (arith, modify_child-at s h k cs c, e, same)

-- Two writes that do the same to the node that is there.
pub modify-at :
    (ps : List Text) (h k : Node → Node) (t m : Node)
    → descend ps t ≡ some m
    → h m ≡ k m
    → modify ps h t ≡ modify ps k t
unfolding descend modify
modify-at [] h k t m e same = ground (arith, e, same)
modify-at (s ∷ ps) h k (node q cs) m e same = elim (Option-cases (find_child s cs)) [
  | inl missing ↦ absurd (ground (arith, missing, e))
  | inr (c, there) ↦ ap (node q) (
      modify_child-at s (modify ps h) (modify ps k) cs c there
        (modify-at ps h k c m (ground (arith, there, e)) same))
]

modify_child-modify_child :
    (s : Text) (h k : Node → Node) (cs : Nodes)
    → KeepsName k
    → modify_child s h (modify_child s k cs) ≡ modify_child s (λ n. h (k n)) cs
unfolding modify_child
modify_child-modify_child s h k nil keeps = refl
modify_child-modify_child s h k (cons c cs) keeps =
    ground (arith, keeps c, modify_child-modify_child s h k cs keeps)

-- A write behind another to the same node.
pub modify-modify :
    (ps : List Text) (h k : Node → Node) (t : Node)
    → KeepsName k
    → modify ps h (modify ps k t) ≡ modify ps (λ n. h (k n)) t
unfolding modify
modify-modify [] h k t keeps = refl
modify-modify (s ∷ ps) h k (node q cs) keeps = ap (node q) (
    modify_child-modify_child s (modify ps h) (modify ps k) cs (modify-KeepsName ps k keeps)
    ∙ ap (λ (f : Node → Node). modify_child s f cs) (fun_ext (λ n. modify-modify ps h k n keeps)))

-- A write that changes no node.
modify_child_id :
    (s : Text) (h : Node → Node) (cs : Nodes) → ((n : Node) → h n ≡ n) → modify_child s h cs ≡ cs
unfolding modify_child
modify_child_id s h nil same = refl
modify_child_id s h (cons c cs) same = ground (arith, same c, modify_child_id s h cs same)

pub modify_id :
    (ps : List Text) (h : Node → Node) (t : Node) → ((n : Node) → h n ≡ n) → modify ps h t ≡ t
unfolding modify
modify_id [] h t same = same t
modify_id (s ∷ ps) h (node q cs) same =
    ap (node q) (modify_child_id s (modify ps h) cs (λ n. modify_id ps h n same))

modify-append :
    (ps qs : List Text) (h : Node → Node) (t : Node)
    → modify (ps ++ qs) h t ≡ modify ps (modify qs h) t
unfolding modify
modify-append [] qs h t = refl
modify-append (s ∷ ps) qs h (node q cs) =
    ap (λ (f : Node → Node). node q (modify_child s f cs)) (fun_ext (λ n. modify-append ps qs h n))

pub append_child-KeepsName : (c : Node) → KeepsName (append_child c)
append_child-KeepsName c (node q cs) = refl

modify_child-append_data :
    (s : Text) (h : Node → Node) (cs : Nodes) (c : Node)
    → (prop c).name ≡ s
    → find_child s cs ≡ none
    → modify_child s h (append_data cs c) ≡ append_data cs (h c)
unfolding modify_child append_data find_child
modify_child-append_data s h nil c named e = ground (arith, named, streq_refl s)
modify_child-append_data s h (cons d cs) c named e =
    ground (arith, named, e, modify_child-append_data s h cs c named)

-- A write to a child that was just appended.
pub modify-append_child :
    (ps : List Text) (s : Text) (h : Node → Node) (c t m : Node)
    → descend ps t ≡ some m
    → find_child s (children m) ≡ none
    → (prop c).name ≡ s
    → modify (ps ++ s ∷ []) h (modify ps (append_child c) t) ≡ modify ps (append_child (h c)) t
modify-append_child ps s h c t m e free named =
    modify-append ps (s ∷ []) h (modify ps (append_child c) t)
    ∙ modify-modify ps (modify (s ∷ []) h) (append_child c) t (append_child-KeepsName c)
    ∙ modify-at ps (λ n. modify (s ∷ []) h (append_child c n)) (append_child (h c)) t m e
        (last m free)
  where
    last :
        (n : Node)
        → find_child s (children n) ≡ none
        → modify (s ∷ []) h (append_child c n) ≡ append_child (h c) n
    last (node q cs) k = unfold modify in ap (node q) (modify_child-append_data s h cs c named k)
