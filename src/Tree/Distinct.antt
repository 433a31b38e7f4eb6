-- ===== src/Tree/Distinct.antt =====
-- Writes, and the distinct names of the children.
use mathlib.Core.Path.{subst}
use esconf.Prelude.{
  Text, streq, streq_iff, streq_refl, ◌≡◌, ◌≢◌, refl, sym, none, some, List, [], ◌∷◌, arith,
  Bool-cases, Option-cases, inl, inr,
}
use esconf.Tree.{
  Property, Node, node, Nodes, nil, cons, prop, children, find_child, modify_child, modify,
  append_data, append_node, unlink_child,
}
use esconf.Tree.Walk.{descend, IsDistinct, AreDistinct}
use esconf.Tree.Modify.{KeepsName, modify-KeepsName, find_child-modify_child}
use esconf.Tree.Local.{find_child-append_data, find_child-unlink_child, unlink_at}

modify_child-AreDistinct :
    (s : Text) (h : Node → Node) (cs : Nodes) (c : Node)
    → KeepsName h
    → find_child s cs ≡ some c
    → AreDistinct cs
    → IsDistinct (h c)
    → AreDistinct (modify_child s h cs)
unfolding find_child modify_child
modify_child-AreDistinct s h nil c k e d dh = cc
modify_child-AreDistinct s h (cons b cs) c k e d dh = elim (Bool-cases (streq (prop b).name s)) [
  | inl same ↦
      let x : b ≡ c = ground arith in
      rw same (rw (k b) d.0, subst (λ y. IsDistinct (h y)) (sym x) dh, d.2)
  | inr other ↦ rw other (
    ground (
      arith,
      find_child-modify_child s (prop b).name h cs k,
      streq_iff s (prop b).name,
      streq_iff (prop b).name s,
    ),
    d.1,
    modify_child-AreDistinct s h cs c k (ground arith) d.2 dh,
  )
]

pub find_child-IsDistinct :
    (s : Text) (cs : Nodes) (c : Node) → find_child s cs ≡ some c → AreDistinct cs → IsDistinct c
unfolding find_child
find_child-IsDistinct s nil c e d = cc
find_child-IsDistinct s (cons b cs) c e d = elim (Bool-cases (streq (prop b).name s)) [
  | inl same ↦ let x : b ≡ c = ground arith in subst IsDistinct x d.1
  | inr other ↦ find_child-IsDistinct s cs c (ground arith) d.2
]

descend-missing :
    (s : Text) (ps : List Text) (q : Property) (cs : Nodes) {m : Node}
    → find_child s cs ≡ none
    → descend (s ∷ ps) (node q cs) ≢ some m
unfolding descend
descend-missing s ps q cs h e = ground arith

descend-there :
    (s : Text) (ps : List Text) (q : Property) (cs : Nodes) (c : Node) {m : Node}
    → find_child s cs ≡ some c
    → descend (s ∷ ps) (node q cs) ≡ some m
    → descend ps c ≡ some m
unfolding descend
descend-there s ps q cs c h e = ground arith

-- A write keeps the names distinct if it does so at the node that is written to.
pub modify-IsDistinct :
    (ps : List Text) (h : Node → Node) (n m : Node)
    → KeepsName h
    → descend ps n ≡ some m
    → IsDistinct n
    → IsDistinct (h m)
    → IsDistinct (modify ps h n)
unfolding modify
modify-IsDistinct [] h n m k e d dh =
    let x : n ≡ m = unfold descend in ground arith in subst (λ y. IsDistinct (h y)) (sym x) dh
modify-IsDistinct (s ∷ ps) h (node q cs) m k e d dh = elim (Option-cases (find_child s cs)) [
  | inl missing ↦ absurd (descend-missing s ps q cs missing e)
  | inr (c, there) ↦
      modify_child-AreDistinct s (modify ps h) cs c (modify-KeepsName ps h k) there d (
        modify-IsDistinct ps h c m k (descend-there s ps q cs c there e)
          (find_child-IsDistinct s cs c there d) dh)
]

append_data-AreDistinct :
    (cs : Nodes) (new : Property)
    → find_child new.name cs ≡ none
    → AreDistinct cs
    → AreDistinct (append_data cs (node new nil))
unfolding find_child append_data
append_data-AreDistinct nil new h d = (refl, tt, tt)
append_data-AreDistinct (cons c cs) new h d = (
  ground (
    arith,
    find_child-append_data (prop c).name cs (node new nil),
    streq_iff new.name (prop c).name,
    streq_iff (prop c).name new.name,
  ),
  d.1,
  append_data-AreDistinct cs new (ground arith) d.2,
)

pub append_node-IsDistinct :
    (new : Property) (n : Node)
    → find_child new.name (children n) ≡ none
    → IsDistinct n
    → IsDistinct (append_node new n)
append_node-IsDistinct new (node q cs) h d = append_data-AreDistinct cs new h d

unlink_child-AreDistinct :
    (s : Text) (cs : Nodes) → AreDistinct cs → AreDistinct (unlink_child s cs)
unfolding unlink_child
unlink_child-AreDistinct s nil d = tt
unlink_child-AreDistinct s (cons c cs) d = elim (Bool-cases (streq (prop c).name s)) [
  | inl same ↦ rw same d.2
  | inr other ↦ rw other (
    ground (arith, find_child-unlink_child s (prop c).name cs d.2, streq_iff s (prop c).name),
    d.1,
    unlink_child-AreDistinct s cs d.2,
  )
]

pub unlink_at-IsDistinct : (s : Text) (n : Node) → IsDistinct n → IsDistinct (unlink_at s n)
unlink_at-IsDistinct s (node q cs) d = unlink_child-AreDistinct s cs d

-- A node of a tree with distinct names has distinct names.
pub descend-IsDistinct :
    (ps : List Text) (n m : Node) → descend ps n ≡ some m → IsDistinct n → IsDistinct m
descend-IsDistinct [] n m e d =
    let x : n ≡ m = unfold descend in ground arith in subst IsDistinct x d
descend-IsDistinct (s ∷ ps) (node q cs) m e d = elim (Option-cases (find_child s cs)) [
  | inl missing ↦ absurd (descend-missing s ps q cs missing e)
  | inr (c, there) ↦
      descend-IsDistinct ps c m (descend-there s ps q cs c there e)
        (find_child-IsDistinct s cs c there d)
]

-- Behind a write the same walk ends at the node that was written.
pub descend-modify :
    (ps : List Text) (h : Node → Node) (n m : Node)
    → KeepsName h
    → descend ps n ≡ some m
    → descend ps (modify ps h n) ≡ some (h m)
unfolding descend modify
descend-modify [] h n m k e = ground arith
descend-modify (s ∷ ps) h (node q cs) m k e = elim (Option-cases (find_child s cs)) [
  | inl missing ↦ absurd (descend-missing s ps q cs missing e)
  | inr (c, there) ↦
      rw
        (
          find_child-modify_child s s (modify ps h) cs (modify-KeepsName ps h k),
          streq_refl s,
          there,
        )
        (descend-modify ps h c m k (descend-there s ps q cs c there e))
]
