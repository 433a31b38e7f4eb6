-- ===== src/Tree/Modify.antt =====
-- A write through a pointer to a node, seen at the paths of the tree.
use esconf.Prelude.{
  Text, streq, streq_iff, streq_refl, ◌≡◌, refl, sym, ◌∙◌, false, Option, none, some, ◌>>=◌, List,
  [], ◌∷◌, ◌++◌, arith, if◌then◌else◌, Bool-cases, inl, inr,
}
use esconf.Tree.{
  Property, Node, node, Nodes, nil, cons, prop, children, find_child, modify_child, modify,
}
use esconf.Tree.Walk.{descend, Entry, entry_of, entry_at}

abbrev pub KeepsName : (Node → Node) → Type 0
KeepsName h = (n : Node) → (prop (h n)).name ≡ (prop n).name

pub find_child-modify_child :
    (s t : Text) (h : Node → Node) (cs : Nodes)
    → KeepsName h
    → find_child t (modify_child s h cs)
      ≡ (if streq s t then (find_child s cs >>= λ c. some (h c)) else find_child t cs)
unfolding find_child modify_child
find_child-modify_child s t h nil k = ground arith
find_child-modify_child s t h (cons c cs) k = ground (
  arith,
  k c,
  streq_iff s t,
  streq_iff (prop c).name s,
  streq_iff (prop c).name t,
  find_child-modify_child s t h cs k,
)

-- What is left of a walk behind a prefix of it.
unfoldable pub strip : List Text → List Text → Option (List Text)
strip [] r = some r
strip (s ∷ ps) [] = none
strip (s ∷ ps) (t ∷ r) = let rest = strip ps r in if streq s t then rest else none

pub strip-eq_some : (ps r qs : List Text) → strip ps r ≡ some qs → r ≡ ps ++ qs
unfolding strip
strip-eq_some [] r qs h = ground arith
strip-eq_some (s ∷ ps) [] qs h = cc
strip-eq_some (s ∷ ps) (t ∷ r) qs h = ground (arith, streq_iff s t, strip-eq_some ps r qs)

-- What a walk finds in the tree that was written to.
abbrev pub found : List Text → List Text → (Node → Node) → Node → Entry
found ps r h n = elim (strip ps r) [
  | none ↦ entry_at r n
  | some qs ↦ entry_of (descend ps n >>= λ m. descend qs (h m))
]

pub modify-KeepsName : (ps : List Text) (h : Node → Node) → KeepsName h → KeepsName (modify ps h)
unfolding modify
modify-KeepsName [] h k n = k n
modify-KeepsName (s ∷ ps) h k (node q cs) = refl

strip-ne : (s t : Text) (ps r : List Text) → streq s t ≡ false → strip (s ∷ ps) (t ∷ r) ≡ none
unfolding strip
strip-ne s t ps r e = rw e

pub entry_at-cons :
    (t : Text) (r : List Text) (n : Node)
    → entry_at (t ∷ r) n
      ≡ elim (find_child t (children n)) [ none ↦ entry_of none | some c ↦ entry_at r c ]
unfolding entry_at descend
entry_at-cons t r n = ground arith

-- One step of the walk, to the child `c` or to none, commutes with the write.
found-cons :
    (s : Text) (ps r : List Text) (h : Node → Node) (q : Property) (cs : Nodes) (o : Option Node)
    → find_child s cs ≡ o
    → found (s ∷ ps) (s ∷ r) h (node q cs)
      ≡ elim o [ none ↦ entry_of none | some c ↦ found ps r h c ]
unfolding strip descend entry_at
found-cons s ps r h q cs none e = ground (arith, streq_refl s, e)
found-cons s ps r h q cs (some c) e = ground (arith, streq_refl s, e)

entry_at-modify_child :
    (s t : Text) (ps r : List Text) (h : Node → Node) (q : Property) (cs : Nodes)
    → KeepsName h
    → ((c : Node) → entry_at r (modify ps h c) ≡ found ps r h c)
    → entry_at (t ∷ r) (node q (modify_child s (modify ps h) cs))
      ≡ found (s ∷ ps) (t ∷ r) h (node q cs)
entry_at-modify_child s t ps r h q cs k ih = elim (Bool-cases (streq s t)) [
  | inl same ↦
      let e : s ≡ t = (streq_iff s t).0 same in
      rw (← e) (
        rw
          (
            entry_at-cons,
            find_child-modify_child s s (modify ps h) cs (modify-KeepsName ps h k),
            streq_refl s,
          )
          (at_child (find_child s cs) refl))
  | inr other ↦
      rw
        (
          entry_at-cons,
          find_child-modify_child s t (modify ps h) cs (modify-KeepsName ps h k),
          other,
        )
        (sym (rw (strip-ne s t ps r other, found, entry_at-cons)))
]
  where
    at_child :
        (o : Option Node)
        → find_child s cs ≡ o
        → elim (o >>= λ c. some (modify ps h c)) [ none ↦ entry_of none | some c ↦ entry_at r c ]
          ≡ found (s ∷ ps) (s ∷ r) h (node q cs)
    at_child none e = sym (found-cons s ps r h q cs none e)
    at_child (some c) e = ih c ∙ sym (found-cons s ps r h q cs (some c) e)

-- A write at a node is seen by a walk that goes through the node, from there on; every other
-- walk finds what it found before.
pub entry_at-modify :
    (ps r : List Text) (h : Node → Node) (n : Node)
    → KeepsName h
    → entry_at r (modify ps h n) ≡ found ps r h n
unfolding strip modify
entry_at-modify [] r h n k = unfold entry_at descend in refl
entry_at-modify (s ∷ ps) [] h (node q cs) k = unfold entry_at descend in refl
entry_at-modify (s ∷ ps) (t ∷ r) h (node q cs) k =
    entry_at-modify_child s t ps r h q cs k (λ c. entry_at-modify ps r h c k)
