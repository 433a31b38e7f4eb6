-- ===== src/Tree/Local.antt =====
-- Changes below a node, seen from the root of the tree.
use esconf.Prelude.{
  Text, streq, streq_iff, ◌≡◌, refl, ap, sym, ◌∙◌, true, false, Option, none, some, ◌>>=◌, List, [],
  ◌∷◌, ◌++◌, arith, if◌then◌else◌, Bool-cases, inl, inr,
}
use esconf.Tree.{
  Property, Node, node, Nodes, nil, cons, prop, children, find_child, modify, append_data,
  append_node, unlink_child,
}
use esconf.Tree.Walk.{
  descend, descend-append, same_parts, Entry, entry_of, entry_at, IsDistinct, AreDistinct,
}
use esconf.Tree.Modify.{KeepsName, strip, strip-eq_some, entry_at-modify, entry_at-cons}

-- `n'` holds `e` at `ps`, and what `n` holds elsewhere.
abbrev pub IsUpdate : List Text → Entry → Node → Node → Type 0
IsUpdate ps e n n' = (r : List Text) → entry_at r n' ≡ (if same_parts ps r then e else entry_at r n)

pub same_parts-strip :
    (ps qs r : List Text)
    → same_parts (ps ++ qs) r ≡ elim (strip ps r) [ none ↦ false | some r' ↦ same_parts qs r' ]
unfolding same_parts strip
same_parts-strip [] qs r = refl
same_parts-strip (s ∷ ps) qs [] = refl
same_parts-strip (s ∷ ps) qs (t ∷ r) = ground (arith, same_parts-strip ps qs r)

entry_of-descend : (r : List Text) (n : Node) → entry_of (descend r n) ≡ entry_at r n
unfolding entry_at
entry_of-descend r n = refl

-- A node without children holds what it holds at the empty walk only.
entry_at-leaf :
    (q : Property) (r : List Text)
    → entry_at r (node q nil)
      ≡ (if same_parts [] r then (q.value, q.system_value, q.locked) else entry_of none)
unfolding same_parts entry_at descend find_child
entry_at-leaf q [] = refl
entry_at-leaf q (t ∷ r) = refl

-- A walk that begins at a name that no child has finds nothing.
entry_at-missing :
    (s t : Text) (r : List Text) (n : Node)
    → streq s t ≡ true
    → find_child s (children n) ≡ none
    → entry_at (t ∷ r) n ≡ entry_of none
entry_at-missing s t r n e h = rw (← (streq_iff s t).0 e) (rw (entry_at-cons, h))

pub entry_at-append :
    (ps qs : List Text) (n : Node) {m : Node}
    → descend ps n ≡ some m
    → entry_at (ps ++ qs) n ≡ entry_at qs m
unfolding entry_at
entry_at-append ps qs n e = rw (descend-append, e)

-- An update below a node, and the path to the node, give an update of the tree.
pub modify-IsUpdate :
    (ps qs : List Text) (e : Entry) (h : Node → Node) (n m : Node)
    → KeepsName h
    → descend ps n ≡ some m
    → IsUpdate qs e m (h m)
    → IsUpdate (ps ++ qs) e n (modify ps h n)
modify-IsUpdate ps qs e h n m k at up r =
    entry_at-modify ps r h n k ∙ go (strip ps r) refl ∙ sym (rw same_parts-strip)
  where
    go :
        (o : Option (List Text))
        → strip ps r ≡ o
        → elim o [
          | none ↦ entry_at r n
          | some r' ↦ entry_of (descend ps n >>= λ m'. descend r' (h m'))
        ]
          ≡ (if elim o [ none ↦ false | some r' ↦ same_parts qs r' ] then e else entry_at r n)
    go none x = refl
    go (some r') x = rw at (
        entry_of-descend r' (h m)
        ∙ up r'
        ∙ ap (λ y. if same_parts qs r' then e else y)
            (sym (rw (strip-eq_some ps r r' x) (entry_at-append ps r' n at))))

-- A new child with a name that no child has.
pub find_child-append_data :
    (t : Text) (cs : Nodes) (c : Node)
    → find_child (prop c).name cs ≡ none
    → find_child t (append_data cs c) ≡ (if streq (prop c).name t then some c else find_child t cs)
unfolding find_child append_data
find_child-append_data t nil c h = refl
find_child-append_data t (cons d cs) c h = ground (
  arith,
  find_child-append_data t cs c,
  streq_iff (prop c).name t,
  streq_iff (prop d).name t,
  streq_iff (prop d).name (prop c).name,
)

pub append_node-IsUpdate :
    (new : Property) (n : Node)
    → find_child new.name (children n) ≡ none
    → IsUpdate (new.name ∷ []) (new.value, new.system_value, new.locked) n (append_node new n)
unfolding same_parts
append_node-IsUpdate new (node q cs) h [] = unfold entry_at descend in refl
append_node-IsUpdate new (node q cs) h (t ∷ r) = elim (Bool-cases (streq new.name t)) [
  | inl same ↦
      rw (entry_at-cons, find_child-append_data t cs (node new nil) h, same)
        (rw (entry_at-missing new.name t r (node q cs) same h) (entry_at-leaf new r))
  | inr other ↦
      rw (entry_at-cons, find_child-append_data t cs (node new nil) h, other) (rw entry_at-cons)
]

-- Without its first child of a name, a list of distinct children has no child of that name.
pub find_child-unlink_child :
    (s t : Text) (cs : Nodes)
    → AreDistinct cs
    → find_child t (unlink_child s cs) ≡ (if streq s t then none else find_child t cs)
unfolding find_child unlink_child
find_child-unlink_child s t nil d = ground arith
find_child-unlink_child s t (cons c cs) d = ground (
  arith,
  find_child-unlink_child s t cs d.2,
  streq_iff s t,
  streq_iff (prop c).name s,
  streq_iff (prop c).name t,
)

abbrev pub unlink_at : Text → Node → Node
unlink_at s (node q cs) = node q (unlink_child s cs)

pub unlink_at-IsUpdate :
    (s : Text) (n : Node) {l : Property}
    → IsDistinct n
    → find_child s (children n) ≡ some (node l nil)
    → IsUpdate (s ∷ []) (entry_of none) n (unlink_at s n)
unfolding same_parts
unlink_at-IsUpdate s (node q cs) d h [] = unfold entry_at descend in refl
unlink_at-IsUpdate s (node q cs) {l} d h (t ∷ r) = elim (Bool-cases (streq s t)) [
  | inl same ↦
      let e : s ≡ t = (streq_iff s t).0 same in
      rw (entry_at-cons, find_child-unlink_child s t cs d, same) (leaf_or_nothing e r)
  | inr other ↦ rw (entry_at-cons, find_child-unlink_child s t cs d, other) (rw entry_at-cons)
]
  where
    leaf_or_nothing :
        s ≡ t
        → (r' : List Text)
        → entry_of none
          ≡ (if same_parts [] r' then entry_of none else entry_at (t ∷ r') (node q cs))
    leaf_or_nothing e [] = refl
    leaf_or_nothing e (u ∷ r') = sym (rw (← e) (rw (entry_at-cons, h) (entry_at-leaf l (u ∷ r'))))
