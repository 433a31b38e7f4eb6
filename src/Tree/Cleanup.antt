-- ===== src/Tree/Cleanup.antt =====
-- The recursive reset of a subtree: the traversal that blanks the user's values, and the clean-up.
use esconf.Prelude.{
  Text, streq, streq_iff, ◌≡◌, refl, ap, sym, ◌∙◌, true, Option, none, some, ◌>>=◌, List, [], ◌∷◌,
  arith, if◌then◌else◌, Bool-cases, inl, inr,
}
use esconf.Value.{unset}
use esconf.Tree.{Property, Node, node, Nodes, nil, cons, prop, find_child}
use esconf.Tree.Walk.{descend, Entry, entry_of, entry_at, IsDistinct, AreDistinct}
use esconf.Tree.Traverse.{
  reset_nodes, reset_children, is_dangling, keep_node, cons_kept, clean_up, clean_up_children,
}

-- What a walk from a child of a name finds.
abbrev child_entry : Text → List Text → Nodes → Entry
child_entry s r cs = entry_of (find_child s cs >>= descend r)

-- What a path holds in a tree that may be gone.
abbrev pub kept_entry : List Text → Option Node → Entry
kept_entry r none = entry_of none
kept_entry r (some n) = entry_at r n

-- The same without the user's value.
abbrev pub without_user : Entry → Entry
without_user e = (unset, e.1, e.2)

-- A child in front of the others.
child_entry-cons :
    (s : Text) (r : List Text) (c : Node) (cs : Nodes)
    → child_entry s r (cons c cs)
      ≡ (if streq (prop c).name s then entry_at r c else child_entry s r cs)
unfolding find_child entry_at
child_entry-cons s r c cs = elim (Bool-cases (streq (prop c).name s)) [
  | inl e ↦ rw e
  | inr e ↦ rw e
]

entry_at-child :
    (s : Text) (r : List Text) (q : Property) (cs : Nodes)
    → entry_at (s ∷ r) (node q cs) ≡ child_entry s r cs
unfolding entry_at descend
entry_at-child s r q cs = refl

pub reset_nodes-name : (n : Node) → (prop (reset_nodes n)).name ≡ (prop n).name
unfolding reset_nodes
reset_nodes-name (node q cs) = refl

reset_children-entry :
    (r : List Text) (s : Text) (cs : Nodes)
    → ((c : Node) → entry_at r (reset_nodes c) ≡ without_user (entry_at r c))
    → child_entry s r (reset_children cs) ≡ without_user (child_entry s r cs)
unfolding reset_children
reset_children-entry r s nil h = unfold find_child in refl
reset_children-entry r s (cons c cs) h =
    rw
      (
        child_entry-cons s r c cs,
        child_entry-cons s r (reset_nodes c) (reset_children cs),
        reset_nodes-name c,
      )
      (elim (Bool-cases (streq (prop c).name s)) [
        | inl e ↦ rw e (h c)
        | inr e ↦ rw e (reset_children-entry r s cs h)
      ])

reset_nodes-entry :
    (r : List Text) (n : Node) → entry_at r (reset_nodes n) ≡ without_user (entry_at r n)
unfolding reset_nodes
reset_nodes-entry [] (node q cs) = unfold entry_at descend in refl
reset_nodes-entry (s ∷ r) (node q cs) = rw (entry_at-child s r q cs) (
    rw (entry_at-child s r _ (reset_children cs))
      (reset_children-entry r s cs (reset_nodes-entry r)))

is_dangling-leaf :
    (q : Property) (cs : Nodes)
    → is_dangling (node q cs) ≡ true
    → (cs ≡ nil) × ((q.value, q.system_value, q.locked) ≡ entry_of none)
is_dangling-leaf q nil h = (refl, ground arith)
is_dangling-leaf q (cons c cs) h = ground arith

pub clean_up-prop : (n m : Node) → clean_up n ≡ some m → prop m ≡ prop n
unfolding clean_up
clean_up-prop (node q cs) m h = elim (Bool-cases (is_dangling (node q (clean_up_children cs)))) [
  | inl e ↦ absurd (ground (arith, h, e))
  | inr e ↦
      let x : some (node q (clean_up_children cs)) ≡ some m = ground (arith, h, e) in
      ap (λ o. elim o as (λ x. Property) [ none ↦ q | some n ↦ prop n ]) (sym x)
]

-- A node that is unlinked holds nothing anywhere, and one that is kept holds what it held.
abbrev KeepsEntry : List Text → Node → Type 0
KeepsEntry r c = IsDistinct c → kept_entry r (clean_up c) ≡ entry_at r c

clean_up_children-entry :
    (r : List Text) (s : Text) (cs : Nodes)
    → AreDistinct cs
    → ((c : Node) → KeepsEntry r c)
    → child_entry s r (clean_up_children cs) ≡ child_entry s r cs
unfolding clean_up
clean_up_children-entry r s nil d k = refl
clean_up_children-entry r s (cons c cs) d k =
    rw (child_entry-cons s r c cs)
      (go (clean_up c) refl (k c d.1) (clean_up_children-entry r s cs d.2 k))
  where
    first : streq (prop c).name s ≡ true → child_entry s r cs ≡ entry_of none
    first e = rw (← (streq_iff (prop c).name s).0 e, d.0)

    go :
        (o : Option Node)
        → clean_up c ≡ o
        → kept_entry r o ≡ entry_at r c
        → child_entry s r (clean_up_children cs) ≡ child_entry s r cs
        → child_entry s r (cons_kept o (clean_up_children cs))
          ≡ (if streq (prop c).name s then entry_at r c else child_entry s r cs)
    go none e same ih = elim (Bool-cases (streq (prop c).name s)) [
      | inl x ↦ rw x (ih ∙ first x ∙ same)
      | inr x ↦ rw x ih
    ]
    go (some c') e same ih =
        rw (child_entry-cons s r c' (clean_up_children cs), clean_up-prop c c' e)
          (elim (Bool-cases (streq (prop c).name s)) [ inl x ↦ rw x same | inr x ↦ rw x ih ])

-- The test on a node whose children are cleaned up.
keep_node-entry :
    (r : List Text) (n : Node) (e : Entry)
    → entry_at r n ≡ e
    → (is_dangling n ≡ true → entry_of none ≡ e)
    → kept_entry r (keep_node n) ≡ e
keep_node-entry r n e h k = elim (Bool-cases (is_dangling n)) [
  | inl x ↦ rw x (k x)
  | inr x ↦ rw x h
]

-- In a tree with distinct names `nodes_clean_up` changes what no path holds: a node that it unlinks
-- holds no value and no lock, and neither do the nodes below it.
clean_up-entry : (r : List Text) (n : Node) → KeepsEntry r n
unfolding clean_up
clean_up-entry [] (node q cs) d =
    keep_node-entry [] (node q (clean_up_children cs)) _ (unfold entry_at descend in refl)
      (λ x. unfold entry_at descend in sym (is_dangling-leaf q (clean_up_children cs) x).1)
clean_up-entry (s ∷ r) (node q cs) d =
    let below : entry_at (s ∷ r) (node q (clean_up_children cs)) ≡ entry_at (s ∷ r) (node q cs) =
      entry_at-child s r q (clean_up_children cs)
      ∙ clean_up_children-entry r s cs d (clean_up-entry r)
      ∙ sym (entry_at-child s r q cs) in
    keep_node-entry (s ∷ r) (node q (clean_up_children cs)) _ below (λ x. gone x ∙ below)
  where
    gone :
        is_dangling (node q (clean_up_children cs)) ≡ true
        → entry_of none ≡ entry_at (s ∷ r) (node q (clean_up_children cs))
    gone x =
        rw (is_dangling-leaf q (clean_up_children cs) x).0
          (rw (entry_at-child s r q nil) (unfold find_child in refl))

reset_children-find :
    (s : Text) (cs : Nodes) → find_child s cs ≡ none → find_child s (reset_children cs) ≡ none
unfolding reset_children find_child
reset_children-find s nil h = refl
reset_children-find s (cons c cs) h =
    rw (reset_nodes-name c) (ground (arith, h, reset_children-find s cs))

mutual
  unfolding reset_nodes reset_children

  reset_nodes-IsDistinct : (n : Node) → IsDistinct n → IsDistinct (reset_nodes n)
  reset_nodes-IsDistinct (node q cs) d = reset_children-AreDistinct cs d

  reset_children-AreDistinct : (cs : Nodes) → AreDistinct cs → AreDistinct (reset_children cs)
  reset_children-AreDistinct nil d = tt
  reset_children-AreDistinct (cons c cs) d = (
    rw (reset_nodes-name c) (reset_children-find (prop c).name cs d.0),
    reset_nodes-IsDistinct c d.1,
    reset_children-AreDistinct cs d.2,
  )

-- The recursive reset of a subtree with distinct names, by both of its traversals: every path of the
-- subtree loses the user's value and keeps the system's value and the lock, whichever nodes the
-- clean-up unlinks; where it unlinks the subtree's top, no path had a system's value or a lock.
pub clean_up-reset_nodes :
    (r : List Text) (n : Node)
    → IsDistinct n
    → kept_entry r (clean_up (reset_nodes n)) ≡ without_user (entry_at r n)
clean_up-reset_nodes r n d =
    clean_up-entry r (reset_nodes n) (reset_nodes-IsDistinct n d) ∙ reset_nodes-entry r n
