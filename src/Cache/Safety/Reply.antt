-- ===== src/Cache/Safety/Reply.antt =====
-- A reply that arrives keeps the invariant: one of several, and the last one.
use esconf.Prelude.{
  Text, HashTable, lookup, ℕ, ==_iff, ◌<◌, Bool, true, false, ◌≡◌, ◌≢◌, ◌∙◌, inl, inr, Option, some,
  List, arith,
}
use esconf.Cache.{OldItem, update, remove_pointer}
use esconf.Cache.Safety.{IsSound, IsCallOf, has_call, has_call-remove, update_cases}

module _ {alive : Bool} {pending : List (ℕ × ℕ)} {olds : HashTable ℕ} {items : ℕ → Option OldItem}
    {fresh : ℕ} {calls : ℕ → ℕ} {o : ℕ} {i : OldItem}
    (sound : IsSound alive pending olds items fresh calls) (at : items o ≡ some i) where
  -- Without the entry of an old item, the pending calls are those of the others.
  pub removed_kept :
      (k u : ℕ)
      → has_call k u (remove_pointer i.cancellable pending) ≡ true
      → (u ≢ o) × (has_call k u pending ≡ true)
  removed_kept k u e =
      let (was, other) = unentered in
      let (j, is, (key, uncancelled, sending, n)) = sound.backed k u was in
      (λ here. other (ground (arith, at, is, key)), was)
    where
      unentered : (has_call k u pending ≡ true) × (i.cancellable ≢ k)
      unentered = ground (arith, has_call-remove i.cancellable k u pending, ==_iff k i.cancellable)

  pub removed_lost :
      (k u : ℕ)
      → u ≢ o
      → has_call k u pending ≡ true
      → has_call k u (remove_pointer i.cancellable pending) ≡ true
  removed_lost k u elsewhere e =
      let (j, is, (key, uncancelled, sending, n)) = sound.backed k u e in
      ground (
        arith,
        has_call-remove i.cancellable k u pending,
        ==_iff k i.cancellable,
        sound.distinct u o j i is at,
      )

  -- One reply of several: the old item counts one less, and is stored as `j`.
  module _ (j : OldItem)
      (same : (j.property ≡ i.property)
        × (j.cancellable ≡ i.cancellable)
        × (j.cancelled ≡ i.cancelled)
        × (j.variant ≡ i.variant))
      (more : (0 < j.pending_calls_count) × (0 < i.pending_calls_count)) where
    lowered-listed :
        (property : Text) (u : ℕ)
        → lookup property olds ≡ some u
        → (l : OldItem) × (update o (some j) items u ≡ some l)
          × (l.property ≡ property)
          × (l.cancelled ≡ false)
          × (0 < l.pending_calls_count)
    lowered-listed property u h =
        let (l, is, named, uncancelled, n) = sound.listed property u h in
        elim (update_cases o (some j) items u) [
          | inl (here, now) ↦ (j, now, ground (arith, at, same), ground (arith, at, same), more.0)
          | inr (elsewhere, now) ↦ (l, now ∙ is, named, uncancelled, n)
        ]

    lowered-backed :
        (k u : ℕ)
        → has_call k u pending ≡ true
        → (l : OldItem) × (update o (some j) items u ≡ some l) × IsCallOf k l
    lowered-backed k u h =
        let (l, is, (key, uncancelled, sending, n)) = sound.backed k u h in
        elim (update_cases o (some j) items u) [
          | inl (here, now) ↦ (
            j,
            now,
            (ground (arith, at, same), ground (arith, at, same), ground (arith, at, same), more.0),
          )
          | inr (elsewhere, now) ↦ (l, now ∙ is, (key, uncancelled, sending, n))
        ]

    pub lowered-IsSound :
        IsSound alive pending olds
          (update o (some j) items)
          fresh
          (update o j.pending_calls_count calls)
    lowered-IsSound = record {
      counted = λ u l e. ground (arith, ==_iff u o, sound.counted u l);
      idle = λ u e. ground (arith, ==_iff u o, sound.idle u);
      listed = lowered-listed;
      entered = λ u l e h n.
          ground (arith, ==_iff u o, at, sound.entered u l, sound.entered o i, more, same);
      backed = lowered-backed;
      bounded = λ u l e. ground (arith, ==_iff u o, sound.bounded u l, sound.bounded o i, same);
      distinct = λ u v l m e f h. ground (
        arith,
        ==_iff u o,
        ==_iff v o,
        sound.distinct u v l m,
        sound.distinct u v i m,
        sound.distinct u v l i,
        same,
      );
    }

  -- The last reply: what is left at `o` is nothing, or an old item that counts no call. The tables
  -- have no entry for it any more.
  module _ (v : Option OldItem)
      (done : (j : OldItem)
        → v ≡ some j
        → (j.pending_calls_count ≡ 0) × (j.cancellable ≡ i.cancellable))
      (pending' : List (ℕ × ℕ)) (olds' : HashTable ℕ)
      (tabled : (property : Text) (u : ℕ)
        → lookup property olds' ≡ some u
        → (u ≢ o) × (lookup property olds ≡ some u))
      (kept : (k u : ℕ) → has_call k u pending' ≡ true → (u ≢ o) × (has_call k u pending ≡ true))
      (lost : (k u : ℕ) → u ≢ o → has_call k u pending ≡ true → has_call k u pending' ≡ true) where
    settled-listed :
        (property : Text) (u : ℕ)
        → lookup property olds' ≡ some u
        → (l : OldItem) × (update o v items u ≡ some l)
          × (l.property ≡ property)
          × (l.cancelled ≡ false)
          × (0 < l.pending_calls_count)
    settled-listed property u h =
        let (elsewhere, was) = tabled property u h in
        let (l, is, named, uncancelled, n) = sound.listed property u was in
        (l, ground (arith, ==_iff u o), named, uncancelled, n)

    settled-backed :
        (k u : ℕ)
        → has_call k u pending' ≡ true
        → (l : OldItem) × (update o v items u ≡ some l) × IsCallOf k l
    settled-backed k u h =
        let (elsewhere, was) = kept k u h in
        let (l, is, rest) = sound.backed k u was in (l, ground (arith, ==_iff u o), rest)

    pub settled-IsSound : IsSound alive pending' olds' (update o v items) fresh (update o 0 calls)
    settled-IsSound = record {
      counted = λ u l e. ground (arith, ==_iff u o, sound.counted u l, done l);
      idle = λ u e. ground (arith, ==_iff u o, sound.idle u);
      listed = settled-listed;
      entered =
          λ u l e h n. ground (arith, ==_iff u o, done l, sound.entered u l, lost l.cancellable u);
      backed = settled-backed;
      bounded =
          λ u l e. ground (arith, ==_iff u o, done l, sound.bounded u l, sound.bounded o i, at);
      distinct = λ u w l m e f h. ground (
        arith,
        ==_iff u o,
        ==_iff w o,
        at,
        done l,
        done m,
        sound.distinct u w l m,
        sound.distinct u w i m,
        sound.distinct u w l i,
      );
    }
