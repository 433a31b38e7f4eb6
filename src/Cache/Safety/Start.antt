-- ===== src/Cache/Safety/Start.antt =====
-- A call that starts keeps the invariant.
use esconf.Prelude.{
  Text, HashTable, lookup, ℕ, suc, ==_iff, ◌<◌, ◌≤◌, true, false, ◌≡◌, ◌≢◌, refl, sym, ◌∙◌, ◌⊎◌,
  inl, inr, Option, none, some, is_some, List, arith,
}
use esconf.Cache.{OldItem, update, insert_pointer}
use esconf.Cache.Safety.{
  IsSound, IsCallOf, has_call, has_call-insert, has_call-insert_other, has_call-insert_cases,
  update_cases,
}

-- An old item `i` that a call starts with, at `o`: what its tables are before the call is entered.
pub record IsStart (pending pending' : List (ℕ × ℕ)) (olds olds' : HashTable ℕ) (fresh fresh' : ℕ)
    (calls : ℕ → ℕ) (o : ℕ) (i : OldItem) : Type 0 where
  pub uncancelled : i.cancelled ≡ false
  pub sending : is_some i.variant ≡ true
  pub count : i.pending_calls_count ≡ suc (calls o)
  pub room : (fresh ≤ fresh') × (o < fresh')
  pub new : (i.cancellable < fresh') × (fresh ≤ i.cancellable)
  pub tabled :
      (property : Text) (u : ℕ)
      → lookup property olds' ≡ some u
      → ((u ≡ o) × (i.property ≡ property)) ⊎ ((u ≢ o) × (lookup property olds ≡ some u))
  pub kept : (k u : ℕ) → has_call k u pending' ≡ true → (u ≢ o) × (has_call k u pending ≡ true)
  pub lost : (k u : ℕ) → u ≢ o → has_call k u pending ≡ true → has_call k u pending' ≡ true

module _ {pending pending' : List (ℕ × ℕ)} {olds olds' : HashTable ℕ} {items : ℕ → Option OldItem}
    {fresh fresh' : ℕ} {calls : ℕ → ℕ} {o : ℕ} {i : OldItem}
    (sound : IsSound true pending olds items fresh calls)
    (start : IsStart pending pending' olds olds' fresh fresh' calls o i) where
  counted :
      (u : ℕ) (j : OldItem)
      → update o (some i) items u ≡ some j
      → update o (suc (calls o)) calls u ≡ j.pending_calls_count
  counted u j e = ground (arith, ==_iff u o, start.count, sound.counted u j)

  idle : (u : ℕ) → update o (some i) items u ≡ none → update o (suc (calls o)) calls u ≡ 0
  idle u e = ground (arith, ==_iff u o, sound.idle u)

  listed :
      (property : Text) (u : ℕ)
      → lookup property olds' ≡ some u
      → (j : OldItem) × (update o (some i) items u ≡ some j)
        × (j.property ≡ property)
        × (j.cancelled ≡ false)
        × (0 < j.pending_calls_count)
  listed property u e = elim (start.tabled property u e) [
    | inl (here, named) ↦
        (i, ground (arith, ==_iff u o), named, start.uncancelled, omega (arith, start.count))
    | inr (elsewhere, was) ↦
        let (j, at, named, uncancelled, n) = sound.listed property u was in
        (j, ground (arith, ==_iff u o), named, uncancelled, n)
  ]

  entered :
      (u : ℕ) (j : OldItem)
      → update o (some i) items u ≡ some j
      → j.cancelled ≡ false
      → 0 < j.pending_calls_count
      → (true ≡ true) × (has_call j.cancellable u (insert_pointer i.cancellable o pending') ≡ true)
  entered u j e h n = elim (update_cases o (some i) items u) [
    | inl (here, is) ↦ ground (arith, has_call-insert i.cancellable o pending')
    | inr (elsewhere, is) ↦
        let at = sym is ∙ e in
        let was = (sound.entered u j at h n).1 in
        (
          refl,
          has_call-insert_other i.cancellable o j.cancellable u pending'
                (λ same. ground (arith, start.new, sound.bounded u j at))
              ∙ start.lost j.cancellable u elsewhere was,
        )
  ]

  backed :
      (k u : ℕ)
      → has_call k u (insert_pointer i.cancellable o pending') ≡ true
      → (j : OldItem) × (update o (some i) items u ≡ some j) × IsCallOf k j
  backed k u h = elim (has_call-insert_cases i.cancellable o k u pending' h) [
    | inl (key, here) ↦ (
      i,
      ground (arith, ==_iff u o),
      (sym key, start.uncancelled, start.sending, omega (arith, start.count)),
    )
    | inr was ↦
        let (elsewhere, before) = start.kept k u was in
        let (j, at, rest) = sound.backed k u before in (j, ground (arith, ==_iff u o), rest)
  ]

  bounded :
      (u : ℕ) (j : OldItem)
      → update o (some i) items u ≡ some j
      → (u < fresh') × (j.cancellable < fresh')
  bounded u j e = ground (arith, ==_iff u o, start.room, start.new, sound.bounded u j)

  distinct :
      (u v : ℕ) (j l : OldItem)
      → update o (some i) items u ≡ some j
      → update o (some i) items v ≡ some l
      → j.cancellable ≡ l.cancellable
      → u ≡ v
  distinct u v j l e f h = ground (
    arith,
    ==_iff u o,
    ==_iff v o,
    start.new,
    sound.bounded u j,
    sound.bounded v l,
    sound.distinct u v j l,
  )

  pub start-IsSound :
      IsSound true
        (insert_pointer i.cancellable o pending')
        olds'
        (update o (some i) items)
        fresh'
        (update o (suc (calls o)) calls)
  start-IsSound = record {
    counted = counted;
    idle = idle;
    listed = listed;
    entered = entered;
    backed = backed;
    bounded = bounded;
    distinct = distinct;
  }
