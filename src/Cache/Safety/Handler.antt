-- ===== src/Cache/Safety/Handler.antt =====
-- The handler of a reply and the start of a call on a state that keeps the invariant.
use esconf.Prelude.{
  Text, lookup, lookup-remove, remove, streq_iff, ℕ, ◌-◌, ◌<◌, ltb, Bool, Bool-cases, Option-cases,
  true, false, ◌≡◌, ◌≢◌, refl, inl, inr, Option, none, some, arith,
}
use esconf.Platform.{Platform}
use esconf.Value.{GValue}
use esconf.Cache.{OldItem, Client, update, remove_pointer, tree_lookup}
use esconf.Cache.Change.{
  put_old, forgotten, committed, rolled_back, last_reply, set_property_reply_handler,
}
use esconf.Cache.Safety.{IsSound, Sound}
use esconf.Cache.Safety.Reply.{removed_kept, removed_lost, lowered-IsSound, settled-IsSound}

-- A reply for the old item at `o` comes in.
abbrev pub arrived : ℕ → Client → Client
arrived o c = record c { calls = update o (c.calls o - 1) c.calls }

-- The old item with one call less.
abbrev lower : OldItem → OldItem
lower i = record i { pending_calls_count = i.pending_calls_count - 1 }

-- One that is not the last one.
more_replies-Sound :
    (o : ℕ) (i : OldItem) (c : Client)
    → Sound c
    → c.old_items o ≡ some i
    → 0 < i.pending_calls_count - 1
    → Sound (put_old o (some (lower i)) (arrived o c))
more_replies-Sound o i c sound at n =
    rw (sound.counted o i at)
      (lowered-IsSound sound at (lower i) (refl, refl, refl, refl) (n, omega (arith, n)))

-- The last one of a cancelled call.
cancelled-Sound :
    (o : ℕ) (i : OldItem) (c : Client)
    → Sound c
    → c.old_items o ≡ some i
    → i.pending_calls_count ≡ 1
    → i.cancelled ≡ true
    → Sound (put_old o none (arrived o c))
cancelled-Sound o i c sound at n h =
    rw (sound.counted o i at, n)
      (settled-IsSound sound at none (λ j e. ground arith) c.pending_calls c.old_properties
        (λ property u e.
          let (j, is, named, uncancelled, m) = sound.listed property u e in
          (ground (arith, at, is, h), e))
        (λ k u e.
          let (j, is, (key, uncancelled, sending, m)) = sound.backed k u e in
          (ground (arith, at, is, h), e))
        (λ k u ne e. e))

-- The last one of a call that is not cancelled, with what is left of the old item.
forgotten-IsSound :
    (o : ℕ) (i : OldItem) (c : Client) (v : Option OldItem)
    → Sound c
    → c.old_items o ≡ some i
    → ((j : OldItem) → v ≡ some j → (j.pending_calls_count ≡ 0) × (j.cancellable ≡ i.cancellable))
    → IsSound c.alive
        (remove_pointer i.cancellable c.pending_calls)
        (remove i.property c.old_properties)
        (update o v c.old_items)
        c.fresh
        (update o 0 c.calls)
forgotten-IsSound o i c v sound at done =
    settled-IsSound sound at v done (remove_pointer i.cancellable c.pending_calls)
      (remove i.property c.old_properties)
      (λ property u e.
        let (was, other) = unlisted property u e in
        let (j, is, named, uncancelled, n) = sound.listed property u was in
        (λ here. other (ground (arith, at, is, named)), was))
      (removed_kept sound at) (removed_lost sound at)
  where
    unlisted :
        (property : Text) (u : ℕ)
        → lookup property (remove i.property c.old_properties) ≡ some u
        → (lookup property c.old_properties ≡ some u) × (i.property ≢ property)
    unlisted property u e =
        ground
          (arith, lookup-remove i.property property c.old_properties, streq_iff i.property property)

rolled_back-Sound :
    (p : Platform) (property : Text) (item : GValue) (old : Option GValue) (o : ℕ) (c : Client)
    → Sound (put_old o none c)
    → Sound (put_old o none (rolled_back p property item old c))
unfolding rolled_back
rolled_back-Sound p property item none o c h = h
rolled_back-Sound p property item (some old) o c h = h

committed-Sound :
    (p : Platform) (result : Bool) (o : ℕ) (i : OldItem) (item : Option GValue) (c : Client)
    → Sound c
    → c.old_items o ≡ some i
    → i.pending_calls_count ≡ 1
    → Sound (committed p result o (lower i) item (forgotten (lower i) (arrived o c)))
unfolding committed
committed-Sound p result o i none c sound at n =
    rw (sound.counted o i at, n)
      (forgotten-IsSound o i c (some (record i { pending_calls_count = 0 })) sound at
        (λ l e. ground arith))
committed-Sound p true o i (some item) c sound at n =
    rw (sound.counted o i at, n) (forgotten-IsSound o i c none sound at (λ l e. ground arith))
committed-Sound p false o i (some item) c sound at n =
    rolled_back-Sound p i.property item i.item o (forgotten (lower i) (arrived o c))
      (rw (sound.counted o i at, n) (forgotten-IsSound o i c none sound at (λ l e. ground arith)))

-- The handler never uses freed memory, and keeps the invariant.
pub set_property_reply_handler-Sound :
    (p : Platform) (result : Bool) (o : ℕ) (c : Client)
    → Sound c
    → 0 < c.calls o
    → (c' : Client) × (set_property_reply_handler p result o (arrived o c) ≡ some c') × Sound c'
unfolding set_property_reply_handler last_reply
set_property_reply_handler-Sound p result o c sound n = elim (Option-cases (c.old_items o)) [
  | inl at ↦ absurd (omega (arith, n, sound.idle o at))
  | inr (i, at) ↦ elim (Bool-cases (ltb 0 (i.pending_calls_count - 1))) [
    | inl more ↦ (
      put_old o (some (lower i)) (arrived o c),
      rw (at, more) refl,
      more_replies-Sound o i c sound at (ground (arith, more)),
    )
    | inr last ↦
        let one : i.pending_calls_count ≡ 1 = ground (arith, last, n, sound.counted o i at) in
        elim (Bool-cases i.cancelled) [
          | inl dead ↦ (
            put_old o none (arrived o c),
            rw (at, last, dead) refl,
            cancelled-Sound o i c sound at one dead,
          )
          | inr live ↦ (
            committed p result o (lower i) (tree_lookup i.property c.properties)
                (forgotten (lower i) (arrived o c)),
            rw (at, last, live, (sound.entered o i at live (omega (arith, one))).0) refl,
            committed-Sound p result o i (tree_lookup i.property c.properties) c sound at one,
          )
        ]
  ]
]
