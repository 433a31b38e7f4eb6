-- ===== src/Cache/Safety/Setting.antt =====
-- esconf_cache_set on a state that keeps the invariant.
use esconf.Prelude.{
  Text, lookup, insert, lookup-insert, streq, streq_iff, ℕ, suc, ==_iff, Bool, Bool-cases,
  Option-cases, true, false, not, ◌&&◌, ◌≡◌, ◌≢◌, refl, ap, sym, ◌⊎◌, inl, inr, Option, none, some,
  arith,
}
use esconf.Platform.{Platform}
use esconf.Value.{GType, GValue}
use esconf.Value.Variant.{GVariant, ToVariant, esconf_gvalue_to_gvariant}
use esconf.Cache.{OldItem, Client, Answer, remove_pointer, tree_lookup}
use esconf.Cache.Change.{
  restarted, old_item_new, old_item_for, with_pointer, start_call, set_item, set_looked_up,
  looked_up, esconf_cache_set, is_unchanged, is_not_found,
}
use esconf.Cache.Safety.{Sound}
use esconf.Cache.Safety.Reply.{removed_kept, removed_lost}
use esconf.Cache.Safety.Start.{IsStart, start-IsSound}

-- The call with an old item that has other calls on their way.
restarted-IsStart :
    (property : Text) (o : ℕ) (i : OldItem) (val : GVariant) (c : Client)
    → Sound c
    → lookup property c.old_properties ≡ some o
    → c.old_items o ≡ some i
    → (i.property ≡ property) × (i.cancelled ≡ false)
    → IsStart c.pending_calls
        (remove_pointer i.cancellable c.pending_calls)
        c.old_properties
        c.old_properties
        c.fresh
        (suc c.fresh)
        c.calls
        o
        (record i {
          cancellable = c.fresh;
          variant = some val;
          pending_calls_count = suc i.pending_calls_count;
        })
restarted-IsStart property o i val c sound h at same = record {
  uncancelled = same.1;
  sending = refl;
  count = ground (arith, sound.counted o i at);
  room = ground (arith, sound.bounded o i at);
  new = omega arith;
  tabled = λ name u e. elim (==-cases u o) [
    | inl here ↦
        let (j, is, named, uncancelled, n) = sound.listed name u e in ground (arith, at, is, named)
    | inr elsewhere ↦ inr (elsewhere, e)
  ];
  kept = removed_kept sound at;
  lost = removed_lost sound at;
}
  where
    ==-cases : (u o : ℕ) → (u ≡ o) ⊎ (u ≢ o)
    ==-cases u o = ground (arith, ==_iff u o)

new-IsStart :
    (property : Text) (item : Option GValue) (val : GVariant) (c : Client)
    → Sound c
    → IsStart c.pending_calls c.pending_calls c.old_properties
        (insert property c.fresh c.old_properties)
        c.fresh
        (suc (suc c.fresh))
        c.calls
        c.fresh
        (record {
          property = property;
          item = item;
          cancellable = suc c.fresh;
          cancelled = false;
          pending_calls_count = 1;
          variant = some val;
        })
new-IsStart property item val c sound = record {
  uncancelled = refl;
  sending = refl;
  count = ap suc (
      sym (elim (Option-cases (c.old_items c.fresh)) [
        | inl e ↦ sound.idle c.fresh e
        | inr (j, e) ↦ absurd (omega (arith, sound.bounded c.fresh j e))
      ]));
  room = omega arith;
  new = omega arith;
  tabled = λ name u e. elim (Bool-cases (streq property name)) [
    | inl same ↦ inl (
      ground (arith, lookup-insert property name c.fresh c.old_properties),
      (streq_iff property name).0 same,
    )
    | inr other ↦
        old_entry name u (ground (arith, lookup-insert property name c.fresh c.old_properties))
  ];
  kept = λ k u e.
      let (j, is, (key, uncancelled, sending, n)) = sound.backed k u e in
      (λ here. omega (arith, sound.bounded u j is, here), e);
  lost = λ k u elsewhere e. e;
}
  where
    old_entry :
        (name : Text) (u : ℕ)
        → lookup name c.old_properties ≡ some u
        → ((u ≡ c.fresh) × (property ≡ name))
          ⊎ ((u ≢ c.fresh) × (lookup name c.old_properties ≡ some u))
    old_entry name u was =
        let (j, is, named, uncancelled, n) = sound.listed name u was in
        inr (λ here. omega (arith, sound.bounded u j is, here), was)

-- The item is known, and the value has a variant.
set_item-Sound :
    (p : Platform) (dbus : ToVariant) (property : Text) (value : GValue) (item : Option GValue)
    (val : GVariant) (c : Client)
    → esconf_gvalue_to_gvariant dbus value ≡ some val
    → Sound c
    → c.alive ≡ true
    → (r : Bool) × (c' : Client) × (set_item p dbus property value item c ≡ some (r, c'))
      × Sound c'
      × (c'.alive ≡ true)
unfolding set_item old_item_for restarted old_item_new start_call
set_item-Sound p dbus property value item val c sendable sound alive =
    elim (Option-cases (lookup property c.old_properties)) [
      | inl new ↦ (
        true,
        (start_call p property value item (some val)
            (with_pointer c.fresh (old_item_new property item c))).1,
        rw (new, set_item, old_item_for, sendable) refl,
        rw alive (start-IsSound (rw⁻¹ alive sound) (new-IsStart property item val c sound)),
        alive,
      )
      | inr (o, old) ↦
          let (i, at, named, uncancelled, n) = sound.listed property o old in
          (
            true,
            (start_call p property value item (some val) (
                with_pointer o (
                  record i { cancellable = c.fresh; variant = none },
                  record c {
                    pending_calls = remove_pointer i.cancellable c.pending_calls;
                    fresh = suc c.fresh;
                  },
                ))).1,
            rw (old, set_item, old_item_for, at, uncancelled, restarted, sendable) refl,
            rw alive (
                start-IsSound (rw⁻¹ alive sound)
                  (restarted-IsStart property o i val c sound old at (named, uncancelled))),
            alive,
          )
    ]

-- `esconf_cache_set`, whatever the daemon answers.
pub esconf_cache_set-Sound :
    (p : Platform) (transform : GValue → GType → Option GValue) (dbus : ToVariant) (property : Text)
    (value : GValue) (reply : Answer) (c : Client)
    → (val : GVariant) → esconf_gvalue_to_gvariant dbus value ≡ some val
    → Sound c
    → c.alive ≡ true
    → (r : Bool) × (c' : Client) × (esconf_cache_set p transform dbus property value reply c
        ≡ some (r, c'))
      × Sound c'
      × (c'.alive ≡ true)
unfolding esconf_cache_set set_looked_up
esconf_cache_set-Sound p transform dbus property value reply c val sendable sound alive =
    let l = looked_up transform property reply c.properties in
    let item = tree_lookup property l.items in
    elim (Bool-cases (not l.ret && not (is_not_found l.error))) [
      | inl failed ↦ (false, record c { properties = l.items }, rw failed refl, sound, alive)
      | inr found ↦ elim (Bool-cases (is_unchanged p item value)) [
        | inl same ↦ (true, record c { properties = l.items }, rw (found, same) refl, sound, alive)
        | inr other ↦
            let (r, c', eq, sound', alive') =
              set_item-Sound p dbus property value item val (record c { properties = l.items })
                sendable sound alive in
            (r, c', rw (found, other) eq, sound', alive')
      ]
    ]
