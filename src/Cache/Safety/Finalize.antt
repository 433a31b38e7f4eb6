-- ===== src/Cache/Safety/Finalize.antt =====
-- esconf_cache_finalize on a state that keeps the invariant.
use esconf.Prelude.{
  lookup, ℕ, ◌==◌, ==_iff, ◌<◌, Bool-cases, true, false, ◌&&◌, ◌||◌, ◌≡◌, refl, sym, ap, ◌∙◌, ◌⊎◌,
  inl, inr, Option-cases, none, some, is_some, List, [], ◌∷◌, arith,
}
use esconf.Cache.{OldItem, Client}
use esconf.Cache.Change.{put_old, end_call, end_calls, esconf_cache_finalize}
use esconf.Cache.Safety.{IsSound, Sound, has_call, update_cases}

-- An old item whose call may have been ended, and is not otherwise touched.
pub record IsEnding (i j : OldItem) : Type 0 where
  pub property : j.property ≡ i.property
  pub cancellable : j.cancellable ≡ i.cancellable
  pub count : j.pending_calls_count ≡ i.pending_calls_count
  pub variant : j.variant ≡ i.variant
  pub cancelled : i.cancelled ≡ true → j.cancelled ≡ true

-- What the loop over the pending calls does to a state.
pub record IsEnded (c c' : Client) : Type 0 where
  pub kept :
      (o : ℕ) (i : OldItem)
      → c.old_items o ≡ some i
      → (j : OldItem) × (c'.old_items o ≡ some j) × IsEnding i j
  pub idle : (o : ℕ) → c.old_items o ≡ none → c'.old_items o ≡ none
  pub fresh : c'.fresh ≡ c.fresh
  pub calls : (o : ℕ) → c'.calls o ≡ c.calls o

IsEnded-refl : (c : Client) → IsEnded c c
IsEnded-refl c = record {
  kept = λ o i e. (
    i,
    e,
    record {
      property = refl;
      cancellable = refl;
      count = refl;
      variant = refl;
      cancelled = λ h. h;
    },
  );
  idle = λ o e. e;
  fresh = refl;
  calls = λ o. refl;
}

IsEnded-trans : (c d e : Client) → IsEnded c d → IsEnded d e → IsEnded c e
IsEnded-trans c d e f g = record {
  kept = λ o i at.
      let (j, at', m) = f.kept o i at in
      let (l, at'', n) = g.kept o j at' in
      (
        l,
        at'',
        record {
          property = n.property ∙ m.property;
          cancellable = n.cancellable ∙ m.cancellable;
          count = n.count ∙ m.count;
          variant = n.variant ∙ m.variant;
          cancelled = λ h. n.cancelled (m.cancelled h);
        },
      );
  idle = λ o h. g.idle o (f.idle o h);
  fresh = g.fresh ∙ f.fresh;
  calls = λ o. g.calls o ∙ f.calls o;
}

-- One call is ended: its old item is cancelled.
end_call-IsEnded :
    (o : ℕ) (i : OldItem) (c : Client)
    → c.old_items o ≡ some i
    → is_some i.variant ≡ true
    → (c' : Client) × (j : OldItem) × (end_call o i c ≡ some c')
      × IsEnded c c'
      × (c'.old_items o ≡ some j)
      × (j.cancelled ≡ true)
unfolding end_call
end_call-IsEnded o i c at sending = elim (Bool-cases i.cancelled) [
  | inl dead ↦ (c, i, rw dead refl, IsEnded-refl c, at, dead)
  | inr live ↦ elim (Option-cases i.variant) [
    | inl unsent ↦ absurd (ground (arith, sending, unsent))
    | inr (val, sent) ↦ (
      put_old o (some (record i { cancelled = true }))
          (record c { sent = (i.property, val) ∷ c.sent }),
      record i { cancelled = true },
      rw (live, sent) refl,
      record {
        kept = λ u j e. elim (update_cases o (some (record i { cancelled = true })) c.old_items u) [
          | inl (here, is) ↦
              (record i { cancelled = true }, is, ended (ground (arith, at, e, here)))
          | inr (elsewhere, is) ↦ (
            j,
            is ∙ e,
            record {
              property = refl;
              cancellable = refl;
              count = refl;
              variant = refl;
              cancelled = λ h. h;
            },
          )
        ];
        idle = λ u e. ground (arith, ==_iff u o, at);
        fresh = refl;
        calls = λ u. refl;
      },
      ground (arith, ==_iff o o),
      refl,
    )
  ]
]
  where
    ended : {j : OldItem} → j ≡ i → IsEnding j (record i { cancelled = true })
    ended same = record {
      property = ap (λ l. l.property) (sym same);
      cancellable = ap (λ l. l.cancellable) (sym same);
      count = ap (λ l. l.pending_calls_count) (sym same);
      variant = ap (λ l. l.variant) (sym same);
      cancelled = λ h. refl;
    }

abbrev IsCancelled : ℕ → Client → Type 0
IsCancelled o c = (j : OldItem) × (c.old_items o ≡ some j) × (j.cancelled ≡ true)

abbrev CanEnd : List (ℕ × ℕ) → Client → Type 0
CanEnd pending c =
    (k o : ℕ)
    → has_call k o pending ≡ true
    → (i : OldItem) × (c.old_items o ≡ some i) × (is_some i.variant ≡ true)

IsEnded-CanEnd :
    (pending : List (ℕ × ℕ)) (c d : Client) → IsEnded c d → CanEnd pending c → CanEnd pending d
IsEnded-CanEnd pending c d f h k o e =
    let (i, at, sending) = h k o e in
    let (j, at', same) = f.kept o i at in (j, at', ap is_some same.variant ∙ sending)

IsEnded-IsCancelled : (o : ℕ) (c d : Client) → IsEnded c d → IsCancelled o c → IsCancelled o d
IsEnded-IsCancelled o c d f (i, at, h) =
    let (j, at', same) = f.kept o i at in (j, at', same.cancelled h)

IsCancelled-at : (o u : ℕ) (c : Client) → o ≡ u → IsCancelled o c → IsCancelled u c
IsCancelled-at o u c e h = rw⁻¹ e h

end_calls-IsEnded :
    (pending : List (ℕ × ℕ)) (c : Client)
    → CanEnd pending c
    → (c' : Client) × (end_calls pending c ≡ some c')
      × IsEnded c c'
      × ((k o : ℕ) → has_call k o pending ≡ true → IsCancelled o c')
unfolding end_calls has_call
end_calls-IsEnded [] c h = (c, refl, IsEnded-refl c, λ k o e. ground (arith, e))
end_calls-IsEnded ((k, o) ∷ pending) c h =
    let (i, at, sending) = h k o (ground (arith, ==_iff k k, ==_iff o o)) in
    let (d, j, one, f, at', dead) = end_call-IsEnded o i c at sending in
    let (c', rest, g, all_dead) =
      end_calls-IsEnded pending d
        (IsEnded-CanEnd pending c d f (λ l u e. h l u (ground (arith, e)))) in
    (
      c',
      rw (at, one) rest,
      IsEnded-trans c d c' f g,
      λ l u e. elim (entry l u e) [
        | inl here ↦ IsCancelled-at o u c' here (IsEnded-IsCancelled o d c' g (j, at', dead))
        | inr later ↦ all_dead l u later
      ],
    )
  where
    entry :
        (l u : ℕ)
        → ((k == l && o == u) || has_call l u pending) ≡ true
        → (o ≡ u) ⊎ (has_call l u pending ≡ true)
    entry l u e = ground (arith, e, ==_iff o u)

-- What is left when the cache is freed: the replies that are still to come find their old items, and
-- find them cancelled.
freed-IsSound :
    (c c' : Client)
    → Sound c
    → IsEnded c c'
    → ((k o : ℕ) → has_call k o c.pending_calls ≡ true → IsCancelled o c')
    → IsSound false [] [] c'.old_items c'.fresh c'.calls
unfolding has_call lookup
freed-IsSound c c' sound f dead = record {
  counted = λ o j e.
      let (i, at, same) = before o j e in f.calls o ∙ sound.counted o i at ∙ sym same.count;
  idle = λ o e. elim (Option-cases (c.old_items o)) [
    | inl at ↦ f.calls o ∙ sound.idle o at
    | inr (i, at) ↦ let (j, is, same) = f.kept o i at in absurd (ground (arith, is, e))
  ];
  listed = λ property o e. ground (arith, e);
  entered = λ o j e live n.
      let (i, at, same) = before o j e in
      absurd (
        was_ended o i j at e live (ground (arith, same.cancelled, live))
          (omega (arith, same.count, n)));
  backed = λ k o e. ground (arith, e);
  bounded = λ o j e.
      let (i, at, same) = before o j e in rw (f.fresh, same.cancellable) (sound.bounded o i at);
  distinct = λ o u j l e g h.
      let (i, at, same) = before o j e in
      let (m, is, alike) = before u l g in
      sound.distinct o u i m at is (sym same.cancellable ∙ h ∙ alike.cancellable);
}
  where
    IsEnding_of : (i : OldItem) {j l : OldItem} → l ≡ j → IsEnding i l → IsEnding i j
    IsEnding_of i same h = rw⁻¹ same h

    before :
        (o : ℕ) (j : OldItem)
        → c'.old_items o ≡ some j
        → (i : OldItem) × (c.old_items o ≡ some i) × IsEnding i j
    before o j e = elim (Option-cases (c.old_items o)) [
      | inl at ↦ absurd (ground (arith, f.idle o at, e))
      | inr (i, at) ↦
          let (l, is, same) = f.kept o i at in (i, at, IsEnding_of i (ground (arith, is, e)) same)
    ]

    was_ended :
        (o : ℕ) (i j : OldItem)
        → c.old_items o ≡ some i
        → c'.old_items o ≡ some j
        → j.cancelled ≡ false
        → i.cancelled ≡ false
        → 0 < i.pending_calls_count
        → ⊥
    was_ended o i j at is live was n =
        let (l, at', h) = dead i.cancellable o (sound.entered o i at was n).1 in
        ground (arith, at', is, h, live)

-- The cache's end never uses freed memory.
pub esconf_cache_finalize-Sound :
    (c : Client)
    → Sound c
    → (c' : Client) × (esconf_cache_finalize c ≡ some c') × Sound c' × (c'.alive ≡ false)
unfolding esconf_cache_finalize
esconf_cache_finalize-Sound c sound =
    let (c', ended, f, dead) = end_calls-IsEnded c.pending_calls c (λ k o e.
      let (i, at, (key, uncancelled, sending, n)) = sound.backed k o e in (i, at, sending)) in
    (
      record c' { alive = false; properties = []; pending_calls = []; old_properties = [] },
      rw ended refl,
      freed-IsSound c c' sound f dead,
      refl,
    )
