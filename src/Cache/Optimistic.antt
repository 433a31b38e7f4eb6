-- ===== src/Cache/Optimistic.antt =====
-- What a client sees of one property while its changes are on their way: an abstract transaction, and
-- the cache as an implementation of it.
use esconf.Prelude.{
  Text, HashTable, lookup, lookup-insert, lookup-remove, insert, remove, streq_refl, ℕ, zero, suc,
  ◌-◌, ==_iff, ltb, Bool, Bool-cases, Option-cases, true, false, not, ◌&&◌, ◌≡◌, refl, ap, ◌∙◌, inl,
  inr, Option, none, some, if◌then◌else◌, arith,
}
use esconf.Platform.{Platform}
use esconf.Value.{GType, GValue, unset, gvalue_is_equal}
use esconf.Value.Variant.{GVariant, ToVariant, esconf_gvalue_to_gvariant}
use esconf.Cache.{
  OldItem, Client, Answer, answer, failure, Lookup, fetch_item, give_item,
  esconf_cache_lookup_locked, remove_pointer, tree_lookup, esconf_cache_item_update,
}
use esconf.Cache.Change.{
  put_old, restarted, old_item_new, old_item_for, with_pointer, start_call, set_item, set_looked_up,
  looked_up, esconf_cache_set, is_not_found, is_unchanged, item_after, set_property_reply_handler,
  last_reply, committed, rolled_back, forgotten,
}
use esconf.Cache.Safety.Handler.{arrived}

-- A property is settled at its value, or it is changing: from the value that the daemon has, to the
-- value that is shown, with one or more calls on their way.
pub data Transaction : Type 0 where
  settled : Option GValue → Transaction
  changing : Option GValue → GValue → ℕ → Transaction

abbrev pub shown : Transaction → Option GValue
shown (settled item) = item
shown (changing old item n) = some item

-- A change, of several ones the last one counts.
abbrev pub change : GValue → Transaction → Transaction
change value (settled item) = changing item value 1
change value (changing old item n) = changing old value (suc n)

-- The value that a failed change is taken back to; a value that is equal to it stays.
abbrev pub taken_back : Platform → GValue → Option GValue → Option GValue
taken_back p item none = none
taken_back p item (some old) = if gvalue_is_equal p item old then some item else some old

-- A reply: the last one decides.
abbrev pub answered : Platform → Bool → Transaction → Transaction
answered p result (settled item) = settled item
answered p result (changing old item (suc (suc n))) = changing old item (suc n)
answered p true (changing old item _) = settled (some item)
answered p false (changing old item _) = settled (taken_back p item old)

-- The cache stores the transaction of a property.
pub record IsChanging (property : Text) (old : Option GValue) (n : ℕ) (o : ℕ) (i : OldItem)
    (c : Client) : Type 0 where
  pub listed : lookup property c.old_properties ≡ some o
  pub stored : c.old_items o ≡ some i
  pub named : i.property ≡ property
  pub kept : i.item ≡ old
  pub uncancelled : i.cancelled ≡ false
  pub count : i.pending_calls_count ≡ n

abbrev pub Shows : Text → Client → Transaction → Type 0
Shows property c (settled item) =
    (lookup property c.old_properties ≡ none) × (tree_lookup property c.properties ≡ item)
Shows property c (changing old item n) =
    (o : ℕ) × (i : OldItem) × IsChanging property old n o i c
    × (tree_lookup property c.properties ≡ some item)

lookup-inserted :
    (property : Text) (v : Option GValue) (d : HashTable (Option GValue))
    → tree_lookup property (insert property v d) ≡ v
unfolding tree_lookup
lookup-inserted property v d = rw (lookup-insert property property v d, streq_refl property) refl

lookup-removed :
    (property : Text) (d : HashTable (Option GValue))
    → tree_lookup property (remove property d) ≡ none
unfolding tree_lookup
lookup-removed property d = rw (lookup-remove property property d, streq_refl property) refl

item_after-changed :
    (p : Platform) (item : Option GValue) (value : GValue)
    → is_unchanged p item value ≡ false
    → item_after p item value ≡ value
unfolding item_after esconf_cache_item_update is_unchanged
item_after-changed p none value h = refl
item_after-changed p (some item) value h = ground (arith, h)

pub shown-lookup :
    (property : Text) (c : Client) (t : Transaction)
    → Shows property c t
    → tree_lookup property c.properties ≡ shown t
shown-lookup property c (settled item) h = h.1
shown-lookup property c (changing old item n) h = h.3

-- The daemon is not asked for the value, or it says that there is none.
abbrev pub IsKnown : Answer → Option GValue → Type 0
IsKnown reply (some item) = Unit
IsKnown (failure name) none = is_not_found (some name) ≡ true
IsKnown (answer variant) none = ⊥

-- A change of a value is a change of the transaction.
pub set_item-Shows :
    (p : Platform) (dbus : ToVariant) (property : Text) (value : GValue) (val : GVariant)
    (c : Client) (t : Transaction)
    → esconf_gvalue_to_gvariant dbus value ≡ some val
    → is_unchanged p (shown t) value ≡ false
    → Shows property c t
    → (c' : Client) × (set_item p dbus property value (shown t) c ≡ some (true, c'))
      × Shows property c' (change value t)
unfolding set_item old_item_for restarted old_item_new start_call
set_item-Shows p dbus property value val c (settled item) sendable new (free, is) = (
  (start_call p property value item (some val)
      (with_pointer c.fresh (old_item_new property item c))).1,
  rw (free, set_item, old_item_for, sendable) refl,
  (
    c.fresh,
    record {
      property = property;
      item = item;
      cancellable = suc c.fresh;
      cancelled = false;
      pending_calls_count = 1;
      variant = some val;
    },
    record {
      listed =
          rw (lookup-insert property property c.fresh c.old_properties, streq_refl property) refl;
      stored = ground (arith, ==_iff c.fresh c.fresh);
      named = refl;
      kept = refl;
      uncancelled = refl;
      count = refl;
    },
    lookup-inserted property _ c.properties ∙ ap some (item_after-changed p item value new),
  ),
)
set_item-Shows p dbus property value val c (changing old item n) sendable new (o, i, h, is) = (
  (start_call p property value (some item) (some val) (
      with_pointer o (
        record i { cancellable = c.fresh; variant = none },
        record c {
          pending_calls = remove_pointer i.cancellable c.pending_calls;
          fresh = suc c.fresh;
        },
      ))).1,
  rw (h.listed, set_item, old_item_for, h.stored, h.uncancelled, restarted, sendable) refl,
  (
    o,
    record i {
      cancellable = c.fresh;
      variant = some val;
      pending_calls_count = suc i.pending_calls_count;
    },
    record {
      listed = h.listed;
      stored = ground (arith, ==_iff o o);
      named = h.named;
      kept = h.kept;
      uncancelled = h.uncancelled;
      count = ap suc h.count;
    },
    lookup-inserted property _ c.properties ∙ ap some (item_after-changed p (some item) value new),
  ),
)

-- What a set looks up leaves the cache as it is, when the value is cached or the daemon has none.
abbrev IsHarmless : HashTable (Option GValue) → Lookup → Type 0
IsHarmless items l = (l.items ≡ items) × ((not l.ret && not (is_not_found l.error)) ≡ false)

asked_in_vain :
    (transform : GValue → GType → Option GValue) (property : Text) (name : Option Text)
    (value : Option GValue) (items : HashTable (Option GValue))
    → tree_lookup property items ≡ none
    → esconf_cache_lookup_locked transform property (failure name) value items
      ≡ record { ret = false; value = value; error = some name; items = items }
unfolding esconf_cache_lookup_locked fetch_item give_item
asked_in_vain transform property name value items missing =
    ap (λ item. give_item transform value (fetch_item property (failure name) item items)) missing

looked_up-known :
    (transform : GValue → GType → Option GValue) (property : Text) (reply : Answer)
    (items : HashTable (Option GValue))
    → IsKnown reply (tree_lookup property items)
    → IsHarmless items (looked_up transform property reply items)
unfolding looked_up esconf_cache_lookup_locked fetch_item give_item
looked_up-known transform property (answer variant) items known =
    elim (Option-cases (tree_lookup property items)) [
      | inr (item, at) ↦ rw (at, looked_up) (refl, refl)
      | inl missing ↦ absurd (rw missing at known)
    ]
looked_up-known transform property (failure name) items known =
    elim (Option-cases (tree_lookup property items)) [
      | inr (item, at) ↦ rw (at, looked_up) (refl, refl)
      | inl missing ↦
          rw (missing, looked_up, asked_in_vain transform property name (some unset) items missing)
            (refl, ground (arith, rw missing at known))
    ]

-- esconf_cache_set of a value that has a variant and differs from the one that is shown, on a
-- property that is cached or that the daemon does not have, implements a change of the abstract
-- transaction: it succeeds, the new value is shown at once, the value that the daemon has is kept
-- from the first change on, and the calls are counted.
pub esconf_cache_set-Shows :
    (p : Platform) (transform : GValue → GType → Option GValue) (dbus : ToVariant) (property : Text)
    (value : GValue) (reply : Answer) (val : GVariant) (c : Client) (t : Transaction)
    → IsKnown reply (tree_lookup property c.properties)
    → esconf_gvalue_to_gvariant dbus value ≡ some val
    → is_unchanged p (shown t) value ≡ false
    → Shows property c t
    → (c' : Client) × (esconf_cache_set p transform dbus property value reply c ≡ some (true, c'))
      × Shows property c' (change value t)
unfolding esconf_cache_set set_looked_up
esconf_cache_set-Shows p transform dbus property value reply val c t known sendable new h =
    let l = looked_up transform property reply c.properties in
    let (same, found) = looked_up-known transform property reply c.properties known in
    let (c', eq, h') = set_item-Shows p dbus property value val c t sendable new h in
    (c', rw (found, same, shown-lookup property c t h, new) eq, h')

-- The values that a roll-back leaves.
rolled_back-lookup :
    (p : Platform) (property : Text) (item : GValue) (old : Option GValue) (c : Client)
    → tree_lookup property (rolled_back p property item old c).properties ≡ taken_back p item old
unfolding rolled_back esconf_cache_item_update
rolled_back-lookup p property item none c = lookup-removed property c.properties
rolled_back-lookup p property item (some old) c = elim (Bool-cases (gvalue_is_equal p item old)) [
  | inl same ↦ lookup-inserted property _ c.properties ∙ ground (arith, same)
  | inr other ↦ lookup-inserted property _ c.properties ∙ ground (arith, other)
]

rolled_back-named :
    (p : Platform) {property property' : Text} (item : GValue) {old old' : Option GValue}
    → property' ≡ property
    → old' ≡ old
    → (c : Client)
    → tree_lookup property (rolled_back p property' item old' c).properties ≡ taken_back p item old
rolled_back-named p {property} {property'} item {old} {old'} named kept c =
    rw (named, kept) (rolled_back-lookup p property item old c)

rolled_back-old_properties :
    (p : Platform) (property : Text) (item : GValue) (old : Option GValue) (c : Client)
    → (rolled_back p property item old c).old_properties ≡ c.old_properties
unfolding rolled_back
rolled_back-old_properties p property item none c = refl
rolled_back-old_properties p property item (some old) c = refl

abbrev lower : OldItem → OldItem
lower i = record i { pending_calls_count = i.pending_calls_count - 1 }

-- On a live cache, the handler of a reply for a property that is changing implements a reply to
-- the abstract transaction: it does not fail, all replies but the last one change nothing that is
-- shown, and the last one settles the property, at the value that is shown if it is a success,
-- and else at the value from before the first change, which is removed if there was none and left
-- as it is if it counts as equal.
pub set_property_reply_handler-Shows :
    (p : Platform) (result : Bool) (property : Text) (old : Option GValue) (item : GValue) (n : ℕ)
    (o : ℕ) (i : OldItem) (c : Client)
    → c.alive ≡ true
    → IsChanging property old (suc n) o i c
    → tree_lookup property c.properties ≡ some item
    → (c' : Client) × (set_property_reply_handler p result o (arrived o c) ≡ some c')
      × Shows property c' (answered p result (changing old item (suc n)))
unfolding set_property_reply_handler last_reply committed
set_property_reply_handler-Shows p result property old item (suc n) o i c alive h is =
    let more : ltb 0 (i.pending_calls_count - 1) ≡ true = ground (arith, h.count) in
    (
      put_old o (some (lower i)) (arrived o c),
      rw (h.stored, more) refl,
      (
        o,
        lower i,
        record {
          listed = h.listed;
          stored = ground (arith, ==_iff o o);
          named = h.named;
          kept = h.kept;
          uncancelled = h.uncancelled;
          count = omega (arith, h.count);
        },
        is,
      ),
    )
set_property_reply_handler-Shows p result property old item zero o i c alive h is =
    let last : ltb 0 (i.pending_calls_count - 1) ≡ false = ground (arith, h.count) in
    let at : tree_lookup i.property c.properties ≡ some item = rw h.named is in
    let end = committed p result o (lower i) (some item) (forgotten (lower i) (arrived o c)) in
    (end, rw (h.stored, last, h.uncancelled, alive, at) refl, ended result)
  where
    free : lookup property (remove i.property c.old_properties) ≡ none
    free = rw (h.named, lookup-remove property property c.old_properties, streq_refl property) refl

    back :
        tree_lookup property
          (rolled_back p i.property item i.item (forgotten (lower i) (arrived o c))).properties
        ≡ taken_back p item old
    back = rolled_back-named p item h.named h.kept (forgotten (lower i) (arrived o c))

    ended :
        (r : Bool)
        → Shows property
            (committed p r o (lower i) (some item) (forgotten (lower i) (arrived o c)))
            (answered p r (changing old item 1))
    ended true = (free, is)
    ended false = (
      ap (lookup property) (
            rolled_back-old_properties p i.property item i.item (forgotten (lower i) (arrived o c)))
          ∙ free,
      back,
    )
