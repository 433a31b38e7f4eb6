-- ===== src/Cache/Laws.antt =====
-- What resets, lookups and the daemon's signals make of the cached items.
use esconf.Prelude.{
  Text, bytes, streq, streq_iff, streq_refl, HashTable, lookup, lookup-insert, lookup-remove,
  insert, remove, length, Bool, Bool-cases, Option-cases, true, false, ◌&&◌, ◌||◌, ◌≡◌, refl, ap,
  sym, ◌∙◌, inl, inr, Option, none, some, is_some, List, [], ◌∷◌, ◌++◌, if◌then◌else◌, arith,
}
use esconf.Platform.{Platform}
use esconf.Value.{GType, GValue, gvalue_is_equal}
use esconf.Value.Variant.{GVariant, esconf_gvariant_to_gvalue}
use esconf.Cache.{
  Client, esconf_cache_item_update, Answer, answer, failure, Lookup, tree_lookup, fetch_item,
  give_item, copy_item, esconf_cache_lookup_locked, esconf_cache_lookup, lookup_left,
}
use esconf.Cache.Change.{item_after}
use esconf.Cache.Signals.{ssv, handle_property_changed, item_changed, store_changed}
use esconf.Cache.Evict.{
  strncaseeq, collect_properties_recursive, remove_all, evicted, esconf_cache_reset,
}

-- Is a name among others?
abbrev among : Text → List Text → Bool
among name [] = false
among name (other ∷ names) = streq other name || among name names

lookup-remove_all :
    (name : Text) (names : List Text) (items : HashTable (Option GValue))
    → lookup name (remove_all names items) ≡ (if among name names then none else lookup name items)
unfolding remove_all
lookup-remove_all name [] items = refl
lookup-remove_all name (other ∷ names) items =
    ground
      (arith, lookup-remove_all name names (remove other items), lookup-remove other name items)

-- Is a name below a base?
abbrev pub is_below : Text → Text → Bool
is_below base name = strncaseeq (length base) base name

collected-among :
    (base name : Text) (items : HashTable (Option GValue))
    → among name (collect_properties_recursive base items)
      ≡ (is_below base name && is_some (lookup name items))
unfolding collect_properties_recursive lookup
collected-among base name [] = ground arith
collected-among base name ((key, item) ∷ items) =
    ground (arith, collected-among base name items, streq_iff key name, streq_iff name key)

-- A reset that the daemon carried out takes the property out of the cache, a recursive one also
-- those whose names begin, in any case of the letters, with its name and a slash; the others stay
-- as they are.
pub lookup-esconf_cache_reset :
    (base : Text) (recursive : Bool) (name : Text) (c : Client)
    → lookup name (esconf_cache_reset base recursive true c).1.properties ≡ (
        if streq base name || (recursive && is_below (base ++ bytes "/") name)
        then none
        else lookup name c.properties)
unfolding esconf_cache_reset evicted
lookup-esconf_cache_reset base false name c = ground (arith, lookup-remove base name c.properties)
lookup-esconf_cache_reset base true name c =
    let rest = remove base c.properties in
    ground (
      arith,
      lookup-remove base name c.properties,
      lookup-remove_all name (collect_properties_recursive (base ++ bytes "/") rest) rest,
      collected-among (base ++ bytes "/") name rest,
    )

stored-properties :
    (property : Text) (value : Option GValue) (r : Bool × Option GValue) (c : Client)
    → (store_changed property value r c).properties ≡ insert property r.1 c.properties
stored-properties property value (true, item) c = refl
stored-properties property value (false, item) c = refl

item_changed-item_after :
    (p : Platform) (item : Option GValue) (value : GValue)
    → (item_changed p item (some value)).1 ≡ some (item_after p item value)
unfolding item_changed item_after
item_changed-item_after p none value = refl
item_changed-item_after p (some item) value = refl

tree_lookup-insert :
    (property name : Text) (item : Option GValue) (items : HashTable (Option GValue))
    → tree_lookup name (insert property item items)
      ≡ (if streq property name then item else tree_lookup name items)
unfolding tree_lookup
tree_lookup-insert property name item items = ground (arith, lookup-insert property name item items)

-- What the cache shall have for a property that the daemon says to have a value: the item that it has,
-- if this one is equal, and the value otherwise.
abbrev pub current : Platform → Option GValue → GValue → GValue
current p none value = value
current p (some item) value = if gvalue_is_equal p item value then item else value

item_after-eq-current :
    (p : Platform) (item : Option GValue) (value : GValue)
    → item_after p item value ≡ current p item value
unfolding item_after esconf_cache_item_update
item_after-eq-current p none value = refl
item_after-eq-current p (some item) value = elim (Bool-cases (gvalue_is_equal p item value)) [
  | inl e ↦ ground (arith, e)
  | inr e ↦ ground (arith, e)
]

-- Behind the daemon's signal that a property of the channel has a value, with no call for it on
-- its way, the cache has for the property the item that it had, if there was one and it is equal
-- to the value, and the value otherwise; for the others it has what it had.
pub tree_lookup-handle_property_changed :
    (p : Platform) (property name : Text) (variant : GVariant) (value : GValue) (c : Client)
    → lookup property c.old_properties ≡ none
    → esconf_gvariant_to_gvalue variant ≡ some value
    → tree_lookup name
        (handle_property_changed p (ssv c.channel_name property variant) c).properties
      ≡ (if streq property name
          then some (current p (tree_lookup property c.properties) value)
          else tree_lookup name c.properties)
unfolding handle_property_changed
tree_lookup-handle_property_changed p property name variant value c free is =
    rw (streq_refl c.channel_name, free, is)
      (ap (tree_lookup name) (
          stored-properties property (some value)
            (item_changed p (tree_lookup property c.properties) (some value)) c)
        ∙ tree_lookup-insert property name
            (item_changed p (tree_lookup property c.properties) (some value)).1 c.properties
        ∙ ap (λ item. if streq property name then item else tree_lookup name c.properties)
            (item_changed-item_after p (tree_lookup property c.properties) value
              ∙ ap some (item_after-eq-current p (tree_lookup property c.properties) value)))

give_item-items :
    (transform : GValue → GType → Option GValue) (value item : Option GValue)
    (error : Option (Option Text)) (items : HashTable (Option GValue))
    → (give_item transform value ((item, error), items)).items ≡ items
unfolding give_item
give_item-items transform value none error items = refl
give_item-items transform none (some item) error items = refl
give_item-items transform (some value) (some item) error items = go (copy_item transform item value)
  where
    go :
        (copied : Option GValue)
        → Lookup.items (elim copied as (λ x. Lookup) [
          | some v ↦ record { ret = true; value = some v; error = error; items = items }
          | none ↦ record { ret = false; value = some value; error = error; items = items }
        ])
          ≡ items
    go none = refl
    go (some v) = refl

give_item-missing :
    (transform : GValue → GType → Option GValue) (value : Option GValue)
    (error : Option (Option Text)) (items : HashTable (Option GValue))
    → (give_item transform value ((none, error), items)).ret ≡ false
unfolding give_item
give_item-missing transform value error items = refl

-- What is cached is not asked for.
give_item-cached :
    (transform : GValue → GType → Option GValue) (property : Text) (again : Answer)
    (value : Option GValue) (item : GValue) (items : HashTable (Option GValue))
    → tree_lookup property items ≡ some item
    → (l : Lookup) → l.items ≡ items
    → give_item transform value (fetch_item property again (tree_lookup property l.items) l.items)
      ≡ give_item transform value ((some item, none), items)
unfolding fetch_item
give_item-cached transform property again value item items is l same = rw (same, is) refl

-- A lookup that found a value does the same again, whatever the daemon would answer then.
asked_again :
    (transform : GValue → GType → Option GValue) (property : Text) (reply again : Answer)
    (value item : Option GValue) (items : HashTable (Option GValue))
    → tree_lookup property items ≡ item
    → (l : Lookup) → l ≡ give_item transform value (fetch_item property reply item items)
    → l.ret ≡ true
    → give_item transform value (fetch_item property again (tree_lookup property l.items) l.items)
      ≡ l
unfolding fetch_item
asked_again transform property reply again value (some item) items is l from h =
    give_item-cached transform property again value item items is l
      (ap (λ x. x.items) from ∙ give_item-items transform value (some item) none items)
    ∙ sym from
asked_again transform property (failure name) again value none items is l from h =
    absurd (
      ground (arith, h, ap (λ x. x.ret) from ∙ give_item-missing transform value (some name) items))
asked_again transform property (answer variant) again value none items is l from h =
    elim (Option-cases (esconf_gvariant_to_gvalue variant)) [
      | inl null ↦ absurd (
          ground (
            arith,
            h,
            ap (λ x. x.ret) (rw null at from)
                ∙ give_item-missing transform value none (insert property none items),
          ))
      | inr (item, arrived) ↦
          let from' = rw arrived at from in
          give_item-cached transform property again value item (insert property (some item) items)
            (tree_lookup-insert property property (some item) items ∙ rw (streq_refl property) refl)
            l
            (ap (λ x. x.items) from'
              ∙ give_item-items transform value (some item) none
                  (insert property (some item) items))
          ∙ sym from'
    ]

-- A look-up that found a value gives the same again and leaves the cache as it is, whatever the
-- daemon would answer then.
pub esconf_cache_lookup_again :
    (transform : GValue → GType → Option GValue) (property : Text) (reply again : Answer)
    (value : Option GValue) (c : Client)
    → (esconf_cache_lookup transform property reply value c).0.ret ≡ true
    → esconf_cache_lookup transform property again value
        (esconf_cache_lookup transform property reply value c).1
      ≡ esconf_cache_lookup transform property reply value c
unfolding esconf_cache_lookup esconf_cache_lookup_locked
esconf_cache_lookup_again transform property reply again value c h =
    let l =
      give_item transform value
        (fetch_item property reply (tree_lookup property c.properties) c.properties) in
    ap (λ m. lookup_left (record c { properties = l.items }) m)
      (asked_again transform property reply again value (tree_lookup property c.properties)
        c.properties refl l refl h)
