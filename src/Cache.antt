-- ===== src/Cache.antt =====
-- The client's cache of one channel, esconf/esconf-cache.c: its state, the store of old items, and
-- `esconf_cache_lookup`.
pub mod Change
pub mod Signals
pub mod Evict
pub mod Safety
pub mod Optimistic
pub mod Laws
use esconf.Prelude.{
  Text, HashTable, lookup, insert, ℕ, suc, ◌+◌, ◌==◌, Bool, true, false, Option, none, some, ◌>>=◌,
  is_some, List, [], ◌∷◌, if◌then◌else◌,
}
use esconf.Platform.{Platform}
use esconf.Value.{
  GType, GValue, g_value_type, is_set, gvalue_is_equal, string, uchar, uint, uint64, uint16, char,
  int, int64, int16, float, double, boolean, ptr_array, strv, unset,
}
use esconf.Value.Variant.{GVariant, esconf_gvariant_to_gvalue}

-- `EsconfCacheOldItem`, with the state of its cancellable. `item` is the value that the property had
-- before the first call that has not returned.
pub record OldItem : Type 0 where
  pub property : Text
  pub item : Option GValue
  pub cancellable : ℕ
  pub cancelled : Bool
  pub pending_calls_count : ℕ
  pub variant : Option GVariant

-- `_EsconfCache` together with what it shares with the main loop. A pointer is a number. `alive` is
-- false when the cache is freed; `old_items` are the ones that are allocated, `fresh` is a pointer
-- that was never given. `calls` counts for every old item the replies that are still to come;
-- `sent` are the messages to the daemon and `signals` the emissions, each with the newest in front.
-- An item of `properties` may be NULL; a NULL value in a signal is `none`.
pub record Client : Type 0 where
  pub alive : Bool
  pub channel_name : Text
  pub properties : HashTable (Option GValue)
  pub pending_calls : List (ℕ × ℕ)
  pub old_properties : HashTable ℕ
  pub old_items : ℕ → Option OldItem
  pub fresh : ℕ
  pub calls : ℕ → ℕ
  pub sent : List (Text × GVariant)
  pub signals : List (Text × Option GValue)

-- What is stored at a pointer, after a store of `v` at `o`.
abbrev pub update {ℓ} : {A : Type ℓ} → ℕ → A → (ℕ → A) → ℕ → A
update o v h j = if j == o then v else h j

-- `g_hash_table_insert` and `g_hash_table_remove` with a pointer for a key.
unfoldable pub insert_pointer : ℕ → ℕ → List (ℕ × ℕ) → List (ℕ × ℕ)
insert_pointer k v [] = (k, v) ∷ []
insert_pointer k v ((j, w) ∷ d) = if j == k then (j, v) ∷ d else (j, w) ∷ insert_pointer k v d

unfoldable pub remove_pointer : ℕ → List (ℕ × ℕ) → List (ℕ × ℕ)
remove_pointer k [] = []
remove_pointer k ((j, w) ∷ d) =
    let rest = remove_pointer k d in if j == k then rest else (j, w) ∷ rest

-- `esconf_cache_init` for a channel.
abbrev pub esconf_cache_new : Text → Client
esconf_cache_new channel = record {
  alive = true;
  channel_name = channel;
  properties = [];
  pending_calls = [];
  old_properties = [];
  old_items = λ o. none;
  fresh = 0;
  calls = λ o. 0;
  sent = [];
  signals = [];
}

-- `g_tree_lookup`: a key that is missing and an item that is NULL look alike.
abbrev pub item_at : Option (Option GValue) → Option GValue
item_at none = none
item_at (some item) = item

unfoldable pub tree_lookup : Text → HashTable (Option GValue) → Option GValue
tree_lookup property properties = item_at (lookup property properties)

-- `esconf_cache_item_update`: did the item change, and what is its value now?
unfoldable pub esconf_cache_item_update : Platform → GValue → Option GValue → Bool × GValue
esconf_cache_item_update p item none = (false, item)
esconf_cache_item_update p item (some value) =
    if gvalue_is_equal p item value then (false, item) else (true, value)

-- What the daemon answers to GetProperty: a variant, or an error with its name on the bus where it
-- comes from the daemon.
pub data Answer : Type 0 where
  answer : GVariant → Answer
  failure : Option Text → Answer

-- A result of `esconf_cache_lookup_locked`: what it returns, the caller's value, the error that it
-- sets and the items that it leaves.
pub record Lookup : Type 0 where
  pub ret : Bool
  pub value : Option GValue
  pub error : Option (Option Text)
  pub items : HashTable (Option GValue)

unfoldable pub same_type : GType → GType → Bool
same_type GType.invalid GType.invalid = true
same_type GType.void GType.void = true
same_type GType.string GType.string = true
same_type GType.uchar GType.uchar = true
same_type GType.char GType.char = true
same_type GType.uint GType.uint = true
same_type GType.int GType.int = true
same_type GType.uint64 GType.uint64 = true
same_type GType.int64 GType.int64 = true
same_type GType.float GType.float = true
same_type GType.double GType.double = true
same_type GType.boolean GType.boolean = true
same_type GType.uint16 GType.uint16 = true
same_type GType.int16 GType.int16 = true
same_type GType.ptr_array GType.ptr_array = true
same_type GType.strv GType.strv = true
same_type _ _ = false

-- The caller's value after an item is copied into it; `none` where the item does not fit. A value
-- without a type takes the item's. `transform` is `g_value_transform`.
unfoldable pub copy_item : (GValue → GType → Option GValue) → GValue → GValue → Option GValue
copy_item transform item unset = some item
copy_item transform (ptr_array vs) value =
    if same_type (g_value_type value) GType.ptr_array then some (ptr_array vs) else none
copy_item transform item value =
    if same_type (g_value_type value) (g_value_type item)
    then some item
    else transform item (g_value_type value)

-- The item of a property: the cached one, or the daemon's, which is cached then.
unfoldable pub fetch_item :
    Text
    → Answer
    → Option GValue
    → HashTable (Option GValue)
    → (Option GValue × Option (Option Text)) × HashTable (Option GValue)
fetch_item property reply (some item) items = ((some item, none), items)
fetch_item property (answer variant) none items =
    let item = esconf_gvariant_to_gvalue variant in ((item, none), insert property item items)
fetch_item property (failure name) none items = ((none, some name), items)

-- The end of `esconf_cache_lookup_locked`, with the value of the caller or NULL.
unfoldable pub give_item :
    (GValue → GType → Option GValue)
    → Option GValue
    → (Option GValue × Option (Option Text)) × HashTable (Option GValue)
    → Lookup
give_item transform value ((none, error), items) = record {
  ret = false;
  value = value;
  error = error;
  items = items;
}
give_item transform none ((some item, error), items) = record {
  ret = true;
  value = none;
  error = error;
  items = items;
}
give_item transform (some value) ((some item, error), items) =
    elim (copy_item transform item value) [
      | some v ↦ record { ret = true; value = some v; error = error; items = items }
      | none ↦ record { ret = false; value = some value; error = error; items = items }
    ]

unfoldable pub esconf_cache_lookup_locked :
    (GValue → GType → Option GValue)
    → Text
    → Answer
    → Option GValue
    → HashTable (Option GValue)
    → Lookup
esconf_cache_lookup_locked transform property reply value items =
    give_item transform value (fetch_item property reply (tree_lookup property items) items)

-- `esconf_cache_lookup`
abbrev pub lookup_left : Client → Lookup → Lookup × Client
lookup_left c l = (l, record c { properties = l.items })

unfoldable pub esconf_cache_lookup :
    (GValue → GType → Option GValue) → Text → Answer → Option GValue → Client → Lookup × Client
esconf_cache_lookup transform property reply value c =
    lookup_left c (esconf_cache_lookup_locked transform property reply value c.properties)
