-- ===== src/Cache/Change.antt =====
-- Changes of a property that are shown before the daemon has answered: `esconf_cache_set`, the
-- handler of the reply and the end of the cache. `none` is a use of freed memory, or of a variant that is NULL.
use esconf.Prelude.{
  Text, bytes, HashTable, lookup, insert, remove, ℕ, suc, ◌-◌, ltb, Bool, true, false, not, ◌&&◌,
  ◌||◌, Option, none, some, ◌>>=◌, List, [], ◌∷◌, if◌then◌else◌,
}
use esconf.Platform.{Platform}
use esconf.Value.{GType, GValue, gvalue_is_equal, unset, strcmp0}
use esconf.Value.Variant.{GVariant, ToVariant, esconf_gvalue_to_gvariant}
use esconf.Cache.{
  OldItem, Client, update, insert_pointer, remove_pointer, tree_lookup, esconf_cache_item_update,
  Answer, Lookup, esconf_cache_lookup_locked,
}

-- The store with an old item at a pointer.
abbrev pub put_old : ℕ → Option OldItem → Client → Client
put_old o i c = record c { old_items = update o i c.old_items }

-- A signal "property-changed".
abbrev pub emit : Text → Option GValue → Client → Client
emit property value c = record c { signals = (property, value) ∷ c.signals }

-- Does an error say that the property does not exist?
unfoldable pub is_not_found : Option (Option Text) → Bool
is_not_found none = false
is_not_found (some name) =
    strcmp0 name (some (bytes "com.expidus.Esconf.Error.PropertyNotFound"))
    || strcmp0 name (some (bytes "com.expidus.Esconf.Error.ChannelNotFound"))

-- The old item of a property that has calls on their way: the last of them is cancelled.
unfoldable pub restarted : OldItem → Client → OldItem × Client
restarted i c = if i.cancelled then (record i { variant = none }, c) else (
  record i { cancellable = c.fresh; variant = none },
  record c { pending_calls = remove_pointer i.cancellable c.pending_calls; fresh = suc c.fresh },
)

-- `esconf_cache_old_item_new`, entered in `old_properties`.
unfoldable pub old_item_new : Text → Option GValue → Client → OldItem × Client
old_item_new property item c = (
  record {
    property = property;
    item = item;
    cancellable = suc c.fresh;
    cancelled = false;
    pending_calls_count = 0;
    variant = none;
  },
  record c { old_properties = insert property c.fresh c.old_properties; fresh = suc (suc c.fresh) },
)

abbrev pub with_pointer : ℕ → OldItem × Client → ℕ × OldItem × Client
with_pointer o (i, c) = (o, i, c)

-- The old item that a call is made with, its pointer, and what is left.
unfoldable pub old_item_for : Text → Option GValue → Client → Option (ℕ × OldItem × Client)
old_item_for property item c = elim (lookup property c.old_properties) [
  | some o ↦ c.old_items o >>= λ i. some (with_pointer o (restarted i c))
  | none ↦ some (with_pointer c.fresh (old_item_new property item c))
]

-- The value of the cached item after a change.
unfoldable pub item_after : Platform → Option GValue → GValue → GValue
item_after p none value = value
item_after p (some item) value = (esconf_cache_item_update p item (some value)).1

-- The call to the daemon; without a variant there is none.
unfoldable pub start_call :
    Platform
    → Text
    → GValue
    → Option GValue
    → Option GVariant
    → ℕ × OldItem × Client
    → Bool × Client
start_call p property value item none (o, i, c) = (false, put_old o (some i) c)
start_call p property value item (some val) (o, i, c) = (
  true,
  record c {
    properties = insert property (some (item_after p item value)) c.properties;
    pending_calls = insert_pointer i.cancellable o c.pending_calls;
    old_items =
        update o
          (some (record i { variant = some val; pending_calls_count = suc i.pending_calls_count }))
          c.old_items;
    calls = update o (suc (c.calls o)) c.calls;
    sent = (property, val) ∷ c.sent;
    signals = (property, some value) ∷ c.signals;
  },
)

-- `esconf_cache_set`, once the item is known.
unfoldable pub set_item :
    Platform → ToVariant → Text → GValue → Option GValue → Client → Option (Bool × Client)
set_item p dbus property value item c = old_item_for property item c >>= λ call.
    some (start_call p property value item (esconf_gvalue_to_gvariant dbus value) call)

-- A value that does not change is not sent.
unfoldable pub is_unchanged : Platform → Option GValue → GValue → Bool
is_unchanged p none value = false
is_unchanged p (some item) value = gvalue_is_equal p item value

unfoldable pub set_looked_up :
    Platform → ToVariant → Text → GValue → Lookup → Client → Option (Bool × Client)
set_looked_up p dbus property value l c =
    if not l.ret && not (is_not_found l.error)
    then some (false, record c { properties = l.items })
    else let item = tree_lookup property l.items in
      if is_unchanged p item value
      then some (true, record c { properties = l.items })
      else set_item p dbus property value item (record c { properties = l.items })

-- A cached item is taken as it is; otherwise the daemon is asked, with a value that has no type.
unfoldable pub looked_up :
    (GValue → GType → Option GValue) → Text → Answer → HashTable (Option GValue) → Lookup
looked_up transform property reply items = elim (tree_lookup property items) [
  | some item ↦ record { ret = true; value = some item; error = none; items = items }
  | none ↦ esconf_cache_lookup_locked transform property reply (some unset) items
]

unfoldable pub esconf_cache_set :
    Platform
    → (GValue → GType → Option GValue)
    → ToVariant
    → Text
    → GValue
    → Answer
    → Client
    → Option (Bool × Client)
esconf_cache_set p transform dbus property value reply c =
    set_looked_up p dbus property value (looked_up transform property reply c.properties) c

-- What the old value of a property makes of its item, and the signal for it.
unfoldable pub rolled_back : Platform → Text → GValue → Option GValue → Client → Client
rolled_back p property item (some old) c =
    let value = (esconf_cache_item_update p item (some old)).1 in
    emit property (some value) (record c { properties = insert property (some value) c.properties })
rolled_back p property item none c =
    emit property (some unset) (record c { properties = remove property c.properties })

-- The last reply is there: the old item is done with. Without an item it stays allocated.
unfoldable pub committed : Platform → Bool → ℕ → OldItem → Option GValue → Client → Client
committed p result o i none c = put_old o (some i) c
committed p true o i (some item) c = put_old o none c
committed p false o i (some item) c = put_old o none (rolled_back p i.property item i.item c)

abbrev pub forgotten : OldItem → Client → Client
forgotten i c = record c {
  old_properties = remove i.property c.old_properties;
  pending_calls = remove_pointer i.cancellable c.pending_calls;
}

-- A reply for an old item, whose count of calls is lowered by now.
unfoldable pub last_reply : Platform → Bool → ℕ → OldItem → Client → Option Client
last_reply p result o i c =
    if ltb 0 i.pending_calls_count
    then some (put_old o (some i) c)
    else if i.cancelled
    then some (put_old o none c)
    else if c.alive
    then some (committed p result o i (tree_lookup i.property c.properties) (forgotten i c))
    else none

-- `esconf_cache_set_property_reply_handler`
unfoldable pub set_property_reply_handler : Platform → Bool → ℕ → Client → Option Client
set_property_reply_handler p result o c = c.old_items o >>= λ i.
    last_reply p result o (record i { pending_calls_count = i.pending_calls_count - 1 }) c

-- `esconf_cache_old_item_end_call`: the value is sent once more, in a call that is waited for.
unfoldable pub end_call : ℕ → OldItem → Client → Option Client
end_call o i c =
    if i.cancelled
    then some c
    else i.variant >>= λ val. some (
        put_old o (some (record i { cancelled = true }))
          (record c { sent = (i.property, val) ∷ c.sent }))

unfoldable pub end_calls : List (ℕ × ℕ) → Client → Option Client
end_calls [] c = some c
end_calls ((k, o) ∷ pending) c =
    c.old_items o >>= λ i. end_call o i c >>= λ c'. end_calls pending c'

-- `esconf_cache_finalize`
unfoldable pub esconf_cache_finalize : Client → Option Client
esconf_cache_finalize c = end_calls c.pending_calls c >>= λ c'.
    some (record c' { alive = false; properties = []; pending_calls = []; old_properties = [] })
