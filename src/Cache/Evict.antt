-- ===== src/Cache/Evict.antt =====
-- Filling and emptying the cache: `esconf_cache_prefetch` and `esconf_cache_reset`.
use esconf.Prelude.{
  Text, bytes, HashTable, insert, remove, ℕ, zero, suc, ◌+◌, ◌==◌, leb, length, Bool, true, false,
  ◌&&◌, Option, none, some, List, [], ◌∷◌, ◌++◌, if◌then◌else◌,
}
use esconf.Value.{GValue}
use esconf.Value.Variant.{GVariant, esconf_gvariant_to_gvalue}
use esconf.Cache.{Client}

-- `g_ascii_tolower`
abbrev pub ascii_tolower : ℕ → ℕ
ascii_tolower c = if leb b'A' c && leb c b'Z' then c + 32 else c

-- `!g_ascii_strncasecmp(s, t, n)`
unfoldable pub strncaseeq : ℕ → Text → Text → Bool
strncaseeq zero s t = true
strncaseeq (suc n) [] [] = true
strncaseeq (suc n) [] (d ∷ t) = false
strncaseeq (suc n) (c ∷ s) [] = false
strncaseeq (suc n) (c ∷ s) (d ∷ t) = ascii_tolower c == ascii_tolower d && strncaseeq n s t

-- `esconf_cache_collect_properties_recursive` over the tree
unfoldable pub collect_properties_recursive : Text → HashTable (Option GValue) → List Text
collect_properties_recursive base [] = []
collect_properties_recursive base ((name, item) ∷ items) =
    let rest = collect_properties_recursive base items in
    if strncaseeq (length base) base name then name ∷ rest else rest

unfoldable pub remove_all : List Text → HashTable (Option GValue) → HashTable (Option GValue)
remove_all [] items = items
remove_all (name ∷ names) items = remove_all names (remove name items)

-- What a reset that the daemon carried out leaves in the cache.
unfoldable pub evicted : Text → Bool → HashTable (Option GValue) → HashTable (Option GValue)
evicted base recursive items =
    let rest = remove base items in
    if recursive
    then remove_all (collect_properties_recursive (base ++ bytes "/") rest) rest
    else rest

-- `esconf_cache_reset`; `ret` is what the daemon's ResetProperty gives.
unfoldable pub esconf_cache_reset : Text → Bool → Bool → Client → Bool × Client
esconf_cache_reset base recursive ret c =
    if ret
    then (true, record c { properties = evicted base recursive c.properties })
    else (false, c)

unfoldable pub fill_items :
    HashTable (Option GValue) → List (Text × GVariant) → HashTable (Option GValue)
fill_items items [] = items
fill_items items ((key, variant) ∷ entries) =
    fill_items (insert key (esconf_gvariant_to_gvalue variant) items) entries

abbrev pub prefetched : Option (List (Text × GVariant)) → Client → Bool × Client
prefetched none c = (false, c)
prefetched (some entries) c = (true, record c { properties = fill_items c.properties entries })

-- `esconf_cache_prefetch` of an empty cache; the entries are the daemon's answer to GetAllProperties.
unfoldable pub esconf_cache_prefetch : Option (List (Text × GVariant)) → Client → Bool × Client
esconf_cache_prefetch reply c = elim c.properties [ [] ↦ prefetched reply c | _ ∷ _ ↦ (false, c) ]
