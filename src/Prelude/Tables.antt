-- ===== src/Prelude/Tables.antt =====
-- A `GHashTable` with string keys, as a list of entries.
use mathlib.Core.Path.{◌≡◌, refl}
use mathlib.Core.Option.{Option, none, some}
use mathlib.Core.List.{List, [], ◌∷◌}
use native.Mathlib.Omega.{arith}
use esconf.Prelude.Tests.{if◌then◌else◌}
use esconf.Prelude.Strings.{Text, streq, streq_iff}

abbrev pub HashTable {ℓ} : Type ℓ → Type ℓ
HashTable V = List (Text × V)

module _ {ℓ} {V : Type ℓ} where
  -- `g_hash_table_lookup`
  unfoldable pub lookup : Text → HashTable V → Option V
  lookup k [] = none
  lookup k ((j, v) ∷ d) = if streq j k then some v else lookup k d

  -- `g_hash_table_insert`, which replaces the value of a key that is there
  unfoldable pub insert : Text → V → HashTable V → HashTable V
  insert k v [] = (k, v) ∷ []
  insert k v ((j, w) ∷ d) = if streq j k then (j, v) ∷ d else (j, w) ∷ insert k v d

  -- `g_hash_table_remove`
  unfoldable pub remove : Text → HashTable V → HashTable V
  remove k [] = []
  remove k ((j, w) ∷ d) = let rest = remove k d in if streq j k then rest else (j, w) ∷ rest

  pub lookup-insert :
      (k j : Text) (v : V) (d : HashTable V)
      → lookup j (insert k v d) ≡ (if streq k j then some v else lookup j d)
  unfolding lookup insert
  lookup-insert k j v [] = refl
  lookup-insert k j v ((i, w) ∷ d) =
      ground (arith, streq_iff k j, streq_iff i k, streq_iff i j, lookup-insert k j v d)

  pub lookup-remove :
      (k j : Text) (d : HashTable V)
      → lookup j (remove k d) ≡ (if streq k j then none else lookup j d)
  unfolding lookup remove
  lookup-remove k j [] = ground arith
  lookup-remove k j ((i, w) ∷ d) =
      ground (arith, streq_iff k j, streq_iff i k, streq_iff i j, lookup-remove k j d)
