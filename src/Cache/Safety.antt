-- ===== src/Cache/Safety.antt =====
-- The invariant of the store of old items and the calls on their way.

pub mod Start
pub mod Reply
pub mod Handler
pub mod Setting
pub mod Finalize
pub mod Steps
pub mod Reach
use esconf.Prelude.{
  Text, HashTable, lookup, ℕ, suc, ◌==◌, ◌<◌, Bool, true, false, ◌≡◌, ◌≢◌, refl, ◌⊎◌, inl, inr,
  ◌&&◌, ◌||◌, Option, none, some, is_some, List, [], ◌∷◌, if◌then◌else◌, arith, ==_iff,
}
use esconf.Cache.{OldItem, Client, update, insert_pointer, remove_pointer}

-- Is there an entry of `o` under the key `k`?
unfoldable pub has_call : ℕ → ℕ → List (ℕ × ℕ) → Bool
has_call k o [] = false
has_call k o ((j, w) ∷ d) = (j == k && w == o) || has_call k o d

pub has_call-insert : (k o : ℕ) (d : List (ℕ × ℕ)) → has_call k o (insert_pointer k o d) ≡ true
unfolding has_call insert_pointer
has_call-insert k o [] = ground arith
has_call-insert k o ((j, w) ∷ d) = ground (arith, has_call-insert k o d)

pub has_call-insert_other :
    (k o j w : ℕ) (d : List (ℕ × ℕ)) → j ≢ k → has_call j w (insert_pointer k o d) ≡ has_call j w d
unfolding has_call insert_pointer
has_call-insert_other k o j w [] h = ground arith
has_call-insert_other k o j w ((l, x) ∷ d) h = ground (arith, has_call-insert_other k o j w d h)

pub has_call-insert_cases :
    (k o j w : ℕ) (d : List (ℕ × ℕ))
    → has_call j w (insert_pointer k o d) ≡ true
    → ((j ≡ k) × (w ≡ o)) ⊎ (has_call j w d ≡ true)
unfolding has_call insert_pointer
has_call-insert_cases k o j w [] h = ground arith
has_call-insert_cases k o j w ((l, x) ∷ d) h = ground (arith, has_call-insert_cases k o j w d)

pub has_call-remove :
    (k j w : ℕ) (d : List (ℕ × ℕ))
    → has_call j w (remove_pointer k d) ≡ (if j == k then false else has_call j w d)
unfolding has_call remove_pointer
has_call-remove k j w [] = ground arith
has_call-remove k j w ((l, x) ∷ d) = ground (arith, has_call-remove k j w d)

-- What a call on its way needs of its old item.
abbrev pub IsCallOf : ℕ → OldItem → Type 0
IsCallOf k i =
    (i.cancellable ≡ k)
    × (i.cancelled ≡ false)
    × (is_some i.variant ≡ true)
    × (0 < i.pending_calls_count)

-- Every old item has as many calls on their way as it counts. The two tables lead to old items that
-- have calls and are not cancelled, and each of those is among the pending calls of a live cache.
pub record IsSound (alive : Bool) (pending : List (ℕ × ℕ)) (olds : HashTable ℕ)
    (items : ℕ → Option OldItem) (fresh : ℕ) (calls : ℕ → ℕ) : Type 0 where
  pub counted : (o : ℕ) (i : OldItem) → items o ≡ some i → calls o ≡ i.pending_calls_count
  pub idle : (o : ℕ) → items o ≡ none → calls o ≡ 0
  pub listed :
      (property : Text) (o : ℕ)
      → lookup property olds ≡ some o
      → (i : OldItem) × (items o ≡ some i)
        × (i.property ≡ property)
        × (i.cancelled ≡ false)
        × (0 < i.pending_calls_count)
  pub entered :
      (o : ℕ) (i : OldItem)
      → items o ≡ some i
      → i.cancelled ≡ false
      → 0 < i.pending_calls_count
      → (alive ≡ true) × (has_call i.cancellable o pending ≡ true)
  pub backed :
      (k o : ℕ) → has_call k o pending ≡ true → (i : OldItem) × (items o ≡ some i) × IsCallOf k i
  pub bounded : (o : ℕ) (i : OldItem) → items o ≡ some i → (o < fresh) × (i.cancellable < fresh)
  pub distinct :
      (o u : ℕ) (i j : OldItem)
      → items o ≡ some i
      → items u ≡ some j
      → i.cancellable ≡ j.cancellable
      → o ≡ u

abbrev pub Sound : Client → Type 0
Sound c = IsSound c.alive c.pending_calls c.old_properties c.old_items c.fresh c.calls

-- A store at a pointer, read back.
pub update_cases :
    {A : Type 0} (o : ℕ) (v : A) (h : ℕ → A) (j : ℕ)
    → ((j ≡ o) × (update o v h j ≡ v)) ⊎ ((j ≢ o) × (update o v h j ≡ h j))
update_cases o v h j = ground (arith, ==_iff j o)
