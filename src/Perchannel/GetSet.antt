-- ===== src/Perchannel/GetSet.antt =====
-- What `esconf_backend_perchannel_xml_get` says after `esconf_backend_perchannel_xml_set`.
use esconf.Prelude.{
  Text, lookup, lookup-insert, streq_refl, length, ◌≡◌, ◌≢◌, ◌≤◌, ◌⊎◌, refl, ap, ◌∙◌, true, false,
  some, List, ◌∷◌, All, arith, if◌then◌else◌, inl, inr,
}
use esconf.Platform.{Platform, IsSplitter}
use esconf.Error.{property_not_found, Reply, ok, err}
use esconf.Value.{GValue, unset, is_set, gvalue_is_equal}
use esconf.Names.Paths.{path, IsComponent}
use esconf.Tree.{Node}
use esconf.Tree.Walk.{entry_at, same_parts, same_parts_iff}
use esconf.Loader.{Channel}
use esconf.Perchannel.{Xbpx, Op, schedule_save}
use esconf.Perchannel.Operations.{set, get}
use esconf.Perchannel.Shown.{shown, shown_value-path}
use esconf.Perchannel.SetLaws.{
  IsChange, IsSetOutcome, denied, unchanged, changed, set-IsSetOutcome, open_channel-there,
}

-- The reply of a look-up that shows this value.
abbrev pub reply_of : GValue → Reply GValue
reply_of v = if is_set v then ok v else err property_not_found

-- The channel that a change leaves in the table.
abbrev pub changed_channel : Node → Channel → Channel
changed_channel tree channel = record channel { properties = tree; dirty = true }

pub lookup-schedule_save :
    (channel_name : Text) (channel : Channel) (x : Xbpx)
    → lookup channel_name (schedule_save channel_name channel x).channels
      ≡ some (record channel { dirty = true })
unfolding schedule_save
lookup-schedule_save channel_name channel x = rw (
  lookup-insert channel_name channel_name (record channel { dirty = true }) x.channels,
  streq_refl channel_name,
)

-- Nothing that is unset is equal to a value.
pub is_set-equal :
    (p : Platform) (v w : GValue) → gvalue_is_equal p v w ≡ true → is_set w ≡ true → is_set v ≡ true
unfolding gvalue_is_equal
is_set-equal p unset unset h k = ground arith
is_set-equal p unset (GValue.string s) h k = ground arith
is_set-equal p unset _ h k = ground arith
is_set-equal p _ w h k = ground arith

-- The channel behind a change.
pub table_there :
    (channel_name property : Text) (tree : Node) (channel : Channel) (x x' : Xbpx)
    → IsChange channel_name property tree channel x x'
    → lookup channel_name x'.channels ≡ some (changed_channel tree channel)
table_there channel_name property tree channel x x' change =
    change.table channel_name ∙ rw (streq_refl channel_name) refl

-- The value that a `get` gives behind a `set` of `value`: this one, or the one that it gave before,
-- where that one counts as equal.
abbrev pub IsKept : Platform → GValue → Reply GValue → GValue → Type 0
IsKept p value before v = (v ≡ value) ⊎ ((before ≡ ok v) × (gvalue_is_equal p v value ≡ true))

module _ (p : Platform) (splits : IsSplitter p) where
  pub get-there :
      (channel_name s : Text) (ps : List Text) (x : Xbpx) {channel : Channel}
      → All IsComponent (s ∷ ps)
      → lookup channel_name x.channels ≡ some channel
      → get p channel_name (path (s ∷ ps)) x
        ≡ (reply_of (shown (entry_at (s ∷ ps) channel.properties)), x)
  unfolding get
  get-there channel_name s ps x {channel} a there =
      rw (open_channel-there p channel_name x there)
        (rw (shown_value-path p splits s ps channel.properties a))

  -- What a `get` of `rs` says behind an outcome of a `set` of `qs`.
  get-IsSetOutcome :
      (channel_name s r : Text) (ps rs : List Text) (value : GValue) (channel : Channel) (x : Xbpx)
      {o : Op (Unit {0})}
      → All IsComponent (r ∷ rs)
      → lookup channel_name x.channels ≡ some channel
      → same_parts (s ∷ ps) (r ∷ rs) ≡ false
      → IsSetOutcome p channel_name (s ∷ ps) value channel x o
      → (get p channel_name (path (r ∷ rs)) o.1).0 ≡ (get p channel_name (path (r ∷ rs)) x).0
  get-IsSetOutcome channel_name s r ps rs value channel x a there other (denied _) = refl
  get-IsSetOutcome channel_name s r ps rs value channel x a there other (unchanged _ _) = refl
  get-IsSetOutcome channel_name s r ps rs value channel x a there other
        (changed _ _ tree up _ x' change) =
      let same : entry_at (r ∷ rs) tree ≡ entry_at (r ∷ rs) channel.properties =
        ground (arith, up (r ∷ rs), other) in
      rw
        (
          get-there channel_name r rs x a there,
          get-there channel_name r rs x' a
              (table_there channel_name (path (s ∷ ps)) tree channel x x' change),
        )
        (ap (λ e. reply_of (shown e)) same)

  -- On a channel of the table, a set of one path, which fits the buffer, changes the reply of a
  -- get of no other path, whatever its outcome. Paths are compared byte by byte, so a path that
  -- differs only in the case of letters is another one here, though docs/spec/general.txt calls
  -- both one property.
  pub get-set_other :
      (channel_name s r : Text) (ps rs : List Text) (value : GValue) (channel : Channel) (x : Xbpx)
      → All IsComponent (s ∷ ps)
      → All IsComponent (r ∷ rs)
      → length (path (s ∷ ps)) ≤ 4095
      → s ∷ ps ≢ r ∷ rs
      → lookup channel_name x.channels ≡ some channel
      → (get p channel_name (path (r ∷ rs)) ((set p channel_name (path (s ∷ ps)) value x).1)).0
        ≡ (get p channel_name (path (r ∷ rs)) x).0
  get-set_other channel_name s r ps rs value channel x a c short other there =
      get-IsSetOutcome channel_name s r ps rs value channel x c there
        (ground (arith, same_parts_iff (s ∷ ps) (r ∷ rs)))
        (set-IsSetOutcome p splits channel_name s ps value channel x a short there)

  get-IsSet_same :
      (channel_name s : Text) (ps : List Text) (value : GValue) (channel : Channel) (x : Xbpx)
      {o : Op (Unit {0})}
      → All IsComponent (s ∷ ps)
      → lookup channel_name x.channels ≡ some channel
      → is_set value ≡ true
      → o.0 ≡ ok tt
      → IsSetOutcome p channel_name (s ∷ ps) value channel x o
      → (v : GValue) × (get p channel_name (path (s ∷ ps)) o.1 ≡ (ok v, o.1))
        × IsKept p value (get p channel_name (path (s ∷ ps)) x).0 v
  get-IsSet_same channel_name s ps value channel x a there is fine (denied _) =
      absurd (ground arith)
  get-IsSet_same channel_name s ps value channel x a there is fine (unchanged _ same) =
      let shows = is_set-equal p (shown (entry_at (s ∷ ps) channel.properties)) value same is in
      (
        shown (entry_at (s ∷ ps) channel.properties),
        get-there channel_name s ps x a there ∙ rw shows,
        inr (ap (λ r. r.0) (get-there channel_name s ps x a there) ∙ rw shows, same),
      )
  get-IsSet_same channel_name s ps value channel x a there is fine
        (changed _ _ tree up _ x' change) =
      let there' = table_there channel_name (path (s ∷ ps)) tree channel x x' change in
      let at : entry_at (s ∷ ps) tree ≡ (value, (entry_at (s ∷ ps) channel.properties).1, false) =
        ground (arith, up (s ∷ ps), (same_parts_iff (s ∷ ps) (s ∷ ps)).1 refl) in
      (value, get-there channel_name s ps x' a there' ∙ rw at (rw (is, is)), inl refl)

  -- On a channel of the table, a get behind a successful set of a value that is not unset, at a
  -- path of components that fits the buffer, succeeds, and gives that value, or the value that a
  -- get gave before the set and that counts as equal to it.
  pub get-set :
      (channel_name s : Text) (ps : List Text) (value : GValue) (channel : Channel) (x : Xbpx)
      → All IsComponent (s ∷ ps)
      → length (path (s ∷ ps)) ≤ 4095
      → is_set value ≡ true
      → lookup channel_name x.channels ≡ some channel
      → (set p channel_name (path (s ∷ ps)) value x).0 ≡ ok tt
      → (v : GValue) × (get p channel_name
            (path (s ∷ ps))
            ((set p channel_name (path (s ∷ ps)) value x).1)
          ≡ (ok v, (set p channel_name (path (s ∷ ps)) value x).1))
        × IsKept p value (get p channel_name (path (s ∷ ps)) x).0 v
  get-set channel_name s ps value channel x a short is there fine =
      get-IsSet_same channel_name s ps value channel x a there is fine
        (set-IsSetOutcome p splits channel_name s ps value channel x a short there)
