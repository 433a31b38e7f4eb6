-- ===== src/Perchannel/ResetLaws.antt =====
-- `esconf_backend_perchannel_xml_reset` of one property, on a channel of the table.
use esconf.Prelude.{
  Text, lookup, ◌≡◌, refl, ap, sym, ◌∙◌, true, false, Option, none, some, List, ◌∷◌, All, arith,
  if◌then◌else◌, Bool-cases, inl, inr,
}
use esconf.Platform.{Platform, IsSplitter}
use esconf.Error.{property_not_found, ok, err}
use esconf.Value.{GValue, unset, is_set}
use esconf.Names.Paths.{path, IsComponent}
use esconf.Tree.{Node, proptree_reset}
use esconf.Tree.Walk.{entry_at, IsDistinct, same_parts, same_parts_iff}
use esconf.Tree.Unlink.{Values, values_at}
use esconf.Tree.Reset.{IsReset, IsOutcome, proptree_reset-IsOutcome}
use esconf.Loader.{Channel}
use esconf.Perchannel.{Xbpx, Op, signal, schedule_save}
use esconf.Perchannel.Operations.{with_properties, commit, get}
use esconf.Perchannel.Reset.{reset_property, reset}
use esconf.Perchannel.Shown.{shown}
use esconf.Perchannel.SetLaws.{open_channel-there}
use esconf.Perchannel.GetSet.{reply_of, lookup-schedule_save, get-there}

-- What the reset of one property may do to the path `qs` of a channel.
pub data IsPropertyReset (p : Platform) (channel_name : Text) (qs : List Text) (channel : Channel)
    (x : Xbpx) : Op (Unit {0}) → Type 0 where
  nothing_set :
      is_set (values_at qs channel.properties).0 ≡ false
      → IsPropertyReset p channel_name qs channel x (err property_not_found, x)
  cleared :
      is_set (values_at qs channel.properties).0 ≡ true
      → (tree : Node) → IsReset qs (values_at qs channel.properties).1 channel.properties tree
      → IsPropertyReset p channel_name qs channel x
          (commit p channel_name channel_name (path qs) tree channel x)

-- What a path shows depends on its values only.
abbrev shown_values : Values → GValue
shown_values e = if is_set e.0 then e.0 else e.1

shown_values-values_at :
    (qs : List Text) (t : Node) → shown (entry_at qs t) ≡ shown_values (values_at qs t)
unfolding values_at
shown_values-values_at qs t = refl

-- The reply and the state for a tree, or for FALSE.
abbrev reset_found : Platform → Text → Text → Channel → Xbpx → Option Node → Op (Unit {0})
reset_found p channel_name property channel x none = (err property_not_found, x)
reset_found p channel_name property channel x (some tree) =
    commit p channel_name channel_name property tree channel x

reset_property-found :
    (p : Platform) (channel_name property : Text) (channel : Channel) (x : Xbpx)
    → reset_property p channel_name channel_name property channel x
      ≡ reset_found p channel_name property channel x (proptree_reset p channel.properties property)
unfolding reset_property
reset_property-found p channel_name property channel x =
    go (proptree_reset p channel.properties property)
  where
    go :
        (o : Option Node)
        → (elim o as (λ x. Op (Unit {0})) [
          | none ↦ (err property_not_found, x)
          | some tree ↦ (
            ok tt,
            schedule_save channel_name
                (with_properties tree channel)
                (signal channel_name property x),
          )
        ])
          ≡ reset_found p channel_name property channel x o
    go none = refl
    go (some q) = refl

IsOutcome-IsPropertyReset :
    (p : Platform) (channel_name : Text) (qs : List Text) (channel : Channel) (x : Xbpx)
    (o : Option Node)
    → IsOutcome qs channel.properties o
    → IsPropertyReset p channel_name qs channel x (reset_found p channel_name (path qs) channel x o)
IsOutcome-IsPropertyReset p channel_name qs channel x none h = nothing_set h
IsOutcome-IsPropertyReset p channel_name qs channel x (some tree) h = cleared h.0 tree h.1

module _ (p : Platform) (splits : IsSplitter p) where
  pub reset-IsPropertyReset :
      (channel_name s : Text) (ps : List Text) (channel : Channel) (x : Xbpx)
      → All IsComponent (s ∷ ps)
      → IsDistinct channel.properties
      → lookup channel_name x.channels ≡ some channel
      → IsPropertyReset p channel_name
          (s ∷ ps)
          channel
          x
          (reset p channel_name (path (s ∷ ps)) false x)
  unfolding reset
  reset-IsPropertyReset channel_name s ps channel x a d there =
      rw (open_channel-there p channel_name x there) (
        rw (reset_property-found p channel_name (path (s ∷ ps)) channel x) (
          IsOutcome-IsPropertyReset p channel_name (s ∷ ps) channel x
            (proptree_reset p channel.properties (path (s ∷ ps)))
            (proptree_reset-IsOutcome p splits s ps channel.properties a d)))

  get-IsPropertyReset :
      (channel_name s r : Text) (ps rs : List Text) (channel : Channel) (x : Xbpx)
      {o : Op (Unit {0})}
      → All IsComponent (r ∷ rs)
      → lookup channel_name x.channels ≡ some channel
      → IsPropertyReset p channel_name (s ∷ ps) channel x o
      → (get p channel_name (path (r ∷ rs)) o.1).0 ≡ (
          if same_parts (s ∷ ps) (r ∷ rs)
          then reply_of (values_at (r ∷ rs) channel.properties).1
          else (get p channel_name (path (r ∷ rs)) x).0)
  get-IsPropertyReset channel_name s r ps rs channel x a there (nothing_set none_set) =
      rw (get-there p splits channel_name r rs x a there, shown_values-values_at)
        (elim (Bool-cases (same_parts (s ∷ ps) (r ∷ rs))) [
          | inl same ↦ rw same (rw (← (same_parts_iff (s ∷ ps) (r ∷ rs)).0 same) (rw none_set))
          | inr other ↦ rw other
        ])
  get-IsPropertyReset channel_name s r ps rs channel x a there (cleared was tree outcome) =
      rw
        (
          get-there p splits channel_name r rs x a there,
          get-there p splits channel_name r rs
              (schedule_save channel_name (with_properties tree channel)
                (signal channel_name (path (s ∷ ps)) x))
              a
              (lookup-schedule_save channel_name (with_properties tree channel)
                (signal channel_name (path (s ∷ ps)) x)),
          shown_values-values_at,
        )
        (elim (Bool-cases (same_parts (s ∷ ps) (r ∷ rs))) [
          | inl same ↦ rw same (
              rw (← (same_parts_iff (s ∷ ps) (r ∷ rs)).0 same)
                (ap (λ w. reply_of (shown_values w)) (at_path same)))
          | inr other ↦ rw other (
              ap (λ w. reply_of (shown_values w)) (elsewhere other)
              ∙ ap reply_of (sym (shown_values-values_at (r ∷ rs) channel.properties)))
        ])
    where
      at_path :
          same_parts (s ∷ ps) (r ∷ rs) ≡ true
          → values_at (s ∷ ps) tree ≡ (unset, (values_at (s ∷ ps) channel.properties).1)
      at_path same =
          ground (arith, outcome.update (s ∷ ps), (same_parts_iff (s ∷ ps) (s ∷ ps)).1 refl)

      elsewhere :
          same_parts (s ∷ ps) (r ∷ rs) ≡ false
          → values_at (r ∷ rs) tree ≡ values_at (r ∷ rs) channel.properties
      elsewhere other = ground (arith, outcome.update (r ∷ rs), other)

  -- On a channel of the table whose tree has distinct names, a get behind a reset of one path
  -- gives for this path the system's value, or "property not found" if there is none, and for
  -- every other path what it gave before, whether the reset succeeds or fails. Paths are compared
  -- byte by byte, so a path that differs only in the case of letters is another one here, though
  -- docs/spec/general.txt calls both one property.
  pub get-reset :
      (channel_name s r : Text) (ps rs : List Text) (channel : Channel) (x : Xbpx)
      → All IsComponent (s ∷ ps)
      → All IsComponent (r ∷ rs)
      → IsDistinct channel.properties
      → lookup channel_name x.channels ≡ some channel
      → (get p channel_name (path (r ∷ rs)) ((reset p channel_name (path (s ∷ ps)) false x).1)).0
        ≡ (if same_parts (s ∷ ps) (r ∷ rs)
            then reply_of (values_at (r ∷ rs) channel.properties).1
            else (get p channel_name (path (r ∷ rs)) x).0)
  get-reset channel_name s r ps rs channel x a c d there =
      get-IsPropertyReset channel_name s r ps rs channel x c there
        (reset-IsPropertyReset channel_name s ps channel x a d there)
