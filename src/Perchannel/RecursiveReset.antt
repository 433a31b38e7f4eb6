-- ===== src/Perchannel/RecursiveReset.antt =====
-- The recursive `esconf_backend_perchannel_xml_reset` below a property, on a channel of the table.
use mathlib.Core.Path.{subst}
use mathlib.Core.List.{reverse}
use esconf.Prelude.{
  Text, lookup, ◌≡◌, refl, ap, sym, ◌∙◌, Bool, true, false, is_some, Option, none, some, List, [],
  ◌∷◌, ◌++◌, All, arith, if◌then◌else◌,
}
use esconf.Platform.{Platform, IsSplitter}
use esconf.Error.{property_not_found, ok, err}
use esconf.Value.{GValue}
use esconf.Names.Paths.{path, IsComponent}
use esconf.Tree.{Node, parts_of, lookup_node}
use esconf.Tree.Walk.{
  descend, descend-append, entry_of, entry_at, IsDistinct, parts_of-path, lookup_node-path,
}
use esconf.Tree.Modify.{strip, strip-eq_some}
use esconf.Tree.Local.{entry_at-append}
use esconf.Tree.Add.{from_end}
use esconf.Tree.Traverse.{reset_nodes, reset_names, clean_up}
use esconf.Tree.Cleanup.{
  kept_entry, without_user, clean_up-prop, reset_nodes-name, clean_up-reset_nodes,
}
use esconf.Tree.Replace.{is_below, modify-replaced, unlink_node-whole}
use esconf.Tree.Distinct.{descend-IsDistinct}
use esconf.Loader.{Channel}
use esconf.Perchannel.{Xbpx, Op, schedule_save}
use esconf.Perchannel.Operations.{with_properties, is_whole_channel, get}
use esconf.Perchannel.Reset.{signal_all, replace_node, reset_below, names_up, reset_subtree, reset}
use esconf.Perchannel.Shown.{shown}
use esconf.Perchannel.SetLaws.{open_channel-there}
use esconf.Perchannel.GetSet.{reply_of, lookup-schedule_save, get-there}

-- The two traversals, at the last component of a path.
replace_node-entry :
    (qs : List Text) (s : Text) (r : List Text) (t top : Node)
    → IsDistinct t
    → descend (qs ++ s ∷ []) t ≡ some top
    → entry_at r (replace_node (qs ++ s ∷ []) (clean_up (reset_nodes top)) t)
      ≡ (if is_below (qs ++ s ∷ []) r then without_user (entry_at r t) else entry_at r t)
replace_node-entry qs s r t top d at = go (clean_up (reset_nodes top)) refl
  where
    ps : List Text
    ps = qs ++ s ∷ []

    below :
        (o : Option Node)
        → clean_up (reset_nodes top) ≡ o
        → (rest : List Text) → strip ps r ≡ some rest
        → kept_entry rest o ≡ without_user (entry_at r t)
    below o e rest h =
        rw (strip-eq_some ps r rest h, entry_at-append ps rest t at)
          (subst (λ o. kept_entry rest o ≡ without_user (entry_at rest top)) e
            (clean_up-reset_nodes rest top (descend-IsDistinct ps t top at d)))

    unlinked :
        (o : Option (List Text))
        → strip ps r ≡ o
        → ((rest : List Text)
            → strip ps r ≡ some rest
            → entry_of none ≡ without_user (entry_at r t))
        → (if is_some o then entry_of none else entry_at r t)
          ≡ (if is_some o then without_user (entry_at r t) else entry_at r t)
    unlinked none e k = refl
    unlinked (some rest) e k = k rest e

    replaced :
        (n : Node) (o : Option (List Text))
        → strip ps r ≡ o
        → ((rest : List Text)
            → strip ps r ≡ some rest
            → entry_at rest n ≡ without_user (entry_at r t))
        → (elim o as (λ x. GValue × GValue × Bool) [
          | none ↦ entry_at r t
          | some rest ↦ entry_at rest n
        ])
          ≡ (if is_some o then without_user (entry_at r t) else entry_at r t)
    replaced n none e k = refl
    replaced n (some rest) e k = k rest e

    go :
        (o : Option Node)
        → clean_up (reset_nodes top) ≡ o
        → entry_at r (replace_node ps o t)
          ≡ (if is_below ps r then without_user (entry_at r t) else entry_at r t)
    go none e = unlink_node-whole qs s r t top d at ∙ unlinked (strip ps r) refl (below none e)
    go (some n) e =
        modify-replaced ps r t top n at
          (ap (λ q. q.name) (clean_up-prop (reset_nodes top) n e) ∙ reset_nodes-name top)
        ∙ replaced n (strip ps r) refl (below (some n) e)

is_whole_channel-path :
    (s : Text) (ps : List Text) → IsComponent s → is_whole_channel (path (s ∷ ps)) ≡ false
is_whole_channel-path [] ps c = elim c [ ]
is_whole_channel-path (b ∷ s) ps c = refl

-- Below a path without a node there is nothing.
nothing_below :
    (ps r : List Text) (t : Node)
    → descend ps t ≡ none
    → is_below ps r ≡ true
    → entry_at r t ≡ entry_of none
unfolding entry_at
nothing_below ps r t at h = go (strip ps r) refl h
  where
    go :
        (o : Option (List Text))
        → strip ps r ≡ o
        → is_some o ≡ true
        → entry_of (descend r t) ≡ entry_of none
    go none e k = absurd (ground arith)
    go (some rest) e k = rw (strip-eq_some ps r rest e, descend-append, at)

module _ (p : Platform) (splits : IsSplitter p) where
  reset_below-entry :
      (s : Text) (ps r : List Text) (t top : Node)
      → IsDistinct t
      → descend (s ∷ ps) t ≡ some top
      → entry_at r (reset_below p (s ∷ ps) top t)
        ≡ (if is_below (s ∷ ps) r then without_user (entry_at r t) else entry_at r t)
  reset_below-entry s ps r t top d at =
      let (rs, k, e, h) = from_end s ps in
      subst
        (λ qs.
          entry_at r (reset_below p qs top t)
          ≡ (if is_below qs r then without_user (entry_at r t) else entry_at r t))
        (sym e)
        (replace_node-entry (reverse rs) k r t top d (subst (λ qs. descend qs t ≡ some top) e at))

  -- What the recursive reset does, for what the look-up of the property finds.
  abbrev subtree_reset : Text → Text → List Text → Channel → Xbpx → Option Node → Op (Unit {0})
  subtree_reset channel_name property ps channel x none = (err property_not_found, x)
  subtree_reset channel_name property ps channel x (some top) = (
    ok tt,
    schedule_save channel_name (with_properties (reset_below p ps top channel.properties) channel)
        (signal_all channel_name (reset_names (names_up p ps) top) x),
  )

  reset_subtree-found :
      (channel_name property : Text) (channel : Channel) (x : Xbpx)
      → reset_subtree p channel_name channel_name property channel x
        ≡ subtree_reset channel_name property
            (parts_of p property)
            channel
            x
            (lookup_node p channel.properties property)
  unfolding reset_subtree
  reset_subtree-found channel_name property channel x =
      go (lookup_node p channel.properties property)
    where
      go :
          (o : Option Node)
          → (elim o as (λ x. Op (Unit {0})) [
            | none ↦ (err property_not_found, x)
            | some top ↦ (
              ok tt,
              schedule_save channel_name
                  (with_properties
                    (reset_below p (parts_of p property) top channel.properties)
                    channel)
                  (signal_all channel_name (reset_names (names_up p (parts_of p property)) top) x),
            )
          ])
            ≡ subtree_reset channel_name property (parts_of p property) channel x o
      go none = refl
      go (some top) = refl

  reset-subtree :
      (channel_name s : Text) (ps : List Text) (channel : Channel) (x : Xbpx)
      → All IsComponent (s ∷ ps)
      → lookup channel_name x.channels ≡ some channel
      → reset p channel_name (path (s ∷ ps)) true x
        ≡ subtree_reset channel_name
            (path (s ∷ ps))
            (s ∷ ps)
            channel
            x
            (descend (s ∷ ps) channel.properties)
  unfolding reset
  reset-subtree channel_name s ps channel x a there =
      rw (open_channel-there p channel_name x there) (
        rw (is_whole_channel-path s ps a.0) (
          reset_subtree-found channel_name (path (s ∷ ps)) channel x
          ∙ ap
              (λ qs.
                subtree_reset channel_name (path (s ∷ ps)) qs channel x
                  (lookup_node p channel.properties (path (s ∷ ps))))
              (parts_of-path p splits s ps a)
          ∙ ap (subtree_reset channel_name (path (s ∷ ps)) (s ∷ ps) channel x)
              (lookup_node-path p splits s ps channel.properties a)))

  -- On a channel of the table whose tree has distinct names: behind a recursive reset of a path
  -- of components, a get of a path at or below it gives the system's value, or "property not
  -- found" if there is none, and a get of every other path gives what it gave before, whether the
  -- reset finds the property or not. Paths are compared byte by byte, so a path that differs only
  -- in the case of letters is another one here, though docs/spec/general.txt calls both one
  -- property.
  pub get-reset_recursive :
      (channel_name s r : Text) (ps rs : List Text) (channel : Channel) (x : Xbpx)
      → All IsComponent (s ∷ ps)
      → All IsComponent (r ∷ rs)
      → IsDistinct channel.properties
      → lookup channel_name x.channels ≡ some channel
      → (get p channel_name (path (r ∷ rs)) ((reset p channel_name (path (s ∷ ps)) true x).1)).0 ≡ (
          if is_below (s ∷ ps) (r ∷ rs)
          then reply_of (entry_at (r ∷ rs) channel.properties).1
          else (get p channel_name (path (r ∷ rs)) x).0)
  get-reset_recursive channel_name s r ps rs channel x a c d there =
      rw (reset-subtree channel_name s ps channel x a there)
        (go (descend (s ∷ ps) channel.properties) refl)
    where
      before :
          (get p channel_name (path (r ∷ rs)) x).0
          ≡ reply_of (shown (entry_at (r ∷ rs) channel.properties))
      before = ap (λ o. o.0) (get-there p splits channel_name r rs x c there)

      after :
          (tree : Node) (y : Xbpx)
          → (get p channel_name
              (path (r ∷ rs))
              (schedule_save channel_name (with_properties tree channel) y)).0
            ≡ reply_of (shown (entry_at (r ∷ rs) tree))
      after tree y =
          ap (λ o. o.0)
            (get-there p splits channel_name r rs
              (schedule_save channel_name (with_properties tree channel) y) c
              (lookup-schedule_save channel_name (with_properties tree channel) y))

      none_there :
          (b : Bool)
          → (b ≡ true → entry_at (r ∷ rs) channel.properties ≡ entry_of none)
          → reply_of (shown (entry_at (r ∷ rs) channel.properties)) ≡ (
              if b
              then reply_of (entry_at (r ∷ rs) channel.properties).1
              else reply_of (shown (entry_at (r ∷ rs) channel.properties)))
      none_there true h = rw (h refl)
      none_there false h = refl

      cleared :
          (b : Bool)
          → reply_of (
              shown (
                if b
                then without_user (entry_at (r ∷ rs) channel.properties)
                else entry_at (r ∷ rs) channel.properties))
            ≡ (if b
                then reply_of (entry_at (r ∷ rs) channel.properties).1
                else reply_of (shown (entry_at (r ∷ rs) channel.properties)))
      cleared true = refl
      cleared false = refl

      go :
          (o : Option Node)
          → descend (s ∷ ps) channel.properties ≡ o
          → (get p channel_name
              (path (r ∷ rs))
              ((subtree_reset channel_name (path (s ∷ ps)) (s ∷ ps) channel x o).1)).0
            ≡ (if is_below (s ∷ ps) (r ∷ rs)
                then reply_of (entry_at (r ∷ rs) channel.properties).1
                else (get p channel_name (path (r ∷ rs)) x).0)
      go none e = rw before (
          none_there (is_below (s ∷ ps) (r ∷ rs))
            (nothing_below (s ∷ ps) (r ∷ rs) channel.properties e))
      go (some top) e =
          rw
            (
              before,
              after (reset_below p (s ∷ ps) top channel.properties)
                  (signal_all channel_name (reset_names (names_up p (s ∷ ps)) top) x),
              reset_below-entry s ps (r ∷ rs) channel.properties top d e,
            )
            (cleared (is_below (s ∷ ps) (r ∷ rs)))
