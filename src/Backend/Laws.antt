-- ===== src/Backend/Laws.antt =====
-- What a back end is called with, and the per-channel XML back end behind the interface.
use mathlib.Core.Path.{subst}
use esconf.Prelude.{
  Text, Bool, true, length, lookup, ◌≡◌, ◌≤◌, ◌⊎◌, refl, Option, none, some, List, ◌∷◌, All, arith,
  inl, inr,
}
use esconf.Platform.{Platform, IsSplitter}
use esconf.Error.{EsconfError, ok, err}
use esconf.Value.{GValue}
use esconf.Names.{valid, property_is_valid, channel_is_valid}
use esconf.Names.Paths.{path}
use esconf.Names.Laws.{IsName, property_is_valid_iff, All-IsComponent}
use esconf.Loader.{Channel}
use esconf.Perchannel.{Xbpx, Op}
use esconf.Perchannel.Operations.{set, get, get_all, exists, is_property_locked}
use esconf.Perchannel.Reset.{reset}
use esconf.Perchannel.SetLaws.{IsSetOutcome, set-IsSetOutcome}
use esconf.Writer.Flush.{list_channels, flush}
use esconf.Backend.{EsconfBackendInterface, check_names, check_call, guarded, esconf_backend_set}

-- The result of `esconf_backend_perchannel_xml_flush` with the error that it sets.
abbrev pub flush_result : Platform → Xbpx → (Bool × Option EsconfError) × Xbpx
flush_result p x = ((true, (flush p x).0), (flush p x).1)

-- `esconf_backend_perchannel_xml_backend_init`
unfoldable pub perchannel_xml : Platform → EsconfBackendInterface Xbpx
perchannel_xml p = record {
  set = set p;
  get = get p;
  get_all = get_all p;
  exists = exists p;
  reset = reset p;
  is_property_locked = is_property_locked p;
  list_channels = λ channels x. (ok (list_channels p channels x), x);
  flush = flush_result p;
}

check_call-none :
    (channel property : Text)
    → check_call channel property ≡ none
    → (channel_is_valid channel ≡ valid) × (property_is_valid property ≡ valid)
unfolding check_call check_names
check_call-none channel property h = ground arith

-- The outcome of a guarded call: an error of a check and the same state, or the call.
module _ (p : Platform) (splits : IsSplitter p) where
  -- `esconf_backend_set` on the per-channel XML back end, with any names whose property name fits the
  -- buffer and with the channel in the table: a check refuses the call and nothing changes, or the
  -- property name is a path of components and the call has an outcome of `set` for this path.
  pub esconf_backend_set_outcome :
      (channel_name property : Text) (value : GValue) (channel : Channel) (x : Xbpx)
      → length property ≤ 4095
      → lookup channel_name x.channels ≡ some channel
      → ((e : EsconfError) × (check_call channel_name property ≡ some e)
          × (esconf_backend_set (perchannel_xml p) channel_name property (some value) x
              ≡ (err e, x)))
        ⊎ ((s : Text) × (ps : List Text) × All IsName (s ∷ ps)
            × (property ≡ path (s ∷ ps))
            × IsSetOutcome p channel_name
                (s ∷ ps)
                value
                channel
                x
                (esconf_backend_set (perchannel_xml p) channel_name property (some value) x))
  unfolding esconf_backend_set perchannel_xml
  esconf_backend_set_outcome channel_name property value channel x short there =
      go (check_call channel_name property) refl
    where
      go :
          (o : Option EsconfError)
          → check_call channel_name property ≡ o
          → ((e : EsconfError) × (o ≡ some e)
              × (Path
                  (Op (Unit {0}))
                  (guarded o x (set p channel_name property value x))
                  (err e, x)))
            ⊎ ((s : Text) × (ps : List Text) × All IsName (s ∷ ps)
                × (property ≡ path (s ∷ ps))
                × IsSetOutcome p channel_name
                    (s ∷ ps)
                    value
                    channel
                    x
                    (guarded o x (set p channel_name property value x)))
      go (some e) h = inl (e, refl, refl)
      go none h =
          let (s, ps, names, eq) =
            (property_is_valid_iff property).0 (check_call-none channel_name property h).1 in
          inr (
            s,
            ps,
            names,
            eq,
            rw eq (
                set-IsSetOutcome p splits channel_name s ps value channel x
                  (All-IsComponent (s ∷ ps) names) (subst (λ n. length n ≤ 4095) eq short) there),
          )
