-- ===== src/Daemon/Served.antt =====
-- A daemon that serves the per-channel XML back end alone, as its clients see it on the bus.
use esconf.Prelude.{
  Text, lookup, length, ◌≤◌, ◌≡◌, refl, true, Option, none, some, inl, inr, Option-cases, [], ◌∷◌,
  List, All,
}
use esconf.Platform.{Platform, IsSplitter}
use esconf.Error.{internal_error, Reply, ok, err}
use esconf.Value.{GValue, is_set}
use esconf.Value.Variant.{
  ToVariant, GVariant, boxed, esconf_gvalue_to_gvariant, esconf_gvariant_to_gvalue,
}
use esconf.Names.Paths.{path, IsComponent}
use esconf.Loader.{Channel}
use esconf.Perchannel.{Xbpx}
use esconf.Perchannel.Operations.{set, get}
use esconf.Perchannel.GetSet.{IsKept, is_set-equal, get-set}
use esconf.Backend.{check_call, esconf_backend_set, esconf_backend_get}
use esconf.Backend.Laws.{perchannel_xml}
use esconf.Daemon.{EsconfDaemon, set_first, get_first, esconf_set_property, esconf_get_property}
use esconf.Daemon.Bus.{
  Signal, property_changed, signal_of, emit_property_changed_idled, value_reply,
  handle_set_property, handle_get_property,
}

abbrev pub daemon : Xbpx → EsconfDaemon Xbpx
daemon x = record { first = x; next = [] }

module _ (p : Platform) (channel_name property : Text)
    (checked : check_call channel_name property ≡ none) where
  served_set :
      (variant : GVariant) (v : GValue) (x : Xbpx)
      → esconf_gvariant_to_gvalue variant ≡ some v
      → handle_set_property (perchannel_xml p) channel_name property variant (daemon x)
        ≡ ((set p channel_name property v x).0, daemon (set p channel_name property v x).1)
  unfolding handle_set_property esconf_set_property set_first esconf_backend_set perchannel_xml
  served_set variant v x e = rw e (rw checked refl)

  served_get :
      (dbus : ToVariant) (v : GValue) (x x' : Xbpx)
      → get p channel_name property x ≡ (ok v, x')
      → (handle_get_property (perchannel_xml p) dbus channel_name property (daemon x)).0
        ≡ value_reply dbus (ok v)
  unfolding handle_get_property esconf_get_property get_first esconf_backend_get perchannel_xml
  served_get dbus v x x' e = rw checked (rw e refl)

  served_signal :
      (dbus : ToVariant) (v : GValue) (x x' : Xbpx)
      → get p channel_name property x ≡ (ok v, x')
      → (emit_property_changed_idled (perchannel_xml p) dbus channel_name property x).0
        ≡ signal_of (perchannel_xml p) dbus channel_name property (ok v)
  unfolding emit_property_changed_idled esconf_backend_get perchannel_xml
  served_signal dbus v x x' e = rw checked (rw e refl)

-- The reply to a get and the signal, for a value: the variant that it has, in a box, or an internal
-- error and no signal if it has none.
pub data IsSent (dbus : ToVariant) (channel_name property : Text) (v : GValue)
    (reply : Reply GVariant) (emitted : Reply (Option Signal)) : Type 0 where
  sent :
      (variant : GVariant)
      → esconf_gvalue_to_gvariant dbus v ≡ some variant
      → reply ≡ ok (boxed variant)
      → emitted ≡ ok (some (property_changed channel_name property (boxed variant)))
      → IsSent dbus channel_name property v reply emitted
  without_variant :
      esconf_gvalue_to_gvariant dbus v ≡ none
      → reply ≡ err internal_error
      → emitted ≡ ok none
      → IsSent dbus channel_name property v reply emitted

IsKept-is_set :
    (p : Platform) (value : GValue) {before : Reply GValue} {v : GValue}
    → IsKept p value before v
    → is_set value ≡ true
    → is_set v ≡ true
IsKept-is_set p value {before} {v} (inl same) is = rw same is
IsKept-is_set p value {before} {v} (inr (was, equal)) is = is_set-equal p v value equal is

-- What is sent of a value that is set.
value_reply-IsSent :
    (p : Platform) (dbus : ToVariant) (channel_name property : Text) (v : GValue)
    → is_set v ≡ true
    → IsSent dbus channel_name property v
        (value_reply dbus (ok v))
        (signal_of (perchannel_xml p) dbus channel_name property (ok v))
value_reply-IsSent p dbus channel_name property v is =
    elim (Option-cases (esconf_gvalue_to_gvariant dbus v)) [
      | inl e ↦ without_variant e (rw (e, value_reply) refl) (rw (is, e, signal_of) refl)
      | inr (variant, e) ↦ sent variant e (rw (e, value_reply) refl) (rw (is, e, signal_of) refl)
    ]

-- Behind a set of `value`, where `before` was the reply of the back end before it: there is one value,
-- this one or the one of `before` that counts as equal to it, that a get replies with and the signal
-- carries.
abbrev pub IsServed :
    Platform → ToVariant → Text → Text → GValue → Reply GValue → EsconfDaemon Xbpx → Type 0
IsServed p dbus channel_name property value before d =
    (v : GValue) × IsKept p value before v
    × IsSent dbus channel_name property v
        (handle_get_property (perchannel_xml p) dbus channel_name property d).0
        (emit_property_changed_idled (perchannel_xml p) dbus channel_name property d.first).0

-- On a daemon with the per-channel XML back end alone, for names that pass the checks, with a
-- path of components that fits the buffer and the channel in the table: behind a successful set
-- of a variant that is a value, there is one value, this one or the one that the back end gave
-- before and that counts as equal to it, such that, where it has a variant, esconf_get_property
-- replies with this variant in a box and the idle handler emits PropertyChanged with it; and
-- where it has none, the reply is an internal error and no signal is emitted.
pub handle_set_property-IsServed :
    (p : Platform) (dbus : ToVariant) (channel_name s : Text) (ps : List Text) (variant : GVariant)
    (v : GValue) (channel : Channel) (x : Xbpx)
    → IsSplitter p
    → check_call channel_name (path (s ∷ ps)) ≡ none
    → All IsComponent (s ∷ ps)
    → length (path (s ∷ ps)) ≤ 4095
    → esconf_gvariant_to_gvalue variant ≡ some v
    → is_set v ≡ true
    → lookup channel_name x.channels ≡ some channel
    → (handle_set_property (perchannel_xml p) channel_name (path (s ∷ ps)) variant (daemon x)).0
      ≡ ok tt
    → IsServed p dbus channel_name
        (path (s ∷ ps))
        v
        (get p channel_name (path (s ∷ ps)) x).0
        (handle_set_property (perchannel_xml p) channel_name (path (s ∷ ps)) variant (daemon x)).1
handle_set_property-IsServed p dbus channel_name s ps variant v channel x splits checked a short e
      is there =
    rw (served_set p channel_name (path (s ∷ ps)) checked variant v x e) (λ fine.
      let (v', got, same) = get-set p splits channel_name s ps v channel x a short is there fine in
      let x' = (set p channel_name (path (s ∷ ps)) v x).1 in
      (
        v',
        same,
        rw
            (
              served_get p channel_name (path (s ∷ ps)) checked dbus v' x' x' got,
              served_signal p channel_name (path (s ∷ ps)) checked dbus v' x' x' got,
            )
            (value_reply-IsSent p dbus channel_name (path (s ∷ ps)) v' (IsKept-is_set p v same is)),
      ))
