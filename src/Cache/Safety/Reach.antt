-- ===== src/Cache/Safety/Reach.antt =====
-- The invariant along all that can happen to a cache.
use esconf.Prelude.{
  Text, bytes, streq, not, is_some, HashTable, lookup, ℕ, ◌<◌, Bool, inl, inr, true, false, ◌≡◌,
  refl, sym, ◌∙◌, Option, Option-cases, none, some, List, [], ◌∷◌, arith, if◌then◌else◌,
}
use esconf.Platform.{Platform}
use esconf.Value.{GType, GValue}
use esconf.Value.Variant.{GVariant, ToVariant}
use esconf.Cache.{Client, esconf_cache_new, esconf_cache_lookup}
use esconf.Cache.Change.{set_property_reply_handler, esconf_cache_finalize}
use esconf.Cache.Signals.{
  Parameters, ssv, ss, other_type, handle_property_changed, handle_property_removed,
  proxy_signal_received, store_changed,
}
use esconf.Cache.Evict.{esconf_cache_reset, esconf_cache_prefetch, prefetched}
use esconf.Cache.Safety.{Sound, has_call}
use esconf.Cache.Safety.Handler.{arrived, set_property_reply_handler-Sound}
use esconf.Cache.Safety.Setting.{esconf_cache_set-Sound}
use esconf.Cache.Safety.Finalize.{esconf_cache_finalize-Sound}
use esconf.Cache.Safety.Steps.{
  Step, on_lookup, on_set, on_reset, on_prefetch, on_signal, on_reply, on_finalize, Reach, here,
  next,
}

-- Two states that differ in the items, the messages and the signals only.
record IsLike (c d : Client) : Type 0 where
  alive : d.alive ≡ c.alive
  pending_calls : d.pending_calls ≡ c.pending_calls
  old_properties : d.old_properties ≡ c.old_properties
  old_items : d.old_items ≡ c.old_items
  fresh : d.fresh ≡ c.fresh
  calls : d.calls ≡ c.calls

IsLike-Sound : (c d : Client) → IsLike c d → Sound c → Sound d
IsLike-Sound c d h sound =
    rw (h.alive, h.pending_calls, h.old_properties, h.old_items, h.fresh, h.calls) sound

either-IsLike :
    (b : Bool) (c d e : Client) → IsLike c d → IsLike c e → IsLike c (if b then d else e)
either-IsLike true c d e h k = h
either-IsLike false c d e h k = k

IsLike-refl : (c : Client) → IsLike c c
IsLike-refl c = record {
  alive = refl;
  pending_calls = refl;
  old_properties = refl;
  old_items = refl;
  fresh = refl;
  calls = refl;
}

stored-IsLike :
    (c : Client) (items : HashTable (Option GValue)) (signals : List (Text × Option GValue))
    → IsLike c (record c { properties = items; signals = signals })
stored-IsLike c items signals = record {
  alive = refl;
  pending_calls = refl;
  old_properties = refl;
  old_items = refl;
  fresh = refl;
  calls = refl;
}

store_changed-IsLike :
    (property : Text) (value : Option GValue) (r : Bool × Option GValue) (c : Client)
    → IsLike c (store_changed property value r c)
store_changed-IsLike property value (true, item) c = stored-IsLike c _ _
store_changed-IsLike property value (false, item) c = stored-IsLike c _ _

changed-IsLike :
    (p : Platform) (parameters : Parameters) (c : Client)
    → IsLike c (handle_property_changed p parameters c)
unfolding handle_property_changed
changed-IsLike p (ssv channel property variant) c =
    either-IsLike (not (streq channel c.channel_name)) c _ _ (IsLike-refl c) (
      either-IsLike (is_some (lookup property c.old_properties)) c _ _ (IsLike-refl c)
        (store_changed-IsLike property _ _ c))
changed-IsLike p (ss channel property) c = IsLike-refl c
changed-IsLike p other_type c = IsLike-refl c

removed-IsLike :
    (parameters : Parameters) (c : Client) → IsLike c (handle_property_removed parameters c)
unfolding handle_property_removed
removed-IsLike (ss channel property) c =
    either-IsLike (not (streq channel c.channel_name)) c _ _ (IsLike-refl c) (stored-IsLike c _ _)
removed-IsLike (ssv channel property variant) c = IsLike-refl c
removed-IsLike other_type c = IsLike-refl c

signal-IsLike :
    (p : Platform) (name : Text) (parameters : Parameters) (c : Client)
    → IsLike c (proxy_signal_received p name parameters c)
unfolding proxy_signal_received
signal-IsLike p name parameters c =
    either-IsLike (streq name (bytes "PropertyChanged")) c _ _ (changed-IsLike p parameters c) (
      either-IsLike (streq name (bytes "PropertyRemoved")) c _ _ (removed-IsLike parameters c)
        (IsLike-refl c))

reset-IsLike :
    (base : Text) (recursive ret : Bool) (c : Client)
    → IsLike c (esconf_cache_reset base recursive ret c).1
unfolding esconf_cache_reset
reset-IsLike base recursive true c = stored-IsLike c _ _
reset-IsLike base recursive false c = IsLike-refl c

prefetched-IsLike :
    (reply : Option (List (Text × GVariant))) (c : Client) → IsLike c (prefetched reply c).1
prefetched-IsLike none c = IsLike-refl c
prefetched-IsLike (some entries) c = stored-IsLike c _ _

prefetch-IsLike :
    (reply : Option (List (Text × GVariant))) (c : Client)
    → IsLike c (esconf_cache_prefetch reply c).1
unfolding esconf_cache_prefetch
prefetch-IsLike reply c = go c.properties
  where
    go :
        (items : HashTable (Option GValue))
        → IsLike c (
            (elim items as (λ x. Bool × Client) [ [] ↦ prefetched reply c | _ ∷ _ ↦ (false, c) ]).1)
    go [] = prefetched-IsLike reply c
    go (x ∷ items) = IsLike-refl c

same_result : {c d : Client} → ◌≡◌ {A = Option Client} (some c) (some d) → c ≡ d
same_result e = ground (arith, e)

same_pair :
    {r s : Bool} {c d : Client}
    → ◌≡◌ {A = Option (Bool × Client)} (some (r, c)) (some (s, d))
    → c ≡ d
same_pair e = ground (arith, e)

transported : {c d : Client} → c ≡ d → Sound c → Sound d
transported e sound = rw⁻¹ e sound

module _ (p : Platform) (transform : GValue → GType → Option GValue) (dbus : ToVariant) where
  -- Every step keeps the invariant of the cache, which links old items, calls on their way and
  -- both tables: a look-up, a set of a value that has a variant, a reset, a prefetch or a signal
  -- of the daemon while the cache is there, its end, and a reply at any time, also behind its
  -- end.
  pub Step-Sound : {c c' : Client} → Step p transform dbus c c' → Sound c → Sound c'
  unfolding esconf_cache_lookup
  Step-Sound {c} {c'} (on_lookup property reply value alive eq) sound = rw eq sound
  Step-Sound {c} {c'} (on_set property value reply val r alive sendable eq) sound =
      let (r', d, eq', sound', alive') =
        esconf_cache_set-Sound p transform dbus property value reply c val sendable sound alive in
      transported (same_pair (sym eq' ∙ eq)) sound'
  Step-Sound {c} {c'} (on_reset base recursive ret alive eq) sound =
      rw eq (IsLike-Sound c _ (reset-IsLike base recursive ret c) sound)
  Step-Sound {c} {c'} (on_prefetch reply alive eq) sound =
      rw eq (IsLike-Sound c _ (prefetch-IsLike reply c) sound)
  Step-Sound {c} {c'} (on_signal name parameters alive eq) sound =
      rw eq (IsLike-Sound c _ (signal-IsLike p name parameters c) sound)
  Step-Sound {c} {c'} (on_reply result o n eq) sound =
      let (d, eq', sound') = set_property_reply_handler-Sound p result o c sound n in
      transported (same_result (sym eq' ∙ eq)) sound'
  Step-Sound {c} {c'} (on_finalize alive eq) sound =
      let (d, eq', sound', dead) = esconf_cache_finalize-Sound c sound in
      transported (same_result (sym eq' ∙ eq)) sound'

esconf_cache_new-Sound : (channel : Text) → Sound (esconf_cache_new channel)
unfolding has_call lookup
esconf_cache_new-Sound channel = record {
  counted = λ o i e. ground (arith, e);
  idle = λ o e. refl;
  listed = λ property o e. ground (arith, e);
  entered = λ o i e. ground (arith, e);
  backed = λ k o e. ground (arith, e);
  bounded = λ o i e. ground (arith, e);
  distinct = λ o u i j e. ground (arith, e);
}

pub Reach-Sound :
    (p : Platform) (transform : GValue → GType → Option GValue) (dbus : ToVariant) (channel : Text)
    {c : Client}
    → Reach p transform dbus (esconf_cache_new channel) c
    → Sound c
Reach-Sound p transform dbus channel here = esconf_cache_new-Sound channel
Reach-Sound p transform dbus channel (next r step) =
    Step-Sound p transform dbus step (Reach-Sound p transform dbus channel r)

module _ (p : Platform) (transform : GValue → GType → Option GValue) (dbus : ToVariant)
    (channel : Text) {c : Client}
    (reached : Reach p transform dbus (esconf_cache_new channel) c) where
  -- Whatever happened to a cache since it was new, also when it is freed by now, the handler of a
  -- reply that is still to come uses neither a freed old item nor the freed cache. The values
  -- that were set have a variant.
  pub set_property_reply_handler-some :
      (result : Bool) (o : ℕ)
      → 0 < c.calls o
      → (c' : Client) × (set_property_reply_handler p result o (arrived o c) ≡ some c')
  set_property_reply_handler-some result o n =
      let (c', eq, sound) =
        set_property_reply_handler-Sound p result o c (Reach-Sound p transform dbus channel reached)
          n in
      (c', eq)

  -- Whatever happened to a cache since it was new, its end finds the old item of every pending
  -- call, and the variant to send once more. The values that were set have a variant.
  pub esconf_cache_finalize-some :
      c.alive ≡ true → (c' : Client) × (esconf_cache_finalize c ≡ some c')
  esconf_cache_finalize-some alive =
      let (c', eq, sound, dead) =
        esconf_cache_finalize-Sound c (Reach-Sound p transform dbus channel reached) in
      (c', eq)

  -- Whatever happened to a cache since it was new, once no reply is outstanding no property is in
  -- the table of old properties, which makes the cache pass over the daemon's signals for it. The
  -- values that were set have a variant.
  pub lookup-none :
      (property : Text) → ((o : ℕ) → c.calls o ≡ 0) → lookup property c.old_properties ≡ none
  lookup-none property quiet = elim (Option-cases (lookup property c.old_properties)) [
    | inl free ↦ free
    | inr (o, old) ↦
        let sound = Reach-Sound p transform dbus channel reached in
        let (i, at, named, uncancelled, n) = sound.listed property o old in
        absurd (omega (arith, quiet o, sound.counted o i at, n))
  ]
