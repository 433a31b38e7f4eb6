-- ===== src/Daemon.antt =====
-- The method handlers of esconfd/esconf-daemon.c over the list of back ends, of which there is at
-- least one. A handler gives the reply to the caller and the back ends that it leaves. The conversion
-- of values from and to the bus' variants is in Daemon/Bus, with the signals.
pub mod Laws
pub mod Bus
pub mod Served
use esconf.Prelude.{
  Text, HashTable, Bool, true, false, Option, none, some, List, [], ◌∷◌, if◌then◌else◌,
}
use esconf.Error.{EsconfError, unknown, permission_denied, Reply, ok, err, crash}
use esconf.Value.{GValue}
use esconf.Backend.{
  EsconfBackendInterface, esconf_backend_set, esconf_backend_get, esconf_backend_get_all,
  esconf_backend_exists, esconf_backend_reset, esconf_backend_is_property_locked,
}

-- `esconfd->backends`
pub record EsconfDaemon (S : Type 0) : Type 0 where
  pub first : S
  pub next : List S

-- A back end that was visited, in front of the others.
abbrev pub visited : {A S : Type 0} → S → A × List S → A × List S
visited b (r, bs) = (r, b ∷ bs)

-- A loop over the back ends, back in the daemon. The list keeps its length.
abbrev pub to_daemon : {A S : Type 0} → EsconfDaemon S → A × List S → A × EsconfDaemon S
to_daemon d (r, []) = (r, d)
to_daemon d (r, b ∷ bs) = (r, record { first = b; next = bs })

abbrev pub all_backends : {S : Type 0} → EsconfDaemon S → List S
all_backends d = d.first ∷ d.next

-- `succeed` and `error` of a loop, behind the next back end's reply: a success is kept, and of the
-- errors the last one.
abbrev pub behind : {A : Type 0} → Reply A → Reply A → Reply A
behind sofar (ok a) = ok a
behind sofar crash = crash
behind (ok a) (err e) = ok a
behind (err e') (err e) = err e
behind crash (err e) = crash

-- One round of the loop over the locks, with what the others would do.
abbrev pub after_lock :
    {S : Type 0} → Reply Bool × S → List S → Reply (Unit {0}) × List S → Reply (Unit {0}) × List S
after_lock (err e, b) bs rest = (err e, b ∷ bs)
after_lock (crash, b) bs rest = (crash, b ∷ bs)
after_lock (ok true, b) bs rest = (err permission_denied, b ∷ bs)
after_lock (ok false, b) bs rest = visited b rest

-- One round of a loop that asks until a back end says TRUE, and of the loop that resets.
abbrev pub after_answer :
    {S : Type 0} → Reply Bool × S → List S → Reply Bool × List S → Reply Bool × List S
after_answer (crash, b) bs rest = (crash, b ∷ bs)
after_answer (err e, b) bs rest = visited b rest
after_answer (ok true, b) bs rest = (ok true, b ∷ bs)
after_answer (ok false, b) bs rest = visited b rest

abbrev pub after_reset :
    {S : Type 0}
    → Reply (Unit {0}) × S
    → List S
    → Reply (Unit {0}) × List S
    → Reply (Unit {0}) × List S
after_reset (crash, b) bs rest = (crash, b ∷ bs)
after_reset (err e, b) bs rest = visited b rest
after_reset (ok tt, b) bs rest = visited b rest

-- One round of the loop that looks for a value.
abbrev pub after_get :
    {S : Type 0}
    → Reply GValue × S
    → List S
    → (EsconfError → Reply GValue × List S)
    → Reply GValue × List S
after_get (ok v, b) bs rest = (ok v, b ∷ bs)
after_get (crash, b) bs rest = (crash, b ∷ bs)
after_get (err e, b) bs rest = visited b (rest e)

module _ {S : Type 0} (iface : EsconfBackendInterface S) where
  -- The loop over the locks of `esconf_set_property`; `ok` is the loop that sets no error.
  unfoldable pub check_locks : Text → Text → List S → Reply (Unit {0}) × List S
  check_locks channel property [] = (ok tt, [])
  check_locks channel property (b ∷ bs) =
      after_lock (esconf_backend_is_property_locked iface channel property b) bs
        (check_locks channel property bs)

  -- The first back end is the only one that is written to.
  unfoldable pub set_first :
      Text → Text → Option GValue → Reply (Unit {0}) × List S → Reply (Unit {0}) × List S
  set_first channel property value (ok tt, b ∷ bs) =
      let call = esconf_backend_set iface channel property value b in (call.0, call.1 ∷ bs)
  set_first channel property value checked = checked

  -- With one back end the loop over the locks is passed over.
  abbrev pub locks_checked : Text → Text → S → List S → Reply (Unit {0}) × List S
  locks_checked channel property b [] = (ok tt, b ∷ [])
  locks_checked channel property b (c ∷ bs) = check_locks channel property (b ∷ c ∷ bs)

  unfoldable pub esconf_set_property :
      Text → Text → Option GValue → EsconfDaemon S → Reply (Unit {0}) × EsconfDaemon S
  esconf_set_property channel property value d =
      to_daemon d (set_first channel property value (locks_checked channel property d.first d.next))

  -- The loop of `esconf_get_property`, up to the first back end that has a value; `last` is the error
  -- that is set before.
  unfoldable pub get_first : Text → Text → EsconfError → List S → Reply GValue × List S
  get_first channel property last [] = (err last, [])
  get_first channel property last (b ∷ bs) =
      after_get (esconf_backend_get iface channel property b) bs
        (λ e. get_first channel property e bs)

  unfoldable pub esconf_get_property : Text → Text → EsconfDaemon S → Reply GValue × EsconfDaemon S
  esconf_get_property channel property d =
      to_daemon d (get_first channel property unknown (all_backends d))

  -- The table that a back end leaves.
  abbrev collected : HashTable GValue → Reply (HashTable GValue) → HashTable GValue
  collected properties (ok properties') = properties'
  collected properties _ = properties

  -- The loop of `esconf_get_all_properties`; every back end adds to the table.
  unfoldable pub collect :
      Text
      → Text
      → HashTable GValue
      → Reply (Unit {0})
      → List S
      → (Reply (Unit {0}) × HashTable GValue) × List S
  collect channel property_base properties sofar [] = ((sofar, properties), [])
  collect channel property_base properties sofar (b ∷ bs) =
      let (r, b') = esconf_backend_get_all iface channel property_base properties b in
      elim r [
        | ok properties' ↦ visited b' (collect channel property_base properties' (ok tt) bs)
        | crash ↦ ((crash, properties), b' ∷ bs)
        | err e ↦ visited b' (collect channel property_base properties (behind sofar (err e)) bs)
      ]

  abbrev reply_with : Reply (Unit {0}) × HashTable GValue → Reply (HashTable GValue)
  reply_with (ok tt, properties) = ok properties
  reply_with (err e, properties) = err e
  reply_with (crash, properties) = crash

  unfoldable pub esconf_get_all_properties :
      Text → Text → EsconfDaemon S → Reply (HashTable GValue) × EsconfDaemon S
  esconf_get_all_properties channel property_base d =
      let (r, bs) = collect channel property_base [] (err unknown) (all_backends d) in
      to_daemon d (reply_with r, bs)

  -- A loop that asks until a back end says TRUE.
  unfoldable pub ask : (S → Reply Bool × S) → Reply Bool → List S → Reply Bool × List S
  ask question sofar [] = (sofar, [])
  ask question sofar (b ∷ bs) =
      after_answer (question b) bs (ask question (behind sofar (question b).0) bs)

  unfoldable pub esconf_property_exists : Text → Text → EsconfDaemon S → Reply Bool × EsconfDaemon S
  esconf_property_exists channel property d =
      to_daemon d
        (ask (esconf_backend_exists iface channel property) (err unknown) (all_backends d))

  unfoldable pub esconf_is_property_locked :
      Text → Text → EsconfDaemon S → Reply Bool × EsconfDaemon S
  esconf_is_property_locked channel property d = to_daemon d (
      ask (esconf_backend_is_property_locked iface channel property) (err unknown) (all_backends d))

  -- The loop of `esconf_reset_property`, over all the back ends.
  unfoldable pub reset_all :
      Text → Text → Bool → Reply (Unit {0}) → List S → Reply (Unit {0}) × List S
  reset_all channel property recursive sofar [] = (sofar, [])
  reset_all channel property recursive sofar (b ∷ bs) =
      let call = esconf_backend_reset iface channel property recursive b in
      after_reset call bs (reset_all channel property recursive (behind sofar call.0) bs)

  unfoldable pub esconf_reset_property :
      Text → Text → Bool → EsconfDaemon S → Reply (Unit {0}) × EsconfDaemon S
  esconf_reset_property channel property recursive d =
      to_daemon d (reset_all channel property recursive (err unknown) (all_backends d))
