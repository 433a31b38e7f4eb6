-- ===== src/Daemon/Laws.antt =====
-- What the handlers do with more than one back end.
use esconf.Prelude.{
  Text, ◌≡◌, ◌≢◌, refl, ap, ◌∙◌, Bool, true, false, ◌||◌, Option, List, [], ◌∷◌, ◌++◌, All, arith,
}
use esconf.Error.{EsconfError, unknown, permission_denied, Reply, ok, err, crash}
use esconf.Value.{GValue}
use esconf.Backend.{
  EsconfBackendInterface, esconf_backend_set, esconf_backend_get, esconf_backend_reset,
  esconf_backend_is_property_locked,
}
use esconf.Daemon.{
  EsconfDaemon, to_daemon, all_backends, after_lock, check_locks, set_first, esconf_set_property,
  get_first, esconf_get_property, reset_all, esconf_reset_property,
}

-- Each back end of a list is asked and answers so; what they leave.
pub data AllAnswer {A S : Type 0} (ask : S → Reply A × S) (IsSo : Reply A → Type 0)
    : List S → List S → Type 0 where
  all_nil : AllAnswer ask IsSo [] []
  all_cons :
      {b b' : S} {bs bs' : List S} (r : Reply A)
      → ask b ≡ (r, b')
      → IsSo r
      → AllAnswer ask IsSo bs bs'
      → AllAnswer ask IsSo (b ∷ bs) (b' ∷ bs')

abbrev pub SaysFree : Reply Bool → Type 0
SaysFree (ok false) = Unit
SaysFree _ = ⊥

abbrev pub IsError : {A : Type 0} → Reply A → Type 0
IsError (err e) = Unit
IsError _ = ⊥

-- The loop of `esconf_reset_property` in one equation: its states and whether a reset succeeded.
abbrev pub is_ok : {A : Type 0} → Reply A → Bool
is_ok (ok a) = true
is_ok _ = false

abbrev pub some_ok : {A S : Type 0} → (S → Reply A × S) → List S → Bool
some_ok ask [] = false
some_ok ask (b ∷ bs) = is_ok (ask b).0 || some_ok ask bs

-- The daemon behind a loop that visits every back end.
abbrev pub each : {S : Type 0} → (S → S) → List S → List S
each f [] = []
each f (b ∷ bs) = f b ∷ each f bs

-- The daemon with these back ends; there are none only where there were none.
abbrev pub daemon_of : {S : Type 0} → EsconfDaemon S → List S → EsconfDaemon S
daemon_of d [] = d
daemon_of d (b ∷ bs) = record { first = b; next = bs }

to_daemon-eq :
    {A S : Type 0} (d : EsconfDaemon S) (r : A) (bs : List S)
    → to_daemon d (r, bs) ≡ (r, daemon_of d bs)
to_daemon-eq d r [] = refl
to_daemon-eq d r (b ∷ bs) = refl

module _ {S : Type 0} (iface : EsconfBackendInterface S) (channel property : Text) where
  abbrev pub lock_of : S → Reply Bool × S
  lock_of = esconf_backend_is_property_locked iface channel property

  abbrev pub value_of : S → Reply GValue × S
  value_of = esconf_backend_get iface channel property

  -- The loop over the locks, up to the first back end on which the property is locked.
  check_locks-denied :
      (pre pre' post : List S) (b b' : S)
      → AllAnswer lock_of SaysFree pre pre'
      → lock_of b ≡ (ok true, b')
      → check_locks iface channel property (pre ++ b ∷ post)
        ≡ (err permission_denied, pre' ++ b' ∷ post)
  unfolding check_locks
  check_locks-denied [] _ post b b' all_nil h = rw (h, check_locks)
  check_locks-denied (c ∷ pre) _ post b b' (all_cons (ok false) e so free) h =
      rw (e, check_locks-denied pre _ post b b' free h, check_locks)
  check_locks-denied (c ∷ pre) _ post b b' (all_cons (ok true) e so free) h = elim so [ ]
  check_locks-denied (c ∷ pre) _ post b b' (all_cons (err _) e so free) h = elim so [ ]
  check_locks-denied (c ∷ pre) _ post b b' (all_cons crash e so free) h = elim so [ ]

  check_locks-free :
      (bs : List S)
      → (check_locks iface channel property bs).0 ≡ ok tt
      → AllAnswer lock_of SaysFree bs (check_locks iface channel property bs).1
  unfolding check_locks
  check_locks-free [] h = all_nil
  check_locks-free (b ∷ bs) h =
      go (lock_of b) refl (check_locks iface channel property bs) refl (check_locks-free bs) h
    where
      go :
          (c : Reply Bool × S)
          → lock_of b ≡ c
          → (rest : Reply (Unit {0}) × List S) → check_locks iface channel property bs ≡ rest
          → (rest.0 ≡ ok tt → AllAnswer lock_of SaysFree bs rest.1)
          → (after_lock c bs rest).0 ≡ ok tt
          → AllAnswer lock_of SaysFree (b ∷ bs) (after_lock c bs rest).1
      go (ok false, b') e rest e' ih k = all_cons (ok false) e tt (ih k)
      go (ok true, b') e rest e' ih k = absurd (ground arith)
      go (err x, b') e rest e' ih k = absurd (ground arith)
      go (crash, b') e rest e' ih k = absurd (ground arith)

  get_first-found :
      (pre pre' post : List S) (b b' : S) (v : GValue) (last : EsconfError)
      → AllAnswer value_of IsError pre pre'
      → value_of b ≡ (ok v, b')
      → get_first iface channel property last (pre ++ b ∷ post) ≡ (ok v, pre' ++ b' ∷ post)
  unfolding get_first
  get_first-found [] _ post b b' v last all_nil h = rw (h, get_first)
  get_first-found (c ∷ pre) _ post b b' v last (all_cons (err x) e so fail) h =
      rw (e, get_first) (rw (get_first-found pre _ post b b' v x fail h))
  get_first-found (c ∷ pre) _ post b b' v last (all_cons (ok _) e so fail) h = elim so [ ]
  get_first-found (c ∷ pre) _ post b b' v last (all_cons crash e so fail) h = elim so [ ]

  -- With more than one back end: where the property is locked on one of them, and the ones in front
  -- of it answer that it is free on them, `esconf_set_property` refuses, and no back end is written
  -- to: the ones that were asked are as the question leaves them, and the others as they were.
  pub esconf_set_property_denied :
      (value : Option GValue) (a c : S) (cs pre pre' post : List S) (b b' : S)
      → a ∷ c ∷ cs ≡ pre ++ b ∷ post
      → AllAnswer lock_of SaysFree pre pre'
      → lock_of b ≡ (ok true, b')
      → esconf_set_property iface channel property value (record { first = a; next = c ∷ cs }) ≡ (
        err permission_denied,
        daemon_of (record { first = a; next = c ∷ cs }) (pre' ++ b' ∷ post),
      )
  unfolding esconf_set_property set_first
  esconf_set_property_denied value a c cs pre pre' post b b' all free locked =
      let asked : check_locks iface channel property (a ∷ c ∷ cs)
          ≡ (err permission_denied, pre' ++ b' ∷ post) =
        rw all (check_locks-denied pre pre' post b b' free locked) in
      rw asked (to_daemon-eq _ (err permission_denied) (pre' ++ b' ∷ post))

  -- With more than one back end: where `esconf_set_property` succeeds, every back end in turn has
  -- answered that the property is free on it, and only the first one is changed behind that, by a
  -- successful `esconf_backend_set`.
  pub esconf_set_property_free :
      (value : Option GValue) (a c : S) (cs : List S)
      → (esconf_set_property iface channel property value (record { first = a; next = c ∷ cs })).0
        ≡ ok tt
      → (b : S) × (bs : List S) × AllAnswer lock_of SaysFree (a ∷ c ∷ cs) (b ∷ bs)
        × ((esconf_backend_set iface channel property value b).0 ≡ ok tt)
        × ((esconf_set_property iface channel property value
              (record { first = a; next = c ∷ cs })).1
            ≡ record { first = (esconf_backend_set iface channel property value b).1; next = bs })
  unfolding esconf_set_property set_first
  esconf_set_property_free value a c cs =
      go (check_locks iface channel property (a ∷ c ∷ cs)) (check_locks-free (a ∷ c ∷ cs))
    where
      go :
          (checked : Reply (Unit {0}) × List S)
          → (checked.0 ≡ ok tt → AllAnswer lock_of SaysFree (a ∷ c ∷ cs) checked.1)
          → (to_daemon
              (record { first = a; next = c ∷ cs })
              (set_first iface channel property value checked)).0
            ≡ ok tt
          → (b : S) × (bs : List S) × AllAnswer lock_of SaysFree (a ∷ c ∷ cs) (b ∷ bs)
            × ((esconf_backend_set iface channel property value b).0 ≡ ok tt)
            × ((to_daemon
                  (record { first = a; next = c ∷ cs })
                  (set_first iface channel property value checked)).1
                ≡ record {
                  first = (esconf_backend_set iface channel property value b).1;
                  next = bs;
                })
      go (ok tt, b ∷ bs) free h = (b, bs, free refl, h, refl)
      go (ok tt, []) free h = elim (free refl) [ ]
      go (err e, []) free h = absurd (ground arith)
      go (err e, b ∷ bs) free h = absurd (ground arith)
      go (crash, []) free h = absurd (ground arith)
      go (crash, b ∷ bs) free h = absurd (ground arith)

  -- `esconf_get_property` gives the value of the first back end that has one: where the back ends in
  -- front of it answer with errors, its value is the reply, and the back ends behind it are not asked.
  pub esconf_get_property_found :
      (d : EsconfDaemon S) (pre pre' post : List S) (b b' : S) (v : GValue)
      → all_backends d ≡ pre ++ b ∷ post
      → AllAnswer value_of IsError pre pre'
      → value_of b ≡ (ok v, b')
      → esconf_get_property iface channel property d ≡ (ok v, daemon_of d (pre' ++ b' ∷ post))
  unfolding esconf_get_property
  esconf_get_property_found d pre pre' post b b' v all fail found = rw all (
      rw (get_first-found pre pre' post b b' v unknown fail found)
        (to_daemon-eq d (ok v) (pre' ++ b' ∷ post)))

module _ {S : Type 0} (iface : EsconfBackendInterface S) (channel property : Text)
    (recursive : Bool) where
  abbrev pub reset_of : S → Reply (Unit {0}) × S
  reset_of = esconf_backend_reset iface channel property recursive

  reset_all-each :
      (bs : List S) (sofar : Reply (Unit {0}))
      → All (λ b. (reset_of b).0 ≢ crash) bs
      → sofar ≢ crash
      → ((reset_all iface channel property recursive sofar bs).1 ≡ each (λ b. (reset_of b).1) bs)
        × (is_ok (reset_all iface channel property recursive sofar bs).0
            ≡ (is_ok sofar || some_ok reset_of bs))
  unfolding reset_all
  reset_all-each [] sofar none_crash k = ground arith
  reset_all-each (b ∷ bs) sofar none_crash k =
      go (reset_of b) refl sofar k (λ r. reset_all-each bs r none_crash.1)
    where
      go :
          (call : Reply (Unit {0}) × S)
          → reset_of b ≡ call
          → (sofar : Reply (Unit {0})) → sofar ≢ crash
          → ((r : Reply (Unit {0}))
              → r ≢ crash
              → ((reset_all iface channel property recursive r bs).1
                  ≡ each (λ b. (reset_of b).1) bs)
                × (is_ok (reset_all iface channel property recursive r bs).0
                    ≡ (is_ok r || some_ok reset_of bs)))
          → ((reset_all iface channel property recursive sofar (b ∷ bs)).1
              ≡ each (λ b. (reset_of b).1) (b ∷ bs))
            × (is_ok (reset_all iface channel property recursive sofar (b ∷ bs)).0
                ≡ (is_ok sofar || some_ok reset_of (b ∷ bs)))
      go (crash, b') e sofar k ih = absurd (none_crash.0 (rw e))
      go (ok tt, b') e sofar k ih =
          rw (e, reset_all) (ground (arith, ih (ok tt) (λ x. ground arith)))
      go (err x, b') e (ok tt) k ih = rw (e, reset_all) (ground (arith, ih (ok tt) k))
      go (err x, b') e (err y) k ih =
          rw (e, reset_all) (ground (arith, ih (err x) (λ z. ground arith)))
      go (err x, b') e crash k ih = absurd (k refl)

  -- Where no back end's reset ends the process: `esconf_reset_property` resets every back end, the
  -- ones behind a success or a failure too, and succeeds exactly if one of the resets does.
  pub esconf_reset_property-each :
      (d : EsconfDaemon S)
      → All (λ b. (reset_of b).0 ≢ crash) (all_backends d)
      → ((esconf_reset_property iface channel property recursive d).1
          ≡ daemon_of d (each (λ b. (reset_of b).1) (all_backends d)))
        × (is_ok (esconf_reset_property iface channel property recursive d).0
            ≡ some_ok reset_of (all_backends d))
  unfolding esconf_reset_property
  esconf_reset_property-each d none_crash =
      let all = reset_all-each (all_backends d) (err unknown) none_crash (λ e. ground arith) in
      let eq =
        to_daemon-eq d (reset_all iface channel property recursive (err unknown) (all_backends d)).0
          (reset_all iface channel property recursive (err unknown) (all_backends d)).1 in
      (ap (λ r. r.1) eq ∙ ap (daemon_of d) all.0, ap (λ r. is_ok r.0) eq ∙ all.1)
