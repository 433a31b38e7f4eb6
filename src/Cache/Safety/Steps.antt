-- ===== src/Cache/Safety/Steps.antt =====
-- Everything that can happen to a cache, from esconf_cache_new to the last reply after its end.
use esconf.Prelude.{Text, ℕ, ◌<◌, Bool, true, ◌≡◌, Option, some, List}
use esconf.Platform.{Platform}
use esconf.Value.{GType, GValue}
use esconf.Value.Variant.{GVariant, ToVariant, esconf_gvalue_to_gvariant}
use esconf.Cache.{Client, Answer, esconf_cache_lookup}
use esconf.Cache.Change.{esconf_cache_set, set_property_reply_handler, esconf_cache_finalize}
use esconf.Cache.Signals.{Parameters, proxy_signal_received}
use esconf.Cache.Evict.{esconf_cache_reset, esconf_cache_prefetch}
use esconf.Cache.Safety.Handler.{arrived}

module _ (p : Platform) (transform : GValue → GType → Option GValue) (dbus : ToVariant) where
  -- A step of the program: a call of the cache's functions or a signal while the cache is there, its
  -- end, or a reply at any time. The values that are set have a variant.
  pub data Step (c : Client) (c' : Client) : Type 0 where
    on_lookup :
        (property : Text) (reply : Answer) (value : Option GValue)
        → c.alive ≡ true
        → c' ≡ (esconf_cache_lookup transform property reply value c).1
        → Step c c'
    on_set :
        (property : Text) (value : GValue) (reply : Answer) (val : GVariant) (r : Bool)
        → c.alive ≡ true
        → esconf_gvalue_to_gvariant dbus value ≡ some val
        → esconf_cache_set p transform dbus property value reply c ≡ some (r, c')
        → Step c c'
    on_reset :
        (base : Text) (recursive ret : Bool)
        → c.alive ≡ true
        → c' ≡ (esconf_cache_reset base recursive ret c).1
        → Step c c'
    on_prefetch :
        (reply : Option (List (Text × GVariant)))
        → c.alive ≡ true
        → c' ≡ (esconf_cache_prefetch reply c).1
        → Step c c'
    on_signal :
        (name : Text) (parameters : Parameters)
        → c.alive ≡ true
        → c' ≡ proxy_signal_received p name parameters c
        → Step c c'
    on_reply :
        (result : Bool) (o : ℕ)
        → 0 < c.calls o
        → set_property_reply_handler p result o (arrived o c) ≡ some c'
        → Step c c'
    on_finalize : c.alive ≡ true → esconf_cache_finalize c ≡ some c' → Step c c'

  pub data Reach (c : Client) : Client → Type 0 where
    here : Reach c c
    next : {d e : Client} → Reach c d → Step d e → Reach c e
