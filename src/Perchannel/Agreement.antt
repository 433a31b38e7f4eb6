-- ===== src/Perchannel/Agreement.antt =====
-- The operations that only look, beside one another.
use esconf.Prelude.{Bool, true, false}
use esconf.Platform.{Platform}
use esconf.Error.{Reply, ok, err, crash}
use esconf.Value.{GValue}

-- What the reply of a `get` says about existence.
abbrev pub found_by_get : Reply GValue → Reply Bool
found_by_get (ok v) = ok true
found_by_get (err e) = ok false
found_by_get crash = crash
