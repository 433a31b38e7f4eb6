-- ===== src/Error/Names.antt =====
-- The names of the errors on the bus.
use esconf.Prelude.{◌≡◌, arith}
use esconf.Error.{EsconfError, unknown, dbus_error_name}

-- Two errors of one name on the bus are one error, so a client can tell them apart.
pub dbus_error_name_inj : (e e' : EsconfError) → dbus_error_name e ≡ dbus_error_name e' → e ≡ e'
unfolding dbus_error_name
dbus_error_name_inj unknown e' h = ground arith
dbus_error_name_inj _ e' h = ground arith
