-- ===== src/Error.antt =====
-- esconf/esconf-errors.h and common/esconf-errors.c: the errors, and their names on the bus.
pub mod Names
use esconf.Prelude.{Text, bytes}

-- `EsconfError`
pub data EsconfError : Type 0 where
  unknown channel_not_found property_not_found read_failure write_failure : EsconfError
  permission_denied internal_error no_backend invalid_property invalid_channel : EsconfError

-- What an operation gives its caller: a result, an error, or the end of the process on a NULL
-- pointer or a failed assertion.
pub data Reply {ℓ} (A : Type ℓ) : Type ℓ where
  ok : A → Reply A
  err : EsconfError → Reply A
  crash : Reply A

-- `esconf_daemon_dbus_error_entries`
unfoldable pub dbus_error_name : EsconfError → Text
dbus_error_name unknown = bytes "com.expidus.Esconf.Error.Unknown"
dbus_error_name channel_not_found = bytes "com.expidus.Esconf.Error.ChannelNotFound"
dbus_error_name property_not_found = bytes "com.expidus.Esconf.Error.PropertyNotFound"
dbus_error_name read_failure = bytes "com.expidus.Esconf.Error.ReadFailure"
dbus_error_name write_failure = bytes "com.expidus.Esconf.Error.WriteFailure"
dbus_error_name permission_denied = bytes "com.expidus.Esconf.Error.PermissionDenied"
dbus_error_name internal_error = bytes "com.expidus.Esconf.Error.InternalError"
dbus_error_name no_backend = bytes "com.expidus.Esconf.Error.NoBackend"
dbus_error_name invalid_property = bytes "com.expidus.Esconf.Error.InvalidProperty"
dbus_error_name invalid_channel = bytes "com.expidus.Esconf.Error.InvalidChannel"
