-- ===== src/Systemd/Unit.antt =====
-- internal/systemd/manager.go: unit states, job results and errors. A D-Bus error is what the
-- program reads of it.
use systemd2mqtt.Base.{Bool, false, ◌||◌, Option, none, some, List, [], ◌∷◌, is_some, any}
use systemd2mqtt.Base.Text.{Text, text, text_eq, contains}
use systemd2mqtt.Base.Text.Case.{to_lower}
use systemd2mqtt.Base.Text.Search.{index}
use systemd2mqtt.Config.Data.{Scope}

pub record UnitStatus : Type 0 where
  pub name : Text
  pub scope : Scope
  pub active_state : Text
  pub sub_state : Text
  pub load_state : Text

-- `IsOn`
unfoldable pub is_on : Text → Bool
unfolding contains
is_on active_state =
    contains (text "active" ∷ text "activating" ∷ text "reloading" ∷ []) active_state

-- `IsFailed` and `IsMissing`
unfoldable pub is_failed : UnitStatus → Bool
is_failed u = text_eq u.active_state (text "failed")

unfoldable pub is_missing : UnitStatus → Bool
is_missing u = text_eq u.load_state (text "not-found")

abbrev pub JobResult : Type 0
JobResult = Text

abbrev pub job_done : JobResult
job_done = text "done"

-- The D-Bus call itself failed.
abbrev pub job_error : JobResult
job_error = text "error"

abbrev pub job_local_timeout : JobResult
job_local_timeout = text "local-timeout"

-- An error: its message, whether it is (or wraps) the connection's `ErrClosed`, and the D-Bus
-- name that it carries, if any.
pub record Error : Type 0 where
  pub message : Text
  pub is_closed : Bool
  pub dbus_name : Option Text

-- `ErrOffline`
abbrev pub err_offline : Error
err_offline = record {
  message = text "systemd manager offline";
  is_closed = false;
  dbus_name = none;
}

-- `strings.Contains`
abbrev pub has_text : Text → Text → Bool
has_text msg sub = is_some (index sub msg)

-- `IsDisconnectErr`, of an error that is not nil.
unfoldable pub is_disconnect_err : Error → Bool
unfolding index
is_disconnect_err e =
    e.is_closed
    || any (has_text e.message) (
        text "connection closed"
        ∷ text "use of closed network connection"
        ∷ text "EOF"
        ∷ text "broken pipe"
        ∷ [])

abbrev names_one : List Text → Option Text → Bool
names_one names none = false
names_one names (some n) = contains names n

-- `IsPolkitDenied`, of an error that is not nil.
unfoldable pub is_polkit_denied : Error → Bool
unfolding index contains
is_polkit_denied e =
    names_one
      (text "org.freedesktop.DBus.Error.AccessDenied"
        ∷ text "org.freedesktop.DBus.Error.InteractiveAuthorizationRequired"
        ∷ [])
      e.dbus_name
    || has_text e.message (text "Interactive authentication required")

-- `isAlreadySubscribed` of internal/systemd/conn.go, of an error that is not nil.
unfoldable pub is_already_subscribed : Error → Bool
unfolding index contains to_lower
is_already_subscribed e =
    names_one (text "org.freedesktop.systemd1.AlreadySubscribed" ∷ []) e.dbus_name
    || has_text (to_lower e.message) (text "alreadysubscribed")
    || has_text (to_lower e.message) (text "already subscribed")

-- How the wait of `Conn.job` ends: the call is refused, systemd reports a result, or the context
-- ends first.
pub data JobWait : Type 0 where
  call_failed : Error → JobWait
  job_removed : Text → JobWait
  context_done : Error → JobWait

-- `Conn.job`: the result, and the error if any. `toJobResult` keeps every text as it is.
unfoldable pub job : JobWait → JobResult × Option Error
job (call_failed e) = (job_error, some e)
job (job_removed res) = (res, none)
job (context_done e) = (job_local_timeout, some e)
