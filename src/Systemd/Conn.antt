-- ===== src/Systemd/Conn.antt =====
-- internal/systemd/conn.go: the watched names of a `Conn`, `pump` and `hint` with the reader of the
-- wake channel, `Query` and `Close`, as steps in any order.
pub mod Wakes
use systemd2mqtt.Base.{
  Bool, true, false, not, ◌&&◌, ◌||◌, Option, none, some, List, [], ◌∷◌, ◌⊎◌, inl, inr,
  if◌then◌else◌, ◌==◌, length,
}
use systemd2mqtt.Base.Text.{Text, text_eq, contains}
use systemd2mqtt.Config.Data.{Scope, scope_user, scope_system}
use systemd2mqtt.Systemd.Unit.{Error, UnitStatus, is_already_subscribed}
use systemd2mqtt.Systemd.Statuses.{RawStatus, resolve_aliases, map_statuses}

-- The loop of `resolveAliases`, over the answers and the names in step: the primary ids are watched
-- too.
unfoldable pub watch_from : List Text → List RawStatus → List Text → List Text
unfolding text_eq
watch_from [] raw w = w
watch_from (n ∷ ns) [] w = w
watch_from (n ∷ ns) (r ∷ rs) w =
    watch_from ns rs (if text_eq r.name [] || text_eq r.name n then w else r.name ∷ w)

-- The set `watch`, where systemd answers the question for aliases and where it does not.
unfoldable pub watched : List Text → Option (List RawStatus) → List Text
unfolding watch_from
watched names none = names
watched names (some raw) = if length raw == length names then watch_from names raw names else names

abbrev pub aliases_of : List Text → Option (List RawStatus) → List (Text × Text)
aliases_of names none = []
aliases_of names (some raw) = resolve_aliases names raw

pub record Conn : Type 0 where
  pub scope : Scope
  pub watch : List Text
  pub aliases : List (Text × Text)
  -- A hint waits in the channel of one slot.
  pub wake : Bool
  pub stop : Bool
  pub done : Bool
  -- The connection of the library is closed.
  pub closed : Bool

pub data DialError : Type 0 where
  unknown_scope : Text → DialError
  connect_failed subscribe_failed : Error → DialError

abbrev pub new_conn : Scope → List Text → Option (List RawStatus) → Conn
new_conn scope names raw = record {
  scope = scope;
  watch = watched names raw;
  aliases = aliases_of names raw;
  wake = false;
  stop = false;
  done = false;
  closed = false;
}

-- What the bus answers while `Dial` runs: an error of the connection, one of the subscription, and
-- the answer about the names, which is only asked for if there are any.
pub record Answers : Type 0 where
  pub connect_error : Option Error
  pub subscribe_error : Option Error
  pub raw : Option (List RawStatus)

abbrev pub after_subscribe : Scope → List Text → Answers → Option Error → DialError ⊎ Conn
after_subscribe scope names a none = inr (new_conn scope names a.raw)
after_subscribe scope names a (some e) =
    if is_already_subscribed e then inr (new_conn scope names a.raw) else inl (subscribe_failed e)

abbrev pub after_connect : Scope → List Text → Answers → Option Error → DialError ⊎ Conn
after_connect scope names a none = after_subscribe scope names a a.subscribe_error
after_connect scope names a (some e) = inl (connect_failed e)

-- `Dial`
unfoldable pub dial : Scope → List Text → Answers → DialError ⊎ Conn
unfolding text_eq watched resolve_aliases is_already_subscribed
dial scope names a =
    if text_eq scope scope_user || text_eq scope scope_system
    then after_connect scope names a a.connect_error
    else inl (unknown_scope scope)

-- `hint`
abbrev pub hint : Conn → Conn
hint c = record c { wake = true }

pub data Event : Type 0 where
  -- The channel of updates has a unit's name, or nil; the channel of errors has one.
  updated : Option Text → Event
  update_dropped : Event
  -- The pump sees the stop; where an update waits too, either may be seen.
  stop_seen : Event
  wake_taken : Event
  close_called : Event

-- One round of `pump`; a pump that has ended has none.
unfoldable pub pump_update : Option Text → Conn → Conn
unfolding contains
pump_update none c = c
pump_update (some name) c = if contains c.watch name then hint c else c

-- `Close`, which waits for the pump.
unfoldable pub close : Conn → Conn
close c = if c.stop then c else record c { stop = true; done = true; closed = true }

unfoldable pub step : Conn → Event → Conn
unfolding pump_update close
step c (updated u) = if c.done then c else pump_update u c
step c update_dropped = if c.done then c else hint c
step c stop_seen = if c.stop then record c { done = true } else c
step c wake_taken = record c { wake = false }
step c close_called = close c

unfoldable pub run : Conn → List Event → Conn
unfolding step
run c [] = c
run c (e ∷ es) = run (step c e) es

abbrev pub query_answer : Conn → List Text → Error ⊎ List RawStatus → Error ⊎ List UnitStatus
query_answer c names (inl e) = inl e
query_answer c names (inr raw) = inr (map_statuses c.scope names c.aliases raw)

-- `Query`; without names nothing is asked.
unfoldable pub query : Conn → List Text → Error ⊎ List RawStatus → Error ⊎ List UnitStatus
unfolding map_statuses
query c [] answer = inr []
query c (n ∷ ns) answer = query_answer c (n ∷ ns) answer
