-- ===== src/App/Loop.antt =====
-- internal/app/app.go: the events, `handle` and `pollTick`.
pub mod Cached
pub mod Fields
pub mod Queue
pub mod Wakes
pub mod Stuck
pub mod Events
pub mod Resync
pub mod Retained
use systemd2mqtt.Base.{
  ℕ, ◌*◌, ◌-◌, Bool, true, false, not, ◌&&◌, ◌||◌, Option, none, some, List, [], ◌∷◌, if◌then◌else◌,
  ◌==◌, ltb, is_some,
}
use systemd2mqtt.Base.Text.{Text}
use systemd2mqtt.Base.Assoc.{lookup, insert}
use systemd2mqtt.Config.Data.{Scope, TemplateSelect, second}
use systemd2mqtt.Config.Query.{scopes, select_by_id}
use systemd2mqtt.Display.Mode.{Mode}
use systemd2mqtt.Systemd.Unit.{JobResult, Error}
use systemd2mqtt.App.Model.{App, Fixed, World, bus_flag}
use systemd2mqtt.App.Publish.{
  publish_bus, publish_daemon_state, publish_display, schedule_reconcile, refresh_display,
  republish_all,
}
use systemd2mqtt.App.Reconcile.{reconcile_scope, handle_job_done}
use systemd2mqtt.App.Commands.{handle_inbound, request_full_publish}

pub data Event : Type 0 where
  ev_wake : Scope → Event
  ev_reconcile : Scope → Event
  ev_bus_state : Scope → Bool → Event
  ev_display_mode : Mode → Event
  ev_display_error : Event
  ev_mqtt_connected : Event
  ev_mqtt_lost : Event
  ev_inbound : Text → Text → Bool → Event
  ev_job_done : Text → Text → JobResult → Option Error → Event
  ev_template_done : Text → Event
  ev_full_publish : Event

abbrev pub differ : Bool → Bool → Bool
differ true b = not b
differ false b = b

abbrev pub full_publish_delay : ℕ
full_publish_delay = 2 * second

module _ (x : Fixed) where
  -- `applyDisplay`
  unfoldable pub apply_display : Mode → World → App → App
  apply_display m w a =
      publish_daemon_state x w (publish_display x (record a { disp_online = true; disp_mode = m }))

  abbrev pub schedule_select : Option TemplateSelect → App → App
  schedule_select none a = a
  schedule_select (some sel) a = schedule_reconcile x sel.scope a

  abbrev pub lower_wake : Scope → App → App
  lower_wake scope a =
      if is_some (lookup scope a.wake_pending)
      then record a { wake_pending = insert scope false a.wake_pending }
      else a

  -- The case of a bus that comes or goes.
  unfoldable pub handle_bus_state : Scope → Bool → World → App → App
  handle_bus_state scope online w a =
      let published =
        publish_daemon_state x w
          (publish_bus x scope (record a { bus_online = insert scope online a.bus_online })) in
      if online then reconcile_scope x scope w published else published

  -- `handle`
  unfoldable pub handle : Event → World → App → App
  unfolding apply_display handle_bus_state
  handle (ev_wake scope) w a = schedule_reconcile x scope (lower_wake scope a)
  handle (ev_reconcile scope) w a = reconcile_scope x scope w a
  handle (ev_bus_state scope online) w a = handle_bus_state scope online w a
  handle (ev_display_mode m) w a = apply_display m w a
  handle ev_display_error w a =
      publish_daemon_state x w (publish_display x (record a { disp_online = false }))
  handle ev_mqtt_connected w a = request_full_publish x w a
  handle ev_mqtt_lost w a = a
  handle (ev_inbound topic payload retained) w a = handle_inbound x topic payload retained w a
  handle (ev_job_done id verb result err) w a = handle_job_done x id verb result err w a
  handle (ev_template_done id) w a = schedule_select (select_by_id x.cfg id) a
  handle ev_full_publish w a =
      republish_all x w (record a { full_publish_armed_at = 0; full_publish_wanted = false })

  -- One scope's part of `pollTick`.
  unfoldable pub poll_scope : Scope → World → App → App
  unfolding handle
  poll_scope scope w a =
      if differ (w.online scope) (bus_flag a scope)
      then handle (ev_bus_state scope (w.online scope)) w a
      else reconcile_scope x scope w a

  unfoldable pub poll_scopes : List Scope → World → App → App
  unfolding poll_scope
  poll_scopes [] w a = a
  poll_scopes (s ∷ ss) w a = poll_scopes ss w (poll_scope s w a)

  -- A republish that was asked for and never ran is asked for again.
  unfoldable pub retry_full_publish : World → App → App
  retry_full_publish w a =
      if a.full_publish_wanted
        && (a.full_publish_armed_at == 0
            || ltb (2 * full_publish_delay) (w.now - a.full_publish_armed_at))
      then request_full_publish x w a
      else a

  -- `pollTick`
  unfoldable pub poll_tick : World → App → App
  unfolding retry_full_publish poll_scopes
  poll_tick w a = refresh_display x w (poll_scopes (scopes x.cfg) w (retry_full_publish w a))
