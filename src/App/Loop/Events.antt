-- ===== src/App/Loop/Events.antt =====
-- What `publish` keeps of the three fields, every event and every tick keeps.
use systemd2mqtt.Base.{Bool, true, false, Option, none, some, List, [], ◌∷◌, arith}
use systemd2mqtt.Base.Text.{Text}
use systemd2mqtt.Base.Text.Space.{trim_space}
use systemd2mqtt.Base.Assoc.{insert}
use systemd2mqtt.Config.Data.{Scope, UnitConfig, TemplateSelect, SelectOption}
use systemd2mqtt.Config.Query.{scopes, unit_by_id, select_by_id}
use systemd2mqtt.Ha.Topics.{
  Kind, in_unit_set, in_template_set, in_display_set, in_display_mode_set, in_daemon_restart,
  in_ha_status, Inbound, parse,
}
use systemd2mqtt.Display.Mode.{Mode, on, parse_mode, mode_of_off}
use systemd2mqtt.Config.Unit.{off_mode_value}
use systemd2mqtt.App.Model.{App, Fixed, World, TemplateCmd, Message}
use systemd2mqtt.App.Publish.{publish, publish_display, publish_daemon_state}
use systemd2mqtt.App.Publish.Keeps.{
  publish_bus-keeps, publish_display-keeps, publish_daemon_state-keeps,
}
use systemd2mqtt.App.Commands.{
  parse_command, dispatch_unit, started, started_template, post_template, post_chosen, choose,
  dispatch_template, display_command, request_full_publish, unit_command, select_command,
  mode_command, route, route_parsed, handle_inbound,
}
use systemd2mqtt.App.Loop.{
  Event, ev_wake, ev_reconcile, ev_bus_state, ev_display_mode, ev_display_error, ev_mqtt_connected,
  ev_mqtt_lost, ev_inbound, ev_job_done, ev_template_done, ev_full_publish, lower_wake,
  schedule_select, apply_display, handle_bus_state, handle, poll_scopes, poll_tick,
}
use systemd2mqtt.App.Loop.Fields.{
  Held, schedule_reconcile-Held, refresh_display-Held, republish_all-Held, reconcile_scope-Held,
  handle_job_done-Held,
}

module _ {X : Type 0} (F G : List Message → List (Text × Text) → List (Scope × Bool) → X) where
  abbrev Kept : App → Type 0
  Kept a = Held F G a

  started-Kept : (id : Text) (o : Option (Option Text)) (a : App) → Kept a → Kept (started id o a)
  started-Kept id none a h = h
  started-Kept id (some box) a h = h

  dispatch_unit-Kept :
      (u : UnitConfig) (verb : Text) (w : World) (a : App)
      → Kept a
      → Kept (dispatch_unit u verb w a)
  unfolding dispatch_unit
  dispatch_unit-Kept u verb w a h = started-Kept _ _ _ h

  started_template-Kept :
      (id : Text) (o : Option (Option TemplateCmd)) (a : App)
      → Kept a
      → Kept (started_template id o a)
  started_template-Kept id none a h = h
  started_template-Kept id (some box) a h = h

  post_template-Kept :
      (id : Text) (cmd : TemplateCmd) (w : World) (a : App)
      → Kept a
      → Kept (post_template id cmd w a)
  unfolding post_template
  post_template-Kept id cmd w a h = started_template-Kept _ _ _ h

  module _
      (keeps : (topic payload : Text) (retained : Bool) (a : App)
        → Kept a
        → Kept (publish topic payload retained a)) where
    module _ (x : Fixed) where
      post_chosen-Kept :
          (sel : TemplateSelect) (label : Text) (o : Option (Option SelectOption)) (w : World)
          (a : App)
          → Kept a
          → Kept (post_chosen x sel label o w a)
      post_chosen-Kept sel label none w a h = h
      post_chosen-Kept sel label (some chosen) w a h = post_template-Kept _ _ w a h

      select_command-Kept :
          (o : Option TemplateSelect) (label : Text) (w : World) (a : App)
          → Kept a
          → Kept (select_command x o label w a)
      unfolding dispatch_template
      select_command-Kept none label w a h = h
      select_command-Kept (some sel) label w a h =
          post_chosen-Kept sel label (choose sel label) w a h

      unit_command-Kept :
          (o : Option UnitConfig) (verb : Option Text) (w : World) (a : App)
          → Kept a
          → Kept (unit_command x o verb w a)
      unit_command-Kept none verb w a h = h
      unit_command-Kept (some u) none w a h = h
      unit_command-Kept (some u) (some verb) w a h = dispatch_unit-Kept u verb w a h

      display_command-Kept :
          (m : Mode) (w : World) (a : App) → Kept a → Kept (display_command x m w a)
      unfolding display_command
      display_command-Kept m w a h = ground arith

      mode_command-Kept :
          (o : Option Mode) (w : World) (a : App) → Kept a → Kept (mode_command x o w a)
      mode_command-Kept none w a h = h
      mode_command-Kept (some m) w a h = display_command-Kept m w a h

      request_full_publish-Kept : (w : World) (a : App) → Kept a → Kept (request_full_publish x w a)
      unfolding request_full_publish
      request_full_publish-Kept w a h = h

      route-Kept :
          (k : Kind) (id payload : Text) (w : World) (a : App)
          → Kept a
          → Kept (route x k id payload w a)
      unfolding route
      route-Kept in_ha_status id payload w a h = ground (arith, request_full_publish-Kept w a h)
      route-Kept in_unit_set id payload w a h =
          unit_command-Kept (unit_by_id x.cfg id) (parse_command payload) w a h
      route-Kept in_template_set id payload w a h =
          select_command-Kept (select_by_id x.cfg id) (trim_space payload) w a h
      route-Kept in_display_set id payload w a h = ground (
        arith,
        display_command-Kept on w a h,
        display_command-Kept (mode_of_off (off_mode_value x.cfg.display)) w a h,
      )
      route-Kept in_display_mode_set id payload w a h =
          mode_command-Kept (parse_mode (trim_space payload)) w a h
      route-Kept in_daemon_restart id payload w a h = h

      route_parsed-Kept :
          (o : Option Inbound) (payload : Text) (retained : Bool) (w : World) (a : App)
          → Kept a
          → Kept (route_parsed x o payload retained w a)
      route_parsed-Kept none payload retained w a h = h
      route_parsed-Kept (some i) payload retained w a h =
          ground (arith, route-Kept i.kind i.id payload w a h)

      schedule_select-Kept :
          (o : Option TemplateSelect) (a : App) → Kept a → Kept (schedule_select x o a)
      schedule_select-Kept none a h = h
      schedule_select-Kept (some sel) a h = schedule_reconcile-Held F G keeps x sel.scope a h

      display_shown :
          (w : World) (a : App) → Kept a → Kept (publish_daemon_state x w (publish_display x a))
      display_shown w a h =
          publish_daemon_state-keeps Kept keeps x w _ (publish_display-keeps Kept keeps x a h)

      handle_bus_state-Kept :
          (s : Scope) (online : Bool) (w : World) (a : App)
          → Kept a
          → Kept (handle_bus_state x s online w a)
      unfolding handle_bus_state
      handle_bus_state-Kept s true w a h = reconcile_scope-Held F G keeps x s w _ (
          publish_daemon_state-keeps Kept keeps x w _ (
            publish_bus-keeps Kept keeps x s (record a { bus_online = insert s true a.bus_online })
              h))
      handle_bus_state-Kept s false w a h = publish_daemon_state-keeps Kept keeps x w _ (
          publish_bus-keeps Kept keeps x s (record a { bus_online = insert s false a.bus_online })
            h)

      -- What a wake asks for: that lowering its flag keeps the equation.
      abbrev pub Woken : Event → App → Type 0
      Woken (ev_wake s) a = Kept (lower_wake x s a)
      Woken _ a = Kept a

      pub handle-Kept :
          (e : Event) (w : World) (a : App) → Woken e a → Kept a → Kept (handle x e w a)
      unfolding handle apply_display handle_inbound
      handle-Kept (ev_wake s) w a k h = schedule_reconcile-Held F G keeps x s _ k
      handle-Kept (ev_reconcile s) w a k h = reconcile_scope-Held F G keeps x s w a h
      handle-Kept (ev_bus_state s online) w a k h = handle_bus_state-Kept s online w a h
      handle-Kept (ev_display_mode m) w a k h =
          display_shown w (record a { disp_online = true; disp_mode = m }) h
      handle-Kept ev_display_error w a k h = display_shown w (record a { disp_online = false }) h
      handle-Kept ev_mqtt_connected w a k h = request_full_publish-Kept w a h
      handle-Kept ev_mqtt_lost w a k h = h
      handle-Kept (ev_inbound topic payload retained) w a k h =
          route_parsed-Kept (parse x.topics topic) payload retained w a h
      handle-Kept (ev_job_done id verb result err) w a k h =
          handle_job_done-Held F G keeps x id verb result err w a h
      handle-Kept (ev_template_done id) w a k h = schedule_select-Kept (select_by_id x.cfg id) a h
      handle-Kept ev_full_publish w a k h =
          republish_all-Held F G keeps x w
            (record a { full_publish_armed_at = 0; full_publish_wanted = false }) h

      poll_scopes-Kept :
          (ss : List Scope) (w : World) (a : App) → Kept a → Kept (poll_scopes x ss w a)
      unfolding poll_scopes
      poll_scopes-Kept [] w a h = h
      poll_scopes-Kept (s ∷ ss) w a h = poll_scopes-Kept ss w _ (
          ground (
            arith,
            handle_bus_state-Kept s (w.online s) w a h,
            reconcile_scope-Held F G keeps x s w a h,
          ))

      pub poll_tick-Kept : (w : World) (a : App) → Kept a → Kept (poll_tick x w a)
      unfolding poll_tick
      poll_tick-Kept w a h =
          refresh_display-Held F G keeps x w _
            (poll_scopes-Kept (scopes x.cfg) w _ (ground (arith, request_full_publish-Kept w a h)))
