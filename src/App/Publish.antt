-- ===== src/App/Publish.antt =====
-- internal/app/publish.go. The loop runs only with a client, so `publish` does not return early.
pub mod Keeps
pub mod Order
use systemd2mqtt.Base.{
  Bool, true, false, not, ◌&&◌, Option, none, some, List, [], ◌∷◌, ◌++◌, if◌then◌else◌,
}
use systemd2mqtt.Base.Text.{Text, text, text_eq, contains}
use systemd2mqtt.Base.Assoc.{lookup, insert}
use systemd2mqtt.Config.Data.{Scope, TemplateSelect, scope_user, scope_system}
use systemd2mqtt.Config.Unit.{ha_enabled, display_enabled}
use systemd2mqtt.Config.Query.{scopes}
use systemd2mqtt.Ha.Topics.{
  unit_state, unit_attributes, template_state as template_topic, bus_availability, display_state,
  display_mode_state, display_attributes, display_availability, daemon_state, discovery_config,
  availability,
}
use systemd2mqtt.Display.Mode.{mode_string, switch_state, mode_int}
use systemd2mqtt.Systemd.Unit.{is_on}
use systemd2mqtt.Ha.Discovery.{build_discovery}
use systemd2mqtt.App.State.{UnitSnapshot, snapshots, template_state}
use systemd2mqtt.App.Model.{
  App, Fixed, World, unit_document, display_document, daemon_document, discovery_document,
  UnitAttributes, DaemonState, bus_flag, display_available, effect, arm_reconcile, read_display,
  flag,
}

abbrev pub same_payload : Option Text → Text → Bool
same_payload none p = false
same_payload (some prev) p = text_eq prev p

abbrev pub remember : Text → Text → Bool → App → App
remember topic payload true a = record a { last = insert topic payload a.last }
remember topic payload false a = a

abbrev pub send : Text → Text → Bool → App → App
send topic payload retained a = record a {
  sent = a.sent ++ (record { topic = topic; payload = payload; retained = retained } ∷ []);
}

-- `publish`
unfoldable pub publish : Text → Text → Bool → App → App
publish topic payload retained a =
    if retained && not a.force && same_payload (lookup topic a.last) payload
    then a
    else send topic payload retained (remember topic payload retained a)

-- A document that cannot be encoded is not published.
abbrev pub publish_encoded : Text → Option Text → App → App
publish_encoded topic none a = a
publish_encoded topic (some payload) a = publish topic payload true a

module _ (x : Fixed) where
  -- `publishBus`
  unfoldable pub publish_bus : Scope → App → App
  publish_bus scope a =
      publish (bus_availability x.topics scope)
        (if bus_flag a scope then text "online" else text "offline") true a

  abbrev pub attributes : UnitSnapshot → UnitAttributes
  attributes u = record {
    unit = u.name;
    scope = u.scope;
    active_state = u.active_state;
    sub_state = u.sub_state;
    load_state = u.load_state;
    last_job = u.last_job;
    last_job_result = u.last_job_result;
    last_job_error = u.last_job_error;
    last_job_at = u.last_job_at;
    changed_at = u.changed_at;
  }

  abbrev pub on_off : Bool → Text
  on_off b = if b then text "ON" else text "OFF"

  -- `publishUnit`
  unfoldable pub publish_unit : UnitSnapshot → App → App
  publish_unit u a =
      if not u.known
      then a
      else publish_encoded (unit_attributes x.topics u.id) (x.encode (unit_document (attributes u)))
          (publish (unit_state x.topics u.id) (on_off (is_on u.active_state)) true a)

  abbrev pub publish_label : Text → Text × List Text × Bool → App → App
  publish_label id (label, active, known) a =
      if known then publish (template_topic x.topics id) label true a else a

  -- `publishTemplate`
  unfoldable pub publish_template : TemplateSelect → App → App
  publish_template sel a = publish_label sel.id (template_state a.state sel) a

  -- `publishDisplay`
  unfoldable pub publish_display : App → App
  publish_display a =
      if not (display_enabled x.cfg)
      then a
      else if not (display_available a)
      then publish (display_availability x.topics) (text "offline") true a
      else publish (display_availability x.topics) (text "online") true (
          publish_encoded (display_attributes x.topics)
            (x.encode (
              display_document (mode_int a.disp_mode) (mode_string a.disp_mode)
                x.cfg.display.off_mode))
            (publish (display_mode_state x.topics) (mode_string a.disp_mode) true
              (publish (display_state x.topics) (switch_state a.disp_mode) true a)))

  abbrev pub daemon_record : World → App → DaemonState
  daemon_record w a = record {
    version = x.version;
    commit = x.commit;
    started_at = x.started_at;
    hostname = x.hostname;
    bus_user_online = bus_flag a scope_user;
    bus_system_online =
        if contains (scopes x.cfg) scope_system then some (bus_flag a scope_system) else none;
    display_online = display_available a;
    mqtt_reconnects = w.reconnects;
  }

  -- `publishDaemonState`
  unfoldable pub publish_daemon_state : World → App → App
  publish_daemon_state w a =
      publish_encoded (daemon_state x.topics) (x.encode (daemon_document (daemon_record w a))) a

  -- `publishDiscovery`
  unfoldable pub publish_discovery : App → App
  publish_discovery a =
      publish_encoded (discovery_config x.topics)
        (x.encode (discovery_document (build_discovery x.cfg x.topics x.version))) a

  -- The loops of `republishAll`.
  unfoldable pub publish_buses : List Scope → App → App
  publish_buses [] a = a
  publish_buses (s ∷ ss) a = publish_buses ss (publish_bus s a)

  unfoldable pub publish_units : List UnitSnapshot → App → App
  publish_units [] a = a
  publish_units (u ∷ us) a = publish_units us (publish_unit u a)

  unfoldable pub publish_templates : List TemplateSelect → App → App
  publish_templates [] a = a
  publish_templates (sel ∷ sels) a = publish_templates sels (publish_template sel a)

  -- `scheduleReconcile` of internal/app/reconcile.go
  unfoldable pub schedule_reconcile : Scope → App → App
  schedule_reconcile scope a =
      if flag (lookup scope a.pending)
      then a
      else effect (arm_reconcile scope) (record a { pending = insert scope true a.pending })

  unfoldable pub schedule_all : List Scope → App → App
  schedule_all [] a = a
  schedule_all (s ∷ ss) a = schedule_all ss (schedule_reconcile s a)

  -- `refreshDisplay`
  unfoldable pub refresh_display : World → App → App
  refresh_display w a = if w.has_display then effect read_display a else a

  -- The publishes of `republishAll`, under `force`.
  unfoldable pub republish : World → App → App
  republish w a =
      let units = snapshots a.state.order a.state.units in
      publish (availability x.topics) (text "online") true (
        publish_daemon_state w (
          publish_display (
            publish_templates x.cfg.selects (
              publish_units units (
                publish_buses (scopes x.cfg)
                  (if ha_enabled x.cfg then publish_discovery a else a))))))

  -- `republishAll`
  unfoldable pub republish_all : World → App → App
  republish_all w a =
      let forced = republish w (record a { force = true }) in
      let scheduled = refresh_display w (schedule_all (scopes x.cfg) forced) in
      record scheduled { force = false }
