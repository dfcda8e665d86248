-- ===== src/Ha/Discovery.antt =====
-- internal/ha/discovery.go: the discovery payload. A Go map with string keys is an association
-- list; a value in it is a text, a list of texts, or an availability list, of which the topics are
-- kept.
pub mod Keys
pub mod Distinctness
pub mod Announced
pub mod Commands
use systemd2mqtt.Base.{ℕ, Bool, Option, none, some, List, [], ◌∷◌, ◌++◌, map, if◌then◌else◌}
use systemd2mqtt.Base.Text.{Text, text, text_eq}
use systemd2mqtt.Base.Assoc.{insert}
use systemd2mqtt.Config.Data.{Scope, UnitConfig, TemplateSelect, Config, scope_user}
use systemd2mqtt.Config.Unit.{
  object_id, display_name, wants_restart_button, wants_problem_sensor, display_enabled,
  expose_mode_select,
}
use systemd2mqtt.Config.Query.{scopes}
use systemd2mqtt.Ha.Topics.{
  Topics, availability, bus_availability, unit_state, unit_set, unit_attributes, template_state,
  template_set, display_state, display_set, display_mode_state, display_mode_set,
  display_attributes, display_availability, daemon_state, daemon_restart,
}

-- `ProjectURL`
abbrev pub project_url : Text
project_url = text "https://github.com/lululombard/Systemd2MQTT"

-- `DeviceID`
abbrev pub device_id : Text → Text
device_id node_id = text "systemd2mqtt_" ++ node_id

pub data Value : Type 0 where
  str : Text → Value
  strs : List Text → Value
  avty : List Text → Value

abbrev pub Fields : Type 0
Fields = List (Text × Value)

-- `avty_mode`, behind the availability list.
abbrev pub all_of : List Text → Fields
all_of topics = (text "avty", avty topics) ∷ (text "avty_mode", str (text "all")) ∷ []

-- `display.SelectOptions`
abbrev pub select_options : List Text
select_options = text "on" ∷ text "standby" ∷ text "suspend" ∷ text "off" ∷ []

abbrev pub when : Bool → List (Text × Fields) → List (Text × Fields)
when b es = if b then es else []

module _ (t : Topics) where
  -- The bus of the unit, under the daemon.
  abbrev pub unit_avty : UnitConfig → Fields
  unit_avty u = all_of (availability t ∷ bus_availability t u.scope ∷ [])

  abbrev pub unit_switch : UnitConfig → Fields
  unit_switch u =
      (text "p", str (text "switch"))
      ∷ (text "name", str (display_name u))
      ∷ (text "ic", str u.icon)
      ∷ (text "stat_t", str (unit_state t (object_id u)))
      ∷ (text "cmd_t", str (unit_set t (object_id u)))
      ∷ (text "pl_on", str (text "ON"))
      ∷ (text "pl_off", str (text "OFF"))
      ∷ (text "json_attr_t", str (unit_attributes t (object_id u)))
      ∷ unit_avty u

  abbrev pub unit_sensor : UnitConfig → Fields
  unit_sensor u =
      (text "p", str (text "sensor"))
      ∷ (text "name", str (display_name u ++ text " state"))
      ∷ (text "ent_cat", str (text "diagnostic"))
      ∷ (text "ic", str (text "mdi:state-machine"))
      ∷ (text "stat_t", str (unit_attributes t (object_id u)))
      ∷ (text "val_tpl", str (text "{{ value_json.active_state }} ({{ value_json.sub_state }})"))
      ∷ (text "json_attr_t", str (unit_attributes t (object_id u)))
      ∷ unit_avty u

  abbrev pub unit_problem : UnitConfig → Fields
  unit_problem u =
      (text "p", str (text "binary_sensor"))
      ∷ (text "name", str (display_name u ++ text " problem"))
      ∷ (text "dev_cla", str (text "problem"))
      ∷ (text "ent_cat", str (text "diagnostic"))
      ∷ (text "stat_t", str (unit_attributes t (object_id u)))
      ∷ (
        text "val_tpl",
        str (
            text
              "{{ 'ON' if value_json.active_state == 'failed' or value_json.load_state == 'not-found' else 'OFF' }}"),
      )
      ∷ unit_avty u

  abbrev pub unit_restart : UnitConfig → Fields
  unit_restart u =
      (text "p", str (text "button"))
      ∷ (text "name", str (text "Restart " ++ display_name u))
      ∷ (text "dev_cla", str (text "restart"))
      ∷ (text "cmd_t", str (unit_set t (object_id u)))
      ∷ (text "pl_prs", str (text "RESTART"))
      ∷ unit_avty u

  -- What one round of the loop over the units adds, in order.
  unfoldable pub unit_entries : UnitConfig → List (Text × Fields)
  unit_entries u =
      let id = text "unit_" ++ object_id u in
      (id, unit_switch u)
      ∷ (text "unit_" ++ (object_id u ++ text "_state"), unit_sensor u)
      ∷ (when (wants_problem_sensor u)
            ((text "unit_" ++ (object_id u ++ text "_problem"), unit_problem u) ∷ [])
          ++ when (wants_restart_button u)
              ((text "unit_" ++ (object_id u ++ text "_restart"), unit_restart u) ∷ []))

  abbrev pub template_entry : TemplateSelect → Text × Fields
  template_entry s = (
    text "template_" ++ s.id,
    (text "p", str (text "select"))
        ∷ (text "name", str s.name)
        ∷ (text "ic", str s.icon)
        ∷ (text "ops", strs (text "off" ∷ map (λ o. o.label) s.options))
        ∷ (text "stat_t", str (template_state t s.id))
        ∷ (text "cmd_t", str (template_set t s.id))
        ∷ all_of (availability t ∷ bus_availability t s.scope ∷ []),
  )

  abbrev pub display_switch : Fields
  display_switch =
      (text "p", str (text "switch"))
      ∷ (text "name", str (text "Display"))
      ∷ (text "ic", str (text "mdi:monitor"))
      ∷ (text "dev_cla", str (text "switch"))
      ∷ (text "stat_t", str (display_state t))
      ∷ (text "cmd_t", str (display_set t))
      ∷ (text "pl_on", str (text "ON"))
      ∷ (text "pl_off", str (text "OFF"))
      ∷ (text "json_attr_t", str (display_attributes t))
      ∷ all_of (availability t ∷ display_availability t ∷ [])

  abbrev pub display_mode_select : Fields
  display_mode_select =
      (text "p", str (text "select"))
      ∷ (text "name", str (text "Display power mode"))
      ∷ (text "ent_cat", str (text "config"))
      ∷ (text "ic", str (text "mdi:monitor-shimmer"))
      ∷ (text "ops", strs select_options)
      ∷ (text "stat_t", str (display_mode_state t))
      ∷ (text "cmd_t", str (display_mode_set t))
      ∷ all_of (availability t ∷ display_availability t ∷ [])

  unfoldable pub display_entries : Config → List (Text × Fields)
  display_entries c = when (display_enabled c) (
      (text "display", display_switch)
      ∷ when (expose_mode_select c) ((text "display_mode", display_mode_select) ∷ []))

  abbrev pub bus_entry : Scope → Text × Fields
  bus_entry s = (
    text "bus_" ++ s,
    (text "p", str (text "binary_sensor"))
        ∷ (
          text "name",
          str (if text_eq s scope_user then text "Session bus" else text "System bus"),
        )
        ∷ (text "dev_cla", str (text "connectivity"))
        ∷ (text "ent_cat", str (text "diagnostic"))
        ∷ (text "stat_t", str (bus_availability t s))
        ∷ (text "pl_on", str (text "online"))
        ∷ (text "pl_off", str (text "offline"))
        ∷ [],
  )

  -- The version, the start time and the restart button.
  unfoldable pub daemon_entries : List (Text × Fields)
  daemon_entries =
      (
        text "version",
        (text "p", str (text "sensor"))
            ∷ (text "name", str (text "Version"))
            ∷ (text "ent_cat", str (text "diagnostic"))
            ∷ (text "ic", str (text "mdi:tag"))
            ∷ (text "stat_t", str (daemon_state t))
            ∷ (text "val_tpl", str (text "{{ value_json.version }}"))
            ∷ (text "json_attr_t", str (daemon_state t))
            ∷ [],
      )
      ∷ (
        text "started",
        (text "p", str (text "sensor"))
            ∷ (text "name", str (text "Started"))
            ∷ (text "ent_cat", str (text "diagnostic"))
            ∷ (text "dev_cla", str (text "timestamp"))
            ∷ (text "stat_t", str (daemon_state t))
            ∷ (text "val_tpl", str (text "{{ value_json.started_at }}"))
            ∷ [],
      )
      ∷ (
        text "daemon_restart",
        (text "p", str (text "button"))
            ∷ (text "name", str (text "Restart Systemd2MQTT"))
            ∷ (text "dev_cla", str (text "restart"))
            ∷ (text "ent_cat", str (text "diagnostic"))
            ∷ (text "cmd_t", str (daemon_restart t))
            ∷ (text "pl_prs", str (text "PRESS"))
            ∷ [],
      )
      ∷ []

  unfoldable pub units_entries : List UnitConfig → List (Text × Fields)
  unfolding unit_entries
  units_entries [] = []
  units_entries (u ∷ us) = unit_entries u ++ units_entries us

  -- The calls of `add`, in order.
  unfoldable pub component_entries : Config → List (Text × Fields)
  unfolding units_entries display_entries scopes daemon_entries
  component_entries c =
      units_entries c.all
      ++ (map template_entry c.selects
          ++ (display_entries c ++ (map bus_entry (scopes c) ++ daemon_entries)))

-- `add`, of one entry and of each.
abbrev pub with_unique_id : Text → Text → Fields → Fields
with_unique_id dev_id id fields = insert (text "uniq_id") (str (dev_id ++ (text "_" ++ id))) fields

unfoldable pub add_all : Text → List (Text × Fields) → List (Text × Fields) → List (Text × Fields)
add_all dev_id [] cmps = cmps
add_all dev_id ((id, fields) ∷ es) cmps =
    add_all dev_id es (insert id (with_unique_id dev_id id fields) cmps)

pub record Payload : Type 0 where
  pub dev : Fields
  pub origin : Fields
  pub avty : List Text
  pub avty_mode : Text
  pub qos : ℕ
  pub cmps : List (Text × Fields)

-- `BuildDiscovery`
unfoldable pub build_discovery : Config → Topics → Text → Payload
unfolding component_entries add_all
build_discovery c t version = record {
  dev =
      ((text "ids", strs (device_id c.node_id ∷ []))
        ∷ (text "name", str c.device.name)
        ∷ (text "mf", str c.device.manufacturer)
        ∷ (text "mdl", str c.device.model)
        ∷ (text "sw", str version)
        ∷ [])
      ++ (if text_eq c.device.suggested_area []
          then []
          else (text "sa", str c.device.suggested_area) ∷ []);
  origin =
      (text "name", str (text "Systemd2MQTT"))
      ∷ (text "sw", str version)
      ∷ (text "url", str project_url)
      ∷ [];
  avty = availability t ∷ [];
  avty_mode = text "all";
  qos = c.mqtt.qos;
  cmps = add_all (device_id c.node_id) (component_entries t c) [];
}
