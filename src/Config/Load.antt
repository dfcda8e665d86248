-- ===== src/Config/Load.antt =====
-- internal/config/config.go: defaults and environment overrides.
use systemd2mqtt.Base.{
  ℕ, ◌*◌, Bool, true, Option, none, some, List, [], ◌∷◌, ◌++◌, map, if◌then◌else◌,
}
use systemd2mqtt.Base.Text.{Text, text}
use systemd2mqtt.Base.Int.{ℤ, pos, is_zero}
use systemd2mqtt.Config.Data.{
  UnitConfig, TemplateConfig, DeviceConfig, MqttConfig, HaConfig, DisplayConfig, SystemdConfig,
  Config, scope_user, second,
}
use systemd2mqtt.Config.Unit.{or_default}
use systemd2mqtt.Config.Names.{sanitize_node_id}

-- What the process reads from its environment: the host name and three variables, empty if unset.
pub record Env : Type 0 where
  pub hostname : Text
  pub broker : Text
  pub username : Text
  pub password : Text

abbrev pub default_icon : Text
default_icon = text "mdi:cog-play"

abbrev pub or_nanoseconds : ℤ → ℕ → ℤ
or_nanoseconds d n = if is_zero d then pos n else d

abbrev pub or_true : Option Bool → Option Bool
or_true none = some true
or_true (some b) = some b

abbrev pub plain_unit : Text → UnitConfig
plain_unit name = record {
  name = name;
  scope = scope_user;
  id = [];
  friendly_name = [];
  icon = [];
  restart_button = none;
  problem_sensor = none;
  template_id = [];
}

-- Defaults only when neither key is present at all.
abbrev pub default_units :
    Option (List UnitConfig) → Option (List TemplateConfig) → Option (List UnitConfig)
default_units none none =
    some (plain_unit (text "grafana-kiosk.service") ∷ plain_unit (text "vlc.service") ∷ [])
default_units none (some ts) = none
default_units (some us) ts = some us

-- Ranging over a nil slice does nothing.
abbrev pub entries {ℓ} : {A : Type ℓ} → Option (List A) → List A
entries none = []
entries (some xs) = xs

abbrev pub with_icon : UnitConfig → UnitConfig
with_icon u = record u { icon = or_default u.icon default_icon }

abbrev pub map_entries {ℓ} : {A : Type ℓ} → (A → A) → Option (List A) → Option (List A)
map_entries f none = none
map_entries f (some xs) = some (map f xs)

-- `applyDefaults`
unfoldable pub apply_defaults : Env → Config → Config
unfolding sanitize_node_id
apply_defaults env c =
    let node = or_default c.node_id (sanitize_node_id env.hostname) in
    let dev : DeviceConfig = record {
      name = or_default c.device.name node;
      manufacturer = or_default c.device.manufacturer (text "lululombard");
      model = or_default c.device.model (text "Systemd2MQTT");
      suggested_area = c.device.suggested_area;
    } in
    let mq : MqttConfig = record (c.mqtt) {
      client_id = or_default c.mqtt.client_id (text "systemd2mqtt-" ++ node);
      base_topic = or_default c.mqtt.base_topic (text "systemd2mqtt");
      keep_alive = or_nanoseconds c.mqtt.keep_alive (30 * second);
      qos = if c.mqtt.qos_set then c.mqtt.qos else 1;
    } in
    let ha : HaConfig = record {
      enabled = or_true c.home_assistant.enabled;
      discovery_prefix = or_default c.home_assistant.discovery_prefix (text "homeassistant");
      status_topic = or_default c.home_assistant.status_topic (text "homeassistant/status");
    } in
    let disp : DisplayConfig = record {
      enabled = or_true c.display.enabled;
      off_mode = or_default c.display.off_mode (text "off");
      expose_mode_select = or_true c.display.expose_mode_select;
    } in
    let sysd : SystemdConfig = record {
      poll_interval = or_nanoseconds c.systemd.poll_interval (30 * second);
      job_timeout = or_nanoseconds c.systemd.job_timeout (60 * second);
      job_mode = or_default c.systemd.job_mode (text "replace");
    } in
    record c {
      node_id = node;
      device = dev;
      mqtt = mq;
      home_assistant = ha;
      units = map_entries with_icon (default_units c.units c.templates);
      display = disp;
      systemd = sysd;
      log_level = or_default c.log_level (text "info");
    }

-- `applyEnv`
unfoldable pub apply_env : Env → Config → Config
apply_env env c =
    let mq : MqttConfig = record (c.mqtt) {
      broker = or_default env.broker c.mqtt.broker;
      username = or_default env.username c.mqtt.username;
      password = or_default env.password c.mqtt.password;
    } in
    record c { mqtt = mq }
