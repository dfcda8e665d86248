-- ===== src/Config/Data.antt =====
-- internal/config/config.go: the types. A Go string is a text, a slice that may be nil and a
-- pointer to a bool are options, a duration is a signed number of nanoseconds.
use systemd2mqtt.Base.{ℕ, Bool, Option, List}
use systemd2mqtt.Base.Text.{Text, text}
use systemd2mqtt.Base.Int.{ℤ}

-- Any text can stand in the file; `Validate` accepts two.
abbrev pub Scope : Type 0
Scope = Text

abbrev pub scope_user : Scope
scope_user = text "user"

abbrev pub scope_system : Scope
scope_system = text "system"

abbrev pub second : ℕ
second = 1000000000

pub record DeviceConfig : Type 0 where
  pub name : Text
  pub manufacturer : Text
  pub model : Text
  pub suggested_area : Text

pub record TlsConfig : Type 0 where
  pub ca_file : Text
  pub cert_file : Text
  pub key_file : Text
  pub insecure_skip_verify : Bool

pub record MqttConfig : Type 0 where
  pub broker : Text
  pub client_id : Text
  pub username : Text
  pub password : Text
  pub password_file : Text
  pub base_topic : Text
  pub keep_alive : ℤ
  pub qos : ℕ  -- byte
  pub tls : TlsConfig
  pub qos_set : Bool

pub record HaConfig : Type 0 where
  pub enabled : Option Bool
  pub discovery_prefix : Text
  pub status_topic : Text

pub record UnitConfig : Type 0 where
  pub name : Text
  pub scope : Scope
  pub id : Text
  pub friendly_name : Text
  pub icon : Text
  pub restart_button : Option Bool
  pub problem_sensor : Option Bool
  pub template_id : Text

pub record InstanceConfig : Type 0 where
  pub name : Text
  pub friendly_name : Text

pub record TemplateConfig : Type 0 where
  pub name : Text
  pub scope : Scope
  pub id : Text
  pub friendly_name : Text
  pub icon : Text
  pub exclusive : Bool
  pub restart_button : Option Bool
  pub problem_sensor : Option Bool
  pub instances : List InstanceConfig

pub record SelectOption : Type 0 where
  pub label : Text
  pub unit_id : Text
  pub unit_name : Text

pub record TemplateSelect : Type 0 where
  pub id : Text
  pub name : Text
  pub icon : Text
  pub scope : Scope
  pub options : List SelectOption

pub record DisplayConfig : Type 0 where
  pub enabled : Option Bool
  pub off_mode : Text
  pub expose_mode_select : Option Bool

pub record SystemdConfig : Type 0 where
  pub poll_interval : ℤ
  pub job_timeout : ℤ
  pub job_mode : Text

pub record Config : Type 0 where
  pub node_id : Text
  pub device : DeviceConfig
  pub mqtt : MqttConfig
  pub home_assistant : HaConfig
  pub units : Option (List UnitConfig)
  pub templates : Option (List TemplateConfig)
  pub display : DisplayConfig
  pub systemd : SystemdConfig
  pub log_level : Text
  pub all : List UnitConfig
  pub selects : List TemplateSelect
