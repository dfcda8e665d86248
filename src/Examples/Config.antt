-- ===== src/Examples/Config.antt =====
-- internal/config/config.go, run on a kiosk's configuration.
use systemd2mqtt.Base.{
  ◌≡◌, refl, ◌⊎◌, inl, inr, true, false, Option, none, some, List, [], ◌∷◌, map, In, here, there,
  Distinct,
}
use systemd2mqtt.Base.Text.{Text, text, text_eq, contains}
use systemd2mqtt.Base.Text.Space.{trim_left, trim_right}
use systemd2mqtt.Base.Text.Search.{cut_prefix, contains_any}
use systemd2mqtt.Base.Assoc.{lookup, insert}
use systemd2mqtt.Base.Int.{pos}
use systemd2mqtt.Config.Data.{
  UnitConfig, TemplateConfig, TemplateSelect, SelectOption, Config, scope_user,
}
use systemd2mqtt.Config.Unit.{object_id}
use systemd2mqtt.Config.Load.{Env, plain_unit, apply_defaults, apply_env}
use systemd2mqtt.Config.Expand.{template_units, fill_template, template_select, expand}
use systemd2mqtt.Config.Names.{slugify, split_template}
use systemd2mqtt.Config.Query.{unit_by_id}
use systemd2mqtt.Config.Validate.{Url, parse}
use systemd2mqtt.Config.Validate.Units.{Error, name_key, unit_components}
use systemd2mqtt.Config.Validate.Accepted.{parse-Distinct, parse-components, option_resolves}

-- A parser of broker URLs that knows one scheme.
abbrev pub parse_tcp : Text → Option Url
parse_tcp s = elim (cut_prefix (text "tcp://") s) [
  | none ↦ none
  | some host ↦ some (record { scheme = text "tcp"; host = host })
]

abbrev pub env : Env
env = record {
  hostname = text "Kiosk.lan";
  broker = text "tcp://mq:1883";
  username = [];
  password = [];
}

abbrev pub scenes : TemplateConfig
scenes = record {
  name = text "v@.service";
  scope = scope_user;
  id = text "v";
  friendly_name = text "Video";
  icon = text "i";
  exclusive = true;
  restart_button = none;
  problem_sensor = none;
  instances =
      record { name = text "a"; friendly_name = text "Aquarium" }
      ∷ record { name = text "b"; friendly_name = [] }
      ∷ [];
}

abbrev pub file : Config
file = record {
  node_id = [];
  device = record { name = []; manufacturer = []; model = []; suggested_area = [] };
  mqtt = record {
    broker = [];
    client_id = [];
    username = [];
    password = [];
    password_file = [];
    base_topic = [];
    keep_alive = pos 0;
    qos = 0;
    tls = record { ca_file = []; cert_file = []; key_file = []; insecure_skip_verify = false };
    qos_set = false;
  };
  home_assistant = record { enabled = none; discovery_prefix = []; status_topic = [] };
  units = some (plain_unit (text "K.service") ∷ []);
  templates = some (scenes ∷ []);
  display = record { enabled = none; off_mode = []; expose_mode_select = none };
  systemd = record { poll_interval = pos 0; job_timeout = pos 0; job_mode = [] };
  log_level = [];
  all = [];
  selects = [];
}

abbrev accepted : (List Error) ⊎ Config → Config
accepted (inl es) = file
accepted (inr c) = c

abbrev pub kiosk : Config
kiosk = accepted (parse parse_tcp env file)

pub parsed : parse parse_tcp env file ≡ inr kiosk
unfolding parse text_eq contains trim_left trim_right lookup insert contains_any object_id slugify
    unit_components template_units fill_template template_select
parsed = refl

parse-Distinct_example : Distinct (map object_id kiosk.all) × Distinct (map name_key kiosk.all)
parse-Distinct_example = parse-Distinct parse_tcp env file kiosk parsed

abbrev aquarium : UnitConfig
aquarium = record {
  name = text "v@a.service";
  scope = scope_user;
  id = text "v_a";
  friendly_name = text "Aquarium";
  icon = text "i";
  restart_button = none;
  problem_sensor = none;
  template_id = text "v";
}

aquarium-In : In aquarium kiosk.all
unfolding parse text_eq contains trim_left trim_right lookup insert contains_any object_id slugify
    unit_components template_units fill_template template_select
aquarium-In = there (here refl)

aquarium_switch : In (text "unit_v_a") (unit_components aquarium)
unfolding unit_components object_id slugify trim_left trim_right
aquarium_switch = here refl

parse-components_example : object_id aquarium ≡ object_id aquarium
parse-components_example =
    parse-components parse_tcp env file kiosk aquarium aquarium (text "unit_v_a") parsed aquarium-In
      aquarium-In aquarium_switch aquarium_switch

abbrev video : TemplateSelect
video = record {
  id = text "v";
  name = text "Video";
  icon = text "i";
  scope = scope_user;
  options =
      record { label = text "Aquarium"; unit_id = text "v_a"; unit_name = text "v@a.service" }
      ∷ record { label = text "Video b"; unit_id = text "v_b"; unit_name = text "v@b.service" }
      ∷ [];
}

abbrev pick_aquarium : SelectOption
pick_aquarium = record {
  label = text "Aquarium";
  unit_id = text "v_a";
  unit_name = text "v@a.service";
}

video-In : In video kiosk.selects
unfolding parse text_eq contains trim_left trim_right lookup insert contains_any object_id slugify
    unit_components template_units fill_template template_select
video-In = here refl

option_resolves_example :
    (u : UnitConfig) × (unit_by_id kiosk (text "v_a") ≡ some u)
    × (u.name ≡ text "v@a.service")
    × (u.friendly_name ≡ text "Aquarium")
    × (u.scope ≡ scope_user)
option_resolves_example =
    option_resolves parse_tcp env file kiosk parsed video pick_aquarium video-In (here refl)

expanded : expand (apply_env env (apply_defaults env file)) ≡ inr kiosk
unfolding parse text_eq contains trim_left trim_right lookup insert contains_any object_id slugify
    unit_components template_units fill_template template_select
expanded = refl

slug_test : slugify (text "My--App.service") ≡ text "my_app"
unfolding slugify trim_left trim_right
slug_test = refl

split_once : split_template (text "v@.service") ≡ some (text "v@", text ".service")
unfolding split_template
split_once = refl
