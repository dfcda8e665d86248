-- ===== src/Examples/Discovery.antt =====
-- internal/ha/discovery.go, run on the kiosk's configuration.
use systemd2mqtt.Base.{◌≡◌, refl, some, List, [], ◌∷◌, All, In, here}
use systemd2mqtt.Base.Text.{Text, text, text_eq, contains}
use systemd2mqtt.Base.Text.Space.{trim_left, trim_right}
use systemd2mqtt.Base.Text.Search.{contains_any}
use systemd2mqtt.Base.Assoc.{lookup, insert}
use systemd2mqtt.Config.Unit.{object_id}
use systemd2mqtt.Config.Names.{slugify}
use systemd2mqtt.Config.Expand.{template_units, fill_template, template_select}
use systemd2mqtt.Config.Validate.{parse}
use systemd2mqtt.Config.Validate.Units.{unit_components}
use systemd2mqtt.Ha.Topics.{Topics}
use systemd2mqtt.Ha.Discovery.{
  Fields, component_entries, build_discovery, with_unique_id, device_id,
}
use systemd2mqtt.Ha.Discovery.Distinctness.{discovery_keeps}
use systemd2mqtt.Ha.Discovery.Announced.{ReadsRetained, discovery-ReadsRetained}
use systemd2mqtt.Ha.Discovery.Commands.{WritesWired, discovery-WritesWired}
use systemd2mqtt.Examples.Config.{parse_tcp, env, file, kiosk, parsed}

abbrev topics : Topics
topics = record {
  base = text "s";
  node_id = text "n";
  discovery_prefix = text "h";
  status_topic = text "h/status";
}

discovery-ReadsRetained_example : All (ReadsRetained topics kiosk) (component_entries topics kiosk)
discovery-ReadsRetained_example = discovery-ReadsRetained parse_tcp env file kiosk parsed topics

discovery-WritesWired_example : All (WritesWired topics kiosk) (component_entries topics kiosk)
discovery-WritesWired_example = discovery-WritesWired parse_tcp env file kiosk parsed topics

-- The entity of the first unit.
abbrev first_entry : List (Text × Fields) → Text × Fields
first_entry [] = ([], [])
first_entry (e ∷ es) = e

abbrev switch : Text × Fields
switch = first_entry (component_entries topics kiosk)

switch-In : In (switch.0, switch.1) (component_entries topics kiosk)
unfolding parse text_eq contains trim_left trim_right lookup insert contains_any object_id slugify
    unit_components template_units fill_template template_select component_entries
switch-In = here refl

discovery_keeps_example :
    lookup switch.0 (build_discovery kiosk topics (text "1")).cmps
    ≡ some (with_unique_id (device_id kiosk.node_id) switch.0 switch.1)
discovery_keeps_example =
    discovery_keeps parse_tcp env file kiosk parsed topics (text "1") switch-In

switch_id_test : switch.0 ≡ text "unit_k"
unfolding parse text_eq contains trim_left trim_right lookup insert contains_any object_id slugify
    unit_components template_units fill_template template_select component_entries
switch_id_test = refl
