-- ===== src/Examples/Command.antt =====
-- cmd/systemd2mqtt, run on the kiosk's configuration.
use systemd2mqtt.Base.{
  map, length, ◌≤◌, ◌-◌, ◌++◌, arith, ◌≡◌, refl, ℕ, List, true, false, none, some, [], ◌∷◌, ◌⊎◌,
  inr,
}
use systemd2mqtt.Base.Text.{Text, text, text_eq, contains}
use systemd2mqtt.Base.Text.Space.{trim_left, trim_right}
use systemd2mqtt.Base.Text.Search.{contains_any}
use systemd2mqtt.Base.Assoc.{lookup, insert}
use systemd2mqtt.Config.Data.{Config}
use systemd2mqtt.Ha.Discovery.{build_discovery}
use systemd2mqtt.Config.Unit.{object_id}
use systemd2mqtt.Config.Names.{slugify}
use systemd2mqtt.Config.Expand.{template_units, fill_template, template_select}
use systemd2mqtt.Config.Validate.{parse}
use systemd2mqtt.Config.Validate.Units.{unit_components}
use systemd2mqtt.Ha.Topics.{new_topics, retained_topics}
use systemd2mqtt.Config.Query.{scopes}
use systemd2mqtt.Mqtt.Client.{
  OutMsg, session_opened, publish_queue_size, publish_call, disconnect_call, disconnect_quiesce_ms,
  new_client, run as run_client,
}
use systemd2mqtt.Cmd.Run.Cleared.{blank, clear_events, clear_events_lem}
use systemd2mqtt.Mqtt.Options.{Files, new_options}
use systemd2mqtt.Mqtt.Options.Preflight.{preflight, error_of, preflight-new_options}
use systemd2mqtt.Cmd.Flags.{Options, no_options, parse_flags, read_word, bool_flag, cut_value}
use systemd2mqtt.Cmd.Flags.Printed.{command_line, parse_flags-command_line}
use systemd2mqtt.Cmd.Run.{World, load, run}
use systemd2mqtt.Cmd.Run.Codes.{steady, run-Cause}
use systemd2mqtt.Examples.Config.{parse_tcp, env, file, kiosk}

abbrev empty_disk : Files
empty_disk = record {
  read = λ path. none;
  has_certificate = λ pem. false;
  is_pair = λ cert key. false;
}

abbrev full_disk : Files
full_disk = record {
  read = λ path. some (text "secret");
  has_certificate = λ pem. true;
  is_pair = λ cert key. true;
}

abbrev world : World
world = record {
  default_path = text "c";
  read_config = λ path. some [];
  decode = λ data'. some file;
  env = env;
  version = text "1";
  encode = λ p. none;
  indent = λ s. some s;
  env_user = text "kiosk";
  passwd_user = none;
  files = empty_disk;
  files_later = empty_disk;
  connects = false;
}

abbrev path_only : Options
path_only = no_options (text "c")

abbrev dump : Options
dump = record (no_options (text "-c")) { dump_discovery = true }

parse_flags-command_line_example : parse_flags (text "c") (command_line dump) ≡ inr dump
parse_flags-command_line_example = parse_flags-command_line (text "c") dump

dumps :
    parse_flags (text "c") (text "-dump-discovery" ∷ [])
    ≡ inr (record path_only { dump_discovery = true })
unfolding parse_flags read_word bool_flag cut_value text_eq
dumps = refl

-- The encoder of this world fails.
fails : (run parse_tcp (steady world) (text "-dump-discovery" ∷ [])).code ≡ 1
unfolding run parse_flags read_word bool_flag cut_value load parse text_eq contains trim_left
    trim_right lookup insert contains_any object_id slugify unit_components template_units
    fill_template template_select
fails = refl

run-Cause_example :
    (o : Options) × (c : Config) × (parse_flags (text "c") (text "-dump-discovery" ∷ []) ≡ inr o)
    × (load parse_tcp world o.config_path ≡ inr c)
    × (((o.dump_discovery ≡ true)
          × ((world.encode (build_discovery c (new_topics c) world.version) ≡ none)
              ⊎ ((raw : Text) × (world.encode (build_discovery c (new_topics c) world.version)
                    ≡ some raw)
                  × (world.indent raw ≡ none))))
        ⊎ ((o.clear_discovery ≡ true) × (world.connects ≡ false)))
run-Cause_example = run-Cause parse_tcp world (text "-dump-discovery" ∷ []) fails

preflight-new_options_example :
    preflight parse_tcp empty_disk (record kiosk.mqtt { password_file = text "p" })
    ≡ error_of
        (new_options parse_tcp empty_disk (record kiosk.mqtt { password_file = text "p" }) [])
preflight-new_options_example =
    preflight-new_options parse_tcp empty_disk (record kiosk.mqtt { password_file = text "p" }) []

-- A configuration without units has seven topics. The pump gets three rounds, in the sleep, so that
-- four messages are lost.
abbrev paced : List (Text × ℕ)
paced = map (λ t. (t, 0)) (retained_topics (new_topics file) file)

few : length paced ≤ publish_queue_size
unfolding retained_topics scopes
few = omega arith

paced_topics : map (λ e. e.0) paced ≡ retained_topics (new_topics file) file
unfolding retained_topics scopes
paced_topics = refl

clear_events_lem_example :
    let qos = file.mqtt.qos in
    let d = run_client {H = Text} (new_client qos) (session_opened ∷ clear_events paced 3) in
    (sent : List OutMsg) × (d.calls
      ≡ map publish_call sent ++ (disconnect_call disconnect_quiesce_ms ∷ []))
    × (sent ++ d.out ≡ map (blank qos) (retained_topics (new_topics file) file))
    × (length d.out ≤ length paced - 3)
clear_events_lem_example = clear_events_lem Text file paced 3 paced_topics few
