-- ===== src/Cmd/Run.antt =====
-- `run` of cmd/systemd2mqtt/main.go, with `Load` of internal/config/config.go: what the process
-- shows or starts, and its exit code. What it finds outside is a record: files, environment, the
-- YAML decoder, the JSON encoder, and whether the broker is reached in time.
pub mod Modes
pub mod Codes
pub mod Cleared
use systemd2mqtt.Base.{
  ℕ, Bool, true, false, not, Option, none, some, List, [], ◌∷◌, ◌++◌, map, ◌⊎◌, inl, inr,
  if◌then◌else◌,
}
use systemd2mqtt.Base.Text.{Text, text}
use systemd2mqtt.Config.Data.{Config}
use systemd2mqtt.Config.Load.{Env}
use systemd2mqtt.Config.Secrets.{FileError, redacted}
use systemd2mqtt.Config.Validate.{Url, parse}
use systemd2mqtt.Config.Validate.Units.{Error}
use systemd2mqtt.Ha.Topics.{Topics, new_topics, availability, retained_topics}
use systemd2mqtt.Ha.Discovery.{Payload, build_discovery}
use systemd2mqtt.Mqtt.Options.{Files, Options as MqttOptions, new_options}
use systemd2mqtt.Mqtt.Options.Preflight.{preflight}
use systemd2mqtt.Cmd.Flags.{Options, FlagError, help, parse_flags}

-- The exit codes.
abbrev pub exit_ok : ℕ
exit_ok = 0

abbrev pub exit_runtime : ℕ
exit_runtime = 1

abbrev pub exit_config : ℕ
exit_config = 2

pub data LoadError : Type 0 where
  unreadable undecodable : LoadError
  invalid : List Error → LoadError

-- The files of the client are read by `preflight`, and again when the client is made.
pub record World : Type 0 where
  pub default_path : Text
  pub read_config : Text → Option Text
  pub decode : Text → Option Config
  pub env : Env
  pub version : Text
  pub encode : Payload → Option Text
  pub indent : Text → Option Text
  pub env_user : Text
  pub passwd_user : Option Text
  pub files : Files
  pub files_later : Files
  pub connects : Bool

-- What the daemon is made from; `run` gives all four.
pub record Given : Type 0 where
  pub config : Bool
  pub systemd : Bool
  pub mqtt : Bool
  pub log : Bool

pub data AppError : Type 0 where
  nil_config systemd_required mqtt_required log_required run_twice : AppError
  mqtt_setup : FileError → AppError
  mqtt_connect : AppError

-- `New` of the app
unfoldable pub new_app : Given → Option AppError
new_app g =
    if not g.config
    then some nil_config
    else if not g.systemd
    then some systemd_required
    else if not g.mqtt
    then some mqtt_required
    else if not g.log
    then some log_required
    else none

-- `Connect` of the MQTT client: it fails never, since the connection is made in the background.
unfoldable pub connect_client : MqttOptions → Option AppError
connect_client o = none

abbrev pub connected_app : MqttOptions → Option AppError → AppError ⊎ MqttOptions
connected_app o (some e) = inl e
connected_app o none = inr o

abbrev pub made_client : FileError ⊎ MqttOptions → AppError ⊎ MqttOptions
made_client (inl e) = inl (mqtt_setup e)
made_client (inr o) = connected_app o (connect_client o)

-- `Run` of the app: the errors it returns, and the options of the client that it runs with until it
-- is told to stop.
unfoldable pub run_app : Bool → FileError ⊎ MqttOptions → AppError ⊎ MqttOptions
unfolding connect_client
run_app started r = if started then inl run_twice else made_client r

-- What is shown or done in the end.
pub data Action : Type 0 where
  flags_refused : FlagError → Action
  version_shown : Text → Action
  config_refused : LoadError → Action
  -- Handed to the YAML encoder.
  config_shown : Config → Action
  discovery_failed : Action
  discovery_shown : Text → Action
  -- For the user.
  polkit_shown : Config → Text → Action
  files_refused : FileError → Action
  client_failed : FileError → Action
  not_connected : Action
  -- The client is made, and the topics are published to.
  cleared : MqttOptions → List Text → Action
  -- `New` or `Run` of the app fails.
  startup_failed : AppError → Action
  daemon_failed : AppError → Action
  -- The daemon runs until it is told to stop.
  daemon_ran : MqttOptions → Action

pub record Result : Type 0 where
  pub code : ℕ
  pub action : Action

abbrev pub result : ℕ → Action → Result
result code action = record { code = code; action = action }

-- `currentUser`
abbrev pub passwd_or_author : Option Text → Text
passwd_or_author none = text "lululombard"
passwd_or_author (some []) = text "lululombard"
passwd_or_author (some (c ∷ name)) = c ∷ name

abbrev pub current_user : Text → Option Text → Text
current_user [] passwd = passwd_or_author passwd
current_user (c ∷ name) passwd = c ∷ name

module _ (parse_url : Text → Option Url) (w : World) where
  abbrev pub parsed : (List Error) ⊎ Config → LoadError ⊎ Config
  parsed (inl es) = inl (invalid es)
  parsed (inr c) = inr c

  abbrev pub decoded : Option Config → LoadError ⊎ Config
  decoded none = inl undecodable
  decoded (some c) = parsed (parse parse_url w.env c)

  abbrev pub read : Option Text → LoadError ⊎ Config
  read none = inl unreadable
  read (some data') = decoded (w.decode data')

  -- `Load`
  unfoldable pub load : Text → LoadError ⊎ Config
  unfolding parse
  load path = read (w.read_config path)

  abbrev pub indented : Option Text → Result
  indented none = result exit_runtime discovery_failed
  indented (some out) = result exit_ok (discovery_shown (out ++ text "\n"))

  abbrev pub encoded : Option Text → Result
  encoded none = result exit_runtime discovery_failed
  encoded (some raw) = indented (w.indent raw)

  -- `dumpDiscovery`
  unfoldable pub dump_discovery : Config → Result
  unfolding build_discovery new_topics
  dump_discovery c = encoded (w.encode (build_discovery c (new_topics c) w.version))

  abbrev pub clear_with : Config → FileError ⊎ MqttOptions → Result
  clear_with c (inl e) = result exit_runtime (client_failed e)
  clear_with c (inr o) =
      if w.connects
      then result exit_ok (cleared o (retained_topics (new_topics c) c))
      else result exit_runtime not_connected

  -- `clearDiscovery`: an id of its own, and no will.
  unfoldable pub clear_discovery : Config → Result
  unfolding new_options retained_topics new_topics
  clear_discovery c = clear_with c (
      new_options parse_url w.files_later
        (record c.mqtt { client_id = c.mqtt.client_id ++ text "-clear" }) [])

  abbrev pub ran : AppError ⊎ MqttOptions → Result
  ran (inl e) = result exit_runtime (daemon_failed e)
  ran (inr o) = result exit_ok (daemon_ran o)

  abbrev pub daemon_with : Option AppError → FileError ⊎ MqttOptions → Result
  daemon_with (some e) r = result exit_runtime (startup_failed e)
  daemon_with none r = ran (run_app false r)

  -- The daemon: the app is made and run once.
  unfoldable pub run_daemon : Config → Result
  unfolding new_options new_topics new_app run_app
  run_daemon c =
      daemon_with (new_app (record { config = true; systemd = true; mqtt = true; log = true }))
        (new_options parse_url w.files_later c.mqtt (availability (new_topics c)))

  -- The part that needs the broker.
  abbrev pub after_preflight : Options → Config → Option FileError → Result
  after_preflight o c (some e) = result exit_config (files_refused e)
  after_preflight o c none = if o.clear_discovery then clear_discovery c else run_daemon c

  abbrev pub run_loaded : Options → LoadError ⊎ Config → Result
  run_loaded o (inl e) = result exit_config (config_refused e)
  run_loaded o (inr c) =
      if o.check_config
      then result exit_ok (config_shown (redacted c))
      else if o.dump_discovery
      then dump_discovery c
      else if o.print_polkit_rule
      then result exit_ok (polkit_shown c (current_user w.env_user w.passwd_user))
      else after_preflight o c (preflight parse_url w.files c.mqtt)

  abbrev pub run_parsed : FlagError ⊎ Options → Result
  run_parsed (inl help) = result exit_ok (flags_refused help)
  run_parsed (inl e) = result exit_config (flags_refused e)
  run_parsed (inr o) =
      if o.version
      then result exit_ok (version_shown w.version)
      else run_loaded o (load o.config_path)

  -- `run`
  unfoldable pub run : List Text → Result
  unfolding parse_flags load redacted dump_discovery preflight clear_discovery run_daemon
  run args = run_parsed (parse_flags w.default_path args)
