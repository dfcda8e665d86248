-- ===== src/Examples/Loop.antt =====
-- internal/app: the loop, a full publish and a template worker, at a kiosk with two units.
use systemd2mqtt.Base.{
  ℕ, zero, suc, length, arith, ◌≡◌, ◌≢◌, refl, true, false, ◌&&◌, none, some, is_some, List, [],
  ◌∷◌, ◌++◌, keep, any, In, here, if◌then◌else◌,
}
use systemd2mqtt.Base.Text.{text_ne, text, text_eq, contains}
use systemd2mqtt.Base.Assoc.{lookup}
use systemd2mqtt.Config.Data.{SelectOption, scope_user}
use systemd2mqtt.Config.Query.{scopes}
use systemd2mqtt.Ha.Topics.{Topics, availability}
use systemd2mqtt.Display.Mode.{unknown, off}
use systemd2mqtt.Systemd.Unit.{job_done}
use systemd2mqtt.Systemd.Supervisor.{answered}
use systemd2mqtt.App.State.{new_state}
use systemd2mqtt.App.Model.{App, Fixed, World, Message, TemplateCmd, bus_flag}
use systemd2mqtt.App.Publish.{republish_all}
use systemd2mqtt.App.Publish.Order.{republish_all-last}
use systemd2mqtt.App.Commands.{template_command}
use systemd2mqtt.App.Loop.{
  Event, ev_display_mode, ev_mqtt_lost, ev_full_publish, ev_inbound, handle, poll_tick,
}
use systemd2mqtt.App.Loop.Queue.{
  Daemon, event_queue_size, Step, bus_changed, wake_hinted, mqtt_connected, posted, taken, ticked,
  step, run_daemon,
}
use systemd2mqtt.App.Loop.Wakes.{wake_flag, wakes, IsBounded, run_daemon-IsBounded}
use systemd2mqtt.App.Loop.Stuck.{IsStuck, full_queue_wake}
use systemd2mqtt.App.Loop.Cached.{IsCached, retained_by, run_daemon-IsCached}
use systemd2mqtt.App.Loop.Resync.{poll_tick-bus}
use systemd2mqtt.App.Loop.Retained.{retained_ignored}
use systemd2mqtt.App.Template.{Host, run_template}
use systemd2mqtt.App.Template.Exclusive.{is_start, all_stopped, run_template-start}
use systemd2mqtt.App.Template.Choice.{units_of, to_stop, chosen_unit, template_command_lem}
use systemd2mqtt.Examples.Daemon.{config, player, lamp}

abbrev topics : Topics
topics = record {
  base = text "b";
  node_id = text "n";
  discovery_prefix = text "homeassistant";
  status_topic = text "homeassistant/status";
}

abbrev fixed : Fixed
fixed = record {
  cfg = config;
  topics = topics;
  version = text "1";
  commit = text "c";
  started_at = 1;
  hostname = text "kiosk";
  encode = λ d. some (text "{}");
}

abbrev world : World
world = record {
  now = 9;
  query = λ s. answered [];
  online = λ s. true;
  reconnects = 0;
  has_display = true;
  takes_first = false;
  takes_second = true;
}

abbrev idle : App
idle = record {
  state = new_state config;
  bus_online = [];
  disp_online = false;
  disp_mode = unknown;
  last = [];
  force = false;
  pending = [];
  wake_pending = [];
  full_publish_wanted = true;
  full_publish_armed_at = 0;
  workers = [];
  template_workers = [];
  sent = [];
  effects = [];
  canceled = false;
}

republish_all-last_example :
    (before : List Message) × ((republish_all fixed world idle).sent
      ≡ before
        ++ (record { topic = availability topics; payload = text "online"; retained = true } ∷ []))
republish_all-last_example = republish_all-last fixed world idle

abbrev steps : List Step
steps =
    bus_changed scope_user true
    ∷ mqtt_connected
    ∷ wake_hinted scope_user
    ∷ posted (ev_display_mode off)
    ∷ taken world
    ∷ taken world
    ∷ ticked world
    ∷ posted ev_full_publish
    ∷ taken world
    ∷ []

abbrev daemon : Daemon
daemon = record { app = idle; queue = [] }

nothing_sent : IsCached idle
unfolding retained_by
nothing_sent = refl

run_daemon-IsCached_example : IsCached (run_daemon fixed steps daemon).app
run_daemon-IsCached_example = run_daemon-IsCached fixed steps daemon nothing_sent

none_queued : IsBounded scope_user daemon
unfolding wakes lookup
none_queued = omega arith

run_daemon-IsBounded_example : IsBounded scope_user (run_daemon fixed steps daemon)
run_daemon-IsBounded_example = run_daemon-IsBounded fixed scope_user steps daemon none_queued

copies : ℕ → Event → List Event
copies zero e = []
copies (suc n) e = e ∷ copies n e

abbrev flooded : Daemon
flooded = record {
  app = record idle { wake_pending = (scope_user, false) ∷ [] };
  queue = copies 256 ev_mqtt_lost;
}

lowered : wake_flag scope_user flooded.app ≡ some false
unfolding lookup text_eq
lowered = refl

no_wake : wakes scope_user flooded.queue ≡ 0
unfolding wakes copies
no_wake = refl

full : length flooded.queue ≡ event_queue_size
unfolding copies
full = refl

full_queue_wake_example :
    IsStuck scope_user (run_daemon fixed steps (step fixed (wake_hinted scope_user) flooded))
full_queue_wake_example = full_queue_wake fixed scope_user flooded steps lowered no_wake full

user_scope : In scope_user (scopes config)
unfolding scopes contains text_eq
user_scope = here refl

poll_tick-bus_example : bus_flag (poll_tick fixed world idle) scope_user ≡ true
poll_tick-bus_example = poll_tick-bus fixed world scope_user idle user_scope

restart-not-status : text "b/n/daemon/restart" ≢ fixed.topics.status_topic
unfolding text_eq
restart-not-status = text_ne (text "b/n/daemon/restart") fixed.topics.status_topic refl

retained_ignored_example :
    handle fixed (ev_inbound (text "b/n/daemon/restart") (text "restart") true) world idle ≡ idle
retained_ignored_example =
    retained_ignored fixed (text "b/n/daemon/restart") (text "restart") world idle
      restart-not-status

-- The stop of the second unit fails.
abbrev host : Host
host = record {
  stopping = λ n. false;
  supervisor = λ s. some true;
  job = λ n name verb.
      if text_eq name (text "l.service") then (text "failed", none) else (job_done, none);
}

abbrev pick : TemplateCmd
pick = record { label = text "P"; stop = lamp ∷ []; start = some player }

run_template-start_example :
    any is_start (run_template host 0 pick).events
    ≡ (is_some (some player) && all_stopped host 0 (lamp ∷ []))
run_template-start_example = run_template-start host 0 pick

abbrev options : List SelectOption
options =
    record { label = text "P"; unit_id = text "p"; unit_name = text "p.service" }
    ∷ record { label = text "L"; unit_id = text "l"; unit_name = text "l.service" }
    ∷ []

abbrev first : SelectOption
first = record { label = text "P"; unit_id = text "p"; unit_name = text "p.service" }

template_command_lem_example :
    ((template_command config (new_state config) (text "P") (some first) options).stop
      ≡ units_of config
          (new_state config)
          (keep (to_stop config (new_state config) (some first)) options))
    × ((template_command config (new_state config) (text "P") (some first) options).start
        ≡ chosen_unit config (new_state config) (some first) options)
template_command_lem_example =
    template_command_lem config (new_state config) (text "P") (some first) options
