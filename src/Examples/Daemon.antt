-- ===== src/Examples/Daemon.antt =====
-- internal/display and internal/app at concrete states.
use systemd2mqtt.Base.{
  ◌≡◌, ◌≢◌, ◌≤◌, refl, true, false, none, some, List, [], ◌∷◌, ◌++◌, map, length, keep, any,
  if◌then◌else◌, arith, ltb, Distinct,
}
use systemd2mqtt.Base.Text.{text, text_eq, text_ne}
use systemd2mqtt.Base.Assoc.{lookup, insert}
use systemd2mqtt.Base.Int.{pos}
use systemd2mqtt.Config.Data.{UnitConfig, TemplateSelect, Config, scope_user}
use systemd2mqtt.Config.Unit.{object_id}
use systemd2mqtt.Config.Load.{plain_unit}
use systemd2mqtt.Config.Validate.Units.{name_key}
use systemd2mqtt.Systemd.Unit.{UnitStatus, job_done}
use systemd2mqtt.Display.Mode.{Mode, on, standby, off}
use systemd2mqtt.Display.Controller.{changes_buffer, tail, push, Bus, push_newest}
use systemd2mqtt.App.State.{
  UnitSnapshot, new_state, empty_snapshot, id_for_unit, fault, applied, moved, apply_unit, unit,
  snapshots, template_state,
}
use systemd2mqtt.App.State.WellFormed.{
  Update, queried, job_ended, updates, apply_unit-no_fault, snapshots-order,
}
use systemd2mqtt.App.State.Updates.{Records, apply_unit_lem}
use systemd2mqtt.App.State.Template.{is_active, is_known, labels, head_or, template_state_lem}

abbrev answering : Bus
answering = record { before = some on; written = true; after = some off }

abbrev waiting : List Mode
waiting = on ∷ off ∷ on ∷ standby ∷ []

push_newest_example :
    let left = if ltb (length waiting) changes_buffer then waiting else tail waiting in
    (push off waiting ≡ some (left ++ (off ∷ []))) × (length (left ++ (off ∷ [])) ≤ changes_buffer)
push_newest_example = push_newest off waiting (omega arith)

abbrev pub player : UnitConfig
player = record (plain_unit (text "p.service")) { id = text "p" }

abbrev pub lamp : UnitConfig
lamp = record (plain_unit (text "l.service")) { id = text "l" }

abbrev pub config : Config
config = record {
  node_id = text "n";
  device = record { name = []; manufacturer = []; model = []; suggested_area = [] };
  mqtt = record {
    broker = [];
    client_id = [];
    username = [];
    password = [];
    password_file = [];
    base_topic = text "b";
    keep_alive = pos 0;
    qos = 1;
    tls = record { ca_file = []; cert_file = []; key_file = []; insecure_skip_verify = false };
    qos_set = true;
  };
  home_assistant = record { enabled = none; discovery_prefix = []; status_topic = [] };
  units = none;
  templates = none;
  display = record { enabled = none; off_mode = []; expose_mode_select = none };
  systemd = record { poll_interval = pos 0; job_timeout = pos 0; job_mode = [] };
  log_level = [];
  all = player ∷ lamp ∷ [];
  selects = [];
}

abbrev playing : UnitStatus
playing = record {
  name = text "p.service";
  scope = scope_user;
  active_state = text "active";
  sub_state = text "running";
  load_state = text "loaded";
}

abbrev history : List Update
history = queried scope_user playing 5 ∷ job_ended (text "p") (text "start") job_done none 6 ∷ []

apply_unit-no_fault_example :
    (apply_unit scope_user playing 9 (updates (new_state config) history)).1 ≢ fault
apply_unit-no_fault_example = apply_unit-no_fault config history scope_user playing 9

snapshots-order_example :
    let s = updates (new_state config) history in
    map (λ u. u.id) (snapshots s.order s.units) ≡ map object_id config.all
snapshots-order_example = snapshots-order config history

found : id_for_unit (new_state config) scope_user (text "p.service") ≡ some (text "p")
unfolding id_for_unit new_state object_id lookup insert text_eq
found = refl

empty : unit (new_state config) (text "p") ≡ some (empty_snapshot player)
unfolding unit new_state object_id lookup insert text_eq
empty = refl

p-not-l : text "p" ≢ text "l"
unfolding text_eq
p-not-l = text_ne (text "p") (text "l") refl

apply_unit_lem_example :
    let s' = (apply_unit scope_user playing 5 (new_state config)).0 in
    (u' : UnitSnapshot) × (unit s' (text "p") ≡ some u')
    × Records playing 5 (empty_snapshot player) u'
    × ((apply_unit scope_user playing 5 (new_state config)).1
        ≡ applied u' (moved (empty_snapshot player) playing))
    × (unit s' (text "l") ≡ unit (new_state config) (text "l"))
apply_unit_lem_example =
    apply_unit_lem scope_user playing 5 (new_state config) (text "p") (text "l")
      (empty_snapshot player) found empty p-not-l

names_differ : Distinct (map name_key config.all)
unfolding text_eq
names_differ = ((text_ne (name_key player) (name_key lamp) refl, tt), (tt, tt))

abbrev pub select : TemplateSelect
select = record {
  id = text "t";
  name = text "T";
  icon = [];
  scope = scope_user;
  options = record { label = text "P"; unit_id = text "p"; unit_name = text "p.service" } ∷ [];
}

template_state_lem_example :
    let active = labels (keep (is_active (new_state config)) select.options) in
    template_state (new_state config) select
    ≡ (head_or (text "off") active, active, any (is_known (new_state config)) select.options)
template_state_lem_example = template_state_lem (new_state config) select
