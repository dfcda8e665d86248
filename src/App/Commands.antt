-- ===== src/App/Commands.antt =====
-- internal/app/commands.go: payloads, mailboxes and the routing of inbound messages.
pub mod Mailbox
use systemd2mqtt.Base.{
  ℕ, Bool, true, false, not, ◌&&◌, ◌||◌, Option, none, some, is_some, List, [], ◌∷◌, ◌++◌,
  if◌then◌else◌, find,
}
use systemd2mqtt.Base.Text.{Text, text, text_eq, contains}
use systemd2mqtt.Base.Text.Space.{trim_space}
use systemd2mqtt.Base.Text.Case.{to_upper}
use systemd2mqtt.Base.Assoc.{lookup, insert}
use systemd2mqtt.Config.Data.{UnitConfig, SelectOption, TemplateSelect, Config}
use systemd2mqtt.Config.Unit.{object_id, off_mode_value}
use systemd2mqtt.Config.Query.{unit_by_id, select_by_id}
use systemd2mqtt.Ha.Topics.{
  Kind, in_unit_set, in_template_set, in_display_set, in_display_mode_set, in_daemon_restart,
  in_ha_status, Inbound, parse,
}
use systemd2mqtt.Display.Mode.{Mode, on, parse_mode, mode_of_off}
use systemd2mqtt.App.State.{UnitSnapshot, State, unit}
use systemd2mqtt.App.Model.{
  App, Fixed, World, TemplateCmd, effect, write_display, arm_full_publish, start_worker,
  start_template_worker,
}
use Mailbox.{Offer, offer_replace}

-- `parseCommand`
unfoldable pub parse_command : Text → Option Text
parse_command payload =
    let w = trim_space payload in
    if contains (text "ON" ∷ text "on" ∷ text "1" ∷ text "true" ∷ []) w
    then some (text "start")
    else if contains (text "OFF" ∷ text "off" ∷ text "0" ∷ text "false" ∷ []) w
    then some (text "stop")
    else if contains (text "RESTART" ∷ text "restart" ∷ []) w
    then some (text "restart")
    else none

-- The mailbox of a worker: an empty one is made, and the worker started, at the first command.
abbrev pub mailbox_of {ℓ} : {A : Type ℓ} → Option (Option A) → Option A
mailbox_of none = none
mailbox_of (some box) = box

abbrev pub started : Text → Option (Option Text) → App → App
started id none a = effect (start_worker id) a
started id (some box) a = a

-- `dispatchUnit`
unfoldable pub dispatch_unit : UnitConfig → Text → World → App → App
unfolding offer_replace
dispatch_unit u verb w a =
    let id = object_id u in
    let offer =
      offer_replace w.takes_first w.takes_second verb (mailbox_of (lookup id a.workers)) in
    started id (lookup id a.workers) (record a { workers = insert id offer.mailbox a.workers })

abbrev pub started_template : Text → Option (Option TemplateCmd) → App → App
started_template id none a = effect (start_template_worker id) a
started_template id (some box) a = a

unfoldable pub post_template : Text → TemplateCmd → World → App → App
unfolding offer_replace
post_template id cmd w a =
    let offer =
      offer_replace w.takes_first w.takes_second cmd (mailbox_of (lookup id a.template_workers)) in
    started_template id (lookup id a.template_workers)
      (record a { template_workers = insert id offer.mailbox a.template_workers })

-- A unit that systemd cannot find.
abbrev pub is_missing : Option UnitSnapshot → Bool
is_missing none = false
is_missing (some s) = s.known && text_eq s.load_state (text "not-found")

abbrev pub is_chosen : Option SelectOption → SelectOption → Bool
is_chosen none o = false
is_chosen (some c) o = text_eq o.unit_id c.unit_id

-- The source writes `start` at each chosen option, so the last one stands.
abbrev pub start_or : Option UnitConfig → UnitConfig → Option UnitConfig
start_or none v = some v
start_or (some later) v = some later

-- One option's part in the command; `rest` is what the options behind it give.
abbrev pub add_option :
    Config
    → State
    → Option SelectOption
    → SelectOption
    → Option UnitConfig
    → TemplateCmd
    → TemplateCmd
add_option c s chosen o none rest = rest
add_option c s chosen o (some u) rest =
    if is_chosen chosen o
    then record rest { start = start_or rest.start u }
    else if is_missing (unit s o.unit_id)
    then rest
    else record rest { stop = u ∷ rest.stop }

-- The loop of `dispatchTemplate` over the options.
unfoldable pub template_command :
    Config → State → Text → Option SelectOption → List SelectOption → TemplateCmd
template_command c s label chosen [] = record { label = label; stop = []; start = none }
template_command c s label chosen (o ∷ os) =
    add_option c s chosen o (unit_by_id c o.unit_id) (template_command c s label chosen os)

abbrev pub picked : Option SelectOption → Option (Option SelectOption)
picked none = none
picked (some o) = some (some o)

-- The option picked: none for `off`, and no command at all for an unknown label.
unfoldable pub choose : TemplateSelect → Text → Option (Option SelectOption)
choose sel label =
    if text_eq label (text "off")
    then some none
    else picked (find (λ o. text_eq o.label label) sel.options)

module _ (x : Fixed) where
  abbrev pub post_chosen : TemplateSelect → Text → Option (Option SelectOption) → World → App → App
  post_chosen sel label none w a = a
  post_chosen sel label (some chosen) w a =
      post_template sel.id (template_command x.cfg a.state label chosen sel.options) w a

  -- `dispatchTemplate`
  unfoldable pub dispatch_template : TemplateSelect → Text → World → App → App
  dispatch_template sel label w a = post_chosen sel label (choose sel label) w a

  -- `displayCommand`; without a display it is ignored.
  unfoldable pub display_command : Mode → World → App → App
  display_command m w a = if w.has_display then effect (write_display m) a else a

  -- `requestFullPublish` of internal/app/app.go
  unfoldable pub request_full_publish : World → App → App
  request_full_publish w a = effect arm_full_publish (record a { full_publish_armed_at = w.now })

  abbrev pub unit_command : Option UnitConfig → Option Text → World → App → App
  unit_command none verb w a = a
  unit_command (some u) none w a = a
  unit_command (some u) (some verb) w a = dispatch_unit u verb w a

  abbrev pub select_command : Option TemplateSelect → Text → World → App → App
  select_command none label w a = a
  select_command (some sel) label w a = dispatch_template sel label w a

  abbrev pub mode_command : Option Mode → World → App → App
  mode_command none w a = a
  mode_command (some m) w a = display_command m w a

  abbrev pub switch_command : Text → World → App → App
  switch_command p w a =
      if contains (text "ON" ∷ text "1" ∷ text "TRUE" ∷ []) (to_upper p)
      then display_command on w a
      else if contains (text "OFF" ∷ text "0" ∷ text "FALSE" ∷ []) (to_upper p)
      then display_command (mode_of_off (off_mode_value x.cfg.display)) w a
      else a

  -- The `switch` of `handleInbound` on the kind of topic.
  unfoldable pub route : Kind → Text → Text → World → App → App
  route in_ha_status id payload w a =
      if text_eq (trim_space payload) (text "online") then request_full_publish w a else a
  route in_unit_set id payload w a = unit_command (unit_by_id x.cfg id) (parse_command payload) w a
  route in_template_set id payload w a =
      select_command (select_by_id x.cfg id) (trim_space payload) w a
  route in_display_set id payload w a = switch_command (trim_space payload) w a
  route in_display_mode_set id payload w a = mode_command (parse_mode (trim_space payload)) w a
  route in_daemon_restart id payload w a = record a { canceled = true }

  abbrev pub is_status : Kind → Bool
  is_status in_ha_status = true
  is_status _ = false

  abbrev pub route_parsed : Option Inbound → Text → Bool → World → App → App
  route_parsed none payload retained w a = a
  route_parsed (some i) payload retained w a =
      if retained && not (is_status i.kind) then a else route i.kind i.id payload w a

  -- `handleInbound`
  unfoldable pub handle_inbound : Text → Text → Bool → World → App → App
  handle_inbound topic payload retained w a =
      route_parsed (parse x.topics topic) payload retained w a
