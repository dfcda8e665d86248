-- ===== src/App/Model.antt =====
-- internal/app/app.go: the fields of `App` that the loop reads and writes, what a handler reads of
-- the world, and what it leaves for other goroutines to do.
use systemd2mqtt.Base.{ℕ, Bool, true, false, not, ◌&&◌, Option, none, some, List, [], ◌∷◌, ◌++◌}
use systemd2mqtt.Base.Text.{Text}
use systemd2mqtt.Base.Assoc.{lookup}
use systemd2mqtt.Base.Int.{ℤ}
use systemd2mqtt.Config.Data.{Scope, UnitConfig, Config}
use systemd2mqtt.Ha.Topics.{Topics}
use systemd2mqtt.Ha.Discovery.{Payload}
use systemd2mqtt.Display.Mode.{Mode, unknown}
use systemd2mqtt.Systemd.Supervisor.{QueryResult}
use systemd2mqtt.App.State.{State}

-- `unitAttributes`; the two times are formatted by the encoder.
pub record UnitAttributes : Type 0 where
  pub unit : Text
  pub scope : Text
  pub active_state : Text
  pub sub_state : Text
  pub load_state : Text
  pub last_job : Text
  pub last_job_result : Text
  pub last_job_error : Text
  pub last_job_at : ℕ
  pub changed_at : ℕ

pub record DaemonState : Type 0 where
  pub version : Text
  pub commit : Text
  pub started_at : ℕ
  pub hostname : Text
  pub bus_user_online : Bool
  pub bus_system_online : Option Bool
  pub display_online : Bool
  pub mqtt_reconnects : ℕ

-- The values that are published as JSON.
pub data Document : Type 0 where
  unit_document : UnitAttributes → Document
  display_document : ℤ → Text → Text → Document
  daemon_document : DaemonState → Document
  discovery_document : Payload → Document

-- What is fixed when the loop starts. `encode` is the JSON encoder, which may fail.
pub record Fixed : Type 0 where
  pub cfg : Config
  pub topics : Topics
  pub version : Text
  pub commit : Text
  pub started_at : ℕ
  pub hostname : Text
  pub encode : Document → Option Text

pub record Message : Type 0 where
  pub topic : Text
  pub payload : Text
  pub retained : Bool

-- A template worker's command: what to stop, and what to start then, if anything.
pub record TemplateCmd : Type 0 where
  pub label : Text
  pub stop : List UnitConfig
  pub start : Option UnitConfig

-- What a handler leaves to timers and other goroutines, in the order asked.
pub data Effect : Type 0 where
  arm_reconcile : Scope → Effect
  arm_full_publish : Effect
  read_display : Effect
  write_display : Mode → Effect
  start_worker : Text → Effect
  start_template_worker : Text → Effect

pub record App : Type 0 where
  pub state : State
  pub bus_online : List (Scope × Bool)
  pub disp_online : Bool
  pub disp_mode : Mode
  pub last : List (Text × Text)
  pub force : Bool
  pub pending : List (Scope × Bool)
  pub wake_pending : List (Scope × Bool)
  pub full_publish_wanted : Bool
  pub full_publish_armed_at : ℕ
  pub workers : List (Text × Option Text)
  pub template_workers : List (Text × Option TemplateCmd)
  pub sent : List Message
  pub effects : List Effect
  pub canceled : Bool

-- What a handler reads while it runs: the clock, the answers of the supervisors, the client's
-- count of reconnects, whether a display is connected, and whether a worker takes what waits in
-- its mailbox at each of the two points where it can.
pub record World : Type 0 where
  pub now : ℕ
  pub query : Scope → QueryResult
  pub online : Scope → Bool
  pub reconnects : ℕ
  pub has_display : Bool
  pub takes_first : Bool
  pub takes_second : Bool

-- A missing key of a map of flags reads as false.
abbrev pub flag : Option Bool → Bool
flag none = false
flag (some b) = b

abbrev pub bus_flag : App → Scope → Bool
bus_flag a scope = flag (lookup scope a.bus_online)

abbrev pub effect : Effect → App → App
effect e a = record a { effects = a.effects ++ (e ∷ []) }

abbrev pub is_unknown : Mode → Bool
is_unknown unknown = true
is_unknown _ = false

-- `displayAvailable`
abbrev pub display_available : App → Bool
display_available a = a.disp_online && not (is_unknown a.disp_mode)
