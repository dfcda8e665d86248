-- ===== src/App/Loop/Queue.antt =====
-- internal/app/app.go: the event queue, `enqueue`, `bridgeSupervisor` and the callback of a
-- connect, around the loop. The steps of the goroutines come in any order.
use systemd2mqtt.Base.{
  ℕ, Bool, true, false, Option, none, some, List, [], ◌∷◌, ◌++◌, if◌then◌else◌, ltb, length,
}
use systemd2mqtt.Base.Assoc.{lookup, insert}
use systemd2mqtt.Config.Data.{Scope}
use systemd2mqtt.App.Model.{App, Fixed, World}
use systemd2mqtt.App.Loop.{Event, ev_wake, ev_bus_state, ev_mqtt_connected, handle, poll_tick}

abbrev pub event_queue_size : ℕ
event_queue_size = 256

-- The loop's state and the events that wait, the oldest first.
pub record Daemon : Type 0 where
  pub app : App
  pub queue : List Event

-- `enqueue`: a full queue drops the event.
abbrev pub enqueue : Event → List Event → List Event
enqueue e q = if ltb (length q) event_queue_size then q ++ (e ∷ []) else q

pub data Step : Type 0 where
  -- `bridgeSupervisor`: a state change and a wake of a scope's supervisor.
  bus_changed : Scope → Bool → Step
  wake_hinted : Scope → Step
  -- The callback of the MQTT client.
  mqtt_connected : Step
  -- A timer, a worker, the display or a message queues an event. Only the bridge queues a wake.
  posted : Event → Step
  -- `Run`: the loop takes an event, or the poll timer ticks.
  taken : World → Step
  ticked : World → Step

abbrev pub is_wake : Event → Bool
is_wake (ev_wake s) = true
is_wake _ = false

-- `CompareAndSwap(false, true)` on the scope's flag, and the event behind it. The bridge runs only
-- for scopes that have a flag.
abbrev pub hint : Option Bool → Scope → Daemon → Daemon
hint none s d = d
hint (some true) s d = d
hint (some false) s d =
    let raised : App = record (d.app) { wake_pending = insert s true d.app.wake_pending } in
    record { app = raised; queue = enqueue (ev_wake s) d.queue }

module _ (x : Fixed) where
  abbrev pub take_event : List Event → World → Daemon → Daemon
  take_event [] w d = d
  take_event (e ∷ es) w d = record { app = handle x e w d.app; queue = es }

  unfoldable pub step : Step → Daemon → Daemon
  step (bus_changed s online) d = record d { queue = enqueue (ev_bus_state s online) d.queue }
  step (wake_hinted s) d = hint (lookup s d.app.wake_pending) s d
  step mqtt_connected d =
      let wanting : App = record (d.app) { full_publish_wanted = true } in
      record { app = wanting; queue = enqueue ev_mqtt_connected d.queue }
  step (posted e) d = if is_wake e then d else record d { queue = enqueue e d.queue }
  step (taken w) d = take_event d.queue w d
  step (ticked w) d = record d { app = poll_tick x w d.app }

  unfoldable pub run_daemon : List Step → Daemon → Daemon
  unfolding step
  run_daemon [] d = d
  run_daemon (s ∷ ss) d = run_daemon ss (step s d)
