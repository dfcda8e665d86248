-- ===== src/App/Loop/Cached.antt =====
-- The cache of published payloads, over everything that happens to the daemon.
use systemd2mqtt.Base.{
  ◌≡◌, refl, ◌∙◌, Bool, true, false, List, [], ◌∷◌, ◌++◌, if◌then◌else◌, arith, Option, none, some,
}
use systemd2mqtt.Base.Text.{Text}
use systemd2mqtt.Base.Assoc.{lookup, insert}
use systemd2mqtt.Config.Data.{Scope}
use systemd2mqtt.App.Model.{App, Fixed, World, Message}
use systemd2mqtt.App.Publish.{publish}
use systemd2mqtt.App.Loop.{
  Event, ev_wake, ev_reconcile, ev_bus_state, ev_display_mode, ev_display_error, ev_mqtt_connected,
  ev_mqtt_lost, ev_inbound, ev_job_done, ev_template_done, ev_full_publish, handle,
}
use systemd2mqtt.App.Loop.Events.{Woken, handle-Kept, poll_tick-Kept}
use systemd2mqtt.App.Loop.Queue.{
  Daemon, Step, bus_changed, wake_hinted, mqtt_connected, posted, taken, ticked, hint, take_event,
  step, run_daemon,
}

-- What a broker retains of the messages sent, in order.
unfoldable pub retained_by : List (Text × Text) → List Message → List (Text × Text)
retained_by m [] = m
retained_by m (msg ∷ msgs) =
    retained_by (if msg.retained then insert msg.topic msg.payload m else m) msgs

retained_by-append :
    (m : List (Text × Text)) (xs ys : List Message)
    → retained_by m (xs ++ ys) ≡ retained_by (retained_by m xs) ys
unfolding retained_by
retained_by-append m [] ys = refl
retained_by-append m (msg ∷ xs) ys =
    retained_by-append (if msg.retained then insert msg.topic msg.payload m else m) xs ys

-- The cache holds what the broker retains.
abbrev pub IsCached : App → Type 0
IsCached a = retained_by [] a.sent ≡ a.last

pub publish-IsCached :
    (topic payload : Text) (retained : Bool) (a : App)
    → IsCached a
    → IsCached (publish topic payload retained a)
unfolding publish retained_by
publish-IsCached topic payload true a h = ground (
  arith,
  retained_by-append [] a.sent (record { topic = topic; payload = payload; retained = true } ∷ []),
)
publish-IsCached topic payload false a h =
    retained_by-append [] a.sent
      (record { topic = topic; payload = payload; retained = false } ∷ [])
    ∙ h

abbrev sent_view : List Message → List (Text × Text) → List (Scope × Bool) → List (Text × Text)
sent_view sent last wakes = retained_by [] sent

abbrev last_view : List Message → List (Text × Text) → List (Scope × Bool) → List (Text × Text)
last_view sent last wakes = last

module _ (x : Fixed) where
  woken : (e : Event) (a : App) → IsCached a → Woken sent_view last_view publish-IsCached x e a
  woken (ev_wake s) a h = ground arith
  woken (ev_reconcile s) a h = h
  woken (ev_bus_state s online) a h = h
  woken (ev_display_mode m) a h = h
  woken ev_display_error a h = h
  woken ev_mqtt_connected a h = h
  woken ev_mqtt_lost a h = h
  woken (ev_inbound topic payload retained) a h = h
  woken (ev_job_done id verb result err) a h = h
  woken (ev_template_done id) a h = h
  woken ev_full_publish a h = h

  handle-IsCached : (e : Event) (w : World) (a : App) → IsCached a → IsCached (handle x e w a)
  handle-IsCached e w a h = handle-Kept sent_view last_view publish-IsCached x e w a (woken e a h) h

  hint-IsCached :
      (o : Option Bool) (s : Scope) (d : Daemon) → IsCached d.app → IsCached (hint o s d).app
  hint-IsCached none s d h = h
  hint-IsCached (some true) s d h = h
  hint-IsCached (some false) s d h = h

  take_event-IsCached :
      (es : List Event) (w : World) (d : Daemon)
      → IsCached d.app
      → IsCached (take_event x es w d).app
  take_event-IsCached [] w d h = h
  take_event-IsCached (e ∷ es) w d h = handle-IsCached e w d.app h

  step-IsCached : (s : Step) (d : Daemon) → IsCached d.app → IsCached (step x s d).app
  unfolding step
  step-IsCached (bus_changed s online) d h = h
  step-IsCached (wake_hinted s) d h = hint-IsCached (lookup s d.app.wake_pending) s d h
  step-IsCached mqtt_connected d h = h
  step-IsCached (posted e) d h = ground arith
  step-IsCached (taken w) d h = take_event-IsCached d.queue w d h
  step-IsCached (ticked w) d h = poll_tick-Kept sent_view last_view publish-IsCached x w d.app h

  -- Whatever happens to the daemon, in whatever order, dropped events included, the cache of
  -- published payloads stays exact: if it holds what a broker retains of the messages sent, then
  -- it does so after any steps.
  pub run_daemon-IsCached :
      (steps : List Step) (d : Daemon) → IsCached d.app → IsCached (run_daemon x steps d).app
  unfolding run_daemon
  run_daemon-IsCached [] d h = h
  run_daemon-IsCached (s ∷ steps) d h = run_daemon-IsCached steps (step x s d) (step-IsCached s d h)
