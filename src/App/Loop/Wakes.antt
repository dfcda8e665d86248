-- ===== src/App/Loop/Wakes.antt =====
-- `wakePending`: the wakes in the event queue.
use systemd2mqtt.Base.{
  ℕ, suc, ◌+◌, ◌≤◌, ◌≡◌, refl, Bool, true, false, Bool-cases, Option, none, some, List, [], ◌∷◌,
  ◌++◌, if◌then◌else◌, arith, inl, inr,
}
use systemd2mqtt.Base.Text.{Text, text_eq, text_eq_iff}
use systemd2mqtt.Base.Assoc.{lookup, lookup-insert}
use systemd2mqtt.Config.Data.{Scope}
use systemd2mqtt.App.Model.{App, Fixed, World, Message}
use systemd2mqtt.App.Publish.{publish}
use systemd2mqtt.App.Loop.{
  Event, ev_wake, ev_reconcile, ev_bus_state, ev_display_mode, ev_display_error, ev_mqtt_connected,
  ev_mqtt_lost, ev_inbound, ev_job_done, ev_template_done, ev_full_publish, handle, poll_tick,
}
use systemd2mqtt.App.Loop.Events.{Woken, handle-Kept, poll_tick-Kept}
use systemd2mqtt.App.Loop.Queue.{
  Daemon, enqueue, Step, bus_changed, wake_hinted, mqtt_connected, posted, taken, ticked, is_wake,
  hint, take_event, step, run_daemon,
}

-- The scope's flag, if it has one.
abbrev pub wake_flag : Scope → App → Option Bool
wake_flag s a = lookup s a.wake_pending

abbrev pub is_wake_of : Scope → Event → Bool
is_wake_of s (ev_wake t) = text_eq t s
is_wake_of s _ = false

-- How many wakes of the scope wait in the queue.
unfoldable pub wakes : Scope → List Event → ℕ
wakes s [] = 0
wakes s (e ∷ es) = let rest = wakes s es in if is_wake_of s e then suc rest else rest

wakes-append : (s : Scope) (q r : List Event) → wakes s (q ++ r) ≡ wakes s q + wakes s r
unfolding wakes
wakes-append s [] r = omega arith
wakes-append s (e ∷ q) r = ground (arith, wakes-append s q r)

pub wakes-enqueue :
    (s : Scope) (e : Event) (q : List Event)
    → wakes s (enqueue e q) ≤ wakes s q + (if is_wake_of s e then 1 else 0)
unfolding wakes
wakes-enqueue s e q = ground (arith, wakes-append s q (e ∷ []))

pub is_wake_of-is_wake : (s : Scope) (e : Event) → is_wake e ≡ false → is_wake_of s e ≡ false
is_wake_of-is_wake s (ev_wake t) h = cc
is_wake_of-is_wake s (ev_reconcile t) h = refl
is_wake_of-is_wake s (ev_bus_state t online) h = refl
is_wake_of-is_wake s (ev_display_mode m) h = refl
is_wake_of-is_wake s ev_display_error h = refl
is_wake_of-is_wake s ev_mqtt_connected h = refl
is_wake_of-is_wake s ev_mqtt_lost h = refl
is_wake_of-is_wake s (ev_inbound topic payload retained) h = refl
is_wake_of-is_wake s (ev_job_done id verb result err) h = refl
is_wake_of-is_wake s (ev_template_done id) h = refl
is_wake_of-is_wake s ev_full_publish h = refl

module _ (s : Scope) (v : Option Bool) where
  abbrev flag_view : List Message → List (Text × Text) → List (Scope × Bool) → Option Bool
  flag_view sent last flags = lookup s flags

  abbrev value_view : List Message → List (Text × Text) → List (Scope × Bool) → Option Bool
  value_view sent last flags = v

  publish-wake_flag :
      (topic payload : Text) (retained : Bool) (a : App)
      → wake_flag s a ≡ v
      → wake_flag s (publish topic payload retained a) ≡ v
  unfolding publish
  publish-wake_flag topic payload true a h = ground arith
  publish-wake_flag topic payload false a h = h

  module _ (x : Fixed) where
    woken :
        (e : Event) (a : App)
        → is_wake_of s e ≡ false
        → wake_flag s a ≡ v
        → Woken flag_view value_view publish-wake_flag x e a
    woken (ev_wake t) a n h = ground (arith, lookup-insert t s false a.wake_pending)
    woken (ev_reconcile t) a n h = h
    woken (ev_bus_state t online) a n h = h
    woken (ev_display_mode m) a n h = h
    woken ev_display_error a n h = h
    woken ev_mqtt_connected a n h = h
    woken ev_mqtt_lost a n h = h
    woken (ev_inbound topic payload retained) a n h = h
    woken (ev_job_done id verb result err) a n h = h
    woken (ev_template_done id) a n h = h
    woken ev_full_publish a n h = h

    pub handle-wake_flag :
        (e : Event) (w : World) (a : App)
        → is_wake_of s e ≡ false
        → wake_flag s a ≡ v
        → wake_flag s (handle x e w a) ≡ v
    handle-wake_flag e w a n h =
        handle-Kept flag_view value_view publish-wake_flag x e w a (woken e a n h) h

    pub poll_tick-wake_flag :
        (w : World) (a : App) → wake_flag s a ≡ v → wake_flag s (poll_tick x w a) ≡ v
    poll_tick-wake_flag w a h = poll_tick-Kept flag_view value_view publish-wake_flag x w a h

-- The wakes that the flag allows.
abbrev pub allowed : Option Bool → ℕ
allowed (some true) = 1
allowed (some false) = 0
allowed none = 0

abbrev pub IsBounded : Scope → Daemon → Type 0
IsBounded s d = wakes s d.queue ≤ allowed (wake_flag s d.app)

allowed_one : (o : Option Bool) → allowed o ≤ 1
allowed_one none = omega arith
allowed_one (some true) = omega arith
allowed_one (some false) = omega arith

module _ (x : Fixed) (s : Scope) where
  take_event-IsBounded :
      (q : List Event) (w : World) (d : Daemon)
      → wakes s q ≤ allowed (wake_flag s d.app)
      → IsBounded s d
      → IsBounded s (take_event x q w d)
  unfolding wakes
  take_event-IsBounded [] w d k h = h
  take_event-IsBounded (e ∷ q) w d k h = elim (Bool-cases (is_wake_of s e)) [
    | inl own ↦ omega (arith, simp own at k, allowed_one (wake_flag s d.app))
    | inr other ↦
        rw (handle-wake_flag s (wake_flag s d.app) x e w d.app other refl)
          (omega (arith, simp other at k))
  ]

  hint-IsBounded :
      (t : Scope) (o : Option Bool) (d : Daemon)
      → wake_flag t d.app ≡ o
      → IsBounded s d
      → IsBounded s (hint o t d)
  hint-IsBounded t none d e h = h
  hint-IsBounded t (some true) d e h = h
  hint-IsBounded t (some false) d e h = ground (
    arith,
    text_eq_iff t s,
    wakes-enqueue s (ev_wake t) d.queue,
    lookup-insert t s true d.app.wake_pending,
  )

  queued-IsBounded :
      (e : Event) (d : Daemon)
      → is_wake_of s e ≡ false
      → IsBounded s d
      → IsBounded s (record d { queue = enqueue e d.queue })
  queued-IsBounded e d n h = ground (arith, wakes-enqueue s e d.queue)

  step-IsBounded : (i : Step) (d : Daemon) → IsBounded s d → IsBounded s (step x i d)
  unfolding step
  step-IsBounded (bus_changed t online) d h = queued-IsBounded (ev_bus_state t online) d refl h
  step-IsBounded (wake_hinted t) d h = hint-IsBounded t (wake_flag t d.app) d refl h
  step-IsBounded mqtt_connected d h = queued-IsBounded ev_mqtt_connected d refl h
  step-IsBounded (posted e) d h = elim (Bool-cases (is_wake e)) [
    | inl wake ↦ rw wake h
    | inr other ↦ rw other (queued-IsBounded e d (is_wake_of-is_wake s e other) h)
  ]
  step-IsBounded (taken w) d h = take_event-IsBounded d.queue w d h h
  step-IsBounded (ticked w) d h = rw (poll_tick-wake_flag s (wake_flag s d.app) x w d.app refl) h

  -- Whatever happens, at most one wake of a scope waits in the event queue, and none unless the
  -- scope's flag is raised: if this holds at first, it holds after any steps.
  pub run_daemon-IsBounded :
      (steps : List Step) (d : Daemon) → IsBounded s d → IsBounded s (run_daemon x steps d)
  unfolding run_daemon
  run_daemon-IsBounded [] d h = h
  run_daemon-IsBounded (i ∷ steps) d h =
      run_daemon-IsBounded steps (step x i d) (step-IsBounded i d h)
