-- ===== src/App/Loop/Stuck.antt =====
-- `wakePending` when the event queue is full.
use systemd2mqtt.Base.{
  ◌≡◌, refl, Bool, true, false, Bool-cases, Option, none, some, List, [], ◌∷◌, arith, inl, inr,
  length,
}
use systemd2mqtt.Base.Text.{text_eq_iff, text_eq_refl}
use systemd2mqtt.Base.Assoc.{lookup-insert}
use systemd2mqtt.Config.Data.{Scope}
use systemd2mqtt.App.Model.{Fixed, World}
use systemd2mqtt.App.Loop.{Event, ev_wake, ev_bus_state, ev_mqtt_connected}
use systemd2mqtt.App.Loop.Queue.{
  Daemon, enqueue, event_queue_size, Step, bus_changed, wake_hinted, mqtt_connected, posted, taken,
  ticked, is_wake, hint, take_event, step, run_daemon,
}
use systemd2mqtt.App.Loop.Wakes.{
  wake_flag, is_wake_of, wakes, wakes-enqueue, is_wake_of-is_wake, handle-wake_flag,
  poll_tick-wake_flag,
}

-- The flag is raised, and no wake is queued that would lower it.
abbrev pub IsStuck : Scope → Daemon → Type 0
IsStuck s d = (wake_flag s d.app ≡ some true) × (wakes s d.queue ≡ 0)

module _ (x : Fixed) (s : Scope) where
  take_event-IsStuck :
      (q : List Event) (w : World) (d : Daemon)
      → wakes s q ≡ 0
      → IsStuck s d
      → IsStuck s (take_event x q w d)
  unfolding wakes
  take_event-IsStuck [] w d k h = h
  take_event-IsStuck (e ∷ q) w d k (f, h) = elim (Bool-cases (is_wake_of s e)) [
    | inl own ↦ absurd (omega (arith, simp own at k))
    | inr other ↦
        (handle-wake_flag s (some true) x e w d.app other f, omega (arith, simp other at k))
  ]

  hint-IsStuck :
      (t : Scope) (o : Option Bool) (d : Daemon)
      → wake_flag t d.app ≡ o
      → IsStuck s d
      → IsStuck s (hint o t d)
  hint-IsStuck t none d e h = h
  hint-IsStuck t (some true) d e h = h
  hint-IsStuck t (some false) d e h = ground (
    arith,
    text_eq_iff t s,
    wakes-enqueue s (ev_wake t) d.queue,
    lookup-insert t s true d.app.wake_pending,
  )

  queued-IsStuck :
      (e : Event) (d : Daemon)
      → is_wake_of s e ≡ false
      → IsStuck s d
      → IsStuck s (record d { queue = enqueue e d.queue })
  queued-IsStuck e d n h = ground (arith, wakes-enqueue s e d.queue)

  step-IsStuck : (i : Step) (d : Daemon) → IsStuck s d → IsStuck s (step x i d)
  unfolding step
  step-IsStuck (bus_changed t online) d h = queued-IsStuck (ev_bus_state t online) d refl h
  step-IsStuck (wake_hinted t) d h = hint-IsStuck t (wake_flag t d.app) d refl h
  step-IsStuck mqtt_connected d h = queued-IsStuck ev_mqtt_connected d refl h
  step-IsStuck (posted e) d h = elim (Bool-cases (is_wake e)) [
    | inl wake ↦ rw wake h
    | inr other ↦ rw other (queued-IsStuck e d (is_wake_of-is_wake s e other) h)
  ]
  step-IsStuck (taken w) d h = take_event-IsStuck d.queue w d h.1 h
  step-IsStuck (ticked w) d h = (poll_tick-wake_flag s (some true) x w d.app h.0, h.1)

  run_daemon-IsStuck :
      (steps : List Step) (d : Daemon) → IsStuck s d → IsStuck s (run_daemon x steps d)
  unfolding run_daemon
  run_daemon-IsStuck [] d h = h
  run_daemon-IsStuck (i ∷ steps) d h = run_daemon-IsStuck steps (step x i d) (step-IsStuck i d h)

  -- A wake that comes while the queue is full, with its scope's flag lowered and none queued, is
  -- the last one: whatever happens then, poll ticks included, the scope's flag stays raised, and no
  -- wake of the scope is ever queued again.
  pub full_queue_wake :
      (d : Daemon) (steps : List Step)
      → wake_flag s d.app ≡ some false
      → wakes s d.queue ≡ 0
      → length d.queue ≡ event_queue_size
      → IsStuck s (run_daemon x steps (step x (wake_hinted s) d))
  unfolding step
  full_queue_wake d steps f n full =
      run_daemon-IsStuck steps (step x (wake_hinted s) d)
        (rw f (ground (arith, text_eq_refl s, lookup-insert s s true d.app.wake_pending)))
