-- ===== src/Systemd/Supervisor/Invariant.antt =====
-- What holds of a supervisor at any time.
use systemd2mqtt.Base.{
  ◌≤◌, ◌≡◌, refl, Bool, Option, none, some, List, [], ◌∷◌, length, length-append, is_some, arith,
}
use systemd2mqtt.Systemd.Supervisor.{
  answered, failed, notify, notify_due, System, Event, dial_failed, dialed, redial_taken, notified,
  query_begins, query_ends, wake_forwarded, wake_read, state_read, new_system, step, run,
  drop_oldest, state_buffer, backoff_min, backoff_max,
}

pub record Inv {M : Type 0} (s : System M) : Type 0 where
  -- A manager is there exactly while the supervisor says so.
  pub online : s.sup.online ≡ is_some s.sup.cur
  -- One failure at most is pending: the second requests a redial and resets the count.
  pub failures : s.sup.failures ≤ 1
  pub buffer : length s.sup.state_ch ≤ state_buffer
  pub backoff_low : backoff_min ≤ s.backoff
  pub backoff_high : s.backoff ≤ backoff_max

length-drop_oldest : (bs : List Bool) → length (drop_oldest bs) ≤ length bs
length-drop_oldest [] = omega arith
length-drop_oldest (b ∷ bs) = omega arith

module _ {M : Type 0} where
  due-Inv : (o : Option Bool) (s : System M) → Inv s → Inv (notify_due o s)
  unfolding notify
  due-Inv none s v = v
  due-Inv (some b) s v = ground (arith, length-append s.sup.state_ch (b ∷ []))

  -- Every event, in every state, keeps the invariant.
  step-Inv : (s : System M) (e : Event M) → Inv s → Inv (step s e)
  unfolding step
  step-Inv s dial_failed v = ground arith
  step-Inv s (dialed m) v = ground arith
  step-Inv s redial_taken v = ground arith
  step-Inv s notified v = due-Inv s.due s v
  step-Inv s query_begins v = ground arith
  step-Inv s (query_ends (answered us)) v = ground arith
  step-Inv s (query_ends (failed e)) v = ground arith
  step-Inv s wake_forwarded v = ground arith
  step-Inv s wake_read v = ground arith
  step-Inv s state_read v = ground (arith, length-drop_oldest s.sup.state_ch)

  run-Inv : (s : System M) (es : List (Event M)) → Inv s → Inv (run s es)
  unfolding run
  run-Inv s [] v = v
  run-Inv s (e ∷ es) v = run-Inv (step s e) es (step-Inv s e v)

  -- From a new supervisor, after any events in any order: a manager is there exactly while the
  -- supervisor is online, at most one failed query is pending, the state channel holds at most
  -- four values, and the backoff lies between one second and thirty.
  pub run_new-Inv : (es : List (Event M)) → Inv (run new_system es)
  run_new-Inv es = run-Inv new_system es (record {
    online = refl;
    failures = omega arith;
    buffer = omega arith;
    backoff_low = omega arith;
    backoff_high = omega arith;
  })
