-- ===== src/Systemd/Supervisor.antt =====
-- internal/systemd/supervisor.go: the supervisor of one bus. The connected managers are values of
-- a type M; a channel of one slot is a flag, and the state channel is the list of what it holds,
-- oldest first. What the goroutines do, each under the mutex, are events in some order.
pub mod Invariant
pub mod Liveness
use systemd2mqtt.Base.{
  ℕ, suc, ◌+◌, ◌*◌, ◌%◌, ◌^◌, min, Bool, true, false, ◌&&◌, ◌||◌, Option, none, some, List, [], ◌∷◌,
  ◌++◌, if◌then◌else◌, ltb, leb, ◌==◌, length,
}
use systemd2mqtt.Config.Data.{second}
use systemd2mqtt.Systemd.Unit.{UnitStatus, Error, err_offline, is_disconnect_err}

abbrev pub state_buffer : ℕ
state_buffer = 4

abbrev pub backoff_min : ℕ
backoff_min = second

abbrev pub backoff_max : ℕ
backoff_max = 30 * second

pub record Supervisor (M : Type 0) : Type 0 where
  pub cur : Option M
  pub online : Bool
  pub failures : ℕ
  pub gen : ℕ  -- uint64
  pub redial : Bool
  pub state_ch : List Bool
  pub wake : Bool

-- What a query of the units gives: the states, or an error.
pub data QueryResult : Type 0 where
  answered : List UnitStatus → QueryResult
  failed : Error → QueryResult

module _ {M : Type 0} where
  -- `NewSupervisor`
  abbrev pub new_supervisor : Supervisor M
  new_supervisor = record {
    cur = none;
    online = false;
    failures = 0;
    gen = 0;
    redial = false;
    state_ch = [];
    wake = false;
  }

  -- `notify`: a full channel drops the new value.
  unfoldable pub notify : Bool → Supervisor M → Supervisor M
  notify online s =
      if ltb (length s.state_ch) state_buffer
      then record s { state_ch = s.state_ch ++ (online ∷ []) }
      else s

  -- `Run`, behind a dial that succeeds: what it does under the mutex.
  unfoldable pub connect : M → Supervisor M → Supervisor M
  connect m s = record s {
    cur = some m;
    online = true;
    failures = 0;
    gen = (s.gen + 1) % 2 ^ 64;
    redial = false;
  }

  -- `Run`, when it leaves a manager: what it does under the mutex.
  unfoldable pub disconnect : Supervisor M → Supervisor M
  disconnect s = record s { cur = none; online = false }

  -- `requestRedial`
  abbrev pub request_redial : Supervisor M → Supervisor M
  request_redial s = record s { redial = true }

  -- The end of `Query`: a failure of the current manager is counted.
  unfoldable pub count_failure : Error → Supervisor M → Supervisor M
  count_failure e s =
      if is_disconnect_err e || leb 2 (s.failures + 1)
      then request_redial (record s { failures = 0 })
      else record s { failures = s.failures + 1 }

  -- `Query`, once the manager has answered; `gen` is the generation read before the call.
  unfoldable pub query_done : ℕ → QueryResult → Supervisor M → Supervisor M
  unfolding count_failure
  query_done gen (answered us) s = if gen == s.gen then record s { failures = 0 } else s
  query_done gen (failed e) s = if gen == s.gen then count_failure e s else s

-- The goroutines: the supervisor, the dial loop's backoff, what `Run` has to notify before it goes
-- on, if anything, and the query under way, if any, with the generation that it read.
pub record System (M : Type 0) : Type 0 where
  pub sup : Supervisor M
  pub backoff : ℕ
  pub due : Option Bool
  pub inflight : Option ℕ

pub data Event (M : Type 0) : Type 0 where
  -- `Run`: a dial fails, a dial succeeds, the redial request is taken, the change is notified.
  dial_failed : Event M
  dialed : M → Event M
  redial_taken : Event M
  notified : Event M
  -- `Query`: its first half and its second.
  query_begins : Event M
  query_ends : QueryResult → Event M
  -- `forwardWake`, and the readers of the two channels.
  wake_forwarded : Event M
  wake_read : Event M
  state_read : Event M

abbrev pub drop_oldest : List Bool → List Bool
drop_oldest [] = []
drop_oldest (b ∷ bs) = bs

module _ {M : Type 0} where
  abbrev pub new_system : System M
  new_system = record { sup = new_supervisor; backoff = backoff_min; due = none; inflight = none }

  -- `Run` is at the dial, or waits with a manager.
  abbrev dials : Option M → Option Bool → Bool
  dials none none = true
  dials (some m) o = false
  dials none (some b) = false

  abbrev waits : Option M → Option Bool → Bool
  waits (some m) none = true
  waits none o = false
  waits (some m) (some b) = false

  -- `forwardWake` runs from the notification of a manager until that manager is left, and may still
  -- forward before `Run` notifies that.
  abbrev forwards : Option M → Option Bool → Bool
  forwards (some m) none = true
  forwards none (some false) = true
  forwards (some m) (some b) = false
  forwards none none = false
  forwards none (some true) = false

  abbrev when_online : Option M → System M → System M → System M
  when_online none s t = s
  when_online (some m) s t = t

  abbrev pub notify_due : Option Bool → System M → System M
  notify_due none s = s
  notify_due (some b) s = record s { sup = notify b s.sup; due = none }

  abbrev end_query : Option ℕ → QueryResult → System M → System M
  end_query none r s = s
  end_query (some gen) r s = record s { sup = query_done gen r s.sup; inflight = none }

  abbrev begin_query : Option ℕ → System M → System M
  begin_query none s = record s { inflight = some s.sup.gen }
  begin_query (some gen) s = s

  -- One event; an event that cannot happen in a state leaves it as it is.
  unfoldable pub step : System M → Event M → System M
  unfolding connect disconnect notify query_done
  step s dial_failed =
      if dials s.sup.cur s.due then record s { backoff = min (s.backoff * 2) backoff_max } else s
  step s (dialed m) =
      if dials s.sup.cur s.due
      then record s { sup = connect m s.sup; backoff = backoff_min; due = some true }
      else s
  step s redial_taken =
      if waits s.sup.cur s.due && s.sup.redial
      then (let taken : Supervisor M = record (s.sup) { redial = false } in
          record s { sup = disconnect taken; due = some false })
      else s
  step s notified = notify_due s.due s
  step s query_begins = when_online s.sup.cur s (begin_query s.inflight s)
  step s (query_ends r) = end_query s.inflight r s
  step s wake_forwarded =
      if forwards s.sup.cur s.due
      then (let hinted : Supervisor M = record (s.sup) { wake = true } in record s { sup = hinted })
      else s
  step s wake_read =
      let read : Supervisor M = record (s.sup) { wake = false } in record s { sup = read }
  step s state_read =
      let read : Supervisor M = record (s.sup) { state_ch = drop_oldest s.sup.state_ch } in
      record s { sup = read }

  unfoldable pub run : System M → List (Event M) → System M
  unfolding step
  run s [] = s
  run s (e ∷ es) = run (step s e) es

  -- `Online` and `Manager`
  abbrev pub manager : Supervisor M → Option M × Bool
  manager s = (s.cur, s.online)
