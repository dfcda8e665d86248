-- ===== src/Mqtt/Client.antt =====
-- internal/mqtt/client.go: the wrapper of the paho client. Handlers are values of a type H. A step
-- is what one goroutine, or paho, does between two releases of the mutex or uses of a channel, and
-- the steps come in any order. Whether the session is open is paho's to say: it opens and is lost
-- by steps of its own. What the wrapper asks of paho is a list of calls.
pub mod Registry
pub mod Queue
pub mod Publishes
pub mod Shutdown
pub mod Offline
use systemd2mqtt.Base.{
  ℕ, ◌+◌, ◌==◌, Bool, true, false, not, ◌&&◌, ◌||◌, zero, suc, Option, none, some, List, [], ◌∷◌,
  ◌++◌, map, if◌then◌else◌, ltb, length, keep,
}
use systemd2mqtt.Base.Text.{Text, text}
use systemd2mqtt.Base.Assoc.{insert}
use systemd2mqtt.Base.Int.{ℤ, pos, negsuc}
use systemd2mqtt.Mqtt.Match.{topic_matches}

abbrev pub publish_queue_size : ℕ
publish_queue_size = 1024

abbrev pub disconnect_quiesce_ms : ℕ
disconnect_quiesce_ms = 500

-- `outMsg`; `tracked` says that `done` is set.
pub record OutMsg : Type 0 where
  pub topic : Text
  pub payload : Text
  pub retained : Bool
  pub qos : ℕ
  pub tracked : Bool

-- The calls of paho that reach the network.
pub data Call : Type 0 where
  subscribe_call : Text → ℕ → Call
  publish_call : OutMsg → Call
  disconnect_call : ℕ → Call

-- What a goroutine of `handleConnect` or `Subscribe` still has to do.
pub data Task : Type 0 where
  subscribe_now : Text → Task
  tell_connected : Task

-- How far `Close` has come.
pub data Closing : Type 0 where
  not_closing : Closing
  -- The offline message is queued and waited for.
  waiting : Closing
  -- `stop` is closed, and the disconnect is to come with this quiesce.
  stopping : ℕ → Closing
  -- The disconnect is under way.
  disconnecting : Closing
  finished : Closing

-- The disconnect has been called.
abbrev pub has_disconnected : Closing → Bool
has_disconnected not_closing = false
has_disconnected waiting = false
has_disconnected (stopping q) = false
has_disconnected disconnecting = true
has_disconnected finished = true

-- One more, on an int64.
unfoldable pub int64_succ : ℤ → ℤ
int64_succ (pos n) = if n == 9223372036854775807 then negsuc 9223372036854775807 else pos (n + 1)
int64_succ (negsuc zero) = pos 0
int64_succ (negsuc (suc n)) = negsuc n

pub record Client (H : Type 0) : Type 0 where
  pub qos : ℕ
  pub subs : List (Text × H)
  pub reconnects : ℤ  -- int64
  pub out : List OutMsg
  pub stopped : Bool
  pub pump_done : Bool
  pub closing : Closing
  -- The tracked message has been sent, or given up.
  pub acked : Bool
  -- paho: the session, and the calls of the connect handler that it still has to make.
  pub connected : Bool
  pub connects_due : ℕ
  -- The goroutines that run, and the filters subscribed to since the session opened.
  pub tasks : List (List Task)
  pub granted : List Text
  -- Those whose SUBSCRIBE failed since then, though the session was open.
  pub refused : List Text
  pub calls : List Call
  pub told_connected : ℕ
  pub told_lost : ℕ

-- What `Close` queues.
abbrev pub offline_message : Text → OutMsg
offline_message topic = record {
  topic = topic;
  payload = text "offline";
  retained = true;
  qos = 1;
  tracked = true;
}

module _ {H : Type 0} where
  abbrev pub call : Call → Client H → Client H
  call k c = record c { calls = c.calls ++ (k ∷ []) }

  -- `enqueue`: refused once the client is stopped, and while the queue is full.
  abbrev pub takes : Client H → Bool
  takes c = not c.stopped && ltb (length c.out) publish_queue_size

  unfoldable pub enqueue : OutMsg → Client H → Client H
  enqueue m c = if takes c then record c { out = c.out ++ (m ∷ []) } else c

  -- `Publish`
  unfoldable pub publish : Text → Text → Bool → Client H → Client H
  unfolding enqueue
  publish topic payload retained c =
      enqueue
        (record {
          topic = topic;
          payload = payload;
          retained = retained;
          qos = c.qos;
          tracked = false;
        })
        c

  -- `send`
  unfoldable pub send : OutMsg → Client H → Client H
  send m c =
      let sent = if c.connected then call (publish_call m) c else c in
      if m.tracked then record sent { acked = true } else sent

  abbrev pub take_message : List OutMsg → Client H → Client H
  take_message [] c = c
  take_message (m ∷ ms) c = send m (record c { out = ms })

  -- One round of `pump` that takes a message; a pump that has ended takes none.
  unfoldable pub pump_takes : Client H → Client H
  unfolding send
  pump_takes c = if c.pump_done then c else take_message c.out c

  -- The round of `pump` that sees the stop. Where a message waits too, either round may come.
  unfoldable pub pump_stops : Client H → Client H
  pump_stops c = if c.stopped then record c { pump_done = true } else c

  abbrev pub filters : Client H → List Text
  filters c = map (λ e. e.0) c.subs

  -- `handleConnect`, up to the release of the mutex.
  unfoldable pub handle_connect : Client H → Client H
  handle_connect c = record c {
    tasks = c.tasks ++ ((map subscribe_now (filters c) ++ (tell_connected ∷ [])) ∷ []);
  }

  -- `handleLost`
  unfoldable pub handle_lost : Client H → Client H
  handle_lost c = record c { reconnects = int64_succ c.reconnects; told_lost = c.told_lost + 1 }

  -- `Subscribe`
  unfoldable pub subscribe : Text → H → Client H → Client H
  subscribe filter h c =
      let recorded : Client H = record c { subs = insert filter h c.subs } in
      if c.connected
      then record recorded { tasks = c.tasks ++ ((subscribe_now filter ∷ []) ∷ []) }
      else recorded

  -- `subscribeNow`, and the end of `handleConnect`. A SUBSCRIBE without a session fails; on an open
  -- one the broker grants it, or it times out or is answered by an error. A failure is only logged.
  unfoldable pub run_task : Bool → Task → Client H → Client H
  run_task grants (subscribe_now filter) c =
      if not c.connected
      then c
      else if grants
      then call (subscribe_call filter c.qos) (record c { granted = filter ∷ c.granted })
      else call (subscribe_call filter c.qos) (record c { refused = filter ∷ c.refused })
  run_task grants tell_connected c = record c { told_connected = c.told_connected + 1 }

  -- `route`: the handlers that get the message, in the order of the map.
  unfoldable pub route : Text → Client H → List H
  route topic c = map (λ e. e.1) (keep (λ e. topic_matches e.0 topic) c.subs)

  -- `close(cl.stop)`; the disconnect comes later.
  abbrev pub stop_now : ℕ → Client H → Client H
  stop_now quiesce c = record c { stopped = true; closing = stopping quiesce }

  abbrev pub close_open : Text → Client H → Client H
  close_open [] c = stop_now disconnect_quiesce_ms c
  close_open (t ∷ ts) c =
      if takes c
      then enqueue (offline_message (t ∷ ts)) (record c { closing = waiting })
      else stop_now disconnect_quiesce_ms c

  abbrev pub begin_close : Closing → Text → Client H → Client H
  begin_close not_closing topic c = if c.connected then close_open topic c else stop_now 0 c
  begin_close waiting topic c = c
  begin_close (stopping q) topic c = c
  begin_close disconnecting topic c = c
  begin_close finished topic c = c

  -- `Close`, up to the wait for the offline message if there is one; a second call only waits for
  -- the first to end.
  unfoldable pub close_begins : Text → Client H → Client H
  unfolding enqueue
  close_begins topic c = begin_close c.closing topic c

  abbrev pub end_close : Closing → Bool → Client H → Client H
  end_close waiting timed_out c =
      if c.acked || timed_out then stop_now disconnect_quiesce_ms c else c
  end_close not_closing timed_out c = c
  end_close (stopping q) timed_out c = c
  end_close disconnecting timed_out c = c
  end_close finished timed_out c = c

  -- `Close` behind the wait, once the message is sent or the wait has timed out, up to the stop.
  unfoldable pub close_ends : Bool → Client H → Client H
  close_ends timed_out c = end_close c.closing timed_out c

  abbrev pub disconnect_from : Closing → Client H → Client H
  disconnect_from (stopping q) c = call (disconnect_call q) (record c { closing = disconnecting })
  disconnect_from not_closing c = c
  disconnect_from waiting c = c
  disconnect_from disconnecting c = c
  disconnect_from finished c = c

  -- The call of `Disconnect`; while it lasts, the session may still be open.
  unfoldable pub close_disconnects : Client H → Client H
  close_disconnects c = disconnect_from c.closing c

  abbrev pub finish_from : Closing → Client H → Client H
  finish_from disconnecting c = record c { closing = finished; connected = false }
  finish_from (stopping q) c = c
  finish_from not_closing c = c
  finish_from waiting c = c
  finish_from finished c = c

  -- The end of `Disconnect`, and with it of the session.
  unfoldable pub close_finishes : Client H → Client H
  close_finishes c = finish_from c.closing c

pub data Event (H : Type 0) : Type 0 where
  published : Text → Text → Bool → Event H
  subscribed : Text → H → Event H
  pump_round : Event H
  pump_end : Event H
  -- paho: the session opens, its connect handler runs, the session is lost.
  session_opened : Event H
  connect_handled : Event H
  session_lost : Event H
  -- The goroutine at a position of the list does its next task; whether a SUBSCRIBE is granted.
  task_run : ℕ → Bool → Event H
  close_begun : Text → Event H
  close_ended : Bool → Event H
  disconnect_called : Event H
  disconnect_ended : Event H

abbrev pub new_client : {H : Type 0} → ℕ → Client H
new_client qos = record {
  qos = qos;
  subs = [];
  reconnects = pos 0;
  out = [];
  stopped = false;
  pump_done = false;
  closing = not_closing;
  acked = false;
  connected = false;
  connects_due = 0;
  tasks = [];
  granted = [];
  refused = [];
  calls = [];
  told_connected = 0;
  told_lost = 0;
}

-- The first task of the goroutine at a position, and the goroutines with it done.
unfoldable pub pick_task : ℕ → List (List Task) → Option Task
pick_task n [] = none
pick_task zero ([] ∷ gs) = none
pick_task zero ((t ∷ ts) ∷ gs) = some t
pick_task (suc n) (g ∷ gs) = pick_task n gs

unfoldable pub drop_task : ℕ → List (List Task) → List (List Task)
drop_task n [] = []
drop_task zero ([] ∷ gs) = [] ∷ gs
drop_task zero ((t ∷ ts) ∷ gs) = ts ∷ gs
drop_task (suc n) (g ∷ gs) = g ∷ drop_task n gs

module _ {H : Type 0} where
  abbrev pub run_picked : Bool → Option Task → List (List Task) → Client H → Client H
  run_picked grants none gs c = c
  run_picked grants (some t) gs c = run_task grants t (record c { tasks = gs })

  -- A handler of paho that is due runs once.
  abbrev pub handle_due : ℕ → Client H → Client H
  handle_due zero c = c
  handle_due (suc n) c = handle_connect (record c { connects_due = n })

  -- One event; an event that cannot happen in a state leaves it as it is. paho opens no session
  -- after a disconnect.
  unfoldable pub step : Client H → Event H → Client H
  unfolding publish subscribe pump_takes pump_stops handle_connect handle_lost run_task close_begins
      close_ends close_disconnects close_finishes
  step c (published topic payload retained) = publish topic payload retained c
  step c (subscribed filter h) = subscribe filter h c
  step c pump_round = pump_takes c
  step c pump_end = pump_stops c
  step c session_opened = if c.connected || has_disconnected c.closing then c else record c {
    connected = true;
    granted = [];
    refused = [];
    connects_due = c.connects_due + 1;
  }
  step c connect_handled = handle_due c.connects_due c
  step c session_lost = if c.connected then handle_lost (record c { connected = false }) else c
  step c (task_run n grants) = run_picked grants (pick_task n c.tasks) (drop_task n c.tasks) c
  step c (close_begun topic) = close_begins topic c
  step c (close_ended timed_out) = close_ends timed_out c
  step c disconnect_called = close_disconnects c
  step c disconnect_ended = close_finishes c

  unfoldable pub run : Client H → List (Event H) → Client H
  unfolding step
  run c [] = c
  run c (e ∷ es) = run (step c e) es
