-- ===== src/Mqtt/Client/Queue.antt =====
-- The queue of the pump: first in, first out, whatever the order of events.
use systemd2mqtt.Base.{
  ℕ, zero, suc, ◌≡◌, refl, sym, ap, ◌∙◌, Bool, false, ◌&&◌, Option, none, some, List, [], ◌∷◌, ◌++◌,
  append_assoc, append-nil, if◌then◌else◌, arith,
}
use systemd2mqtt.Base.Text.{Text}
use systemd2mqtt.Mqtt.Client.{
  OutMsg, Task, subscribe_now, tell_connected, Closing, not_closing, waiting, stopping,
  disconnecting, finished, Client, takes, enqueue, publish, send, take_message, offline_message,
  handle_connect, subscribe, run_task, begin_close, end_close, Event, published, subscribed,
  pump_round, pump_end, session_opened, connect_handled, session_lost, task_run, close_begun,
  close_ended, disconnect_called, disconnect_ended, close_disconnects, close_finishes,
  disconnect_from, finish_from, pick_task, drop_task, run_picked, handle_due, step, run,
}

abbrev pub one_if : Bool → OutMsg → List OutMsg
one_if b m = if b then m ∷ [] else []

abbrev pub first_of : List OutMsg → List OutMsg
first_of [] = []
first_of (m ∷ ms) = m ∷ []

module _ {H : Type 0} where
  abbrev pub accepted_close : Closing → Text → Client H → List OutMsg
  accepted_close not_closing [] c = []
  accepted_close not_closing (t ∷ ts) c = one_if (c.connected && takes c) (offline_message (t ∷ ts))
  accepted_close waiting topic c = []
  accepted_close (stopping q) topic c = []
  accepted_close disconnecting topic c = []
  accepted_close finished topic c = []

  -- What an event puts into the queue: a publish, or the offline message of the first `Close`,
  -- while the client is not stopped and the queue is not full.
  abbrev pub accepted_at : Client H → Event H → List OutMsg
  accepted_at c (published topic payload retained) = one_if (takes c) (record {
    topic = topic;
    payload = payload;
    retained = retained;
    qos = c.qos;
    tracked = false;
  })
  accepted_at c (close_begun topic) = accepted_close c.closing topic c
  accepted_at c _ = []

  unfoldable pub accepted : Client H → List (Event H) → List OutMsg
  accepted c [] = []
  accepted c (e ∷ es) = accepted_at c e ++ accepted (step c e) es

  -- What an event takes out of the queue.
  abbrev pub taken_at : Client H → Event H → List OutMsg
  taken_at c pump_round = if c.pump_done then [] else first_of c.out
  taken_at c _ = []

  unfoldable pub taken : Client H → List (Event H) → List OutMsg
  taken c [] = []
  taken c (e ∷ es) = taken_at c e ++ taken (step c e) es

  -- One event: what was there and what is accepted, is what is taken and what is there then.
  abbrev pub Moves : Client H → Client H → List OutMsg → List OutMsg → Type 0
  Moves c d acc tak = c.out ++ acc ≡ tak ++ d.out

  take_message-Moves :
      (ms : List OutMsg) (c : Client H) → c.out ≡ ms → Moves c (take_message ms c) [] (first_of ms)
  unfolding send
  take_message-Moves [] c h = ground (arith, append-nil c.out)
  take_message-Moves (m ∷ ms) c h = ground (arith, append-nil c.out)

  close-Moves :
      (k : Closing) (t : Text) (c : Client H)
      → Moves c (begin_close k t c) (accepted_close k t c) []
  unfolding enqueue
  close-Moves not_closing [] c = ground (arith, append-nil c.out)
  close-Moves not_closing (t ∷ ts) c = ground (arith, append-nil c.out)
  close-Moves waiting t c = append-nil c.out
  close-Moves (stopping q) t c = append-nil c.out
  close-Moves disconnecting t c = append-nil c.out
  close-Moves finished t c = append-nil c.out

  end-Moves : (k : Closing) (b : Bool) (c : Client H) → (end_close k b c).out ≡ c.out
  end-Moves not_closing b c = refl
  end-Moves waiting b c = ground arith
  end-Moves (stopping q) b c = refl
  end-Moves disconnecting b c = refl
  end-Moves finished b c = refl

  due-out : (n : ℕ) (c : Client H) → (handle_due n c).out ≡ c.out
  unfolding handle_connect
  due-out zero c = refl
  due-out (suc n) c = refl

  picked-out :
      (g : Bool) (o : Option Task) (gs : List (List Task)) (c : Client H)
      → (run_picked g o gs c).out ≡ c.out
  unfolding run_task
  picked-out g none gs c = refl
  picked-out g (some (subscribe_now f)) gs c = ground arith
  picked-out g (some tell_connected) gs c = refl

  disconnect-out : (k : Closing) (c : Client H) → (disconnect_from k c).out ≡ c.out
  disconnect-out not_closing c = refl
  disconnect-out waiting c = refl
  disconnect-out (stopping q) c = refl
  disconnect-out disconnecting c = refl
  disconnect-out finished c = refl

  finish-out : (k : Closing) (c : Client H) → (finish_from k c).out ≡ c.out
  finish-out not_closing c = refl
  finish-out waiting c = refl
  finish-out (stopping q) c = refl
  finish-out disconnecting c = refl
  finish-out finished c = refl

  step-Moves : (c : Client H) (e : Event H) → Moves c (step c e) (accepted_at c e) (taken_at c e)
  unfolding step enqueue publish subscribe close_disconnects close_finishes
  step-Moves c (published topic payload retained) = ground (arith, append-nil c.out)
  step-Moves c (subscribed f h) = ground (arith, append-nil c.out)
  step-Moves c pump_round = ground (arith, take_message-Moves c.out c refl, append-nil c.out)
  step-Moves c pump_end = ground (arith, append-nil c.out)
  step-Moves c session_opened = ground (arith, append-nil c.out)
  step-Moves c connect_handled = append-nil c.out ∙ sym (due-out c.connects_due c)
  step-Moves c session_lost = ground (arith, append-nil c.out)
  step-Moves c (task_run n g) =
      append-nil c.out ∙ sym (picked-out g (pick_task n c.tasks) (drop_task n c.tasks) c)
  step-Moves c (close_begun t) = close-Moves c.closing t c
  step-Moves c (close_ended b) = append-nil c.out ∙ sym (end-Moves c.closing b c)
  step-Moves c disconnect_called = append-nil c.out ∙ sym (disconnect-out c.closing c)
  step-Moves c disconnect_ended = append-nil c.out ∙ sym (finish-out c.closing c)

  -- The queue is first in, first out: what was there and what any events put in is, in order, what
  -- they take out and what is left.
  pub fifo : (es : List (Event H)) (c : Client H) → Moves c (run c es) (accepted c es) (taken c es)
  unfolding run accepted taken
  fifo [] c = append-nil c.out
  fifo (e ∷ es) c =
      let a = step-Moves c e in
      let b = fifo es (step c e) in
      sym (append_assoc c.out (accepted_at c e) (accepted (step c e) es))
      ∙ ap (λ q. q ++ accepted (step c e) es) a
      ∙ append_assoc (taken_at c e) (step c e).out (accepted (step c e) es)
      ∙ ap (λ q. taken_at c e ++ q) b
      ∙ sym (append_assoc (taken_at c e) (taken (step c e) es) (run (step c e) es).out)
