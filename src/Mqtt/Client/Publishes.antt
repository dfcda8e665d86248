-- ===== src/Mqtt/Client/Publishes.antt =====
-- What the pump hands to paho: a bounded channel that may lose messages but keeps their order.
use mathlib.Core.List.{Sublist, nil-sublist}
use mathlib.Core.List.Sublist
use systemd2mqtt.Base.{
  ℕ, zero, suc, ◌≡◌, refl, sym, ap, ◌∙◌, subst, Bool, Bool-cases, inl, inr, Option, none, some,
  List, [], ◌∷◌, ◌++◌, append_assoc, append-nil, if◌then◌else◌, arith,
}
use systemd2mqtt.Base.Text.{Text}
use systemd2mqtt.Mqtt.Client.{
  OutMsg, Call, subscribe_call, publish_call, disconnect_call, Task, subscribe_now, tell_connected,
  Closing, not_closing, waiting, stopping, disconnecting, finished, Client, call, enqueue, publish,
  send, take_message, handle_connect, subscribe, run_task, begin_close, end_close, Event, published,
  subscribed, pump_round, pump_end, session_opened, connect_handled, session_lost, task_run,
  close_begun, close_ended, disconnect_called, disconnect_ended, close_disconnects, close_finishes,
  disconnect_from, finish_from, new_client, pick_task, drop_task, run_picked, handle_due, step, run,
}
use systemd2mqtt.Mqtt.Client.Queue.{first_of, accepted, taken_at, taken, fifo}

-- The messages handed to paho.
unfoldable pub publishes : List Call → List OutMsg
publishes [] = []
publishes (publish_call m ∷ ks) = m ∷ publishes ks
publishes (subscribe_call f q ∷ ks) = publishes ks
publishes (disconnect_call q ∷ ks) = publishes ks

pub publishes-append : (ks js : List Call) → publishes (ks ++ js) ≡ publishes ks ++ publishes js
unfolding publishes
publishes-append [] js = refl
publishes-append (publish_call m ∷ ks) js = ap (λ ms. m ∷ ms) (publishes-append ks js)
publishes-append (subscribe_call f q ∷ ks) js = publishes-append ks js
publishes-append (disconnect_call q ∷ ks) js = publishes-append ks js

module _ {H : Type 0} where
  abbrev handed_at : Client H → Event H → List OutMsg
  handed_at c e = if c.connected then taken_at c e else []

  handed : Client H → List (Event H) → List OutMsg
  handed c [] = []
  handed c (e ∷ es) = handed_at c e ++ handed (step c e) es

  abbrev Hands : Client H → Client H → List OutMsg → Type 0
  Hands c d ms = publishes d.calls ≡ publishes c.calls ++ ms

  call-Hands : (c : Client H) (k : Call) → Hands c (call k c) (publishes (k ∷ []))
  call-Hands c k = publishes-append c.calls (k ∷ [])

  take_message-Hands :
      (ms : List OutMsg) (c : Client H)
      → Hands c (take_message ms c) (if c.connected then first_of ms else [])
  unfolding send publishes
  take_message-Hands [] c = ground (arith, append-nil (publishes c.calls))
  take_message-Hands (m ∷ ms) c =
      ground (arith, append-nil (publishes c.calls), publishes-append c.calls (publish_call m ∷ []))

  picked-Hands :
      (g : Bool) (o : Option Task) (gs : List (List Task)) (c : Client H)
      → Hands c (run_picked g o gs c) []
  unfolding run_task publishes
  picked-Hands g none gs c = sym (append-nil (publishes c.calls))
  picked-Hands g (some (subscribe_now f)) gs c = ground (
    arith,
    append-nil (publishes c.calls),
    publishes-append c.calls (subscribe_call f c.qos ∷ []),
  )
  picked-Hands g (some tell_connected) gs c = sym (append-nil (publishes c.calls))

  due-Hands : (n : ℕ) (c : Client H) → Hands c (handle_due n c) []
  unfolding handle_connect
  due-Hands zero c = sym (append-nil (publishes c.calls))
  due-Hands (suc n) c = sym (append-nil (publishes c.calls))

  close-Hands : (k : Closing) (t : Text) (c : Client H) → Hands c (begin_close k t c) []
  unfolding enqueue
  close-Hands not_closing [] c = ground (arith, append-nil (publishes c.calls))
  close-Hands not_closing (t ∷ ts) c = ground (arith, append-nil (publishes c.calls))
  close-Hands waiting t c = sym (append-nil (publishes c.calls))
  close-Hands (stopping q) t c = sym (append-nil (publishes c.calls))
  close-Hands disconnecting t c = sym (append-nil (publishes c.calls))
  close-Hands finished t c = sym (append-nil (publishes c.calls))

  end-Hands : (k : Closing) (b : Bool) (c : Client H) → Hands c (end_close k b c) []
  end-Hands not_closing b c = sym (append-nil (publishes c.calls))
  end-Hands waiting b c = ground (arith, append-nil (publishes c.calls))
  end-Hands (stopping q) b c = sym (append-nil (publishes c.calls))
  end-Hands disconnecting b c = sym (append-nil (publishes c.calls))
  end-Hands finished b c = sym (append-nil (publishes c.calls))

  disconnect-Hands : (k : Closing) (c : Client H) → Hands c (disconnect_from k c) []
  unfolding publishes
  disconnect-Hands not_closing c = sym (append-nil (publishes c.calls))
  disconnect-Hands waiting c = sym (append-nil (publishes c.calls))
  disconnect-Hands (stopping q) c = call-Hands c (disconnect_call q)
  disconnect-Hands disconnecting c = sym (append-nil (publishes c.calls))
  disconnect-Hands finished c = sym (append-nil (publishes c.calls))

  finish-Hands : (k : Closing) (c : Client H) → Hands c (finish_from k c) []
  finish-Hands not_closing c = sym (append-nil (publishes c.calls))
  finish-Hands waiting c = sym (append-nil (publishes c.calls))
  finish-Hands (stopping q) c = sym (append-nil (publishes c.calls))
  finish-Hands disconnecting c = sym (append-nil (publishes c.calls))
  finish-Hands finished c = sym (append-nil (publishes c.calls))

  step-Hands : (c : Client H) (e : Event H) → Hands c (step c e) (handed_at c e)
  unfolding step enqueue publish subscribe close_disconnects close_finishes
  step-Hands c (published topic payload retained) = ground (arith, append-nil (publishes c.calls))
  step-Hands c (subscribed f h) = ground (arith, append-nil (publishes c.calls))
  step-Hands c pump_round =
      ground (arith, take_message-Hands c.out c, append-nil (publishes c.calls))
  step-Hands c pump_end = ground (arith, append-nil (publishes c.calls))
  step-Hands c session_opened = ground (arith, append-nil (publishes c.calls))
  step-Hands c connect_handled = ground (arith, due-Hands c.connects_due c)
  step-Hands c session_lost = ground (arith, append-nil (publishes c.calls))
  step-Hands c (task_run n g) =
      ground (arith, picked-Hands g (pick_task n c.tasks) (drop_task n c.tasks) c)
  step-Hands c (close_begun t) = ground (arith, close-Hands c.closing t c)
  step-Hands c (close_ended b) = ground (arith, end-Hands c.closing b c)
  step-Hands c disconnect_called = ground (arith, disconnect-Hands c.closing c)
  step-Hands c disconnect_ended = ground (arith, finish-Hands c.closing c)

  run-Hands : (es : List (Event H)) (c : Client H) → Hands c (run c es) (handed c es)
  unfolding run handed
  run-Hands [] c = sym (append-nil (publishes c.calls))
  run-Hands (e ∷ es) c =
      run-Hands es (step c e)
      ∙ ap (λ ms. ms ++ handed (step c e) es) (step-Hands c e)
      ∙ append_assoc (publishes c.calls) (handed_at c e) (handed (step c e) es)

  handed_at-taken_at : (c : Client H) (e : Event H) → Sublist (handed_at c e) (taken_at c e)
  handed_at-taken_at c e = elim (Bool-cases c.connected) [
    | inl yes' ↦ rw yes' (Sublist.refl (taken_at c e))
    | inr no' ↦ rw no' (nil-sublist (taken_at c e))
  ]

  handed-taken : (es : List (Event H)) (c : Client H) → Sublist (handed c es) (taken c es)
  unfolding handed taken
  handed-taken [] c = Sublist.refl []
  handed-taken (e ∷ es) c = Sublist.append (handed_at-taken_at c e) (handed-taken es (step c e))

  -- The client is a bounded channel that may lose messages but keeps their order: over any events
  -- from a new client, what was handed to paho and what still waits, in this order, is a
  -- subsequence of what was accepted: nothing is repeated, changed or overtaken.
  pub publishes-Sublist :
      (qos : ℕ) (es : List (Event H))
      → let c = run (new_client qos) es in
        Sublist (publishes c.calls ++ c.out) (accepted (new_client qos) es)
  unfolding publishes
  publishes-Sublist qos es =
      let c0 : Client H = new_client qos in
      subst (λ q. Sublist (publishes (run c0 es).calls ++ (run c0 es).out) q) (sym (fifo es c0))
        (subst (λ ms. Sublist (ms ++ (run c0 es).out) (taken c0 es ++ (run c0 es).out))
          (sym (run-Hands es c0))
          (Sublist.append (handed-taken es c0) (Sublist.refl (run c0 es).out)))
