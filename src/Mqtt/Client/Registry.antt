-- ===== src/Mqtt/Client/Registry.antt =====
-- Subscriptions and reconnects of internal/mqtt/client.go.
use systemd2mqtt.Base.{
  ℕ, zero, suc, ◌≡◌, refl, Bool, true, false, not, ◌&&◌, ◌||◌, Option, none, some, is_some, List,
  [], ◌∷◌, ◌++◌, map, any, ◌==◌, arith, subst,
}
use systemd2mqtt.Base.Text.{Text, text_eq, contains}
use systemd2mqtt.Base.Assoc.{lookup, lookup-insert}
use systemd2mqtt.Mqtt.Client.{
  OutMsg, Task, subscribe_now, tell_connected, Closing, not_closing, waiting, stopping,
  disconnecting, finished, Client, enqueue, send, take_message, filters, handle_connect, subscribe,
  run_task, begin_close, end_close, Event, published, subscribed, pump_round, pump_end,
  session_opened, connect_handled, session_lost, task_run, close_begun, close_ended,
  disconnect_called, disconnect_ended, close_disconnects, close_finishes, disconnect_from,
  finish_from, new_client, pick_task, drop_task, run_picked, handle_due, step, run,
}

abbrev pub is_subscribe : Text → Task → Bool
is_subscribe f (subscribe_now g) = text_eq g f
is_subscribe f tell_connected = false

abbrev pub has_task : Text → List Task → Bool
has_task f g = any (is_subscribe f) g

-- Some goroutine still has to subscribe to the filter.
abbrev pub queued : Text → List (List Task) → Bool
queued f gs = any (has_task f) gs

has_task-append :
    (f : Text) (g h : List Task) → has_task f (g ++ h) ≡ (has_task f g || has_task f h)
has_task-append f [] h = refl
has_task-append f (t ∷ g) h = ground (arith, has_task-append f g h)

queued-append :
    (f : Text) (gs hs : List (List Task)) → queued f (gs ++ hs) ≡ (queued f gs || queued f hs)
queued-append f [] hs = refl
queued-append f (g ∷ gs) hs = ground (arith, queued-append f gs hs)

queued-drop_task :
    (f : Text) (n : ℕ) (gs : List (List Task)) (t : Task)
    → pick_task n gs ≡ some t
    → queued f gs ≡ (is_subscribe f t || queued f (drop_task n gs))
unfolding pick_task drop_task
queued-drop_task f zero [] t h = cc
queued-drop_task f (suc n) [] t h = cc
queued-drop_task f zero ([] ∷ gs) t h = cc
queued-drop_task f zero ((u ∷ ts) ∷ gs) t h = ground arith
queued-drop_task f (suc n) (g ∷ gs) t h = ground (arith, queued-drop_task f n gs t)

module _ {H : Type 0} where
  has_task-filters :
      (f : Text) (m : List (Text × H))
      → is_some (lookup f m) ≡ true
      → has_task f (map subscribe_now (map (λ e. e.0) m)) ≡ true
  unfolding lookup
  has_task-filters f [] h = cc
  has_task-filters f ((g, v) ∷ m) h = ground (arith, has_task-filters f m)

  -- The filter is recorded, the session is open, and no connect handler is due.
  abbrev pub expects : Text → Client H → Bool
  expects f c = c.connected && (c.connects_due == 0) && is_some (lookup f c.subs)

  abbrev pub covers : Text → Client H → Bool
  covers f c = (contains c.granted f || contains c.refused f) || queued f c.tasks

  -- Then this session has asked the broker for it, or a goroutine still has to.
  abbrev pub IsCovered : Text → Client H → Type 0
  IsCovered f c = (not (expects f c) || covers f c) ≡ true

  handle_connect-IsCovered : (f : Text) (c : Client H) → IsCovered f (handle_connect c)
  unfolding handle_connect
  handle_connect-IsCovered f c = ground (
    arith,
    has_task-filters f c.subs,
    queued-append f c.tasks ((map subscribe_now (filters c) ++ (tell_connected ∷ [])) ∷ []),
    has_task-append f (map subscribe_now (filters c)) (tell_connected ∷ []),
  )

  subscribe-IsCovered :
      (f g : Text) (v : H) (c : Client H) → IsCovered f c → IsCovered f (subscribe g v c)
  unfolding subscribe
  subscribe-IsCovered f g v c h =
      ground
        (arith, lookup-insert g f v c.subs, queued-append f c.tasks ((subscribe_now g ∷ []) ∷ []))

  run_picked-IsCovered :
      (g : Bool) (f : Text) (n : ℕ) (o : Option Task) (c : Client H)
      → pick_task n c.tasks ≡ o
      → IsCovered f c
      → IsCovered f (run_picked g o (drop_task n c.tasks) c)
  unfolding run_task contains
  run_picked-IsCovered g f n none c e h = h
  run_picked-IsCovered g f n (some (subscribe_now q)) c e h =
      ground (arith, queued-drop_task f n c.tasks (subscribe_now q))
  run_picked-IsCovered g f n (some tell_connected) c e h =
      ground (arith, queued-drop_task f n c.tasks tell_connected)

  handle_due-IsCovered :
      (f : Text) (n : ℕ) (c : Client H) → IsCovered f c → IsCovered f (handle_due n c)
  handle_due-IsCovered f zero c h = h
  handle_due-IsCovered f (suc n) c h = handle_connect-IsCovered f (record c { connects_due = n })

  take_message-IsCovered :
      (f : Text) (ms : List OutMsg) (c : Client H) → IsCovered f c → IsCovered f (take_message ms c)
  unfolding send
  take_message-IsCovered f [] c h = h
  take_message-IsCovered f (m ∷ ms) c h = ground arith

  begin_close-IsCovered :
      (f : Text) (k : Closing) (t : Text) (c : Client H)
      → IsCovered f c
      → IsCovered f (begin_close k t c)
  unfolding enqueue
  begin_close-IsCovered f not_closing [] c h = ground arith
  begin_close-IsCovered f not_closing (t ∷ ts) c h = ground arith
  begin_close-IsCovered f waiting t c h = h
  begin_close-IsCovered f (stopping q) t c h = h
  begin_close-IsCovered f disconnecting t c h = h
  begin_close-IsCovered f finished t c h = h

  end_close-IsCovered :
      (f : Text) (k : Closing) (b : Bool) (c : Client H)
      → IsCovered f c
      → IsCovered f (end_close k b c)
  end_close-IsCovered f not_closing b c h = h
  end_close-IsCovered f waiting b c h = ground arith
  end_close-IsCovered f (stopping q) b c h = h
  end_close-IsCovered f disconnecting b c h = h
  end_close-IsCovered f finished b c h = h

  disconnect-IsCovered :
      (f : Text) (k : Closing) (c : Client H) → IsCovered f c → IsCovered f (disconnect_from k c)
  disconnect-IsCovered f not_closing c h = h
  disconnect-IsCovered f waiting c h = h
  disconnect-IsCovered f (stopping q) c h = h
  disconnect-IsCovered f disconnecting c h = h
  disconnect-IsCovered f finished c h = h

  finish-IsCovered :
      (f : Text) (k : Closing) (c : Client H) → IsCovered f c → IsCovered f (finish_from k c)
  finish-IsCovered f not_closing c h = h
  finish-IsCovered f waiting c h = h
  finish-IsCovered f (stopping q) c h = h
  finish-IsCovered f disconnecting c h = refl
  finish-IsCovered f finished c h = h

  step-IsCovered : (f : Text) (c : Client H) (e : Event H) → IsCovered f c → IsCovered f (step c e)
  unfolding step enqueue close_disconnects close_finishes
  step-IsCovered f c (published topic payload retained) h = ground arith
  step-IsCovered f c (subscribed g v) h = subscribe-IsCovered f g v c h
  step-IsCovered f c pump_round h = ground (arith, take_message-IsCovered f c.out c h)
  step-IsCovered f c pump_end h = ground arith
  step-IsCovered f c session_opened h = ground arith
  step-IsCovered f c connect_handled h = handle_due-IsCovered f c.connects_due c h
  step-IsCovered f c session_lost h = ground arith
  step-IsCovered f c (task_run n g) h = run_picked-IsCovered g f n (pick_task n c.tasks) c refl h
  step-IsCovered f c (close_begun t) h = begin_close-IsCovered f c.closing t c h
  step-IsCovered f c (close_ended b) h = end_close-IsCovered f c.closing b c h
  step-IsCovered f c disconnect_called h = disconnect-IsCovered f c.closing c h
  step-IsCovered f c disconnect_ended h = finish-IsCovered f c.closing c h

  pub run-IsCovered :
      (f : Text) (es : List (Event H)) (c : Client H) → IsCovered f c → IsCovered f (run c es)
  unfolding run
  run-IsCovered f [] c h = h
  run-IsCovered f (e ∷ es) c h = run-IsCovered f es (step c e) (step-IsCovered f c e h)

  -- Every subscription is asked for again after a reconnect, in whatever order the goroutines run:
  -- after any events from a new client, if the session is open, paho has made every call of the
  -- connect handler and the goroutines are done, then a SUBSCRIBE of each recorded filter was sent
  -- since the session opened, and the broker has granted it, or it failed by a time-out or an error
  -- of the broker, which the client only logs.
  pub run-granted :
      (qos : ℕ) (es : List (Event H)) (f : Text) (c : Client H)
      → run (new_client qos) es ≡ c
      → c.connected ≡ true
      → c.connects_due ≡ 0
      → queued f c.tasks ≡ false
      → is_some (lookup f c.subs) ≡ true
      → (contains c.granted f || contains c.refused f) ≡ true
  run-granted qos es f c r a b d e =
      let h : IsCovered f c = subst (IsCovered f) r (run-IsCovered f es (new_client qos) refl) in
      ground arith
