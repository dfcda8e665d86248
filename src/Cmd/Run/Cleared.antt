-- ===== src/Cmd/Run/Cleared.antt =====
-- `clearDiscovery` of cmd/systemd2mqtt/main.go through the queue of the MQTT client.
use systemd2mqtt.Base.{
  ℕ, zero, suc, ◌+◌, ◌-◌, ◌≤◌, ◌<◌, ◌≡◌, refl, sym, ap, ◌∙◌, subst, true, false, List, [], ◌∷◌,
  ◌++◌, map, append_assoc, append-nil, length, length-append, arith,
}
use systemd2mqtt.Base.Text.{Text}
use systemd2mqtt.Config.Data.{Config}
use systemd2mqtt.Ha.Topics.{new_topics, retained_topics}
use systemd2mqtt.Mqtt.Client.{
  OutMsg, publish_call, disconnect_call, disconnect_quiesce_ms, publish_queue_size, not_closing,
  Client, Event, published, pump_round, session_opened, close_begun, disconnect_called,
  disconnect_ended, new_client, enqueue, publish, step, run, close_begins, close_disconnects,
  close_finishes,
}
use systemd2mqtt.Mqtt.Client.Offline.{run-append, sent_one, round-sends, round-idle}

-- An empty retained message.
abbrev pub blank : ℕ → Text → OutMsg
blank qos topic = record {
  topic = topic;
  payload = [];
  retained = true;
  qos = qos;
  tracked = false;
}

module _ {H : Type 0} where
  abbrev pub pumps : ℕ → List (Event H)
  pumps zero = []
  pumps (suc n) = pump_round ∷ pumps n

  -- The loop over the topics, with the rounds that the pump gets behind each of them.
  abbrev pub blanks : List (Text × ℕ) → List (Event H)
  blanks [] = []
  blanks ((t, n) ∷ s) = published t [] true ∷ (pumps n ++ blanks s)

  abbrev pub ending : List (Event H)
  ending = close_begun [] ∷ disconnect_called ∷ disconnect_ended ∷ []

  -- The steps of `clearDiscovery` once its session is open: the loop, the rounds of the pump while
  -- the process sleeps, and the client closed without a topic.
  abbrev pub clear_events : List (Text × ℕ) → ℕ → List (Event H)
  clear_events s n = blanks s ++ (pumps n ++ ending)

-- While the topics are published to: what was sent and what waits are the blanks so far.
length-blank : (qos : ℕ) (ts : List Text) → length (map (blank qos) ts) ≡ length ts
length-blank qos [] = refl
length-blank qos (t ∷ ts) = ap suc (length-blank qos ts)

blank-append :
    (qos : ℕ) (ts us : List Text)
    → map (blank qos) (ts ++ us) ≡ map (blank qos) ts ++ map (blank qos) us
blank-append qos [] us = refl
blank-append qos (t ∷ ts) us = ap (λ ms. blank qos t ∷ ms) (blank-append qos ts us)

sends-append :
    (ms : List OutMsg) (m : OutMsg)
    → map publish_call (ms ++ (m ∷ [])) ≡ map publish_call ms ++ (publish_call m ∷ [])
sends-append [] m = refl
sends-append (o ∷ ms) m = ap (λ ks. publish_call o ∷ ks) (sends-append ms m)

length-fst : (s : List (Text × ℕ)) → length (map (λ e. e.0) s) ≡ length s
length-fst [] = refl
length-fst (e ∷ s) = ap suc (length-fst s)

record Along {H : Type 0} (qos : ℕ) (ts : List Text) (c : Client H) : Type 0 where
  online : c.connected ≡ true
  going : c.stopped ≡ false
  pumping : c.pump_done ≡ false
  begun : c.closing ≡ not_closing
  same : c.qos ≡ qos
  sent : List OutMsg
  calls : c.calls ≡ map publish_call sent
  order : sent ++ c.out ≡ map (blank qos) ts

module _ {H : Type 0} where
  Along-length :
      (qos : ℕ) (ts : List Text) (c : Client H) → Along qos ts c → length c.out ≤ length ts
  Along-length qos ts c a =
      omega (arith, length-append a.sent c.out, ap length a.order, length-blank qos ts)

  publish-takes :
      (qos : ℕ) (ts : List Text) (t : Text) (c : Client H)
      → length ts < publish_queue_size
      → Along qos ts c
      → step c (published t [] true) ≡ record c { out = c.out ++ (blank qos t ∷ []) }
  unfolding step publish enqueue
  publish-takes qos ts t c r a =
      let l = Along-length qos ts c a in let g = a.going in let q = a.same in ground arith

  publish-Along :
      (qos : ℕ) (ts : List Text) (t : Text) (c : Client H)
      → length ts < publish_queue_size
      → Along qos ts c
      → Along qos (ts ++ (t ∷ [])) (step c (published t [] true))
  publish-Along qos ts t c r a =
      subst (Along qos (ts ++ (t ∷ []))) (sym (publish-takes qos ts t c r a)) (record {
        online = a.online;
        going = a.going;
        pumping = a.pumping;
        begun = a.begun;
        same = a.same;
        sent = a.sent;
        calls = a.calls;
        order =
            sym (append_assoc a.sent c.out (blank qos t ∷ []))
            ∙ ap (λ ms. ms ++ (blank qos t ∷ [])) a.order
            ∙ sym (blank-append qos ts (t ∷ []));
      })

  sent-Along :
      (qos : ℕ) (ts : List Text) (c : Client H) (m : OutMsg) (ms : List OutMsg)
      → c.out ≡ m ∷ ms
      → Along qos ts c
      → Along qos ts (sent_one m ms c)
  sent-Along qos ts c m ms e a = record {
    online = a.online;
    going = a.going;
    pumping = a.pumping;
    begun = a.begun;
    same = a.same;
    sent = a.sent ++ (m ∷ []);
    calls = ap (λ ks. ks ++ (publish_call m ∷ [])) a.calls ∙ sym (sends-append a.sent m);
    order = append_assoc a.sent (m ∷ []) ms ∙ ap (λ ns. a.sent ++ ns) (sym e) ∙ a.order;
  }

  -- Each round takes one message, if one waits.
  rounds-Along :
      (n : ℕ) (qos : ℕ) (ts : List Text) (c : Client H) (ms : List OutMsg)
      → c.out ≡ ms
      → Along qos ts c
      → Along qos ts (run c (pumps n)) × (length (run c (pumps n)).out ≡ length ms - n)
  unfolding run
  rounds-Along zero qos ts c ms e a = (a, ap length e ∙ omega arith)
  rounds-Along (suc n) qos ts c [] e a =
      let (b, l) =
        rounds-Along n qos ts (step c pump_round) [] (ap (λ d. d.out) (round-idle c e) ∙ e)
          (subst (Along qos ts) (sym (round-idle c e)) a) in
      (b, l ∙ omega arith)
  rounds-Along (suc n) qos ts c (m ∷ ms) e a =
      let s = round-sends m ms c e a.online a.pumping in
      let (b, l) =
        rounds-Along n qos ts (step c pump_round) ms (ap (λ d. d.out) s)
          (subst (Along qos ts) (sym s) (sent-Along qos ts c m ms e a)) in
      (b, l ∙ omega arith)

  blanks-Along :
      (qos : ℕ) (s : List (Text × ℕ)) (ts : List Text) (c : Client H)
      → length ts + length s ≤ publish_queue_size
      → Along qos ts c
      → Along qos (ts ++ map (λ e. e.0) s) (run c (blanks s))
  unfolding run
  blanks-Along qos [] ts c r a = subst (λ us. Along qos us c) (sym (append-nil ts)) a
  blanks-Along qos ((t, n) ∷ s) ts c r a =
      let d = step c (published t [] true) in
      let b = publish-Along qos ts t c (omega arith) a in
      let (k, l) = rounds-Along n qos (ts ++ (t ∷ [])) d d.out refl b in
      subst (λ us. Along qos us (run d (pumps n ++ blanks s)))
        (append_assoc ts (t ∷ []) (map (λ e. e.0) s))
        (subst (Along qos ((ts ++ (t ∷ [])) ++ map (λ e. e.0) s))
          (sym (run-append (pumps n) (blanks s) d))
          (blanks-Along qos s (ts ++ (t ∷ [])) (run d (pumps n))
            (omega (arith, length-append ts (t ∷ []))) k))

  ends :
      (c : Client H)
      → c.closing ≡ not_closing
      → c.connected ≡ true
      → ((run c ending).calls ≡ c.calls ++ (disconnect_call disconnect_quiesce_ms ∷ []))
        × ((run c ending).out ≡ c.out)
  unfolding run step close_begins close_disconnects close_finishes
  ends c e k = ground arith

  opened : (qos : ℕ) → Along qos [] (step {H = H} (new_client qos) session_opened)
  unfolding step
  opened qos = record {
    online = refl;
    going = refl;
    pumping = refl;
    begun = refl;
    same = refl;
    sent = [];
    calls = refl;
    order = refl;
  }

-- Where a configuration has at most 1024 retained topics and the session stays open, clearing
-- publishes empty retained messages to these topics in order and then disconnects, whatever rounds
-- the pump gets behind each publish and in the sleep, with none after the sleep: what was sent, and
-- what still waits and is lost, are together one such message for each topic, the disconnect is the
-- last call, and no offline message is put back. No more are lost than there are topics beyond the
-- rounds of the pump in the sleep.
pub clear_events_lem :
    (H : Type 0) (c : Config) (s : List (Text × ℕ)) (n : ℕ)
    → map (λ e. e.0) s ≡ retained_topics (new_topics c) c
    → length s ≤ publish_queue_size
    → let qos = c.mqtt.qos in
      let d = run {H = H} (new_client qos) (session_opened ∷ clear_events s n) in
      (sent : List OutMsg) × (d.calls
        ≡ map publish_call sent ++ (disconnect_call disconnect_quiesce_ms ∷ []))
      × (sent ++ d.out ≡ map (blank qos) (retained_topics (new_topics c) c))
      × (length d.out ≤ length s - n)
unfolding run
clear_events_lem H c s n h r =
    let qos = c.mqtt.qos in
    let ts = map (λ e. e.0) s in
    let c0 : Client H = step (new_client qos) session_opened in
    let c1 = run c0 (blanks s) in
    let c2 = run c1 (pumps n) in
    let a = blanks-Along qos s [] c0 (omega arith) (opened qos) in
    let (b, l) = rounds-Along n qos ts c1 c1.out refl a in
    let whole : run c0 (clear_events s n) ≡ run c2 ending =
      run-append (blanks s) (pumps n ++ ending) c0 ∙ run-append (pumps n) ending c1 in
    let (ks, os) = ends c2 b.begun b.online in
    let left : (run c0 (clear_events s n)).out ≡ c2.out = ap (λ d. d.out) whole ∙ os in
    (
      b.sent,
      ap (λ d. d.calls) whole
          ∙ ks
          ∙ ap (λ q. q ++ (disconnect_call disconnect_quiesce_ms ∷ [])) b.calls,
      ap (λ q. b.sent ++ q) left ∙ b.order ∙ ap (map (blank qos)) h,
      omega (arith, ap length left, l, Along-length qos ts c1 a, length-fst s),
    )
