-- ===== src/Mqtt/Client/Offline.antt =====
-- `Close` on a client that is connected: what still reaches paho.
use systemd2mqtt.Base.{
  ℕ, ◌<◌, ◌≡◌, refl, ap, ◌∙◌, true, false, ◌||◌, List, [], ◌∷◌, ◌++◌, map, any, append_assoc,
  append-nil, length, arith,
}
use systemd2mqtt.Base.Text.{Text}
use systemd2mqtt.Mqtt.Client.{
  publish_queue_size, disconnect_quiesce_ms, OutMsg, publish_call, disconnect_call, not_closing,
  waiting, Client, enqueue, send, pump_takes, offline_message, begin_close, close_begins,
  close_ends, Event, pump_round, close_begun, close_ended, disconnect_called, disconnect_ended,
  close_disconnects, close_finishes, step, run,
}

any-snoc :
    (ms : List OutMsg) (m : OutMsg)
    → m.tracked ≡ true
    → any (λ o. o.tracked) (ms ++ (m ∷ [])) ≡ true
any-snoc [] m h = ground arith
any-snoc (o ∷ ms) m h = ground (arith, any-snoc ms m h)

map-snoc :
    (ms : List OutMsg) (m : OutMsg)
    → map publish_call (ms ++ (m ∷ [])) ≡ map publish_call ms ++ (publish_call m ∷ [])
map-snoc [] m = refl
map-snoc (o ∷ ms) m = ap (λ ks. publish_call o ∷ ks) (map-snoc ms m)

module _ {H : Type 0} where
  -- A round of the pump for each message.
  abbrev pub rounds : List OutMsg → List (Event H)
  rounds [] = []
  rounds (m ∷ ms) = pump_round ∷ rounds ms

  abbrev pub drained : List OutMsg → Client H → Client H
  drained ms c = record c {
    out = [];
    calls = c.calls ++ map publish_call ms;
    acked = any (λ m. m.tracked) ms || c.acked;
  }

  pub run-append : (es fs : List (Event H)) (c : Client H) → run c (es ++ fs) ≡ run (run c es) fs
  unfolding run
  run-append [] fs c = refl
  run-append (e ∷ es) fs c = run-append es fs (step c e)

  -- What a round of the pump does with the next message.
  abbrev pub sent_one : OutMsg → List OutMsg → Client H → Client H
  sent_one m ms c = record c {
    out = ms;
    calls = c.calls ++ (publish_call m ∷ []);
    acked = m.tracked || c.acked;
  }

  pub round-sends :
      (m : OutMsg) (ms : List OutMsg) (c : Client H)
      → c.out ≡ m ∷ ms
      → c.connected ≡ true
      → c.pump_done ≡ false
      → step c pump_round ≡ sent_one m ms c
  unfolding step pump_takes send
  round-sends m ms c e k p = ground arith

  pub round-idle : (c : Client H) → c.out ≡ [] → step c pump_round ≡ c
  unfolding step pump_takes
  round-idle c e = ground arith

  pub run-rounds :
      (ms : List OutMsg) (c : Client H)
      → c.out ≡ ms
      → c.connected ≡ true
      → c.pump_done ≡ false
      → run c (rounds ms) ≡ drained ms c
  unfolding run
  run-rounds [] c e k p = ground (arith, append-nil c.calls)
  run-rounds (m ∷ ms) c e k p =
      ap (λ b. run b (rounds ms)) (round-sends m ms c e k p)
      ∙ run-rounds ms (sent_one m ms c) refl k p
      ∙ ground (arith, append_assoc c.calls (publish_call m ∷ []) (map publish_call ms))

  -- `Close` on a connected client whose queue has room, with the pump given a round for each
  -- message before the stop and none behind it: everything queued before is published, in order, the
  -- retained offline message with quality of service 1 behind it, and the disconnect, with its half
  -- second, is the last call; the queue is empty and the client stopped, without the wait timing
  -- out.
  pub close-publishes :
      (t : ℕ) (ts : Text) (c : Client H)
      → c.connected ≡ true
      → c.stopped ≡ false
      → c.pump_done ≡ false
      → c.closing ≡ not_closing
      → length c.out < publish_queue_size
      → let o = offline_message (t ∷ ts) in
        let ending = close_ended false ∷ disconnect_called ∷ disconnect_ended ∷ [] in
        let d = run c ((close_begun (t ∷ ts) ∷ []) ++ (rounds (c.out ++ (o ∷ [])) ++ ending)) in
        (d.calls
          ≡ c.calls
            ++ (map publish_call c.out
                ++ (publish_call o ∷ disconnect_call disconnect_quiesce_ms ∷ [])))
        × (d.out ≡ [])
        × (d.stopped ≡ true)
  unfolding run step close_begins close_ends close_disconnects close_finishes enqueue
  close-publishes t ts c k s p n r =
      let o = offline_message (t ∷ ts) in
      let ending : List (Event H) = close_ended false ∷ disconnect_called ∷ disconnect_ended ∷ [] in
      let q : Client H = record c { closing = waiting; out = c.out ++ (o ∷ []) } in
      let begun : begin_close c.closing (t ∷ ts) c ≡ q = ground arith in
      let ran : run (begin_close c.closing (t ∷ ts) c) (rounds (c.out ++ (o ∷ [])) ++ ending)
          ≡ run (drained (c.out ++ (o ∷ [])) q) ending =
        ap (λ b. run b (rounds (c.out ++ (o ∷ [])) ++ ending)) begun
        ∙ run-append (rounds (c.out ++ (o ∷ []))) ending q
        ∙ ap (λ b. run b ending) (run-rounds (c.out ++ (o ∷ [])) q refl k p) in
      rw ran (
        ground (
          arith,
          any-snoc c.out o refl,
          map-snoc c.out o,
          append_assoc c.calls (map publish_call c.out ++ (publish_call o ∷ []))
              (disconnect_call disconnect_quiesce_ms ∷ []),
          append_assoc (map publish_call c.out) (publish_call o ∷ [])
              (disconnect_call disconnect_quiesce_ms ∷ []),
        ))
