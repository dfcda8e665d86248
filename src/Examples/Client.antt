-- ===== src/Examples/Client.antt =====
-- internal/mqtt/client.go, run on a few events. The handlers are texts.
use mathlib.Core.List.{Sublist}
use systemd2mqtt.Base.{◌≡◌, refl, true, false, ◌||◌, List, [], ◌∷◌, ◌++◌, map, length, arith}
use systemd2mqtt.Base.Text.{Text, text, text_eq, contains}
use systemd2mqtt.Base.Assoc.{insert, lookup}
use systemd2mqtt.Mqtt.Client.{
  Client, Event, published, subscribed, pump_round, session_opened, connect_handled, session_lost,
  task_run, close_begun, close_ended, disconnect_called, disconnect_ended, publish_call,
  disconnect_call, disconnect_quiesce_ms, offline_message, new_client, pick_task, drop_task, run,
}
use systemd2mqtt.Mqtt.Client.Registry.{run-granted}
use systemd2mqtt.Mqtt.Client.Queue.{accepted}
use systemd2mqtt.Mqtt.Client.Publishes.{publishes, publishes-Sublist}
use systemd2mqtt.Mqtt.Client.Offline.{close-publishes, rounds}

-- A subscription before the first session; the session is lost and comes back.
abbrev reconnecting : List (Event Text)
reconnecting =
    subscribed (text "a/+") (text "h")
    ∷ session_opened
    ∷ connect_handled
    ∷ task_run 0 true
    ∷ task_run 0 true
    ∷ session_lost
    ∷ session_opened
    ∷ connect_handled
    ∷ task_run 1 true
    ∷ task_run 1 true
    ∷ []

abbrev reconnected : Client Text
reconnected = run (new_client 0) reconnecting

run-granted_example :
    (contains reconnected.granted (text "a/+") || contains reconnected.refused (text "a/+")) ≡ true
unfolding run insert pick_task drop_task lookup text_eq
run-granted_example = run-granted 0 reconnecting (text "a/+") reconnected refl refl refl refl refl

-- A message without a session, which is lost, and one with a session.
abbrev publishing : List (Event Text)
publishing =
    published (text "a") (text "1") true
    ∷ pump_round
    ∷ session_opened
    ∷ published (text "a") (text "2") true
    ∷ pump_round
    ∷ published (text "a") (text "3") false
    ∷ []

publishes-Sublist_example :
    Sublist
      (publishes (run (new_client 0) publishing).calls ++ (run (new_client 0) publishing).out)
      (accepted (new_client 0) publishing)
publishes-Sublist_example = publishes-Sublist 0 publishing

abbrev online : Client Text
online = record (new_client 1) {
  connected = true;
  out =
      record { topic = text "a"; payload = text "1"; retained = true; qos = 1; tracked = false }
      ∷ [];
}

close-publishes_example :
    let o = offline_message (text "b/c") in
    let ending = close_ended false ∷ disconnect_called ∷ disconnect_ended ∷ [] in
    let d =
      run online ((close_begun (text "b/c") ∷ []) ++ (rounds (online.out ++ (o ∷ [])) ++ ending)) in
    (d.calls
      ≡ online.calls
        ++ (map publish_call online.out
            ++ (publish_call o ∷ disconnect_call disconnect_quiesce_ms ∷ [])))
    × (d.out ≡ [])
    × (d.stopped ≡ true)
close-publishes_example = close-publishes b'b' (text "/c") online refl refl refl refl (omega arith)

-- Of the two messages only the one sent on an open session is handed on; the third waits.
lost_offline_test : length (publishes (run (new_client 0) publishing).calls) ≡ 1
unfolding run publishes
lost_offline_test = refl
