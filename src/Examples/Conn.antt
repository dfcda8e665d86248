-- ===== src/Examples/Conn.antt =====
-- internal/systemd/conn.go, dialled for a unit that is an alias of another.
use systemd2mqtt.Base.{◌≡◌, refl, true, none, some, List, [], ◌∷◌, inr}
use systemd2mqtt.Base.Text.{Text, text, text_eq, contains}
use systemd2mqtt.Base.Assoc.{lookup, insert}
use systemd2mqtt.Config.Data.{scope_user}
use systemd2mqtt.Systemd.Statuses.{RawStatus, resolve_aliases}
use systemd2mqtt.Systemd.Conn.{
  Conn, Event, updated, update_dropped, wake_taken, Answers, dial, new_conn, step, run, watched,
}
use systemd2mqtt.Systemd.Conn.Wakes.{unheard, run-unheard, dial-wakes}

abbrev names : List Text
names = text "d.service" ∷ []

abbrev gdm : RawStatus
gdm = record {
  name = text "gdm.service";
  active_state = text "active";
  sub_state = text "running";
  load_state = text "loaded";
}

abbrev answers : Answers
answers = record { connect_error = none; subscribe_error = none; raw = some (gdm ∷ []) }

abbrev conn : Conn
conn = new_conn scope_user names (some (gdm ∷ []))

dialled : dial scope_user names answers ≡ inr conn
unfolding dial text_eq
dialled = refl

alias : lookup (text "d.service") conn.aliases ≡ some (text "gdm.service")
unfolding resolve_aliases text_eq lookup insert
alias = refl

dial-wakes_example : (step conn (updated (some (text "gdm.service")))).wake ≡ true
dial-wakes_example =
    dial-wakes scope_user names answers conn (text "gdm.service") dialled
      (inr (text "d.service", alias))

abbrev events : List Event
events =
    update_dropped
    ∷ wake_taken
    ∷ updated (some (text "vlc.service"))
    ∷ updated (some (text "d.service"))
    ∷ []

run-unheard_example : (run conn events).wake ≡ unheard conn.watch events conn.wake
run-unheard_example = run-unheard events conn refl refl refl

woken_test : (run conn events).wake ≡ true
unfolding run watched contains text_eq
woken_test = refl
