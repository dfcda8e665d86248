-- ===== src/Examples/Pump.antt =====
-- internal/display/mutter.go, run on a signal, a reader and a lost connection.
use systemd2mqtt.Base.{◌≡◌, refl, false, none, some, List, [], ◌∷◌}
use systemd2mqtt.Base.Text.{text, text_eq}
use systemd2mqtt.Base.Assoc.{lookup}
use systemd2mqtt.Base.Int.{pos, negsuc}
use systemd2mqtt.Display.Mode.{on, off, standby}
use systemd2mqtt.Display.Pump.{
  Event, Signal, signal, set_pushed, change_taken, connection_down, close_called, string_item,
  map_item, strings_item, int32, display_iface, property_name, properties_changed, new_pump,
  pump_mode, run,
}
use systemd2mqtt.Display.Pump.Current.{
  Act, mode_changes, mode_invalidated, other_interface, mode_set, mode_read,
}

abbrev turned_off : Signal
turned_off = record {
  name = properties_changed;
  body =
      string_item display_iface
      ∷ map_item ((property_name, int32 (pos 3)) ∷ [])
      ∷ strings_item []
      ∷ [];
}

abbrev events : List Event
events =
    set_pushed standby
    ∷ signal (some turned_off) none
    ∷ change_taken
    ∷ connection_down
    ∷ close_called
    ∷ []

foreign : text_eq (text "x") display_iface ≡ false
unfolding text_eq
foreign = refl

-- A signal of another interface comes between two changes that the reader has not read.
abbrev acts : List Act
acts =
    mode_set standby
    ∷ mode_changes off
    ∷ other_interface (text "x") foreign []
    ∷ mode_read
    ∷ mode_invalidated on
    ∷ []

off_waits_test : (run new_pump events).changes ≡ off ∷ []
unfolding run text_eq lookup
off_waits_test = refl

-- The lost connection is reported; the `Close` behind it adds nothing.
reported_test : (run new_pump events).errs ≡ 1
unfolding run
reported_test = refl

-- Minus one is a mode, minus two is not.
unknown_test :
    pump_mode none (
      some (record turned_off {
        body =
            string_item display_iface
            ∷ map_item ((property_name, int32 (negsuc 1)) ∷ [])
            ∷ strings_item []
            ∷ [];
      }))
    ≡ none
unfolding pump_mode text_eq lookup
unknown_test = refl
