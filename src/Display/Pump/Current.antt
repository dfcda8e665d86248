-- ===== src/Display/Pump/Current.antt =====
-- What waits for the reader of the display's changes is up to date.
use systemd2mqtt.Base.{
  ◌≤◌, ◌≡◌, true, false, not, ◌&&◌, ◌⊎◌, Option, none, some, List, [], ◌∷◌, if◌then◌else◌, length,
}
use systemd2mqtt.Base.Text.{Text, text_eq}
use systemd2mqtt.Display.Mode.{Mode, mode_int}
use systemd2mqtt.Display.Controller.{changes_buffer}
use systemd2mqtt.Display.Pump.{
  Event, signal, set_pushed, change_taken, connection_down, close_called, Variant, int32, Item,
  string_item, map_item, strings_item, Signal, display_iface, property_name, properties_changed,
  Pump,
}

-- What happens around the pump, as the display has it: its mode changes, and the signal carries the
-- mode or only says that it is no longer valid, and then `Get` answers it; other signals come, of
-- other interfaces or of other names; the daemon sets the mode; the reader reads; the connection
-- goes down, or is closed.
pub data Act : Type 0 where
  mode_changes : Mode → Act
  mode_invalidated : Mode → Act
  other_interface : (iface : Text) → text_eq iface display_iface ≡ false → List Item → Act
  other_signal : (name : Text) → text_eq name properties_changed ≡ false → List Item → Act
  mode_set : Mode → Act
  mode_read : Act
  goes_down : Act
  closes : Act

abbrev pub changed_signal : List (Text × Variant) → List Text → Signal
changed_signal changed invalidated = record {
  name = properties_changed;
  body = string_item display_iface ∷ map_item changed ∷ strings_item invalidated ∷ [];
}

abbrev pub as_event : Act → Event
as_event (mode_changes m) =
    signal (some (changed_signal ((property_name, int32 (mode_int m)) ∷ []) [])) none
as_event (mode_invalidated m) = signal (some (changed_signal [] (property_name ∷ []))) (some m)
as_event (other_interface iface h items) =
    signal (some (record { name = properties_changed; body = string_item iface ∷ items })) none
as_event (other_signal name h items) = signal (some (record { name = name; body = items })) none
as_event (mode_set m) = set_pushed m
as_event mode_read = change_taken
as_event goes_down = connection_down
as_event closes = close_called

-- The mode that the display is in.
abbrev pub mode_after : Option Mode → Act → Option Mode
mode_after prev (mode_changes m) = some m
mode_after prev (mode_invalidated m) = some m
mode_after prev (mode_set m) = some m
mode_after prev _ = prev

abbrev pub mode_in_end : Option Mode → List Act → Option Mode
mode_in_end prev [] = prev
mode_in_end prev (a ∷ as') = mode_in_end (mode_after prev a) as'

abbrev newer : Option Mode → Option Mode → Option Mode
newer none prev = prev
newer (some m) prev = some m

abbrev pub last_of : List Mode → Option Mode
last_of [] = none
last_of (m ∷ []) = some m
last_of (m ∷ n ∷ ms) = last_of (n ∷ ms)

-- At most four modes wait; as long as the pump runs, the newest of them is the given one; no error
-- waits while the pump runs, and at most one then; and a closed controller has no pump.
pub record IsCurrent (latest : Option Mode) (p : Pump) : Type 0 where
  pub room : length p.changes ≤ changes_buffer
  pub newest : (p.ended ≡ true) ⊎ ((p.changes ≡ []) ⊎ (last_of p.changes ≡ latest))
  pub quiet : (if p.ended then 0 else p.errs) ≡ 0
  pub one : p.errs ≤ 1
  pub shut : (p.closed && not p.ended) ≡ false

abbrev Good : Option Mode → List Mode → Type 0
Good latest ch = (length ch ≤ changes_buffer) × ((ch ≡ []) ⊎ (last_of ch ≡ latest))
