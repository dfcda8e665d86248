-- ===== src/Display/Pump.antt =====
-- internal/display/mutter.go: `pump`, `modeFromVariant` of a variant, `Get` and `Close`, as steps in
-- any order with the reader of the channel. godbus closes the channel of signals when the
-- connection goes down, which is a step of its own; nothing is received after it.
pub mod Current
use systemd2mqtt.Base.{
  ℕ, ◌≤◌, ◌≡◌, refl, sym, subst, Bool, true, false, not, ◌&&◌, ◌⊎◌, inl, inr, Option, none, some,
  List, [], ◌∷◌, ◌++◌, if◌then◌else◌, ltb, length, arith,
}
use systemd2mqtt.Base.Text.{Text, text, text_eq, contains}
use systemd2mqtt.Base.Assoc.{lookup}
use systemd2mqtt.Base.Int.{ℤ}
use systemd2mqtt.Display.Mode.{Mode, mode_of_int}
use systemd2mqtt.Display.Controller.{changes_buffer, tail, push, push_newest}

abbrev pub display_iface : Text
display_iface = text "org.gnome.Mutter.DisplayConfig"

abbrev pub property_name : Text
property_name = text "PowerSaveMode"

abbrev pub properties_changed : Text
properties_changed = text "org.freedesktop.DBus.Properties.PropertiesChanged"

-- `dbus.Variant`, of an int32 or of another type.
pub data Variant : Type 0 where
  int32 : ℤ → Variant
  other_type : Variant

-- `modeFromVariant`
unfoldable pub mode_from_variant : Variant → Option Mode
unfolding mode_of_int
mode_from_variant (int32 i) = mode_of_int i
mode_from_variant other_type = none

-- What stands in the body of a signal.
pub data Item : Type 0 where
  string_item : Text → Item
  map_item : List (Text × Variant) → Item
  strings_item : List Text → Item
  other_item : Item

pub record Signal : Type 0 where
  pub name : Text
  pub body : List Item

abbrev pub is_display : Item → Bool
is_display (string_item iface) = text_eq iface display_iface
is_display _ = false

abbrev pub changed_value : Item → Option Variant
changed_value (map_item m) = lookup property_name m
changed_value _ = none

abbrev pub is_invalidated : Item → Bool
is_invalidated (strings_item names) = contains names property_name
is_invalidated _ = false

-- The mode read off the change, or the answer of `Get` where the property is only invalidated.
abbrev pub read_mode : Option Mode → Bool → Option Variant → Option Mode
read_mode got invalidated (some v) = mode_from_variant v
read_mode got true none = got
read_mode got false none = none

abbrev pub read_body : Option Mode → List Item → Option Mode
read_body got (iface ∷ changed ∷ invalidated ∷ items) =
    if is_display iface
    then read_mode got (is_invalidated invalidated) (changed_value changed)
    else none
read_body got _ = none

-- One round of `pump`: the mode that is pushed, if any. A signal may be nil.
unfoldable pub pump_mode : Option Mode → Option Signal → Option Mode
unfolding mode_from_variant
pump_mode got none = none
pump_mode got (some s) = if text_eq s.name properties_changed then read_body got s.body else none

-- `push` always gives a channel.
abbrev pub pushed_or : List Mode → Option (List Mode) → List Mode
pushed_or ch none = ch
pushed_or ch (some d) = d

abbrev pub push_all : Option Mode → List Mode → List Mode
push_all none ch = ch
push_all (some m) ch = pushed_or ch (push m ch)

pub record Pump : Type 0 where
  pub changes : List Mode
  -- `Close` was called; the channel of signals is closed; the errors that wait, in one slot.
  pub closed : Bool
  pub ended : Bool
  pub errs : ℕ

abbrev pub new_pump : Pump
new_pump = record { changes = []; closed = false; ended = false; errs = 0 }

pub data Event : Type 0 where
  -- A signal, and what `Get` would answer.
  signal : Option Signal → Option Mode → Event
  -- The mode that `Set` reads back.
  set_pushed : Mode → Event
  change_taken : Event
  connection_down : Event
  close_called : Event

-- The end of `pump`.
unfoldable pub pump_ends : Pump → Pump
pump_ends p =
    if p.ended
    then p
    else if p.closed
    then record p { ended = true }
    else record p { ended = true; errs = 1 }

-- `Close` closes the connection, and waits for the pump.
unfoldable pub close : Pump → Pump
unfolding pump_ends
close p = pump_ends (record p { closed = true })

unfoldable pub step : Pump → Event → Pump
unfolding pump_mode push pump_ends close
step p (signal s got) =
    if p.ended then p else record p { changes = push_all (pump_mode got s) p.changes }
step p (set_pushed m) = record p { changes = push_all (some m) p.changes }
step p change_taken = record p { changes = tail p.changes }
step p connection_down = pump_ends p
step p close_called = close p

unfoldable pub run : Pump → List Event → Pump
unfolding step
run p [] = p
run p (e ∷ es) = run (step p e) es
