-- ===== src/Display/Mode.antt =====
-- internal/display/mode.go. The modes are the five values of the int32 that pass the check of
-- `modeFromVariant`.
use systemd2mqtt.Base.{
  ℕ, ◌≡◌, ◌≢◌, refl, Bool, true, false, ◌||◌, Option, none, some, if◌then◌else◌, ◌==◌,
}
use systemd2mqtt.Base.Text.{Text, text, text_eq}
use systemd2mqtt.Base.Text.Case.{to_lower}
use systemd2mqtt.Base.Text.Space.{trim_space}
use systemd2mqtt.Base.Int.{ℤ, pos, negsuc}

pub data Mode : Type 0 where
  unknown on standby suspend off : Mode

pub Mode-discrete : Discrete Mode
Mode-discrete = hlevel

abbrev pub mode_eq : Mode → Mode → Bool
mode_eq unknown unknown = true
mode_eq on on = true
mode_eq standby standby = true
mode_eq suspend suspend = true
mode_eq off off = true
mode_eq _ _ = false

-- `Mode.String`
unfoldable pub mode_string : Mode → Text
mode_string on = text "on"
mode_string standby = text "standby"
mode_string suspend = text "suspend"
mode_string off = text "off"
mode_string unknown = text "unknown"

-- `SwitchState`
unfoldable pub switch_state : Mode → Text
switch_state on = text "ON"
switch_state _ = text "OFF"

-- `ParseMode`; `none` is its error.
unfoldable pub parse_mode : Text → Option Mode
unfolding to_lower trim_space text_eq
parse_mode s =
    let w = to_lower (trim_space s) in
    if text_eq w (text "on") || text_eq w (text "0")
    then some on
    else if text_eq w (text "standby") || text_eq w (text "1")
    then some standby
    else if text_eq w (text "suspend") || text_eq w (text "2")
    then some suspend
    else if text_eq w (text "off") || text_eq w (text "3")
    then some off
    else none

-- `modeFromVariant`, of an int32; `none` is its error.
unfoldable pub mode_of_int : ℤ → Option Mode
mode_of_int (negsuc n) = if n == 0 then some unknown else none
mode_of_int (pos n) =
    if n == 0
    then some on
    else if n == 1
    then some standby
    else if n == 2
    then some suspend
    else if n == 3
    then some off
    else none

-- The int32 of a mode.
unfoldable pub mode_int : Mode → ℤ
mode_int unknown = negsuc 0
mode_int on = pos 0
mode_int standby = pos 1
mode_int suspend = pos 2
mode_int off = pos 3

-- `Mode(n)` for the values that `OffModeValue` returns.
unfoldable pub mode_of_off : ℕ → Mode
mode_of_off n = if n == 1 then standby else if n == 2 then suspend else off

-- The option that a mode is shown as, and its number, are read back as that mode.
pub parse_mode_string : (m : Mode) → m ≢ unknown → parse_mode (mode_string m) ≡ some m
unfolding parse_mode mode_string
parse_mode_string unknown h = absurd (h refl)
parse_mode_string on h = refl
parse_mode_string standby h = refl
parse_mode_string suspend h = refl
parse_mode_string off h = refl
