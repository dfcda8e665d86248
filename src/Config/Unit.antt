-- ===== src/Config/Unit.antt =====
-- internal/config/config.go: what is read off one unit, and off the flags of the file.
use systemd2mqtt.Base.{ℕ, Bool, true, Option, none, some, [], ◌∷◌, if◌then◌else◌}
use systemd2mqtt.Base.Text.{Text, text, text_eq}
use systemd2mqtt.Config.Data.{UnitConfig, DisplayConfig, Config}
use systemd2mqtt.Config.Names.{slugify, display_name as unit_display_name}

-- `s` if it is set, and otherwise the default.
abbrev pub or_default : Text → Text → Text
or_default [] d = d
or_default (c ∷ s) d = c ∷ s

-- `b == nil || *b`
abbrev pub unless_false : Option Bool → Bool
unless_false none = true
unless_false (some b) = b

-- `ObjectID`
unfoldable pub object_id : UnitConfig → Text
object_id u = or_default u.id (slugify u.name)

-- `DisplayName`
unfoldable pub display_name : UnitConfig → Text
display_name u = or_default u.friendly_name (unit_display_name u.name)

abbrev pub wants_restart_button : UnitConfig → Bool
wants_restart_button u = unless_false u.restart_button

abbrev pub wants_problem_sensor : UnitConfig → Bool
wants_problem_sensor u = unless_false u.problem_sensor

abbrev pub ha_enabled : Config → Bool
ha_enabled c = unless_false c.home_assistant.enabled

abbrev pub display_enabled : Config → Bool
display_enabled c = unless_false c.display.enabled

abbrev pub expose_mode_select : Config → Bool
expose_mode_select c = unless_false c.display.expose_mode_select

-- `OffModeValue`
unfoldable pub off_mode_value : DisplayConfig → ℕ
unfolding text_eq
off_mode_value d =
    if text_eq d.off_mode (text "standby")
    then 1
    else if text_eq d.off_mode (text "suspend")
    then 2
    else 3
