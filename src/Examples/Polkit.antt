-- ===== src/Examples/Polkit.antt =====
-- internal/ha/polkit.go, run on a configuration with units of the system scope.
use systemd2mqtt.Base.{
  ℕ, Bool, ltb, ◌&&◌, ◌≡◌, refl, true, some, List, [], ◌∷◌, ◌⊎◌, inl, inr, All, In, here, there,
}
use systemd2mqtt.Base.Text.{text, text_eq, contains}
use systemd2mqtt.Base.Text.Space.{trim_left, trim_right}
use systemd2mqtt.Base.Text.Search.{contains_any}
use systemd2mqtt.Base.Assoc.{lookup, insert}
use systemd2mqtt.Config.Data.{UnitConfig, Config, scope_system}
use systemd2mqtt.Config.Unit.{object_id}
use systemd2mqtt.Config.Load.{entries, plain_unit}
use systemd2mqtt.Config.Names.{slugify}
use systemd2mqtt.Config.Expand.{template_units, fill_template, template_select}
use systemd2mqtt.Config.Validate.{parse}
use systemd2mqtt.Config.Validate.Units.{Error, unit_components}
use systemd2mqtt.Ha.Polkit.{polkit_rule, permits, js_string}
use systemd2mqtt.Ha.Polkit.Permits.{is_plain, manage, polkit_rule-permits}
use systemd2mqtt.Examples.Config.{parse_tcp, env, file, scenes}

abbrev system_file : Config
system_file = record file {
  units = some (record (plain_unit (text "gdm.service")) { scope = scope_system } ∷ []);
  templates = some (record scenes { scope = scope_system } ∷ []);
}

abbrev accepted : (List Error) ⊎ Config → Config
accepted (inl es) = file
accepted (inr c) = c

abbrev system : Config
system = accepted (parse parse_tcp env system_file)

parsed : parse parse_tcp env system_file ≡ inr system
unfolding parse text_eq contains trim_left trim_right lookup insert contains_any object_id slugify
    unit_components template_units fill_template template_select
parsed = refl

abbrev head_unit : List UnitConfig → UnitConfig
head_unit [] = plain_unit []
head_unit (u ∷ us) = u

abbrev tail_units : List UnitConfig → List UnitConfig
tail_units [] = []
tail_units (u ∷ us) = us

-- An instance of the template.
abbrev aquarium : UnitConfig
aquarium = head_unit (tail_units system.all)

aquarium-In : In aquarium system.all
unfolding parse text_eq contains trim_left trim_right lookup insert contains_any object_id slugify
    unit_components template_units fill_template template_select
aquarium-In = there (here refl)

aquarium_scope : aquarium.scope ≡ scope_system
unfolding parse text_eq contains trim_left trim_right lookup insert contains_any object_id slugify
    unit_components template_units fill_template template_select
aquarium_scope = refl

own_units : All (λ v. (is_plain v.name ≡ true) × (v.template_id ≡ [])) (entries system.units)
unfolding parse text_eq contains trim_left trim_right lookup insert contains_any object_id slugify
    unit_components template_units fill_template template_select
own_units = ((refl, refl), tt)

ascii : All (λ t. is_plain t.name ≡ true) (entries system.templates)
unfolding parse text_eq contains trim_left trim_right lookup insert contains_any object_id slugify
    unit_components template_units fill_template template_select
ascii = (refl, tt)

abbrev is_ascii_print : ℕ → Bool
is_ascii_print c = ltb 31 c && ltb c 127

polkit_rule-permits_example :
    permits is_ascii_print
      (polkit_rule system (text "k"))
      (manage (text "k") aquarium.name (text "stop"))
    ≡ some true
polkit_rule-permits_example =
    polkit_rule-permits is_ascii_print parse_tcp env system_file system parsed (text "k")
      (text "stop") aquarium refl ascii own_units aquarium-In aquarium_scope (there (here refl))

-- A bell in a name is written as an escape that JavaScript does not have.
js_string_test : js_string is_ascii_print (7 ∷ text "b") ≡ text "ab"
unfolding js_string
js_string_test = refl

js_string-wide_test : js_string is_ascii_print (983040 ∷ []) ≡ text "U000f0000"
unfolding js_string
js_string-wide_test = refl
