-- ===== src/App/Template/Choice.antt =====
-- What `dispatchTemplate` asks its worker to stop and to start.
use systemd2mqtt.Base.{
  ◌≡◌, refl, ◌∙◌, Bool, not, ◌&&◌, Bool-cases, Option, none, some, Option-cases, List, [], ◌∷◌, any,
  keep, if◌then◌else◌, arith, inl, inr,
}
use systemd2mqtt.Base.Text.{Text, text_eq_iff}
use systemd2mqtt.Config.Data.{UnitConfig, SelectOption, Config}
use systemd2mqtt.Config.Query.{unit_by_id}
use systemd2mqtt.App.State.{State, unit}
use systemd2mqtt.App.Model.{TemplateCmd}
use systemd2mqtt.App.Commands.{is_missing, is_chosen, add_option, template_command}

module _ (c : Config) (s : State) where
  abbrev pub with_unit : Option UnitConfig → List UnitConfig → List UnitConfig
  with_unit none us = us
  with_unit (some u) us = u ∷ us

  -- The units of the options, for those that the configuration has.
  unfoldable pub units_of : List SelectOption → List UnitConfig
  units_of [] = []
  units_of (o ∷ os) = with_unit (unit_by_id c o.unit_id) (units_of os)

  -- The options whose units are stopped.
  abbrev pub to_stop : Option SelectOption → SelectOption → Bool
  to_stop chosen o = not (is_chosen chosen o) && not (is_missing (unit s o.unit_id))

  step_stop :
      (chosen : Option SelectOption) (o : SelectOption) (os : List SelectOption) (r : TemplateCmd)
      (u : Option UnitConfig)
      → unit_by_id c o.unit_id ≡ u
      → r.stop ≡ units_of (keep (to_stop chosen) os)
      → (add_option c s chosen o u r).stop ≡ units_of (keep (to_stop chosen) (o ∷ os))
  unfolding units_of
  step_stop chosen o os r none e h = elim (Bool-cases (to_stop chosen o)) [
    | inl k ↦ rw k (rw e h)
    | inr k ↦ rw k h
  ]
  step_stop chosen o os r (some u) e h = elim (Bool-cases (is_chosen chosen o)) [
    | inl k ↦ rw k h
    | inr k ↦ rw k (elim (Bool-cases (is_missing (unit s o.unit_id))) [
      | inl gone ↦ rw gone h
      | inr there ↦ rw (there, e, h) refl
    ])
  ]

  stops :
      (label : Text) (chosen : Option SelectOption) (os : List SelectOption)
      → (template_command c s label chosen os).stop ≡ units_of (keep (to_stop chosen) os)
  unfolding template_command units_of
  stops label chosen [] = refl
  stops label chosen (o ∷ os) =
      step_stop chosen o os (template_command c s label chosen os) (unit_by_id c o.unit_id) refl
        (stops label chosen os)

  -- The unit of the chosen option, if the option is among the options.
  abbrev pub chosen_unit : Option SelectOption → List SelectOption → Option UnitConfig
  chosen_unit none os = none
  chosen_unit (some o) os = if any (is_chosen (some o)) os then unit_by_id c o.unit_id else none

  starts :
      (label : Text) (chosen : Option SelectOption) (os : List SelectOption)
      → (template_command c s label chosen os).start ≡ chosen_unit chosen os
  unfolding template_command
  starts label none [] = refl
  starts label none (o ∷ os) = elim (Option-cases (unit_by_id c o.unit_id)) [
    | inl e ↦ rw e (starts label none os)
    | inr (u, e) ↦ rw e (ground (arith, starts label none os))
  ]
  starts label (some k) [] = refl
  starts label (some k) (o ∷ os) = elim (Option-cases (unit_by_id c o.unit_id)) [
    | inl e ↦ rw e (starts label (some k) os ∙ ground (arith, e, text_eq_iff o.unit_id k.unit_id))
    | inr (u, e) ↦
        rw e (ground (arith, starts label (some k) os, e, text_eq_iff o.unit_id k.unit_id))
  ]

  -- The command of a template select stops the units of exactly those options that are neither the
  -- chosen one nor known to be not found by systemd, in the order of the options; it starts the
  -- unit of the chosen option, if one is chosen, stands among the options and has a unit.
  pub template_command_lem :
      (label : Text) (chosen : Option SelectOption) (os : List SelectOption)
      → ((template_command c s label chosen os).stop ≡ units_of (keep (to_stop chosen) os))
        × ((template_command c s label chosen os).start ≡ chosen_unit chosen os)
  template_command_lem label chosen os = (stops label chosen os, starts label chosen os)
