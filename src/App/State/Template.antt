-- ===== src/App/State/Template.antt =====
-- `TemplateState` shows the first instance that is on.
use systemd2mqtt.Base.{
  ◌≡◌, refl, Bool, false, ◌&&◌, ◌||◌, Option, none, some, List, [], ◌∷◌, ◌++◌, map, keep, any,
  if◌then◌else◌, arith, append_assoc, append-nil,
}
use systemd2mqtt.Base.Text.{Text, text, text_eq, contains}
use systemd2mqtt.Config.Data.{SelectOption, TemplateSelect}
use systemd2mqtt.Systemd.Unit.{is_on}
use systemd2mqtt.App.State.{
  UnitSnapshot, State, unit, Tally, count_unit, tally, first_label, template_state,
}

abbrev seen_on : Option UnitSnapshot → Bool
seen_on none = false
seen_on (some u) =
    u.known
    && (text_eq (text "active") u.active_state
        || text_eq (text "activating") u.active_state
        || text_eq (text "reloading") u.active_state)

abbrev seen : Option UnitSnapshot → Bool
seen none = false
seen (some u) = u.known

-- An option whose unit has been queried, and was on.
abbrev pub is_active : State → SelectOption → Bool
is_active s o = seen_on (unit s o.unit_id)

-- An option whose unit has been queried.
abbrev pub is_known : State → SelectOption → Bool
is_known s o = seen (unit s o.unit_id)

abbrev pub labels : List SelectOption → List Text
labels os = map (λ o. o.label) os

abbrev pub head_or : Text → List Text → Text
head_or d [] = d
head_or d (x ∷ xs) = x

first_label-head_or : (ls : List Text) → first_label ls ≡ head_or (text "off") ls
first_label-head_or [] = refl
first_label-head_or (l ∷ ls) = refl

count_unit-cases :
    (label : Text) (o : Option UnitSnapshot) (t : Tally)
    → count_unit label o t ≡ record {
      active = if seen_on o then t.active ++ (label ∷ []) else t.active;
      known = seen o || t.known;
    }
unfolding is_on contains
count_unit-cases label none t = refl
count_unit-cases label (some u) t = ground arith

tally-keep :
    (s : State) (os : List SelectOption) (t : Tally)
    → tally s os t ≡ record {
      active = t.active ++ labels (keep (is_active s) os);
      known = any (is_known s) os || t.known;
    }
unfolding tally
tally-keep s [] t = ground (arith, append-nil t.active)
tally-keep s (o ∷ os) t = ground (
  arith,
  count_unit-cases o.label (unit s o.unit_id) t,
  tally-keep s os (count_unit o.label (unit s o.unit_id) t),
  append_assoc t.active (o.label ∷ []) (labels (keep (is_active s) os)),
)

-- `TemplateState` lists the labels of exactly those options whose unit has been queried and was
-- active, activating or reloading, in the order of the options; its label is the first of them, or
-- `off` if there is none; and it is known once one option's unit has been queried.
pub template_state_lem :
    (s : State) (sel : TemplateSelect)
    → let active = labels (keep (is_active s) sel.options) in
      template_state s sel ≡ (head_or (text "off") active, active, any (is_known s) sel.options)
unfolding template_state
template_state_lem s sel = ground (
  arith,
  tally-keep s sel.options (record { active = []; known = false }),
  first_label-head_or (labels (keep (is_active s) sel.options)),
)
