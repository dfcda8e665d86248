-- ===== src/Config/Expand.antt =====
-- internal/config/config.go: `expand` turns templates into plain units and select entities.
pub mod Options
pub mod Selects
pub mod Origin
use systemd2mqtt.Base.{
  ℕ, zero, suc, Bool, true, false, Option, none, some, List, [], ◌∷◌, ◌++◌, map, if◌then◌else◌, ◌⊎◌,
  inl, inr,
}
use systemd2mqtt.Base.Text.{Text, text}
use systemd2mqtt.Config.Data.{
  UnitConfig, InstanceConfig, TemplateConfig, TemplateSelect, SelectOption, Config,
}
use systemd2mqtt.Config.Unit.{or_default}
use systemd2mqtt.Config.Names.{slugify, display_name as unit_display_name, split_template}
use systemd2mqtt.Config.Load.{entries, default_icon}

-- The unit made of one instance of a template.
unfoldable pub expand_instance : TemplateConfig → Text → Text → InstanceConfig → UnitConfig
expand_instance t prefix suffix inst =
    let name = prefix ++ (inst.name ++ suffix) in
    record {
      name = name;
      scope = t.scope;
      id = slugify name;
      friendly_name = or_default inst.friendly_name (t.friendly_name ++ (text " " ++ inst.name));
      icon = t.icon;
      restart_button = t.restart_button;
      problem_sensor = t.problem_sensor;
      template_id = t.id;
    }

abbrev pub select_option : UnitConfig → SelectOption
select_option u = record { label = u.friendly_name; unit_id = u.id; unit_name = u.name }

-- `prefix[:len(prefix)-1]`
abbrev pub drop_last : Text → Text
drop_last [] = []
drop_last (c ∷ []) = []
drop_last (c ∷ d ∷ s) = c ∷ drop_last (d ∷ s)

-- The fields of a template that `expand` fills in.
unfoldable pub fill_template : TemplateConfig → Text → Text → TemplateConfig
fill_template t prefix suffix = record t {
  id = or_default t.id (slugify t.name);
  friendly_name = or_default t.friendly_name (unit_display_name (drop_last prefix ++ suffix));
  icon = or_default t.icon default_icon;
}

-- The units and the select entity of one template that has been filled in.
unfoldable pub template_units : TemplateConfig → Text → Text → List UnitConfig
unfolding expand_instance
template_units t prefix suffix = map (expand_instance t prefix suffix) t.instances

unfoldable pub template_select : TemplateConfig → Text → Text → TemplateSelect
unfolding template_units
template_select t prefix suffix = record {
  id = t.id;
  name = t.friendly_name;
  icon = t.icon;
  scope = t.scope;
  options = map select_option (template_units t prefix suffix);
}

-- What the loop of `expand` builds: the templates filled in, the units and the selects.
pub record Expansion : Type 0 where
  pub filled : List TemplateConfig
  pub units : List UnitConfig
  pub selects : List TemplateSelect

pub data ExpandResult : Type 0 where
  expanded : Expansion → ExpandResult
  -- The index of the template in the file, and its name.
  not_a_template : ℕ → Text → ExpandResult

abbrev pub add_template :
    TemplateConfig → List UnitConfig → TemplateSelect → ExpandResult → ExpandResult
add_template t us sel (not_a_template i name) = not_a_template i name
add_template t us sel (expanded e) = expanded (record {
  filled = t ∷ e.filled;
  units = us ++ e.units;
  selects = if t.exclusive then sel ∷ e.selects else e.selects;
})

-- One round of the loop, on the template's name cut in two.
unfoldable pub expand_one : ℕ → TemplateConfig → Option (Text × Text) → ExpandResult → ExpandResult
expand_one i t none rest = not_a_template i t.name
expand_one i t (some (prefix, suffix)) rest =
    let t' = fill_template t prefix suffix in
    add_template t' (template_units t' prefix suffix) (template_select t' prefix suffix) rest

unfoldable pub expand_from : ℕ → List TemplateConfig → ExpandResult
unfolding expand_one
expand_from i [] = expanded (record { filled = []; units = []; selects = [] })
expand_from i (t ∷ ts) = expand_one i t (split_template t.name) (expand_from (suc i) ts)

-- A nil slice stays nil.
abbrev pub set_entries {ℓ} : {A : Type ℓ} → List A → Option (List A) → Option (List A)
set_entries ys none = none
set_entries ys (some xs) = some ys

-- The configuration with what the loop built, or the index and name of the bad template.
abbrev pub with_expansion : Config → ExpandResult → (ℕ × Text) ⊎ Config
with_expansion c (not_a_template i name) = inl (i, name)
with_expansion c (expanded e) = inr (record c {
  templates = set_entries e.filled c.templates;
  all = entries c.units ++ e.units;
  selects = e.selects;
})

-- `expand`
unfoldable pub expand : Config → (ℕ × Text) ⊎ Config
unfolding expand_from
expand c = with_expansion c (expand_from 0 (entries c.templates))
