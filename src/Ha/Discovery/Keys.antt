-- ===== src/Ha/Discovery/Keys.antt =====
-- The component ids of the discovery payload: a unit's are those that `Validate` checks, and the
-- letter that an id begins with tells the kinds of component apart.
use systemd2mqtt.Base.{
  ℕ, ◌≡◌, refl, ap, ap₂, ◌∙◌, Bool, true, false, List, [], ◌∷◌, ◌++◌, map, arith, All, All-append,
  if◌then◌else◌,
}
use systemd2mqtt.Base.Text.{Text, text}
use systemd2mqtt.Config.Data.{UnitConfig, TemplateSelect, Config}
use systemd2mqtt.Config.Unit.{wants_problem_sensor, wants_restart_button}
use systemd2mqtt.Config.Query.{scopes}
use systemd2mqtt.Config.Validate.Units.{unit_components}
use systemd2mqtt.Ha.Topics.{Topics}
use systemd2mqtt.Ha.Discovery.{
  Fields, unit_entries, template_entry, display_entries, bus_entry, daemon_entries, units_entries,
  component_entries,
}

abbrev pub keys : List (Text × Fields) → List Text
keys es = map (λ e. e.0) es

pub keys-append : (xs ys : List (Text × Fields)) → keys (xs ++ ys) ≡ keys xs ++ keys ys
keys-append [] ys = refl
keys-append (x ∷ xs) ys = ap (λ ks. x.0 ∷ ks) (keys-append xs ys)

-- The component ids under which a unit is announced are those that `Validate` reserves for it, in
-- the same order.
pub keys-unit_entries : (t : Topics) (u : UnitConfig) → keys (unit_entries t u) ≡ unit_components u
unfolding unit_entries unit_components
keys-unit_entries t u = ground arith

abbrev pub units_components : List UnitConfig → List Text
units_components [] = []
units_components (u ∷ us) = unit_components u ++ units_components us

keys-units_entries :
    (t : Topics) (us : List UnitConfig) → keys (units_entries t us) ≡ units_components us
unfolding units_entries
keys-units_entries t [] = refl
keys-units_entries t (u ∷ us) =
    keys-append (unit_entries t u) (units_entries t us)
    ∙ ap₂ ◌++◌ (keys-unit_entries t u) (keys-units_entries t us)

abbrev pub template_keys : List TemplateSelect → List Text
template_keys ss = map (λ id. text "template_" ++ id) (map (λ s. s.id) ss)

keys-templates :
    (t : Topics) (ss : List TemplateSelect) → keys (map (template_entry t) ss) ≡ template_keys ss
keys-templates t [] = refl
keys-templates t (s ∷ ss) = ap (λ ks. (text "template_" ++ s.id) ∷ ks) (keys-templates t ss)

-- The ids that are the same for every configuration with the same flags and buses.
unfoldable pub fixed_keys : Topics → Config → List Text
unfolding display_entries scopes daemon_entries
fixed_keys t c = keys (display_entries t c ++ (map (bus_entry t) (scopes c) ++ daemon_entries t))

pub keys-component_entries :
    (t : Topics) (c : Config)
    → keys (component_entries t c)
      ≡ units_components c.all ++ (template_keys c.selects ++ fixed_keys t c)
unfolding component_entries fixed_keys
keys-component_entries t c =
    let rest = display_entries t c ++ (map (bus_entry t) (scopes c) ++ daemon_entries t) in
    keys-append (units_entries t c.all) (map (template_entry t) c.selects ++ rest)
    ∙ ap₂ ◌++◌ (keys-units_entries t c.all) (
        keys-append (map (template_entry t) c.selects) rest
        ∙ ap (λ ks. ks ++ keys rest) (keys-templates t c.selects))

abbrev pub first_letter : Text → ℕ
first_letter [] = 0
first_letter (c ∷ s) = c

unit_letter : (u : UnitConfig) → All (λ k. first_letter k ≡ b'u') (unit_components u)
unfolding unit_components
unit_letter u = (
  refl,
  (
    refl,
    All-append (λ k. first_letter k ≡ b'u') _ _ (only _ (wants_problem_sensor u))
        (only _ (wants_restart_button u)),
  ),
)
  where
    only :
        (k : Text) (b : Bool)
        → All (λ j. first_letter j ≡ b'u') (if b then (text "unit_" ++ k) ∷ [] else [])
    only k true = (refl, tt)
    only k false = tt

pub units_letter : (us : List UnitConfig) → All (λ k. first_letter k ≡ b'u') (units_components us)
units_letter [] = tt
units_letter (u ∷ us) =
    All-append (λ k. first_letter k ≡ b'u') (unit_components u) (units_components us)
      (unit_letter u) (units_letter us)

pub templates_letter :
    (ss : List TemplateSelect) → All (λ k. first_letter k ≡ b't') (template_keys ss)
templates_letter [] = tt
templates_letter (s ∷ ss) = (refl, templates_letter ss)
