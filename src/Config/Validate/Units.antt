-- ===== src/Config/Validate/Units.antt =====
-- internal/config/config.go: the loop of `Validate` over all units. An error is a value with what
-- its message is made of.
use systemd2mqtt.Base.{
  ℕ, suc, Bool, true, false, not, ◌&&◌, ◌||◌, Option, none, some, List, [], ◌∷◌, ◌++◌,
  if◌then◌else◌, ◌==◌, is_some,
}
use systemd2mqtt.Base.Text.{Text, text, text_eq}
use systemd2mqtt.Base.Text.Search.{contains_any}
use systemd2mqtt.Base.Assoc.{lookup, insert}
use systemd2mqtt.Config.Data.{UnitConfig, scope_user, scope_system}
use systemd2mqtt.Config.Names.{node_id_re, split_template}
use systemd2mqtt.Config.Unit.{object_id, wants_problem_sensor, wants_restart_button}

-- `where`: the index of a unit, or the template and the instance that it comes from.
pub data Where : Type 0 where
  unit_at : ℕ → Where
  instance_of : Text → Text → Where

pub data Error : Type 0 where
  template_name : ℕ → Text → Error
  node_id_invalid : Text → Error
  broker_missing broker_invalid : Error
  broker_scheme : Text → Error
  qos_invalid : ℕ → Error
  cert_without_key : Error
  base_topic_invalid : Text → Error
  unit_name_invalid : Where → Text → Error
  unit_is_template : Where → Text → Error
  scope_invalid : Where → Text → Error
  id_invalid : Where → Text → Error
  id_used : Where → Text → Error
  name_used : Where → Text → Error
  component_used : Where → Text → Text → Error
  template_id_used : ℕ → Text → Error
  no_instances : ℕ → Error
  bad_instance : ℕ → Text → Error
  template_id_invalid : ℕ → Text → Error
  off_mode_invalid job_mode_invalid log_level_invalid : Text → Error
  poll_interval_short job_timeout_short : Error

-- `if bad { errs = append(errs, e) }`
abbrev pub check : Bool → Error → List Error
check true e = e ∷ []
check false e = []

abbrev pub is_empty : Text → Bool
is_empty [] = true
is_empty (c ∷ s) = false

abbrev pub is_nil {ℓ} : {A : Type ℓ} → List A → Bool
is_nil [] = true
is_nil (x ∷ xs) = false

-- `a != b`
abbrev pub differ : Bool → Bool → Bool
differ true b = not b
differ false b = b

-- A key that is in the map already is an error.
abbrev pub check_used {ℓ} : {V : Type ℓ} → Option V → Error → List Error
check_used none e = []
check_used (some v) e = e ∷ []

-- The characters that a unit name may not hold: space, tab and slash.
abbrev pub bad_unit_char : ℕ → Bool
bad_unit_char c = c == 32 || c == 9 || c == b'/'

abbrev is_dot : ℕ → Bool
is_dot c = c == b'.'

-- The maps `seen`, `seenName` and `seenCmp`.
pub record Seen : Type 0 where
  pub ids : List (Text × Text)
  pub names : List (Text × Text)
  pub components : List (Text × Text)

abbrev pub no_units : Seen
no_units = record { ids = []; names = []; components = [] }

abbrev pub where_of : ℕ → UnitConfig → Where
where_of i u = if is_empty u.template_id then unit_at i else instance_of u.template_id u.name

-- `string(u.Scope) + "/" + u.Name`
abbrev pub name_key : UnitConfig → Text
name_key u = u.scope ++ (text "/" ++ u.name)

-- The Home Assistant components that discovery derives from the unit: `cmps`.
unfoldable pub unit_components : UnitConfig → List Text
unit_components u =
    let id = object_id u in
    (text "unit_" ++ id)
    ∷ (text "unit_" ++ (id ++ text "_state"))
    ∷ ((if wants_problem_sensor u then (text "unit_" ++ (id ++ text "_problem")) ∷ [] else [])
        ++ (if wants_restart_button u then (text "unit_" ++ (id ++ text "_restart")) ∷ [] else []))

-- `if prev, dup := seenCmp[cmp]; dup && prev != id`
abbrev pub check_component : Where → Text → Text → Option Text → List Error
check_component w id cmp none = []
check_component w id cmp (some prev) = check (not (text_eq prev id)) (component_used w id cmp)

-- The loop over the components: the errors, and the map.
unfoldable pub component_errors : Where → Text → List Text → List (Text × Text) → List Error
component_errors w id [] m = []
component_errors w id (cmp ∷ cmps) m =
    check_component w id cmp (lookup cmp m) ++ component_errors w id cmps (insert cmp id m)

unfoldable pub component_map : Text → List Text → List (Text × Text) → List (Text × Text)
component_map id [] m = m
component_map id (cmp ∷ cmps) m = component_map id cmps (insert cmp id m)

-- The checks of one unit that look at nothing else.
unfoldable pub unit_shape_errors : Where → UnitConfig → List Error
unfolding node_id_re split_template
unit_shape_errors w u =
    check (is_empty u.name || not (contains_any is_dot u.name) || contains_any bad_unit_char u.name)
      (unit_name_invalid w u.name)
    ++ (check (is_empty u.template_id && is_some (split_template u.name))
          (unit_is_template w u.name)
        ++ (check (not (text_eq u.scope scope_user) && not (text_eq u.scope scope_system))
              (scope_invalid w u.scope)
            ++ check (not (node_id_re (object_id u))) (id_invalid w (object_id u))))

-- The checks of one unit against those before it.
unfoldable pub unit_clash_errors : Where → UnitConfig → Seen → List Error
unfolding component_errors
unit_clash_errors w u seen =
    check_used (lookup (object_id u) seen.ids) (id_used w (object_id u))
    ++ (check_used (lookup (name_key u) seen.names) (name_used w u.name)
        ++ component_errors w (object_id u) (unit_components u) seen.components)

unfoldable pub see_unit : UnitConfig → Seen → Seen
unfolding component_map
see_unit u seen = record {
  ids = insert (object_id u) u.name seen.ids;
  names = insert (name_key u) (object_id u) seen.names;
  components = component_map (object_id u) (unit_components u) seen.components;
}

unfoldable pub validate_units : ℕ → List UnitConfig → Seen → List Error
unfolding unit_shape_errors unit_clash_errors see_unit
validate_units i [] seen = []
validate_units i (u ∷ us) seen =
    unit_shape_errors (where_of i u) u
    ++ (unit_clash_errors (where_of i u) u seen ++ validate_units (suc i) us (see_unit u seen))
