-- ===== src/App/State.antt =====
-- internal/app/state.go: the loop's view of the units. A time is a number of nanoseconds, the zero
-- time is 0; a pointer that the source follows without a check is followed here with an option.
pub mod WellFormed
pub mod Updates
pub mod Template
use systemd2mqtt.Base.{
  ℕ, Bool, true, false, not, ◌||◌, Option, none, some, List, [], ◌∷◌, ◌++◌, map, if◌then◌else◌,
}
use systemd2mqtt.Base.Text.{Text, text, text_eq}
use systemd2mqtt.Base.Assoc.{lookup, insert}
use systemd2mqtt.Config.Data.{Scope, UnitConfig, SelectOption, TemplateSelect, Config}
use systemd2mqtt.Config.Unit.{object_id}
use systemd2mqtt.Systemd.Unit.{UnitStatus, JobResult, Error, is_on}

pub record UnitSnapshot : Type 0 where
  pub id : Text
  pub name : Text
  pub scope : Scope
  pub known : Bool
  pub active_state : Text
  pub sub_state : Text
  pub load_state : Text
  pub changed_at : ℕ
  pub last_job : Text
  pub last_job_result : Text
  pub last_job_error : Text
  pub last_job_at : ℕ

pub record State : Type 0 where
  pub order : List Text
  pub units : List (Text × UnitSnapshot)
  pub by_name : List (Text × List (Text × Text))

abbrev pub empty_snapshot : UnitConfig → UnitSnapshot
empty_snapshot u = record {
  id = object_id u;
  name = u.name;
  scope = u.scope;
  known = false;
  active_state = [];
  sub_state = [];
  load_state = [];
  changed_at = 0;
  last_job = [];
  last_job_result = [];
  last_job_error = [];
  last_job_at = 0;
}

-- A nil map reads as an empty one.
abbrev pub names_in : Option (List (Text × Text)) → List (Text × Text)
names_in none = []
names_in (some m) = m

-- One round of the loop of `NewState`.
unfoldable pub add_unit : UnitConfig → State → State
add_unit u s = record {
  order = s.order ++ (object_id u ∷ []);
  units = insert (object_id u) (empty_snapshot u) s.units;
  by_name =
      insert u.scope (insert u.name (object_id u) (names_in (lookup u.scope s.by_name))) s.by_name;
}

unfoldable pub add_units : List UnitConfig → State → State
unfolding add_unit
add_units [] s = s
add_units (u ∷ us) s = add_units us (add_unit u s)

-- `NewState`
unfoldable pub new_state : Config → State
unfolding add_units
new_state c = add_units c.all (record { order = []; units = []; by_name = [] })

-- `IDForUnit`
unfoldable pub id_for_unit : State → Scope → Text → Option Text
id_for_unit s scope name = lookup name (names_in (lookup scope s.by_name))

-- The results of `ApplyUnit`, and the fault of following a missing unit.
pub data Applied : Type 0 where
  unwatched : Applied
  fault : Applied
  applied : UnitSnapshot → Bool → Applied

abbrev pub moved : UnitSnapshot → UnitStatus → Bool
moved u st =
    not u.known
    || not (text_eq u.active_state st.active_state)
    || not (text_eq u.sub_state st.sub_state)
    || not (text_eq u.load_state st.load_state)

abbrev pub refreshed : UnitSnapshot → UnitStatus → ℕ → UnitSnapshot
refreshed u st now = record u {
  known = true;
  active_state = st.active_state;
  sub_state = st.sub_state;
  load_state = st.load_state;
  changed_at = now;
}

-- What becomes of the snapshot itself.
unfoldable pub apply_snapshot : UnitSnapshot → UnitStatus → ℕ → UnitSnapshot
apply_snapshot u st now = if moved u st then refreshed u st now else u

abbrev pub apply_to : Text → Option UnitSnapshot → UnitStatus → ℕ → State → State × Applied
apply_to id none st now s = (s, fault)
apply_to id (some u) st now s =
    let u' = apply_snapshot u st now in
    (record s { units = insert id u' s.units }, applied u' (moved u st))

abbrev pub apply_known : Option Text → UnitStatus → ℕ → State → State × Applied
apply_known none st now s = (s, unwatched)
apply_known (some id) st now s = apply_to id (lookup id s.units) st now s

-- `ApplyUnit`
unfoldable pub apply_unit : Scope → UnitStatus → ℕ → State → State × Applied
unfolding apply_snapshot
apply_unit scope st now s = apply_known (id_for_unit s scope st.name) st now s

-- `err.Error()`, or nothing where there is no error.
abbrev pub error_text : Option Error → Text
error_text none = []
error_text (some e) = e.message

abbrev pub with_job : Text → JobResult → Option Error → ℕ → UnitSnapshot → UnitSnapshot
with_job verb result err now u = record u {
  last_job = verb;
  last_job_result = result;
  last_job_error = error_text err;
  last_job_at = now;
}

abbrev pub set_job :
    Text → (UnitSnapshot → UnitSnapshot) → Option UnitSnapshot → State → State × Option UnitSnapshot
set_job id f none s = (s, none)
set_job id f (some u) s = (record s { units = insert id (f u) s.units }, some (f u))

-- `SetJobResult`
unfoldable pub set_job_result :
    Text → Text → JobResult → Option Error → ℕ → State → State × Option UnitSnapshot
set_job_result id verb result err now s =
    set_job id (with_job verb result err now) (lookup id s.units) s

-- `Unit`
unfoldable pub unit : State → Text → Option UnitSnapshot
unit s id = lookup id s.units

abbrev pub keep_found : Option UnitSnapshot → List UnitSnapshot → List UnitSnapshot
keep_found none us = us
keep_found (some u) us = u ∷ us

-- `Units`: the snapshots in order; a missing one is a fault, which is left out here.
unfoldable pub snapshots : List Text → List (Text × UnitSnapshot) → List UnitSnapshot
snapshots [] m = []
snapshots (id ∷ ids) m = keep_found (lookup id m) (snapshots ids m)

-- One option's part in `TemplateState`: whether its unit is known, and its label if it is on.
pub record Tally : Type 0 where
  pub active : List Text
  pub known : Bool

abbrev pub count_unit : Text → Option UnitSnapshot → Tally → Tally
count_unit label none t = t
count_unit label (some u) t =
    if not u.known
    then t
    else if is_on u.active_state
    then record { active = t.active ++ (label ∷ []); known = true }
    else record { active = t.active; known = true }

unfoldable pub tally : State → List SelectOption → Tally → Tally
tally s [] t = t
tally s (o ∷ os) t = tally s os (count_unit o.label (unit s o.unit_id) t)

abbrev pub first_label : List Text → Text
first_label [] = text "off"
first_label (l ∷ ls) = l

-- `TemplateState`: the label, the active labels, and whether an instance is known.
unfoldable pub template_state : State → TemplateSelect → Text × List Text × Bool
unfolding tally
template_state s sel =
    let t = tally s sel.options (record { active = []; known = false }) in
    (first_label t.active, t.active, t.known)
