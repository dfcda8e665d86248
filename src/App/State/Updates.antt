-- ===== src/App/State/Updates.antt =====
-- What a query result and a job result change in the state, and what they leave alone.
use systemd2mqtt.Base.{
  ℕ, ◌≡◌, ◌≢◌, refl, sym, ap, ap₂, ◌∙◌, Bool, true, false, ◌&&◌, Bool-cases, &&-true, Option, none,
  some, List, [], ◌∷◌, ◌++◌, map, All, In, here, there, Distinct, if◌then◌else◌, arith, inl, inr,
}
use systemd2mqtt.Base.Text.{Text, text, text_eq, text_eq_iff, text_eq_refl}
use systemd2mqtt.Base.Assoc.{
  lookup, insert, lookup-insert, lookup-insert_self, lookup-insert_ne', insert_same,
}
use systemd2mqtt.Config.Data.{Scope, UnitConfig, Config}
use systemd2mqtt.Config.Unit.{object_id}
use systemd2mqtt.Config.Validate.Units.{name_key}
use systemd2mqtt.Systemd.Unit.{UnitStatus, JobResult, Error}
use systemd2mqtt.App.State.{
  UnitSnapshot, State, add_unit, add_units, new_state, id_for_unit, applied, moved, apply_snapshot,
  apply_unit, with_job, set_job, set_job_result, unit,
}
use systemd2mqtt.App.State.WellFormed.{id_for_unit-add_unit}

-- The result of a query of one unit, as the state keeps it.
pub record Records (st : UnitStatus) (now : ℕ) (u u' : UnitSnapshot) : Type 0 where
  pub known : u'.known ≡ true
  pub active_state : u'.active_state ≡ st.active_state
  pub sub_state : u'.sub_state ≡ st.sub_state
  pub load_state : u'.load_state ≡ st.load_state
  pub changed_at : u'.changed_at ≡ (if moved u st then now else u.changed_at)
  pub last_job : u'.last_job ≡ u.last_job
  pub last_job_result : u'.last_job_result ≡ u.last_job_result
  pub last_job_error : u'.last_job_error ≡ u.last_job_error
  pub last_job_at : u'.last_job_at ≡ u.last_job_at

apply_snapshot-Records :
    (u : UnitSnapshot) (st : UnitStatus) (now : ℕ) → Records st now u (apply_snapshot u st now)
unfolding apply_snapshot
apply_snapshot-Records u st now = ground (
  arith,
  text_eq_iff u.active_state st.active_state,
  text_eq_iff u.sub_state st.sub_state,
  text_eq_iff u.load_state st.load_state,
)

-- `ApplyUnit` on a watched name: the unit's snapshot then holds the states of the query result,
-- its change time is the present exactly if it was not known or a state differs, its last job is
-- as it was, and it reports a change in exactly that case; no other unit's snapshot changes.
pub apply_unit_lem :
    (scope : Scope) (st : UnitStatus) (now : ℕ) (s : State) (id j : Text) (u : UnitSnapshot)
    → id_for_unit s scope st.name ≡ some id
    → unit s id ≡ some u
    → id ≢ j
    → let s' = (apply_unit scope st now s).0 in
      (u' : UnitSnapshot) × (unit s' id ≡ some u')
      × Records st now u u'
      × ((apply_unit scope st now s).1 ≡ applied u' (moved u st))
      × (unit s' j ≡ unit s j)
unfolding apply_unit unit
apply_unit_lem scope st now s id j u e f n =
    let u' = apply_snapshot u st now in
    (
      u',
      rw (e, f) (lookup-insert_self id u' s.units),
      apply_snapshot-Records u st now,
      rw (e, f),
      rw (e, f) (lookup-insert_ne' id j u' s.units n),
    )

moved-apply_snapshot :
    (u : UnitSnapshot) (st : UnitStatus) (now : ℕ) → moved (apply_snapshot u st now) st ≡ false
unfolding apply_snapshot
moved-apply_snapshot u st now =
    ground
      (arith, text_eq_refl st.active_state, text_eq_refl st.sub_state, text_eq_refl st.load_state)

apply_snapshot_still :
    (u : UnitSnapshot) (st : UnitStatus) (now : ℕ)
    → moved u st ≡ false
    → apply_snapshot u st now ≡ u
unfolding apply_snapshot
apply_snapshot_still u st now h = rw h

apply_unit_at :
    (scope : Scope) (st : UnitStatus) (now : ℕ) (s : State) (id : Text) (u : UnitSnapshot)
    → id_for_unit s scope st.name ≡ some id
    → lookup id s.units ≡ some u
    → apply_unit scope st now s ≡ (
      record s { units = insert id (apply_snapshot u st now) s.units },
      applied (apply_snapshot u st now) (moved u st),
    )
unfolding apply_unit
apply_unit_at scope st now s id u e f = rw (e, f)

-- Applying the result of a query again, at any later time, changes nothing and reports no change.
pub apply_unit_twice :
    (scope : Scope) (st : UnitStatus) (now later : ℕ) (s : State) (id : Text) (u : UnitSnapshot)
    → id_for_unit s scope st.name ≡ some id
    → unit s id ≡ some u
    → let s' = (apply_unit scope st now s).0 in
      ((apply_unit scope st later s').0 ≡ s')
      × ((u' : UnitSnapshot) × ((apply_unit scope st later s').1 ≡ applied u' false))
unfolding unit id_for_unit
apply_unit_twice scope st now later s id u e f =
    let u' = apply_snapshot u st now in
    let s' : State = record s { units = insert id u' s.units } in
    let once = apply_unit_at scope st now s id u e f in
    let found = lookup-insert_self id u' s.units in
    let again = apply_unit_at scope st later s' id u' e found in
    let still = apply_snapshot_still u' st later (moved-apply_snapshot u st now) in
    rw once (
      ap (λ r. r.0) again
          ∙ ap (λ us. record s { units = us })
              (ap (λ v. insert id v s'.units) still ∙ insert_same id u' s'.units found),
      (u', ap (λ r. r.1) again ∙ ap₂ applied still (moved-apply_snapshot u st now)),
    )

-- The fields of a snapshot that only queries set.
pub record Observed : Type 0 where
  pub known : Bool
  pub active_state : Text
  pub sub_state : Text
  pub load_state : Text
  pub changed_at : ℕ

abbrev pub observed : UnitSnapshot → Observed
observed u = record {
  known = u.known;
  active_state = u.active_state;
  sub_state = u.sub_state;
  load_state = u.load_state;
  changed_at = u.changed_at;
}

abbrev pub map_option {ℓ κ} : {A : Type ℓ} {B : Type κ} → (A → B) → Option A → Option B
map_option f none = none
map_option f (some a) = some (f a)

set_job-observed :
    (id : Text) (f : UnitSnapshot → UnitSnapshot) (o : Option UnitSnapshot) (s : State) (j : Text)
    → ((u : UnitSnapshot) → observed (f u) ≡ observed u)
    → lookup id s.units ≡ o
    → map_option observed (lookup j (set_job id f o s).0.units)
      ≡ map_option observed (lookup j s.units)
set_job-observed id f none s j k e = refl
set_job-observed id f (some u) s j k e = elim (Bool-cases (text_eq id j)) [
  | inl same ↦
      rw (lookup-insert id j (f u) s.units, same)
        (ap some (k u)
          ∙ ap (map_option observed)
              (sym e ∙ ap (λ i. lookup i s.units) ((text_eq_iff id j).0 same)))
  | inr other ↦ rw (lookup-insert id j (f u) s.units, other)
]

-- A job's result is never optimistic: of no unit does `SetJobResult` change whether it is known,
-- its three states or the time of their last change, so that only queries move a switch.
pub observed-set_job_result :
    (id verb : Text) (result : JobResult) (err : Option Error) (now : ℕ) (s : State) (j : Text)
    → map_option observed (unit (set_job_result id verb result err now s).0 j)
      ≡ map_option observed (unit s j)
unfolding set_job_result unit
observed-set_job_result id verb result err now s j =
    set_job-observed id (with_job verb result err now) (lookup id s.units) s j (λ u. refl) refl

keys_differ :
    (u v : UnitConfig)
    → (name_key u ≡ name_key v → ⊥)
    → (text_eq v.scope u.scope && text_eq v.name u.name) ≡ false
keys_differ u v h = elim (Bool-cases (text_eq v.scope u.scope && text_eq v.name u.name)) [
  | inl both ↦
      let (a, b) = &&-true (text_eq v.scope u.scope) (text_eq v.name u.name) both in
      absurd (
        h (
          ap₂ (λ x y. x ++ (text "/" ++ y)) (sym ((text_eq_iff v.scope u.scope).0 a))
            (sym ((text_eq_iff v.name u.name).0 b))))
  | inr other ↦ other
]

-- The names of the units added later do not hide a unit's own.
add_units_other :
    (us : List UnitConfig) (s : State) (u : UnitConfig)
    → All (λ k. name_key u ≡ k → ⊥) (map name_key us)
    → id_for_unit (add_units us s) u.scope u.name ≡ id_for_unit s u.scope u.name
unfolding add_units
add_units_other [] s u h = refl
add_units_other (v ∷ us) s u (h, hs) =
    add_units_other us (add_unit v s) u hs
    ∙ rw (id_for_unit-add_unit v s u.scope u.name, keys_differ u v h)

add_units_self :
    (us : List UnitConfig) (s : State) (u : UnitConfig)
    → Distinct (map name_key us)
    → In u us
    → id_for_unit (add_units us s) u.scope u.name ≡ some (object_id u)
unfolding add_units
add_units_self [] s u d m = elim m [ ]
add_units_self (v ∷ us) s u (d, ds) (here e) = rw e (
    add_units_other us (add_unit v s) v d
    ∙ rw (id_for_unit-add_unit v s v.scope v.name, text_eq_refl v.scope, text_eq_refl v.name))
add_units_self (v ∷ us) s u (d, ds) (there m) = add_units_self us (add_unit v s) u ds m

-- In the state made from a configuration whose units have different scopes or names, the scope and
-- name of each unit lead to its own object id.
pub id_for_unit-new_state :
    (c : Config) (u : UnitConfig)
    → Distinct (map name_key c.all)
    → In u c.all
    → id_for_unit (new_state c) u.scope u.name ≡ some (object_id u)
unfolding new_state
id_for_unit-new_state c u d m = add_units_self c.all _ u d m
