-- ===== src/App/State/WellFormed.antt =====
-- The maps of the state agree: whatever is looked up by name or by order is there.
use systemd2mqtt.Base.{
  ℕ, ◌≡◌, ◌≢◌, refl, sym, ap, ap₂, ◌∙◌, subst, true, ◌&&◌, Bool-cases, Option, none, some,
  Option-cases, is_some, List, [], ◌∷◌, ◌++◌, append_assoc, append-nil, map, All, All-mono,
  All-append, if◌then◌else◌, arith, inl, inr,
}
use systemd2mqtt.Base.Text.{Text, text_eq, text_eq_iff, text_eq_refl}
use systemd2mqtt.Base.Assoc.{lookup, insert, lookup-insert}
use systemd2mqtt.Config.Data.{Scope, UnitConfig, Config}
use systemd2mqtt.Config.Unit.{object_id}
use systemd2mqtt.Systemd.Unit.{UnitStatus, JobResult, Error}
use systemd2mqtt.App.State.{
  UnitSnapshot, State, empty_snapshot, names_in, add_unit, add_units, new_state, id_for_unit, fault,
  apply_snapshot, apply_to, apply_known, apply_unit, with_job, set_job, set_job_result, snapshots,
  keep_found,
}

pub record WellFormed (s : State) : Type 0 where
  pub ordered : All (λ id. is_some (lookup id s.units) ≡ true) s.order
  pub named :
      (scope name id : Text)
      → id_for_unit s scope name ≡ some id
      → is_some (lookup id s.units) ≡ true
  pub keyed : (id : Text) (u : UnitSnapshot) → lookup id s.units ≡ some u → u.id ≡ id

insert-is_some :
    (k j : Text) (u : UnitSnapshot) (m : List (Text × UnitSnapshot))
    → is_some (lookup j m) ≡ true
    → is_some (lookup j (insert k u m)) ≡ true
insert-is_some k j u m h = ground (arith, lookup-insert k j u m)

insert-keyed :
    (k : Text) (u : UnitSnapshot) (m : List (Text × UnitSnapshot))
    → u.id ≡ k
    → ((id : Text) (v : UnitSnapshot) → lookup id m ≡ some v → v.id ≡ id)
    → (id : Text) (v : UnitSnapshot) → lookup id (insert k u m) ≡ some v
    → v.id ≡ id
insert-keyed k u m e h id v g = ground (arith, lookup-insert k id u m, text_eq_iff k id, h id v)

-- A unit's snapshot is replaced by one of the same id.
replace-WellFormed :
    (s : State) (id : Text) (u : UnitSnapshot)
    → WellFormed s
    → u.id ≡ id
    → WellFormed (record s { units = insert id u s.units })
unfolding id_for_unit
replace-WellFormed s id u w e = record {
  ordered = All-mono (λ j h. insert-is_some id j u s.units h) s.order w.ordered;
  named = λ scope name j h. insert-is_some id j u s.units (w.named scope name j h);
  keyed = insert-keyed id u s.units e w.keyed;
}

-- What a unit's name leads to after another unit is added.
pub id_for_unit-add_unit :
    (u : UnitConfig) (s : State) (scope name : Text)
    → id_for_unit (add_unit u s) scope name ≡ (
        if text_eq u.scope scope && text_eq u.name name
        then some (object_id u)
        else id_for_unit s scope name)
unfolding id_for_unit add_unit
id_for_unit-add_unit u s scope name = elim (Bool-cases (text_eq u.scope scope)) [
  | inl same ↦
      rw
        (
          lookup-insert u.scope scope
              (insert u.name (object_id u) (names_in (lookup u.scope s.by_name))) s.by_name,
          same,
          lookup-insert u.name name (object_id u) (names_in (lookup u.scope s.by_name)),
        )
        (ap
          (λ k.
            if text_eq u.name name
            then some (object_id u)
            else lookup name (names_in (lookup k s.by_name)))
          ((text_eq_iff u.scope scope).0 same))
  | inr other ↦ rw (
    lookup-insert u.scope scope (insert u.name (object_id u) (names_in (lookup u.scope s.by_name)))
        s.by_name,
    other,
  )
]

lookup_added :
    (u : UnitConfig) (s : State) (j : Text)
    → lookup j (add_unit u s).units
      ≡ (if text_eq (object_id u) j then some (empty_snapshot u) else lookup j s.units)
unfolding add_unit
lookup_added u s j = lookup-insert (object_id u) j (empty_snapshot u) s.units

add_unit-WellFormed : (u : UnitConfig) (s : State) → WellFormed s → WellFormed (add_unit u s)
unfolding add_unit
add_unit-WellFormed u s w = record {
  ordered =
      All-append _ s.order (object_id u ∷ [])
        (All-mono (λ j h. insert-is_some (object_id u) j (empty_snapshot u) s.units h) s.order
          w.ordered)
        (
          ground (
            arith,
            lookup-insert (object_id u) (object_id u) (empty_snapshot u) s.units,
            text_eq_refl (object_id u),
          ),
          tt,
        );
  named = λ scope name id h. ground (
    arith,
    id_for_unit-add_unit u s scope name,
    w.named scope name id,
    lookup-insert (object_id u) id (empty_snapshot u) s.units,
    text_eq_iff (object_id u) id,
  );
  keyed = insert-keyed (object_id u) (empty_snapshot u) s.units refl w.keyed;
}

add_units-WellFormed :
    (us : List UnitConfig) (s : State) → WellFormed s → WellFormed (add_units us s)
unfolding add_units
add_units-WellFormed [] s w = w
add_units-WellFormed (u ∷ us) s w =
    add_units-WellFormed us (add_unit u s) (add_unit-WellFormed u s w)

pub new_state-WellFormed : (c : Config) → WellFormed (new_state c)
unfolding new_state id_for_unit lookup
new_state-WellFormed c =
    add_units-WellFormed c.all _
      (record { ordered = tt; named = λ scope name id h. cc; keyed = λ id u h. cc })

apply_snapshot-id :
    (u : UnitSnapshot) (st : UnitStatus) (now : ℕ) → (apply_snapshot u st now).id ≡ u.id
unfolding apply_snapshot
apply_snapshot-id u st now = ground arith

apply_to-WellFormed :
    (id : Text) (o : Option UnitSnapshot) (st : UnitStatus) (now : ℕ) (s : State)
    → lookup id s.units ≡ o
    → WellFormed s
    → WellFormed (apply_to id o st now s).0
apply_to-WellFormed id none st now s e w = w
apply_to-WellFormed id (some u) st now s e w =
    replace-WellFormed s id (apply_snapshot u st now) w
      (apply_snapshot-id u st now ∙ w.keyed id u e)

apply_known-WellFormed :
    (o : Option Text) (st : UnitStatus) (now : ℕ) (s : State)
    → WellFormed s
    → WellFormed (apply_known o st now s).0
apply_known-WellFormed none st now s w = w
apply_known-WellFormed (some id) st now s w =
    apply_to-WellFormed id (lookup id s.units) st now s refl w

set_job-WellFormed :
    (id : Text) (f : UnitSnapshot → UnitSnapshot) (o : Option UnitSnapshot) (s : State)
    → ((u : UnitSnapshot) → (f u).id ≡ u.id)
    → lookup id s.units ≡ o
    → WellFormed s
    → WellFormed (set_job id f o s).0
set_job-WellFormed id f none s k e w = w
set_job-WellFormed id f (some u) s k e w = replace-WellFormed s id (f u) w (k u ∙ w.keyed id u e)

-- What the loop does to the state: a query result is applied, or a job's result.
pub data Update : Type 0 where
  queried : Scope → UnitStatus → ℕ → Update
  job_ended : Text → Text → JobResult → Option Error → ℕ → Update

abbrev pub update : State → Update → State
update s (queried scope st now) = (apply_unit scope st now s).0
update s (job_ended id verb result err now) = (set_job_result id verb result err now s).0

unfoldable pub updates : State → List Update → State
updates s [] = s
updates s (x ∷ xs) = updates (update s x) xs

update-WellFormed : (s : State) (x : Update) → WellFormed s → WellFormed (update s x)
unfolding apply_unit set_job_result
update-WellFormed s (queried scope st now) w =
    apply_known-WellFormed (id_for_unit s scope st.name) st now s w
update-WellFormed s (job_ended id verb result err now) w =
    set_job-WellFormed id (with_job verb result err now) (lookup id s.units) s (λ u. refl) refl w

pub updates-WellFormed : (s : State) (xs : List Update) → WellFormed s → WellFormed (updates s xs)
unfolding updates
updates-WellFormed s [] w = w
updates-WellFormed s (x ∷ xs) w = updates-WellFormed (update s x) xs (update-WellFormed s x w)

apply_to-no_fault :
    (id : Text) (o : Option UnitSnapshot) (st : UnitStatus) (now : ℕ) (s : State)
    → is_some o ≡ true
    → (apply_to id o st now s).1 ≢ fault
apply_to-no_fault id none st now s h = λ e. cc
apply_to-no_fault id (some u) st now s h = λ e. cc

-- After any query results and job results, in any order, `ApplyUnit` never follows a missing unit:
-- it finds the unit of every name it knows.
pub apply_unit-no_fault :
    (c : Config) (xs : List Update) (scope : Scope) (st : UnitStatus) (now : ℕ)
    → (apply_unit scope st now (updates (new_state c) xs)).1 ≢ fault
unfolding apply_unit
apply_unit-no_fault c xs scope st now = elim (Option-cases (id_for_unit s scope st.name)) [
  | inl missing ↦ rw missing (λ e. cc)
  | inr (id, found) ↦
      rw found (apply_to-no_fault id (lookup id s.units) st now s (w.named scope st.name id found))
]
  where
    s : State
    s = updates (new_state c) xs

    w : WellFormed s
    w = updates-WellFormed (new_state c) xs (new_state-WellFormed c)

snapshots-ids :
    (ids : List Text) (m : List (Text × UnitSnapshot))
    → All (λ id. is_some (lookup id m) ≡ true) ids
    → ((id : Text) (u : UnitSnapshot) → lookup id m ≡ some u → u.id ≡ id)
    → map (λ u. u.id) (snapshots ids m) ≡ ids
unfolding snapshots
snapshots-ids [] m h k = refl
snapshots-ids (id ∷ ids) m (h, hs) k = elim (Option-cases (lookup id m)) [
  | inl missing ↦ cc
  | inr (u, found) ↦
      subst (λ o. map (λ v. v.id) (keep_found o (snapshots ids m)) ≡ id ∷ ids) (sym found)
        (ap₂ ◌∷◌ (k id u found) (snapshots-ids ids m hs k))
]

add_units-order :
    (us : List UnitConfig) (s : State) → (add_units us s).order ≡ s.order ++ map object_id us
unfolding add_units add_unit
add_units-order [] s = sym (append-nil s.order)
add_units-order (u ∷ us) s =
    add_units-order us (add_unit u s) ∙ append_assoc s.order (object_id u ∷ []) (map object_id us)

update-order : (s : State) (x : Update) → (update s x).order ≡ s.order
unfolding apply_unit id_for_unit set_job_result
update-order s (queried scope st now) = known (id_for_unit s scope st.name)
  where
    found : (id : Text) (o : Option UnitSnapshot) → (apply_to id o st now s).0.order ≡ s.order
    found id none = refl
    found id (some u) = refl

    known : (o : Option Text) → (apply_known o st now s).0.order ≡ s.order
    known none = refl
    known (some id) = found id (lookup id s.units)
update-order s (job_ended id verb r e now) = ended (lookup id s.units)
  where
    ended : (o : Option UnitSnapshot) → (set_job id (with_job verb r e now) o s).0.order ≡ s.order
    ended none = refl
    ended (some u) = refl

updates-order : (s : State) (xs : List Update) → (updates s xs).order ≡ s.order
unfolding updates
updates-order s [] = refl
updates-order s (x ∷ xs) = updates-order (update s x) xs ∙ update-order s x

-- After any query results and job results, in any order, the list that `Units` returns is whole:
-- it has the snapshot of each configured unit, in the order of the configuration.
pub snapshots-order :
    (c : Config) (xs : List Update)
    → let s = updates (new_state c) xs in
      map (λ u. u.id) (snapshots s.order s.units) ≡ map object_id c.all
unfolding new_state
snapshots-order c xs =
    let s = updates (new_state c) xs in
    let w = updates-WellFormed (new_state c) xs (new_state-WellFormed c) in
    snapshots-ids s.order s.units w.ordered w.keyed
    ∙ updates-order (new_state c) xs
    ∙ add_units-order c.all (record { order = []; units = []; by_name = [] })
