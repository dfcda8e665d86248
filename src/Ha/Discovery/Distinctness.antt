-- ===== src/Ha/Discovery/Distinctness.antt =====
-- In an accepted configuration no entity of the discovery payload overwrites another.
use systemd2mqtt.Base.{
  ◌≡◌, refl, sym, ◌∙◌, subst, Bool, true, false, not, ◌&&◌, Bool-cases, inl, inr, Option, some,
  List, [], ◌∷◌, ◌++◌, map, arith, All, All-append, All-mono, In, here, there, All-In, In-map,
  if◌then◌else◌, Distinct, Distinct-append, apart_by, append-nil, Distinct-map, In-append_cases,
  all, ◌==◌, &&-true,
}
use systemd2mqtt.Base.Text.{Text, text, text_eq, text_eq_iff, text_eq-append, text_ne, contains}
use systemd2mqtt.Base.Assoc.{lookup, insert, lookup-insert_self, lookup-insert_ne'}
use systemd2mqtt.Config.Data.{UnitConfig, Config, scope_user, scope_system}
use systemd2mqtt.Config.Unit.{
  object_id, wants_problem_sensor, wants_restart_button, display_enabled, expose_mode_select,
}
use systemd2mqtt.Config.Load.{Env}
use systemd2mqtt.Config.Query.{scopes, units_for_scope, if_any}
use systemd2mqtt.Config.Validate.{Url, parse}
use systemd2mqtt.Config.Validate.Units.{unit_components}
use systemd2mqtt.Config.Validate.Accepted.{parse-Distinct, parse-components}
use systemd2mqtt.Config.Validate.Templates.{parse-selects}
use systemd2mqtt.Ha.Topics.{Topics}
use systemd2mqtt.Ha.Discovery.{
  Fields, when, with_unique_id, display_switch, display_mode_select, component_entries, add_all,
  device_id, build_discovery, display_entries, daemon_entries, bus_entry,
}
use systemd2mqtt.Ha.Discovery.Keys.{
  keys, units_components, template_keys, fixed_keys, keys-component_entries, units_letter,
  templates_letter, first_letter,
}

all_distinct : List Text → Bool
unfolding contains
all_distinct [] = true
all_distinct (x ∷ xs) = not (contains xs x) && all_distinct xs

contains-none : (xs : List Text) (x : Text) → contains xs x ≡ false → All (λ y. x ≡ y → ⊥) xs
unfolding contains
contains-none [] x h = tt
contains-none (y ∷ xs) x h = elim (Bool-cases (text_eq y x)) [
  | inl same ↦ cc
  | inr other ↦ ((λ e. text_ne y x other (sym e)), contains-none xs x (ground arith))
]

all_distinct-Distinct : (xs : List Text) → all_distinct xs ≡ true → Distinct xs
unfolding all_distinct
all_distinct-Distinct [] h = tt
all_distinct-Distinct (x ∷ xs) h =
    let (a, b) = &&-true (not (contains xs x)) (all_distinct xs) h in
    (contains-none xs x (ground arith), all_distinct-Distinct xs b)

append-inj : (a b c : Text) → a ++ b ≡ a ++ c → b ≡ c
append-inj a b c h =
    (text_eq_iff b c).0 (sym (text_eq-append a b c) ∙ (text_eq_iff (a ++ b) (a ++ c)).1 h)

-- What follows the unit's id in the ids of its components.
abbrev suffixes : Bool → Bool → List Text
suffixes p r =
    []
    ∷ text "_state"
    ∷ ((if p then text "_problem" ∷ [] else []) ++ (if r then text "_restart" ∷ [] else []))

suffixes-Distinct : (p r : Bool) → Distinct (suffixes p r)
unfolding all_distinct contains text_eq
suffixes-Distinct true true = all_distinct-Distinct (suffixes true true) refl
suffixes-Distinct true false = all_distinct-Distinct (suffixes true false) refl
suffixes-Distinct false true = all_distinct-Distinct (suffixes false true) refl
suffixes-Distinct false false = all_distinct-Distinct (suffixes false false) refl

unit_components-map :
    (u : UnitConfig)
    → map
        (λ s. text "unit_" ++ (object_id u ++ s))
        (suffixes (wants_problem_sensor u) (wants_restart_button u))
      ≡ unit_components u
unfolding unit_components
unit_components-map u = ground (arith, append-nil (object_id u))

unit_components-Distinct : (u : UnitConfig) → Distinct (unit_components u)
unit_components-Distinct u = subst Distinct (unit_components-map u) (
    Distinct-map (λ s. text "unit_" ++ (object_id u ++ s))
      (λ a b e.
        append-inj (object_id u) a b
          (append-inj (text "unit_") (object_id u ++ a) (object_id u ++ b) e))
      (suffixes (wants_problem_sensor u) (wants_restart_button u))
      (suffixes-Distinct (wants_problem_sensor u) (wants_restart_button u)))

owner_of :
    (vs : List UnitConfig) (k : Text)
    → In k (units_components vs)
    → (v : UnitConfig) × In v vs × In k (unit_components v)
owner_of [] k m = elim m [ ]
owner_of (v ∷ vs) k m = elim (In-append_cases (unit_components v) (units_components vs) m) [
  | inl n ↦ (v, here refl, n)
  | inr n ↦ let (w, i, j) = owner_of vs k n in (w, there i, j)
]

units-Distinct :
    (us : List UnitConfig)
    → Distinct (map object_id us)
    → ((u v : UnitConfig) (k : Text)
        → In u us
        → In v us
        → In k (unit_components u)
        → In k (unit_components v)
        → object_id u ≡ object_id v)
    → Distinct (units_components us)
units-Distinct [] d h = tt
units-Distinct (u ∷ us) d h =
    Distinct-append (unit_components u) (units_components us) (unit_components-Distinct u)
      (units-Distinct us d.1 (λ v w k m n. h v w k (there m) (there n)))
      (λ k m n.
        let (v, i, j) = owner_of us k n in
        All-In (λ y. object_id u ≡ y → ⊥) (map object_id us) d.0 (In-map object_id us i)
          (h u v k (here refl) (there i) m j))

-- The other ids are distinct, and begin neither as a unit's nor as a template's.
abbrev are_fixed : List Text → Bool
are_fixed ks =
    all_distinct ks && all (λ k. not (first_letter k == b'u') && not (first_letter k == b't')) ks

fixed_cases :
    (t : Topics) (p q : Bool) (us ss : List UnitConfig)
    → are_fixed (
        keys (
          when p (
            (text "display", display_switch t)
            ∷ when q ((text "display_mode", display_mode_select t) ∷ []))
          ++ (map (bus_entry t) (if_any us scope_user (if_any ss scope_system []))
              ++ daemon_entries t)))
      ≡ true
unfolding all_distinct contains text_eq daemon_entries
fixed_cases t false q [] [] = refl
fixed_cases t false q [] (s ∷ ss) = refl
fixed_cases t false q (u ∷ us) [] = refl
fixed_cases t false q (u ∷ us) (s ∷ ss) = refl
fixed_cases t true false [] [] = refl
fixed_cases t true false [] (s ∷ ss) = refl
fixed_cases t true false (u ∷ us) [] = refl
fixed_cases t true false (u ∷ us) (s ∷ ss) = refl
fixed_cases t true true [] [] = refl
fixed_cases t true true [] (s ∷ ss) = refl
fixed_cases t true true (u ∷ us) [] = refl
fixed_cases t true true (u ∷ us) (s ∷ ss) = refl

fixed_keys-are_fixed : (t : Topics) (c : Config) → are_fixed (fixed_keys t c) ≡ true
unfolding fixed_keys display_entries scopes
fixed_keys-are_fixed t c =
    fixed_cases t (display_enabled c) (expose_mode_select c) (units_for_scope c scope_user)
      (units_for_scope c scope_system)

all-All : {A : Type 0} (p : A → Bool) (xs : List A) → all p xs ≡ true → All (λ x. p x ≡ true) xs
all-All p [] h = tt
all-All p (x ∷ xs) h = let (a, b) = &&-true (p x) (all p xs) h in (a, all-All p xs b)

-- A list of units' ids, one of templates' ids, and the others.
parts-Distinct :
    (us ts fs : List Text)
    → Distinct us
    → Distinct ts
    → are_fixed fs ≡ true
    → All (λ k. first_letter k ≡ b'u') us
    → All (λ k. first_letter k ≡ b't') ts
    → Distinct (us ++ (ts ++ fs))
parts-Distinct us ts fs d e f lu lt =
    let (df, lf) = &&-true (all_distinct fs) _ f in
    let g = all-All (λ k. not (first_letter k == b'u') && not (first_letter k == b't')) fs lf in
    let IsU = λ (k : Text). first_letter k ≡ b'u' in
    let IsT = λ (k : Text). first_letter k ≡ b't' in
    Distinct-append us (ts ++ fs) d
      (Distinct-append ts fs e (all_distinct-Distinct fs df)
        (λ k. apart_by IsT ts fs lt (All-mono (λ j h i. ground arith) fs g)))
      (λ k. apart_by IsU us (ts ++ fs) lu (
        All-append (λ j. IsU j → ⊥) ts fs (All-mono (λ j h i. omega arith) ts lt)
          (All-mono (λ j h i. ground arith) fs g)))

add_all-other :
    (dev_id k : Text) (es cmps : List (Text × Fields))
    → All (λ y. k ≡ y → ⊥) (keys es)
    → lookup k (add_all dev_id es cmps) ≡ lookup k cmps
unfolding add_all
add_all-other dev_id k [] cmps h = refl
add_all-other dev_id k ((id, fields) ∷ es) cmps h =
    let new = with_unique_id dev_id id fields in
    add_all-other dev_id k es (insert id new cmps) h.1
    ∙ lookup-insert_ne' id k new cmps (λ e. h.0 (sym e))

add_all_lem :
    (dev_id : Text) (es cmps : List (Text × Fields)) {id : Text} {fields : Fields}
    → Distinct (keys es)
    → In (id, fields) es
    → lookup id (add_all dev_id es cmps) ≡ some (with_unique_id dev_id id fields)
unfolding add_all
add_all_lem dev_id [] cmps d m = elim m [ ]
add_all_lem dev_id ((j, gs) ∷ es) cmps {id} {fields} d (here e) =
    subst
      (λ x.
        lookup x.0 (add_all dev_id es (insert j (with_unique_id dev_id j gs) cmps))
        ≡ some (with_unique_id dev_id x.0 x.1))
      (sym e)
      (add_all-other dev_id j es (insert j (with_unique_id dev_id j gs) cmps) d.0
        ∙ lookup-insert_self j (with_unique_id dev_id j gs) cmps)
add_all_lem dev_id ((j, gs) ∷ es) cmps d (there m) =
    add_all_lem dev_id es (insert j (with_unique_id dev_id j gs) cmps) d.1 m

module _ (parse_url : Text → Option Url) (env : Env) (c c' : Config)
    (parsed : parse parse_url env c ≡ inr c') where
  keys-Distinct : (t : Topics) → Distinct (keys (component_entries t c'))
  keys-Distinct t = subst Distinct (sym (keys-component_entries t c')) (
      parts-Distinct (units_components c'.all) (template_keys c'.selects) (fixed_keys t c')
        (units-Distinct c'.all (parse-Distinct parse_url env c c' parsed).0
          (λ u v k m n p q. parse-components parse_url env c c' u v k parsed m n p q))
        (Distinct-map (λ id. text "template_" ++ id) (append-inj (text "template_"))
          (map (λ s. s.id) c'.selects) (parse-selects parse_url env c c' parsed))
        (fixed_keys-are_fixed t c') (units_letter c'.all) (templates_letter c'.selects))

  -- In a configuration that `Parse` accepts, each entity that the payload is built from stands in
  -- the payload under its own id, with its own unique id and otherwise as it was built: no entity
  -- overwrites another.
  pub discovery_keeps :
      (t : Topics) (version : Text) {id : Text} {fields : Fields}
      → In (id, fields) (component_entries t c')
      → lookup id (build_discovery c' t version).cmps
        ≡ some (with_unique_id (device_id c'.node_id) id fields)
  unfolding build_discovery
  discovery_keeps t version m =
      add_all_lem (device_id c'.node_id) (component_entries t c') [] (keys-Distinct t) m
