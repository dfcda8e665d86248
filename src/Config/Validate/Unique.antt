-- ===== src/Config/Validate/Unique.antt =====
-- What the loop of `Validate` over the units rules out: ids, names and components used twice.
use systemd2mqtt.Base.{
  ℕ, suc, ◌≡◌, refl, subst, Option, none, some, List, [], ◌∷◌, map, All, All-mono, Distinct,
  append-nil_parts,
}
use systemd2mqtt.Base.Text.{Text, text_ne}
use systemd2mqtt.Base.Assoc.{lookup, insert, lookup-insert-none}
use systemd2mqtt.Config.Data.{UnitConfig}
use systemd2mqtt.Config.Unit.{object_id}
use systemd2mqtt.Config.Validate.Units.{
  Error, Where, Seen, check_used, where_of, name_key, unit_components, component_errors,
  unit_shape_errors, unit_clash_errors, see_unit, validate_units,
}

-- The errors of the first unit and of the others, taken apart.
pub units_parts :
    (i : ℕ) (u : UnitConfig) (us : List UnitConfig) (seen : Seen)
    → validate_units i (u ∷ us) seen ≡ []
    → (unit_shape_errors (where_of i u) u ≡ [])
      × (unit_clash_errors (where_of i u) u seen ≡ [])
      × (validate_units (suc i) us (see_unit u seen) ≡ [])
unfolding validate_units
units_parts i u us seen h =
    let (a, r) = append-nil_parts (unit_shape_errors (where_of i u) u) _ h in
    let (b, c) = append-nil_parts (unit_clash_errors (where_of i u) u seen) _ r in (a, b, c)

unused : (o : Option Text) (e : Error) → check_used o e ≡ [] → o ≡ none
unused none e h = refl
unused (some v) e h = cc

pub clash_parts :
    (w : Where) (u : UnitConfig) (seen : Seen)
    → unit_clash_errors w u seen ≡ []
    → (lookup (object_id u) seen.ids ≡ none)
      × (lookup (name_key u) seen.names ≡ none)
      × (component_errors w (object_id u) (unit_components u) seen.components ≡ [])
unfolding unit_clash_errors
clash_parts w u seen h =
    let (a, r) =
      append-nil_parts (check_used (lookup (object_id u) seen.ids) (Error.id_used w (object_id u)))
        _ h in
    let (b, c) =
      append-nil_parts (check_used (lookup (name_key u) seen.names) (Error.name_used w u.name)) _
        r in
    (unused _ _ a, unused _ _ b, c)

-- A key of the units and the map of `Seen` that records it.
module _ (key : UnitConfig → Text) (seen_keys : Seen → List (Text × Text))
    (value : UnitConfig → Text)
    (clash : (w : Where) (u : UnitConfig) (seen : Seen)
      → unit_clash_errors w u seen ≡ []
      → lookup (key u) (seen_keys seen) ≡ none)
    (grow : (u : UnitConfig) (seen : Seen)
      → seen_keys (see_unit u seen) ≡ insert (key u) (value u) (seen_keys seen)) where
  abbrev Fresh : Seen → UnitConfig → Type 0
  Fresh seen u = lookup (key u) (seen_keys seen) ≡ none

  Fresh-later :
      (u : UnitConfig) (seen : Seen) (v : UnitConfig)
      → Fresh (see_unit u seen) v
      → Fresh seen v × (key u ≡ key v → ⊥)
  Fresh-later u seen v h =
      let (a, b) =
        lookup-insert-none (key u) (key v) (value u) (seen_keys seen)
          (subst (λ m. lookup (key v) m ≡ none) (grow u seen) h) in
      (a, text_ne (key u) (key v) b)

  All-map_ne :
      (k : Text) (us : List UnitConfig)
      → All (λ v. k ≡ key v → ⊥) us
      → All (λ j. k ≡ j → ⊥) (map key us)
  All-map_ne k [] h = tt
  All-map_ne k (u ∷ us) (h, hs) = (h, All-map_ne k us hs)

  validate_units-Distinct :
      (i : ℕ) (us : List UnitConfig) (seen : Seen)
      → validate_units i us seen ≡ []
      → All (Fresh seen) us × Distinct (map key us)
  validate_units-Distinct i [] seen h = (tt, tt)
  validate_units-Distinct i (u ∷ us) seen h =
      let parts = units_parts i u us seen h in
      let rest = validate_units-Distinct (suc i) us (see_unit u seen) parts.2 in
      (
        (
          clash (where_of i u) u seen parts.1,
          All-mono (λ v f. (Fresh-later u seen v f).0) us rest.0,
        ),
        (All-map_ne (key u) us (All-mono (λ v f. (Fresh-later u seen v f).1) us rest.0), rest.1),
      )

pub Distinct-ids :
    (i : ℕ) (us : List UnitConfig) (seen : Seen)
    → validate_units i us seen ≡ []
    → Distinct (map object_id us)
unfolding see_unit
Distinct-ids i us seen h =
    (validate_units-Distinct object_id (λ s. s.ids) (λ u. u.name)
      (λ w u s e. (clash_parts w u s e).0) (λ u s. refl) i us seen h).1

pub Distinct-names :
    (i : ℕ) (us : List UnitConfig) (seen : Seen)
    → validate_units i us seen ≡ []
    → Distinct (map name_key us)
unfolding see_unit
Distinct-names i us seen h =
    (validate_units-Distinct name_key (λ s. s.names) object_id (λ w u s e. (clash_parts w u s e).1)
      (λ u s. refl) i us seen h).1
