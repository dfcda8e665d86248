-- ===== src/Config/Validate/Components.antt =====
-- Two units of an accepted configuration never share a Home Assistant component.
use systemd2mqtt.Base.{
  ℕ, suc, ◌≡◌, sym, ap, ◌∙◌, subst, Bool-cases, some, List, [], ◌∷◌, arith, inl, inr, In, here,
  there, append-nil_parts,
}
use systemd2mqtt.Base.Text.{Text, text_eq, text_eq_iff}
use systemd2mqtt.Base.Assoc.{lookup, insert, lookup-insert, lookup-insert_self}
use systemd2mqtt.Config.Data.{UnitConfig}
use systemd2mqtt.Config.Unit.{object_id}
use systemd2mqtt.Config.Validate.Units.{
  Where, Seen, where_of, unit_components, check_component, component_errors, component_map,
  see_unit, validate_units,
}
use systemd2mqtt.Config.Validate.Unique.{units_parts, clash_parts}

-- An entry survives an insertion that raises no error.
insert_keeps :
    (w : Where) (id c k x : Text) (m : List (Text × Text))
    → check_component w id c (lookup c m) ≡ []
    → lookup k m ≡ some x
    → lookup k (insert c id m) ≡ some x
insert_keeps w id c k x m h e = elim (Bool-cases (text_eq c k)) [
  | inl same ↦
      let ck : c ≡ k = (text_eq_iff c k).0 same in
      ground (arith, lookup-insert c k id m, text_eq_iff x id, ck)
  | inr other ↦ ground (arith, lookup-insert c k id m)
]

component_parts :
    (w : Where) (id c : Text) (cs : List Text) (m : List (Text × Text))
    → component_errors w id (c ∷ cs) m ≡ []
    → (check_component w id c (lookup c m) ≡ []) × (component_errors w id cs (insert c id m) ≡ [])
unfolding component_errors
component_parts w id c cs m h = append-nil_parts (check_component w id c (lookup c m)) _ h

map_keeps :
    (w : Where) (id k x : Text) (cs : List Text) (m : List (Text × Text))
    → component_errors w id cs m ≡ []
    → lookup k m ≡ some x
    → lookup k (component_map id cs m) ≡ some x
unfolding component_map
map_keeps w id k x [] m h e = e
map_keeps w id k x (c ∷ cs) m h e =
    let (a, b) = component_parts w id c cs m h in
    map_keeps w id k x cs (insert c id m) b (insert_keeps w id c k x m a e)

-- A component that has an owner already is the unit's own.
owner_is :
    (w : Where) (id k x : Text) (cs : List Text) (m : List (Text × Text))
    → component_errors w id cs m ≡ []
    → In k cs
    → lookup k m ≡ some x
    → x ≡ id
owner_is w id k x [] m h i e = elim i [ ]
owner_is w id k x (c ∷ cs) m h (here s) e =
    let (a, b) = component_parts w id c cs m h in ground (arith, text_eq_iff x id)
owner_is w id k x (c ∷ cs) m h (there i) e =
    let (a, b) = component_parts w id c cs m h in
    owner_is w id k x cs (insert c id m) b i (insert_keeps w id c k x m a e)

map_owns :
    (w : Where) (id k : Text) (cs : List Text) (m : List (Text × Text))
    → component_errors w id cs m ≡ []
    → In k cs
    → lookup k (component_map id cs m) ≡ some id
unfolding component_map
map_owns w id k [] m h i = elim i [ ]
map_owns w id k (c ∷ cs) m h (here s) =
    map_keeps w id k id cs (insert c id m) (component_parts w id c cs m h).1
      (subst (λ j. lookup j (insert c id m) ≡ some id) (sym s) (lookup-insert_self c id m))
map_owns w id k (c ∷ cs) m h (there i) =
    map_owns w id k cs (insert c id m) (component_parts w id c cs m h).1 i

owner_later :
    (i : ℕ) (us : List UnitConfig) (seen : Seen) (k x : Text) {u : UnitConfig}
    → validate_units i us seen ≡ []
    → lookup k seen.components ≡ some x
    → In u us
    → In k (unit_components u)
    → x ≡ object_id u
unfolding see_unit
owner_later i [] seen k x h e m n = elim m [ ]
owner_later i (v ∷ us) seen k x {u} h e (here s) n =
    let c = (clash_parts (where_of i v) v seen (units_parts i v us seen h).1).2 in
    owner_is (where_of i v) (object_id v) k x (unit_components v) seen.components c
      (subst (λ z. In k (unit_components z)) s n) e
    ∙ sym (ap object_id s)
owner_later i (v ∷ us) seen k x {u} h e (there m) n =
    let parts = units_parts i v us seen h in
    let c = (clash_parts (where_of i v) v seen parts.1).2 in
    owner_later (suc i) us (see_unit v seen) k x parts.2
      (map_keeps (where_of i v) (object_id v) k x (unit_components v) seen.components c e) m n

owner_head :
    (i : ℕ) (v : UnitConfig) (us : List UnitConfig) (seen : Seen) (k : Text) {u : UnitConfig}
    → validate_units i (v ∷ us) seen ≡ []
    → In k (unit_components v)
    → In u us
    → In k (unit_components u)
    → object_id v ≡ object_id u
unfolding see_unit
owner_head i v us seen k h n m n' =
    let parts = units_parts i v us seen h in
    let c = (clash_parts (where_of i v) v seen parts.1).2 in
    owner_later (suc i) us (see_unit v seen) k (object_id v) parts.2
      (map_owns (where_of i v) (object_id v) k (unit_components v) seen.components c n) m n'

pub components_owned :
    (i : ℕ) (us : List UnitConfig) (seen : Seen) (k : Text) {u v : UnitConfig}
    → validate_units i us seen ≡ []
    → In u us
    → In v us
    → In k (unit_components u)
    → In k (unit_components v)
    → object_id u ≡ object_id v
components_owned i [] seen k h m m' n n' = elim m [ ]
components_owned i (w ∷ us) seen k h (here s) (here t) n n' = ap object_id (s ∙ sym t)
components_owned i (w ∷ us) seen k h (here s) (there m') n n' =
    ap object_id s ∙ owner_head i w us seen k h (subst (λ z. In k (unit_components z)) s n) m' n'
components_owned i (w ∷ us) seen k h (there m) (here t) n n' =
    sym
      (ap object_id t ∙ owner_head i w us seen k h (subst (λ z. In k (unit_components z)) t n') m n)
components_owned i (w ∷ us) seen k h (there m) (there m') n n' =
    components_owned (suc i) us (see_unit w seen) k (units_parts i w us seen h).2 m m' n n'
