-- ===== src/Config/Validate/Accepted.antt =====
-- What the daemon may rely on in a configuration that `Parse` accepts.
use systemd2mqtt.Base.{
  ℕ, suc, ◌≡◌, refl, ap, subst, Bool, true, false, not, ◌&&◌, Bool-cases, Option, some, List, [],
  ◌∷◌, map, arith, ◌⊎◌, inl, inr, All, All-In, In, here, there, Distinct, append-nil_parts, find,
  In-map,
}
use systemd2mqtt.Base.Text.{Text, text_eq, text_eq_iff, text_eq_refl}
use systemd2mqtt.Config.Data.{
  UnitConfig, TemplateSelect, SelectOption, Config, scope_user, scope_system,
}
use systemd2mqtt.Config.Unit.{object_id}
use systemd2mqtt.Config.Names.{node_id_re}
use systemd2mqtt.Config.Load.{Env, apply_defaults, apply_env}
use systemd2mqtt.Config.Expand.{expand}
use systemd2mqtt.Config.Expand.Options.{Names, expand_options_named}
use systemd2mqtt.Config.Query.{unit_by_id}
use systemd2mqtt.Config.Validate.{Url, validate_mqtt, validate, accept, validated, parse}
use systemd2mqtt.Config.Validate.Units.{
  Error, Where, Seen, no_units, check, where_of, name_key, unit_components, unit_shape_errors,
  validate_units, see_unit,
}
use systemd2mqtt.Config.Validate.Unique.{units_parts, Distinct-ids, Distinct-names}
use systemd2mqtt.Config.Validate.Components.{components_owned}

module _ (parse_url : Text → Option Url) where
  accept_inv :
      (c : Config) (es : List Error) {c' : Config}
      → accept parse_url c es ≡ inr c'
      → (c ≡ c') × (es ≡ [])
  accept_inv c [] h = (cc, refl)
  accept_inv c (e ∷ es) h = cc

  validated_inv :
      (r : (ℕ × Text) ⊎ Config) {c' : Config}
      → validated parse_url r ≡ inr c'
      → (r ≡ inr c') × (validate parse_url c' ≡ [])
  validated_inv (inl (i, name)) h = cc
  validated_inv (inr c) {c'} h =
      let (a, b) = accept_inv c (validate parse_url c) h in
      (ap inr a, subst (λ d. validate parse_url d ≡ []) a b)

  pub parse_inv :
      (env : Env) (c c' : Config)
      → parse parse_url env c ≡ inr c'
      → (expand (apply_env env (apply_defaults env c)) ≡ inr c') × (validate parse_url c' ≡ [])
  unfolding parse
  parse_inv env c c' h = validated_inv (expand (apply_env env (apply_defaults env c))) h

  validate-units : (c : Config) → validate parse_url c ≡ [] → validate_units 0 c.all no_units ≡ []
  unfolding validate
  validate-units c h =
      (append-nil_parts (validate_units 0 c.all no_units) _
        (append-nil_parts (validate_mqtt parse_url c) _ h).1).0

  parse-units :
      (env : Env) (c c' : Config)
      → parse parse_url env c ≡ inr c'
      → validate_units 0 c'.all no_units ≡ []
  parse-units env c c' h = validate-units c' (parse_inv env c c' h).1

  -- In a configuration that `Parse` accepts, no two entries of the list of all units, template
  -- instances included, have the same object id, and no two have the same scope and name.
  pub parse-Distinct :
      (env : Env) (c c' : Config)
      → parse parse_url env c ≡ inr c'
      → Distinct (map object_id c'.all) × Distinct (map name_key c'.all)
  parse-Distinct env c c' h =
      let e = parse-units env c c' h in
      (Distinct-ids 0 c'.all no_units e, Distinct-names 0 c'.all no_units e)

  -- In a configuration that `Parse` accepts, two units that are exposed as the same Home
  -- Assistant component have the same object id.
  pub parse-components :
      (env : Env) (c c' : Config) (u v : UnitConfig) (k : Text)
      → parse parse_url env c ≡ inr c'
      → In u c'.all
      → In v c'.all
      → In k (unit_components u)
      → In k (unit_components v)
      → object_id u ≡ object_id v
  parse-components env c c' u v k h m n p q =
      components_owned 0 c'.all no_units k (parse-units env c c' h) m n p q

abbrev pub IsWellShaped : UnitConfig → Type 0
IsWellShaped u =
    (node_id_re (object_id u) ≡ true)
    × ((text_eq u.scope scope_user ≡ true) ⊎ (text_eq u.scope scope_system ≡ true))

check_none : (b : Bool) (e : Error) → check b e ≡ [] → b ≡ false
check_none true e h = cc
check_none false e h = refl

not-false : (b : Bool) → not b ≡ false → b ≡ true
not-false b h = ground arith

one_of : (a b : Bool) → (not a && not b) ≡ false → (a ≡ true) ⊎ (b ≡ true)
one_of true b h = inl refl
one_of false b h = inr (not-false b h)

shape-IsWellShaped : (w : Where) (u : UnitConfig) → unit_shape_errors w u ≡ [] → IsWellShaped u
unfolding unit_shape_errors
shape-IsWellShaped w u h =
    let (a, r) = append-nil_parts (check _ (Error.unit_name_invalid w u.name)) _ h in
    let (b, s) = append-nil_parts (check _ (Error.unit_is_template w u.name)) _ r in
    let (c, d) = append-nil_parts (check _ (Error.scope_invalid w u.scope)) _ s in
    (
      not-false (node_id_re (object_id u)) (check_none _ (Error.id_invalid w (object_id u)) d),
      one_of (text_eq u.scope scope_user) (text_eq u.scope scope_system)
          (check_none _ (Error.scope_invalid w u.scope) c),
    )

units-IsWellShaped :
    (i : ℕ) (us : List UnitConfig) (seen : Seen)
    → validate_units i us seen ≡ []
    → All IsWellShaped us
units-IsWellShaped i [] seen h = tt
units-IsWellShaped i (u ∷ us) seen h =
    let parts = units_parts i u us seen h in
    (
      shape-IsWellShaped (where_of i u) u parts.0,
      units-IsWellShaped (suc i) us (see_unit u seen) parts.2,
    )

find-Distinct :
    (us : List UnitConfig) {u : UnitConfig}
    → Distinct (map object_id us)
    → In u us
    → find (λ v. text_eq (object_id v) (object_id u)) us ≡ some u
find-Distinct [] d m = elim m [ ]
find-Distinct (v ∷ us) {u} d (here s) = ground (arith, text_eq_refl (object_id u), s)
find-Distinct (v ∷ us) {u} d (there m) = elim (Bool-cases (text_eq (object_id v) (object_id u))) [
  | inl same ↦ absurd (
      All-In (λ y. object_id v ≡ y → ⊥) (map object_id us) d.0 (In-map object_id us m)
        ((text_eq_iff (object_id v) (object_id u)).0 same))
  | inr other ↦ rw other (find-Distinct us d.1 m)
]

module _ (parse_url : Text → Option Url) (env : Env) (c c' : Config)
    (parsed : parse parse_url env c ≡ inr c') where
  -- In a configuration that `Parse` accepts, every unit's object id is one to 64 code points of
  -- `[a-z0-9_-]`, and its scope is user or system.
  pub parse-IsWellShaped : All IsWellShaped c'.all
  parse-IsWellShaped = units-IsWellShaped 0 c'.all no_units (parse-units parse_url env c c' parsed)

  -- In a configuration that `Parse` accepts, `UnitByID` finds each unit of the list of all units
  -- under its own object id: no other unit hides it.
  pub unit_by_id_self : (u : UnitConfig) → In u c'.all → unit_by_id c' (object_id u) ≡ some u
  unfolding unit_by_id
  unit_by_id_self u m = find-Distinct c'.all (parse-Distinct parse_url env c c' parsed).0 m

  -- In a configuration that `Parse` accepts, each option of each exclusive template's select
  -- resolves: `UnitByID` finds its unit id, and the unit found has the option's unit name, the
  -- option's label as its friendly name and the select's scope.
  pub option_resolves :
      (sel : TemplateSelect) (opt : SelectOption)
      → In sel c'.selects
      → In opt sel.options
      → (u : UnitConfig) × (unit_by_id c' opt.unit_id ≡ some u)
        × (u.name ≡ opt.unit_name)
        × (u.friendly_name ≡ opt.label)
        × (u.scope ≡ sel.scope)
  option_resolves sel opt m n =
      let (u, i, id, name, label, scope) =
        All-In (Names c'.all sel) sel.options
          (All-In (λ s. All (Names c'.all s) s.options) c'.selects
            (expand_options_named (apply_env env (apply_defaults env c)) c'
              (parse_inv parse_url env c c' parsed).0)
            m)
          n in
      (u, subst (λ k. unit_by_id c' k ≡ some u) id (unit_by_id_self u i), name, label, scope)
