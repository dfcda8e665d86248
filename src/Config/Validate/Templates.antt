-- ===== src/Config/Validate/Templates.antt =====
-- What the loop of `Validate` over the templates rules out: an id used twice, a bad id, and a
-- template without an instance.
use systemd2mqtt.Base.{
  ℕ, suc, ◌≡◌, refl, sym, subst, Bool, true, false, not, Bool-cases, inl, inr, Option, none, some,
  List, [], ◌∷◌, map, All, All-mono, Distinct, append-nil_parts, arith,
}
use systemd2mqtt.Base.Text.{Text, text_ne}
use systemd2mqtt.Base.Assoc.{lookup, insert, lookup-insert-none}
use systemd2mqtt.Config.Data.{TemplateConfig, Config}
use systemd2mqtt.Config.Names.{node_id_re}
use systemd2mqtt.Config.Expand.Selects.{exclusive_ids, expand_selects}
use systemd2mqtt.Config.Validate.{
  Url, check_instances, validate_templates, validate_mqtt, validate, parse,
}
use systemd2mqtt.Config.Validate.Units.{Error, check, check_used, is_nil, validate_units, no_units}
use systemd2mqtt.Config.Validate.Accepted.{parse_inv}
use systemd2mqtt.Config.Load.{Env, entries, apply_defaults, apply_env}

check-not : (b : Bool) (e : Error) → check (not b) e ≡ [] → b ≡ true
check-not true e h = refl
check-not false e h = cc

pub check-no : (b : Bool) (e : Error) → check b e ≡ [] → b ≡ false
check-no false e h = refl
check-no true e h = cc

unused {ℓ} : {V : Type ℓ} (o : Option V) (e : Error) → check_used o e ≡ [] → o ≡ none
unused none e h = refl
unused (some v) e h = cc

-- A good id, and an instance.
abbrev pub IsTemplate : TemplateConfig → Type 0
IsTemplate t = (node_id_re t.id ≡ true) × (is_nil t.instances ≡ false)

templates_parts :
    (i : ℕ) (t : TemplateConfig) (ts : List TemplateConfig) (seen : List (Text × ℕ))
    → validate_templates i (t ∷ ts) seen ≡ []
    → (lookup t.id seen ≡ none)
      × IsTemplate t
      × (validate_templates (suc i) ts (insert t.id i seen) ≡ [])
unfolding validate_templates
templates_parts i t ts seen h =
    let (a, r) =
      append-nil_parts (check_used (lookup t.id seen) (Error.template_id_used i t.id)) _ h in
    let (b, r') = append-nil_parts (check (is_nil t.instances) (Error.no_instances i)) _ r in
    let (c, r'') = append-nil_parts (check_instances i t.instances) _ r' in
    let (d, rest) =
      append-nil_parts (check (not (node_id_re t.id)) (Error.template_id_invalid i t.id)) _ r'' in
    (unused _ _ a, (check-not _ _ d, check-no _ _ b), rest)

templates-IsTemplate :
    (i : ℕ) (ts : List TemplateConfig) (seen : List (Text × ℕ))
    → validate_templates i ts seen ≡ []
    → All IsTemplate ts
templates-IsTemplate i [] seen h = tt
templates-IsTemplate i (t ∷ ts) seen h =
    let parts = templates_parts i t ts seen h in
    (parts.1, templates-IsTemplate (suc i) ts (insert t.id i seen) parts.2)

-- The ids of the exclusive templates are new, and distinct.
exclusive-Distinct :
    (i : ℕ) (ts : List TemplateConfig) (seen : List (Text × ℕ))
    → validate_templates i ts seen ≡ []
    → All (λ id. lookup id seen ≡ none) (exclusive_ids ts) × Distinct (exclusive_ids ts)
exclusive-Distinct i [] seen h = (tt, tt)
exclusive-Distinct i (t ∷ ts) seen h =
    let parts = templates_parts i t ts seen h in
    let rest = exclusive-Distinct (suc i) ts (insert t.id i seen) parts.2 in
    let old = All-mono (λ id e. lookup-insert-none t.id id i seen e) (exclusive_ids ts) rest.0 in
    elim (Bool-cases t.exclusive) [
      | inl yes' ↦
          subst (λ ids. All (λ id. lookup id seen ≡ none) ids × Distinct ids) (taken ts yes')
            (
              (parts.0, All-mono (λ id p. p.0) (exclusive_ids ts) old),
              (All-mono (λ id p. text_ne t.id id p.1) (exclusive_ids ts) old, rest.1),
            )
      | inr no' ↦
          subst (λ ids. All (λ id. lookup id seen ≡ none) ids × Distinct ids) (left ts no')
            (All-mono (λ id p. p.0) (exclusive_ids ts) old, rest.1)
    ]
  where
    taken :
        (ts : List TemplateConfig)
        → t.exclusive ≡ true
        → t.id ∷ exclusive_ids ts ≡ exclusive_ids (t ∷ ts)
    taken ts e = ground arith

    left :
        (ts : List TemplateConfig) → t.exclusive ≡ false → exclusive_ids ts ≡ exclusive_ids (t ∷ ts)
    left ts e = ground arith

Distinct-exclusive :
    (ts : List TemplateConfig) → validate_templates 0 ts [] ≡ [] → Distinct (exclusive_ids ts)
Distinct-exclusive ts h = (exclusive-Distinct 0 ts [] h).1

module _ (parse_url : Text → Option Url) where
  validate-templates :
      (c : Config) → validate parse_url c ≡ [] → validate_templates 0 (entries c.templates) [] ≡ []
  unfolding validate
  validate-templates c h =
      let r = (append-nil_parts (validate_mqtt parse_url c) _ h).1 in
      let r' = (append-nil_parts (validate_units 0 c.all no_units) _ r).1 in
      (append-nil_parts (validate_templates 0 (entries c.templates) []) _ r').0

module _ (parse_url : Text → Option Url) (env : Env) (c c' : Config)
    (parsed : parse parse_url env c ≡ inr c') where
  parsed_templates : validate_templates 0 (entries c'.templates) [] ≡ []
  parsed_templates = validate-templates parse_url c' (parse_inv parse_url env c c' parsed).1

  pub parse-IsTemplate : All IsTemplate (entries c'.templates)
  parse-IsTemplate = templates-IsTemplate 0 (entries c'.templates) [] parsed_templates

  -- In a configuration that `Parse` accepts, no two selects have the same id.
  pub parse-selects : Distinct (map (λ s. s.id) c'.selects)
  parse-selects =
      subst Distinct
        (sym
          (expand_selects (apply_env env (apply_defaults env c)) c'
            (parse_inv parse_url env c c' parsed).0).0)
        (Distinct-exclusive (entries c'.templates) parsed_templates)
