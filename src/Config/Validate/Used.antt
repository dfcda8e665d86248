-- ===== src/Config/Validate/Used.antt =====
-- In an accepted configuration each unit and each select has a scope that `Scopes` lists.
use systemd2mqtt.Base.{
  ◌≡◌, refl, sym, ◌∙◌, subst, false, inl, inr, Option, List, [], ◌∷◌, All, All-mono, In, here,
  there, All-In, All-with_In, In-keep,
}
use systemd2mqtt.Base.Text.{Text, text_eq, text_eq_iff}
use systemd2mqtt.Config.Data.{
  UnitConfig, Scope, TemplateSelect, SelectOption, Config, scope_user, scope_system,
}
use systemd2mqtt.Config.Query.{scopes, units_for_scope, if_any}
use systemd2mqtt.Config.Load.{Env, entries, apply_defaults, apply_env}
use systemd2mqtt.Config.Expand.Options.{Names, SelectNames, expand_options_named}
use systemd2mqtt.Config.Expand.Selects.{expand_selects}
use systemd2mqtt.Config.Validate.{Url, parse}
use systemd2mqtt.Config.Validate.Units.{is_nil}
use systemd2mqtt.Config.Validate.Accepted.{IsWellShaped, parse-IsWellShaped, parse_inv}
use systemd2mqtt.Config.Validate.Templates.{IsTemplate, parse-IsTemplate}

-- The scope has a unit.
abbrev pub IsUsed : Config → Scope → Type 0
IsUsed c s = In s (scopes c)

In-if_any_self :
    {u : UnitConfig} (us : List UnitConfig) (s : Scope) (out : List Scope)
    → In u us
    → In s (if_any us s out)
In-if_any_self [] s out m = elim m [ ]
In-if_any_self (x ∷ us) s out m = here refl

In-if_any_other :
    {r : Scope} (us : List UnitConfig) (s : Scope) (out : List Scope)
    → In r out
    → In r (if_any us s out)
In-if_any_other [] s out m = m
In-if_any_other (x ∷ us) s out m = there m

-- The scope of a unit, user or system, is one of the configuration's scopes.
unit-IsUsed : (c : Config) {u : UnitConfig} → In u c.all → IsWellShaped u → IsUsed c u.scope
unfolding scopes units_for_scope
unit-IsUsed c {u} m w = elim w.1 [
  | inl user ↦
      subst (λ s. In s (scopes c)) (sym ((text_eq_iff u.scope scope_user).0 user))
        (In-if_any_self _ scope_user _ (In-keep (λ v. text_eq v.scope scope_user) c.all user m))
  | inr system ↦
      subst (λ s. In s (scopes c)) (sym ((text_eq_iff u.scope scope_system).0 system))
        (In-if_any_other (units_for_scope c scope_user) scope_user _ (
          In-if_any_self _ scope_system _
            (In-keep (λ v. text_eq v.scope scope_system) c.all system m)))
]

option-IsUsed :
    (c : Config) (s : TemplateSelect) (os : List SelectOption)
    → All IsWellShaped c.all
    → is_nil os ≡ false
    → All (Names c.all s) os
    → IsUsed c s.scope
option-IsUsed c s [] w h n = cc
option-IsUsed c s (o ∷ os) w h n =
    let (u, m, id, name, label, scope) = n.0 in
    subst (λ r. In r (scopes c)) scope (unit-IsUsed c m (All-In IsWellShaped c.all w m))

module _ (parse_url : Text → Option Url) (env : Env) (c c' : Config)
    (parsed : parse parse_url env c ≡ inr c') where
  pub units-IsUsed : All (λ u. IsUsed c' u.scope) c'.all
  units-IsUsed =
      All-mono (λ u p. unit-IsUsed c' p.0 p.1) c'.all
        (All-with_In _ c'.all (parse-IsWellShaped parse_url env c c' parsed))

  pub selects-IsUsed : All (λ s. IsUsed c' s.scope) c'.selects
  selects-IsUsed =
      let ex = (parse_inv parse_url env c c' parsed).0 in
      let c0 = apply_env env (apply_defaults env c) in
      let well = parse-IsWellShaped parse_url env c c' parsed in
      let named = expand_options_named c0 c' ex in
      let ts = parse-IsTemplate parse_url env c c' parsed in
      All-mono
        (λ s p.
          option-IsUsed c' s s.options well
            (p.1.3 ∙ (All-In IsTemplate (entries c'.templates) ts p.1.1).1)
            (All-In (SelectNames c'.all) c'.selects named p.0))
        c'.selects (All-with_In _ c'.selects (expand_selects c0 c' ex).1)
