-- ===== src/Config/Query.antt =====
-- internal/config/config.go: the lookups that the daemon makes in a loaded configuration.
use systemd2mqtt.Base.{Option, List, [], ◌∷◌, keep, find}
use systemd2mqtt.Base.Text.{Text, text_eq}
use systemd2mqtt.Config.Data.{Scope, UnitConfig, TemplateSelect, Config, scope_user, scope_system}
use systemd2mqtt.Config.Unit.{object_id}

-- `UnitsForScope`
unfoldable pub units_for_scope : Config → Scope → List UnitConfig
units_for_scope c s = keep (λ u. text_eq u.scope s) c.all

-- `UnitByID`
unfoldable pub unit_by_id : Config → Text → Option UnitConfig
unit_by_id c id = find (λ u. text_eq (object_id u) id) c.all

abbrev pub if_any : List UnitConfig → Scope → List Scope → List Scope
if_any [] s out = out
if_any (u ∷ us) s out = s ∷ out

-- `Scopes`
unfoldable pub scopes : Config → List Scope
unfolding units_for_scope
scopes c =
    if_any (units_for_scope c scope_user) scope_user
      (if_any (units_for_scope c scope_system) scope_system [])

-- `selectByID` of internal/app/app.go
unfoldable pub select_by_id : Config → Text → Option TemplateSelect
select_by_id c id = find (λ sel. text_eq sel.id id) c.selects
