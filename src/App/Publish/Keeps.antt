-- ===== src/App/Publish/Keeps.antt =====
-- What `publish` keeps, every function that only publishes keeps.
use systemd2mqtt.Base.{Bool, true, false, Bool-cases, Option, none, some, List, [], ◌∷◌, inl, inr}
use systemd2mqtt.Base.Text.{Text}
use systemd2mqtt.Config.Data.{Scope, TemplateSelect}
use systemd2mqtt.Config.Unit.{display_enabled}
use systemd2mqtt.App.State.{template_state, UnitSnapshot}
use systemd2mqtt.App.Model.{App, Fixed, World, display_available}
use systemd2mqtt.App.Publish.{
  publish, publish_encoded, publish_bus, publish_unit, publish_label, publish_template,
  publish_display, publish_daemon_state, publish_discovery, publish_buses, publish_units,
  publish_templates,
}

module _ (P : App → Type 0)
    (keeps : (topic payload : Text) (retained : Bool) (a : App)
      → P a
      → P (publish topic payload retained a)) where
  pub publish_encoded-keeps :
      (topic : Text) (o : Option Text) (a : App) → P a → P (publish_encoded topic o a)
  publish_encoded-keeps topic none a p = p
  publish_encoded-keeps topic (some payload) a p = keeps topic payload true a p

  module _ (x : Fixed) where
    pub publish_bus-keeps : (s : Scope) (a : App) → P a → P (publish_bus x s a)
    unfolding publish_bus
    publish_bus-keeps s a p = keeps _ _ true a p

    pub publish_unit-keeps : (u : UnitSnapshot) (a : App) → P a → P (publish_unit x u a)
    unfolding publish_unit
    publish_unit-keeps u a p = elim (Bool-cases u.known) [
      | inl known ↦ rw known (publish_encoded-keeps _ _ _ (keeps _ _ true a p))
      | inr unknown ↦ rw unknown p
    ]

    publish_label-keeps :
        (id : Text) (t : Text × List Text × Bool) (a : App) → P a → P (publish_label x id t a)
    publish_label-keeps id (label, active, true) a p = keeps _ _ true a p
    publish_label-keeps id (label, active, false) a p = p

    pub publish_template-keeps :
        (sel : TemplateSelect) (a : App) → P a → P (publish_template x sel a)
    unfolding publish_template
    publish_template-keeps sel a p = publish_label-keeps sel.id (template_state a.state sel) a p

    pub publish_display-keeps : (a : App) → P a → P (publish_display x a)
    unfolding publish_display
    publish_display-keeps a p = elim (Bool-cases (display_enabled x.cfg)) [
      | inr off ↦ rw off p
      | inl on ↦ rw on (elim (Bool-cases (display_available a)) [
        | inr gone ↦ rw gone (keeps _ _ true a p)
        | inl here ↦
            rw here (
              keeps _ _ true _
                (publish_encoded-keeps _ _ _ (keeps _ _ true _ (keeps _ _ true a p))))
      ])
    ]

    pub publish_daemon_state-keeps : (w : World) (a : App) → P a → P (publish_daemon_state x w a)
    unfolding publish_daemon_state
    publish_daemon_state-keeps w a p = publish_encoded-keeps _ _ a p

    pub publish_discovery-keeps : (a : App) → P a → P (publish_discovery x a)
    unfolding publish_discovery
    publish_discovery-keeps a p = publish_encoded-keeps _ _ a p

    pub publish_buses-keeps : (ss : List Scope) (a : App) → P a → P (publish_buses x ss a)
    unfolding publish_buses
    publish_buses-keeps [] a p = p
    publish_buses-keeps (s ∷ ss) a p = publish_buses-keeps ss _ (publish_bus-keeps s a p)

    pub publish_units-keeps : (us : List UnitSnapshot) (a : App) → P a → P (publish_units x us a)
    unfolding publish_units
    publish_units-keeps [] a p = p
    publish_units-keeps (u ∷ us) a p = publish_units-keeps us _ (publish_unit-keeps u a p)

    pub publish_templates-keeps :
        (sels : List TemplateSelect) (a : App) → P a → P (publish_templates x sels a)
    unfolding publish_templates
    publish_templates-keeps [] a p = p
    publish_templates-keeps (sel ∷ sels) a p =
        publish_templates-keeps sels _ (publish_template-keeps sel a p)
