-- ===== src/App/Publish/Order.antt =====
-- What a full publish sends last.
use systemd2mqtt.Base.{
  ◌≡◌, refl, ◌∙◌, Bool, true, false, Bool-cases, List, [], ◌∷◌, ◌++◌, if◌then◌else◌, inl, inr,
  arith,
}
use systemd2mqtt.Base.Text.{Text, text}
use systemd2mqtt.Config.Data.{Scope}
use systemd2mqtt.Config.Unit.{ha_enabled}
use systemd2mqtt.Config.Query.{scopes}
use systemd2mqtt.Ha.Topics.{availability}
use systemd2mqtt.App.State.{snapshots}
use systemd2mqtt.App.Model.{App, Fixed, World, Message}
use systemd2mqtt.App.Publish.{
  publish, publish_discovery, schedule_reconcile, schedule_all, refresh_display, republish,
  republish_all,
}
use systemd2mqtt.App.Publish.Keeps.{
  publish_buses-keeps, publish_units-keeps, publish_templates-keeps, publish_display-keeps,
  publish_daemon_state-keeps, publish_discovery-keeps,
}

abbrev IsForced : App → Type 0
IsForced a = a.force ≡ true

publish-IsForced :
    (topic payload : Text) (retained : Bool) (a : App)
    → IsForced a
    → IsForced (publish topic payload retained a)
unfolding publish
publish-IsForced topic payload true a h = rw h refl
publish-IsForced topic payload false a h = h

publish_forced :
    (topic payload : Text) (a : App)
    → IsForced a
    → (publish topic payload true a).sent
      ≡ a.sent ++ (record { topic = topic; payload = payload; retained = true } ∷ [])
unfolding publish
publish_forced topic payload a h = rw h refl

module _ (x : Fixed) where
  schedule_all-sent : (ss : List Scope) (a : App) → (schedule_all x ss a).sent ≡ a.sent
  unfolding schedule_all schedule_reconcile
  schedule_all-sent [] a = refl
  schedule_all-sent (s ∷ ss) a = schedule_all-sent ss _ ∙ ground arith

  refresh_display-sent : (w : World) (a : App) → (refresh_display x w a).sent ≡ a.sent
  unfolding refresh_display
  refresh_display-sent w a = ground arith

  discovery_first :
      (a : App) → IsForced a → IsForced (if ha_enabled x.cfg then publish_discovery x a else a)
  discovery_first a h = elim (Bool-cases (ha_enabled x.cfg)) [
    | inl on ↦ rw on (publish_discovery-keeps IsForced publish-IsForced x a h)
    | inr off ↦ rw off h
  ]

  -- A full publish, from any state of the cache, ends with the daemon's availability: the last
  -- message sent is `online` on the availability topic, retained, behind all others.
  pub republish_all-last :
      (w : World) (a : App)
      → (before : List Message) × ((republish_all x w a).sent
          ≡ before
            ++ (record { topic = availability x.topics; payload = text "online"; retained = true }
                ∷ []))
  unfolding republish_all republish
  republish_all-last w a = (
    _,
    refresh_display-sent w _
        ∙ schedule_all-sent (scopes x.cfg) _
        ∙ publish_forced (availability x.topics) (text "online") _ (
            publish_daemon_state-keeps IsForced publish-IsForced x w _ (
              publish_display-keeps IsForced publish-IsForced x _ (
                publish_templates-keeps IsForced publish-IsForced x x.cfg.selects _ (
                  publish_units-keeps IsForced publish-IsForced x
                    (snapshots a.state.order a.state.units) _
                    (publish_buses-keeps IsForced publish-IsForced x (scopes x.cfg) _
                      (discovery_first (record a { force = true }) refl)))))),
  )
