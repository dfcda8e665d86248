-- ===== src/App/Loop/Fields.antt =====
-- What depends only on the messages sent, the cache of payloads and the flags of the wakes, and
-- what `publish` keeps, the parts of the loop keep.
use systemd2mqtt.Base.{
  ◌≡◌, Bool, true, false, Bool-cases, Option, none, some, List, [], ◌∷◌, if◌then◌else◌, inl, inr,
  arith,
}
use systemd2mqtt.Base.Text.{Text}
use systemd2mqtt.Base.Assoc.{insert}
use systemd2mqtt.Config.Data.{Scope, UnitConfig, TemplateSelect}
use systemd2mqtt.Config.Unit.{ha_enabled}
use systemd2mqtt.Config.Query.{scopes, unit_by_id}
use systemd2mqtt.App.State.{
  State, Applied, UnitSnapshot, unwatched, fault, applied, apply_unit, snapshots, set_job_result,
}
use systemd2mqtt.Systemd.Unit.{UnitStatus, JobResult, Error}
use systemd2mqtt.Systemd.Supervisor.{QueryResult, answered, failed}
use systemd2mqtt.App.Model.{App, Fixed, World, Message}
use systemd2mqtt.App.Publish.{
  publish, publish_discovery, schedule_reconcile, schedule_all, refresh_display, republish,
  republish_all,
}
use systemd2mqtt.App.Publish.Keeps.{
  publish_unit-keeps, publish_template-keeps, publish_buses-keeps, publish_units-keeps,
  publish_templates-keeps, publish_display-keeps, publish_daemon_state-keeps,
  publish_discovery-keeps,
}
use systemd2mqtt.App.Reconcile.{
  publish_applied, apply_statuses, publish_scope_templates, reconcile_answer, reconcile_scope,
  publish_job, job_done_of, handle_job_done,
}

-- An equation between what is computed from these three fields.
module _ {X : Type 0} (F G : List Message → List (Text × Text) → List (Scope × Bool) → X) where
  abbrev pub Held : App → Type 0
  Held a = F a.sent a.last a.wake_pending ≡ G a.sent a.last a.wake_pending

  module _
      (keeps : (topic payload : Text) (retained : Bool) (a : App)
        → Held a
        → Held (publish topic payload retained a)) where
    module _ (x : Fixed) where
      pub schedule_reconcile-Held : (s : Scope) (a : App) → Held a → Held (schedule_reconcile x s a)
      unfolding schedule_reconcile
      schedule_reconcile-Held s a h = ground arith

      schedule_all-Held : (ss : List Scope) (a : App) → Held a → Held (schedule_all x ss a)
      unfolding schedule_all
      schedule_all-Held [] a h = h
      schedule_all-Held (s ∷ ss) a h = schedule_all-Held ss _ (schedule_reconcile-Held s a h)

      pub refresh_display-Held : (w : World) (a : App) → Held a → Held (refresh_display x w a)
      unfolding refresh_display
      refresh_display-Held w a h = ground arith

      discovery-Held :
          (a : App) → Held a → Held (if ha_enabled x.cfg then publish_discovery x a else a)
      discovery-Held a h = elim (Bool-cases (ha_enabled x.cfg)) [
        | inl on ↦ rw on (publish_discovery-keeps Held keeps x a h)
        | inr off ↦ rw off h
      ]

      pub republish_all-Held : (w : World) (a : App) → Held a → Held (republish_all x w a)
      unfolding republish_all republish
      republish_all-Held w a h = refresh_display-Held w _ (
          schedule_all-Held (scopes x.cfg) _ (
            keeps _ _ true _ (
              publish_daemon_state-keeps Held keeps x w _ (
                publish_display-keeps Held keeps x _ (
                  publish_templates-keeps Held keeps x x.cfg.selects _ (
                    publish_units-keeps Held keeps x (snapshots a.state.order a.state.units) _ (
                      publish_buses-keeps Held keeps x (scopes x.cfg) _
                        (discovery-Held (record a { force = true }) h))))))))

      publish_applied-Held : (r : State × Applied) (a : App) → Held a → Held (publish_applied x r a)
      publish_applied-Held (s, unwatched) a h = h
      publish_applied-Held (s, fault) a h = h
      publish_applied-Held (s, applied u changed) a h =
          publish_unit-keeps Held keeps x u (record a { state = s }) h

      apply_statuses-Held :
          (s : Scope) (w : World) (sts : List UnitStatus) (a : App)
          → Held a
          → Held (apply_statuses x s w sts a)
      unfolding apply_statuses
      apply_statuses-Held s w [] a h = h
      apply_statuses-Held s w (st ∷ sts) a h =
          apply_statuses-Held s w sts _ (publish_applied-Held (apply_unit s st w.now a.state) a h)

      publish_scope_templates-Held :
          (s : Scope) (sels : List TemplateSelect) (a : App)
          → Held a
          → Held (publish_scope_templates x s sels a)
      unfolding publish_scope_templates
      publish_scope_templates-Held s [] a h = h
      publish_scope_templates-Held s (sel ∷ sels) a h =
          publish_scope_templates-Held s sels _
            (ground (arith, publish_template-keeps Held keeps x sel a h))

      pub reconcile_scope-Held :
          (s : Scope) (w : World) (a : App) → Held a → Held (reconcile_scope x s w a)
      unfolding reconcile_scope
      reconcile_scope-Held s w a h =
          ground
            (arith, answer-Held (w.query s) (record a { pending = insert s false a.pending }) h)
        where
          answer-Held : (r : QueryResult) (b : App) → Held b → Held (reconcile_answer x s w r b)
          answer-Held (failed e) b k = k
          answer-Held (answered sts) b k =
              publish_scope_templates-Held s x.cfg.selects _ (apply_statuses-Held s w sts b k)

      publish_job-Held :
          (r : State × Option UnitSnapshot) (a : App) → Held a → Held (publish_job x r a)
      publish_job-Held (s, none) a h = h
      publish_job-Held (s, some u) a h =
          publish_unit-keeps Held keeps x u (record a { state = s }) h

      pub handle_job_done-Held :
          (id verb : Text) (result : JobResult) (err : Option Error) (w : World) (a : App)
          → Held a
          → Held (handle_job_done x id verb result err w a)
      unfolding handle_job_done
      handle_job_done-Held id verb result err w a h = of (unit_by_id x.cfg id)
        where
          of : (o : Option UnitConfig) → Held (job_done_of x o id verb result err w a)
          of none = h
          of (some u) =
              schedule_reconcile-Held u.scope _
                (publish_job-Held (set_job_result id verb result err w.now a.state) a h)
