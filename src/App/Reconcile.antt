-- ===== src/App/Reconcile.antt =====
-- internal/app/reconcile.go. The loop has a supervisor for each scope of the configuration.
use systemd2mqtt.Base.{false, Option, none, some, List, [], ◌∷◌, if◌then◌else◌}
use systemd2mqtt.Base.Text.{Text, text_eq, contains}
use systemd2mqtt.Base.Assoc.{insert}
use systemd2mqtt.Config.Data.{Scope, UnitConfig, TemplateSelect}
use systemd2mqtt.Config.Query.{scopes, unit_by_id}
use systemd2mqtt.Systemd.Unit.{UnitStatus, JobResult, Error}
use systemd2mqtt.Systemd.Supervisor.{QueryResult, answered, failed}
use systemd2mqtt.App.State.{
  UnitSnapshot, State, Applied, unwatched, fault, applied, apply_unit, set_job_result,
}
use systemd2mqtt.App.Model.{App, Fixed, World}
use systemd2mqtt.App.Publish.{publish_unit, publish_template, schedule_reconcile}

module _ (x : Fixed) where
  abbrev pub publish_applied : State × Applied → App → App
  publish_applied (s, unwatched) a = record a { state = s }
  publish_applied (s, fault) a = record a { state = s }
  publish_applied (s, applied u changed) a = publish_unit x u (record a { state = s })

  -- The loop over the statuses.
  unfoldable pub apply_statuses : Scope → World → List UnitStatus → App → App
  apply_statuses scope w [] a = a
  apply_statuses scope w (st ∷ sts) a =
      apply_statuses scope w sts (publish_applied (apply_unit scope st w.now a.state) a)

  -- The loop over the selects.
  unfoldable pub publish_scope_templates : Scope → List TemplateSelect → App → App
  publish_scope_templates scope [] a = a
  publish_scope_templates scope (sel ∷ sels) a =
      publish_scope_templates scope sels
        (if text_eq sel.scope scope then publish_template x sel a else a)

  abbrev pub reconcile_answer : Scope → World → QueryResult → App → App
  reconcile_answer scope w (failed e) a = a
  reconcile_answer scope w (answered sts) a =
      publish_scope_templates scope x.cfg.selects (apply_statuses scope w sts a)

  -- `reconcileScope`
  unfoldable pub reconcile_scope : Scope → World → App → App
  reconcile_scope scope w a =
      let cleared : App = record a { pending = insert scope false a.pending } in
      if contains (scopes x.cfg) scope
      then reconcile_answer scope w (w.query scope) cleared
      else cleared

  abbrev pub publish_job : State × Option UnitSnapshot → App → App
  publish_job (s, none) a = record a { state = s }
  publish_job (s, some u) a = publish_unit x u (record a { state = s })

  abbrev pub job_done_of :
      Option UnitConfig → Text → Text → JobResult → Option Error → World → App → App
  job_done_of none id verb result err w a = a
  job_done_of (some u) id verb result err w a =
      schedule_reconcile x u.scope (publish_job (set_job_result id verb result err w.now a.state) a)

  -- `handleJobDone`
  unfoldable pub handle_job_done : Text → Text → JobResult → Option Error → World → App → App
  handle_job_done id verb result err w a = job_done_of (unit_by_id x.cfg id) id verb result err w a
