-- ===== src/App/Template.antt =====
-- internal/app/commands.go: `runJob`, `runTemplate` and the workers' loops.
pub mod Exclusive
pub mod Choice
use systemd2mqtt.Base.{
  ℕ, suc, Bool, true, false, not, ◌&&◌, Option, none, some, List, [], ◌∷◌, ◌++◌, if◌then◌else◌,
}
use systemd2mqtt.Base.Text.{Text, text, text_eq}
use systemd2mqtt.Config.Data.{Scope, UnitConfig}
use systemd2mqtt.Config.Unit.{object_id}
use systemd2mqtt.Systemd.Unit.{JobResult, Error, job_done, job_error, err_offline}
use systemd2mqtt.App.Model.{TemplateCmd}

-- What a worker meets at each of its steps, which are counted: whether the daemon is stopping, the
-- supervisor of a scope (none where there is none, otherwise whether it has a manager), and how the
-- manager answers a verb on a unit.
pub record Host : Type 0 where
  pub stopping : ℕ → Bool
  pub supervisor : Scope → Option Bool
  pub job : ℕ → Text → Text → JobResult × Option Error

abbrev pub unknown_verb : Text → Error
unknown_verb verb = record {
  message = text "unknown verb " ++ verb;
  is_closed = false;
  dbus_name = none;
}

abbrev pub run_verb : Host → ℕ → UnitConfig → Text → JobResult × Option Error
run_verb h n u verb =
    if text_eq verb (text "start")
    then h.job n u.name verb
    else if text_eq verb (text "stop")
    then h.job n u.name verb
    else if text_eq verb (text "restart")
    then h.job n u.name verb
    else (job_error, some (unknown_verb verb))

abbrev pub run_on : Option Bool → Host → ℕ → UnitConfig → Text → JobResult × Option Error
run_on none h n u verb = (job_error, some err_offline)
run_on (some false) h n u verb = (job_error, some err_offline)
run_on (some true) h n u verb = run_verb h n u verb

-- `runJob`
unfoldable pub run_job : Host → ℕ → UnitConfig → Text → JobResult × Option Error
run_job h n u verb = run_on (h.supervisor u.scope) h n u verb

-- `evJobDone`
pub record JobDone : Type 0 where
  pub id : Text
  pub verb : Text
  pub result : JobResult
  pub err : Option Error

-- The parts that `errors.Join` puts together, in order; no parts are no error.
pub data Failure : Type 0 where
  canceled : Failure
  stop_failed : Text → Failure
  not_starting : Text → Failure
  start_failed : Text → Failure

-- What a command leaves: the events queued, in order, and the error.
pub record Ran : Type 0 where
  pub events : List JobDone
  pub failures : List Failure

abbrev pub succeeded : JobResult × Option Error → Bool
succeeded (result, none) = text_eq result job_done
succeeded (result, some e) = false

abbrev pub job_event : UnitConfig → Text → JobResult × Option Error → JobDone
job_event u verb (result, err) = record {
  id = object_id u;
  verb = verb;
  result = result;
  err = err;
}

abbrev pub is_nil {ℓ} : {A : Type ℓ} → List A → Bool
is_nil [] = true
is_nil (x ∷ xs) = false

module _ (h : Host) where
  -- Behind the loop over the units to stop, at step n.
  abbrev pub start_chosen : ℕ → Option UnitConfig → List Failure → Ran
  start_chosen n none failed = record { events = []; failures = failed }
  start_chosen n (some u) failed =
      if is_nil failed
      then record {
        events = job_event u (text "start") (run_job h n u (text "start")) ∷ [];
        failures =
            if succeeded (run_job h n u (text "start")) then [] else start_failed u.name ∷ [];
      }
      else record { events = []; failures = failed ++ (not_starting u.name ∷ []) }

  abbrev pub after : JobDone → Ran → Ran
  after e r = record r { events = e ∷ r.events }

  -- The loop, with what has failed so far; each unit is a step.
  unfoldable pub stop_all : ℕ → List UnitConfig → Option UnitConfig → List Failure → Ran
  stop_all n [] start failed = start_chosen n start failed
  stop_all n (u ∷ us) start failed =
      let result = run_job h n u (text "stop") in
      let rest =
        stop_all (suc n) us start
          (if succeeded result then failed else failed ++ (stop_failed u.name ∷ [])) in
      if h.stopping n
      then record { events = []; failures = canceled ∷ [] }
      else after (job_event u (text "stop") result) rest

  -- `runTemplate`, from step n.
  unfoldable pub run_template : ℕ → TemplateCmd → Ran
  unfolding stop_all
  run_template n cmd = stop_all n cmd.stop cmd.start []
