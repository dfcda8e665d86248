-- ===== src/App/Template/Exclusive.antt =====
-- The promise of an exclusive select: at most one instance runs.
use systemd2mqtt.Base.{
  ℕ, suc, ◌≡◌, refl, Bool, true, false, not, ◌&&◌, Option, none, some, is_some, List, [], ◌∷◌, ◌++◌,
  any, arith,
}
use systemd2mqtt.Base.Text.{text, text_eq}
use systemd2mqtt.Config.Data.{UnitConfig}
use systemd2mqtt.App.Model.{TemplateCmd}
use systemd2mqtt.App.Template.{
  Host, run_job, JobDone, Failure, stop_failed, succeeded, is_nil, stop_all, run_template,
}

abbrev pub is_start : JobDone → Bool
is_start e = text_eq e.verb (text "start")

module _ (h : Host) where
  -- Each unit is stopped, the first at step n: the daemon is not stopping, and the job is done.
  unfoldable pub all_stopped : ℕ → List UnitConfig → Bool
  all_stopped n [] = true
  all_stopped n (u ∷ us) =
      let rest = all_stopped (suc n) us in
      not (h.stopping n) && succeeded (run_job h n u (text "stop")) && rest

  is_nil-snoc : (fs : List Failure) (f : Failure) → is_nil (fs ++ (f ∷ [])) ≡ false
  is_nil-snoc [] f = refl
  is_nil-snoc (g ∷ fs) f = refl

  stop_all-start :
      (n : ℕ) (us : List UnitConfig) (start : Option UnitConfig) (failed : List Failure)
      → any is_start (stop_all h n us start failed).events
        ≡ (is_some start && is_nil failed && all_stopped n us)
  unfolding stop_all all_stopped text_eq
  stop_all-start n [] none failed = refl
  stop_all-start n [] (some u) failed = ground arith
  stop_all-start n (u ∷ us) start failed = ground (
    arith,
    stop_all-start (suc n) us start failed,
    stop_all-start (suc n) us start (failed ++ (stop_failed u.name ∷ [])),
    is_nil-snoc failed (stop_failed u.name),
  )

  -- A template command runs a start job exactly if it has a unit to start and every unit that it
  -- has to stop was stopped: for none of them was the daemon stopping, and each stop job was done.
  pub run_template-start :
      (n : ℕ) (cmd : TemplateCmd)
      → any is_start (run_template h n cmd).events ≡ (is_some cmd.start && all_stopped n cmd.stop)
  unfolding run_template
  run_template-start n cmd = ground (arith, stop_all-start n cmd.stop cmd.start [])
