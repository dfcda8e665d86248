-- ===== src/Examples/Systemd.antt =====
-- internal/systemd at a manager with one alias, and at a supervisor's runs.
use systemd2mqtt.Base.{
  ℕ, ◌≡◌, refl, inl, inr, true, false, ◌||◌, none, List, [], ◌∷◌, if◌then◌else◌, arith, Bool-cases,
  ||-false, subst,
}
use systemd2mqtt.Base.Text.{Text, text, text_eq, text_eq_iff}
use systemd2mqtt.Base.Assoc.{lookup}
use systemd2mqtt.Config.Data.{scope_user}
use systemd2mqtt.Systemd.Unit.{Error, err_offline}
use systemd2mqtt.Systemd.Statuses.{RawStatus, map_statuses, resolve_aliases}
use systemd2mqtt.Systemd.Statuses.Exact.{Manager, answer, truth, IsSound, map_statuses-truth}
use systemd2mqtt.Systemd.Supervisor.{
  QueryResult, answered, Supervisor, Event, dial_failed, dialed, redial_taken, notified,
  query_begins, query_ends, failed, new_supervisor, new_system, run,
}
use systemd2mqtt.Systemd.Supervisor.Invariant.{Inv, run_new-Inv}
use systemd2mqtt.Systemd.Supervisor.Liveness.{asks_redial, queries, failed_query_redials}
use systemd2mqtt.Systemd.Statuses.Aliases.{map_statuses-resolve_aliases}

abbrev real_unit : Text
real_unit = text "dbus-broker.service"

abbrev alias_unit : Text
alias_unit = text "dbus.service"

-- The empty name stands for no unit; it is given one, so that every name has a primary id.
abbrev primary_of : Text → Text
primary_of n = if text_eq n alias_unit || text_eq n [] then real_unit else n

abbrev state_of : Text → RawStatus
state_of k = record {
  name = k;
  active_state = text "active";
  sub_state = text "running";
  load_state = text "loaded";
}

primary_of_idem : (n : Text) → primary_of (primary_of n) ≡ primary_of n
unfolding text_eq
primary_of_idem n = elim (Bool-cases (text_eq n alias_unit || text_eq n [])) [
  | inl same ↦ rw same (refl)
  | inr other ↦ rw (other, other) (refl)
]

primary_of_set : (n : Text) → text_eq (primary_of n) [] ≡ false
unfolding text_eq
primary_of_set n = elim (Bool-cases (text_eq n alias_unit || text_eq n [])) [
  | inl same ↦ rw same (refl)
  | inr other ↦ rw other (||-false (text_eq n alias_unit) (text_eq n []) other).1
]

abbrev broker : Manager
broker = record {
  primary = primary_of;
  state = state_of;
  state_name = λ k. refl;
  primary_idem = primary_of_idem;
  primary_set = primary_of_set;
}

abbrev asked : List Text
asked = alias_unit ∷ real_unit ∷ []

abbrev recorded : List (Text × Text)
recorded = (alias_unit, real_unit) ∷ []

recorded_sound : IsSound broker asked recorded
unfolding lookup text_eq
recorded_sound n p h = elim (Bool-cases (text_eq alias_unit n)) [
  | inl same ↦ subst (λ k. p ≡ primary_of k) ((text_eq_iff alias_unit n).0 same) (cc)
  | inr other ↦ ground arith
]

map_statuses-truth_example :
    map_statuses scope_user asked recorded (answer broker asked) ≡ truth broker scope_user asked
unfolding lookup text_eq
map_statuses-truth_example =
    map_statuses-truth broker scope_user asked recorded recorded_sound
      (inr (inl refl), (inl refl, tt))

map_statuses-resolve_aliases_example :
    map_statuses scope_user asked
      (resolve_aliases asked (answer broker asked))
      (answer broker asked)
    ≡ truth broker scope_user asked
map_statuses-resolve_aliases_example = map_statuses-resolve_aliases broker scope_user asked

abbrev events : List (Event ℕ)
events =
    dial_failed
    ∷ dialed 7
    ∷ notified
    ∷ query_begins
    ∷ query_ends (failed err_offline)
    ∷ redial_taken
    ∷ notified
    ∷ []

run_new-Inv_example : Inv (run {M = ℕ} new_system events)
run_new-Inv_example = run_new-Inv events

abbrev gone : Error
gone = record { message = text "EOF"; is_closed = true; dbus_name = none }

abbrev fresh : Supervisor ℕ
fresh = new_supervisor

-- A failure that an answer follows, and two in a row.
abbrev slow : Error
slow = record { message = text "timeout"; is_closed = false; dbus_name = none }

abbrev answers : List (ℕ × QueryResult)
answers = (0, failed slow) ∷ (0, answered []) ∷ (0, failed slow) ∷ (0, failed slow) ∷ []

failed_query_redials_example :
    (queries answers fresh).redial ≡ (false || asks_redial 0 false answers)
failed_query_redials_example = failed_query_redials answers fresh (omega arith)
