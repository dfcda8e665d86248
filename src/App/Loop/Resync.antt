-- ===== src/App/Loop/Resync.antt =====
-- `pollTick` and the loop's view of the buses.
use systemd2mqtt.Base.{
  ◌≡◌, sym, ◌∙◌, subst, Bool, true, false, Bool-cases, List, [], ◌∷◌, inl, inr, arith, In, here,
  there,
}
use systemd2mqtt.Base.Text.{Text, text_eq, text_eq_iff, text_eq_refl}
use systemd2mqtt.Base.Assoc.{insert, lookup-insert}
use systemd2mqtt.Config.Data.{Scope, TemplateSelect}
use systemd2mqtt.Config.Query.{scopes}
use systemd2mqtt.Systemd.Unit.{UnitStatus}
use systemd2mqtt.Systemd.Supervisor.{QueryResult, answered, failed}
use systemd2mqtt.App.State.{State, Applied, unwatched, fault, applied, apply_unit}
use systemd2mqtt.App.Model.{App, Fixed, World, bus_flag}
use systemd2mqtt.App.Publish.{publish, publish_bus, publish_daemon_state, refresh_display}
use systemd2mqtt.App.Publish.Keeps.{
  publish_bus-keeps, publish_unit-keeps, publish_template-keeps, publish_daemon_state-keeps,
}
use systemd2mqtt.App.Reconcile.{
  publish_applied, apply_statuses, publish_scope_templates, reconcile_answer, reconcile_scope,
}
use systemd2mqtt.App.Loop.{differ, handle_bus_state, handle, poll_scope, poll_scopes, poll_tick}

-- The loop's flag of the bus s.
abbrev IsAt : Scope → Bool → App → Type 0
IsAt s v a = bus_flag a s ≡ v

publish-IsAt :
    (s : Scope) (v : Bool) (topic payload : Text) (retained : Bool) (a : App)
    → IsAt s v a
    → IsAt s v (publish topic payload retained a)
unfolding publish
publish-IsAt s v topic payload true a h = ground arith
publish-IsAt s v topic payload false a h = h

module _ (x : Fixed) (s : Scope) (v : Bool) where
  publish_applied-IsAt :
      (r : State × Applied) (a : App) → IsAt s v a → IsAt s v (publish_applied x r a)
  publish_applied-IsAt (st, unwatched) a h = h
  publish_applied-IsAt (st, fault) a h = h
  publish_applied-IsAt (st, applied u changed) a h =
      publish_unit-keeps (IsAt s v) (publish-IsAt s v) x u (record a { state = st }) h

  apply_statuses-IsAt :
      (t : Scope) (w : World) (sts : List UnitStatus) (a : App)
      → IsAt s v a
      → IsAt s v (apply_statuses x t w sts a)
  unfolding apply_statuses
  apply_statuses-IsAt t w [] a h = h
  apply_statuses-IsAt t w (st ∷ sts) a h =
      apply_statuses-IsAt t w sts _ (publish_applied-IsAt (apply_unit t st w.now a.state) a h)

  publish_scope_templates-IsAt :
      (t : Scope) (sels : List TemplateSelect) (a : App)
      → IsAt s v a
      → IsAt s v (publish_scope_templates x t sels a)
  unfolding publish_scope_templates
  publish_scope_templates-IsAt t [] a h = h
  publish_scope_templates-IsAt t (sel ∷ sels) a h =
      publish_scope_templates-IsAt t sels _
        (ground (arith, publish_template-keeps (IsAt s v) (publish-IsAt s v) x sel a h))

  answer-IsAt :
      (t : Scope) (w : World) (r : QueryResult) (a : App)
      → IsAt s v a
      → IsAt s v (reconcile_answer x t w r a)
  answer-IsAt t w (failed e) a h = h
  answer-IsAt t w (answered sts) a h =
      publish_scope_templates-IsAt t x.cfg.selects _ (apply_statuses-IsAt t w sts a h)

  reconcile_scope-IsAt :
      (t : Scope) (w : World) (a : App) → IsAt s v a → IsAt s v (reconcile_scope x t w a)
  unfolding reconcile_scope
  reconcile_scope-IsAt t w a h =
      ground
        (arith, answer-IsAt t w (w.query t) (record a { pending = insert t false a.pending }) h)

  announced :
      (t : Scope) (w : World) (a : App)
      → IsAt s v a
      → IsAt s v (publish_daemon_state x w (publish_bus x t a))
  announced t w a h =
      publish_daemon_state-keeps (IsAt s v) (publish-IsAt s v) x w _
        (publish_bus-keeps (IsAt s v) (publish-IsAt s v) x t a h)

  handle_bus_state-IsAt :
      (t : Scope) (online : Bool) (w : World) (a : App)
      → IsAt s v (record a { bus_online = insert t online a.bus_online })
      → IsAt s v (handle_bus_state x t online w a)
  unfolding handle_bus_state
  handle_bus_state-IsAt t true w a h =
      reconcile_scope-IsAt t w _
        (announced t w (record a { bus_online = insert t true a.bus_online }) h)
  handle_bus_state-IsAt t false w a h =
      announced t w (record a { bus_online = insert t false a.bus_online }) h

module _ (x : Fixed) (w : World) where
  same_flag : (b c : Bool) → differ b c ≡ false → c ≡ b
  same_flag b c h = ground arith

  poll_scope-sets : (t : Scope) (a : App) → bus_flag (poll_scope x t w a) t ≡ w.online t
  unfolding poll_scope handle
  poll_scope-sets t a = elim (Bool-cases (differ (w.online t) (bus_flag a t))) [
    | inl d ↦ rw d (
        handle_bus_state-IsAt x t (w.online t) t (w.online t) w a
          (ground (arith, lookup-insert t t (w.online t) a.bus_online, text_eq_refl t)))
    | inr e ↦
        rw e (reconcile_scope-IsAt x t (w.online t) t w a (same_flag (w.online t) (bus_flag a t) e))
  ]

  poll_scope-keeps :
      (t s : Scope) (a : App)
      → bus_flag a s ≡ w.online s
      → bus_flag (poll_scope x t w a) s ≡ w.online s
  unfolding poll_scope handle
  poll_scope-keeps t s a h = elim (Bool-cases (differ (w.online t) (bus_flag a t))) [
    | inl d ↦ rw d (
        handle_bus_state-IsAt x s (w.online s) t (w.online t) w a (elim (Bool-cases (text_eq t s)) [
          | inl same ↦
              subst
                (λ k.
                  bus_flag (record a { bus_online = insert t (w.online t) a.bus_online }) k
                  ≡ w.online k)
                ((text_eq_iff t s).0 same)
                (ground (arith, lookup-insert t t (w.online t) a.bus_online, text_eq_refl t))
          | inr other ↦ ground (arith, lookup-insert t s (w.online t) a.bus_online)
        ]))
    | inr e ↦ rw e (reconcile_scope-IsAt x s (w.online s) t w a h)
  ]

  poll_scopes-keeps :
      (ss : List Scope) (s : Scope) (a : App)
      → bus_flag a s ≡ w.online s
      → bus_flag (poll_scopes x ss w a) s ≡ w.online s
  unfolding poll_scopes
  poll_scopes-keeps [] s a h = h
  poll_scopes-keeps (t ∷ ss) s a h = poll_scopes-keeps ss s _ (poll_scope-keeps t s a h)

  poll_scopes-sets :
      (ss : List Scope) (s : Scope) (a : App)
      → In s ss
      → bus_flag (poll_scopes x ss w a) s ≡ w.online s
  unfolding poll_scopes
  poll_scopes-sets [] s a m = elim m [ ]
  poll_scopes-sets (t ∷ ss) s a (here e) =
      subst (λ k. bus_flag (poll_scopes x ss w (poll_scope x t w a)) k ≡ w.online k) (sym e)
        (poll_scopes-keeps ss t _ (poll_scope-sets t a))
  poll_scopes-sets (t ∷ ss) s a (there m) = poll_scopes-sets ss s _ m

  refresh_display-bus : (a : App) (s : Scope) → bus_flag (refresh_display x w a) s ≡ bus_flag a s
  unfolding refresh_display
  refresh_display-bus a s = ground arith

  -- After a tick of the poll timer, from any state, the loop's flag of each configured scope is
  -- what that scope's supervisor says: a bus change that the loop missed is made good there.
  pub poll_tick-bus :
      (s : Scope) (a : App) → In s (scopes x.cfg) → bus_flag (poll_tick x w a) s ≡ w.online s
  unfolding poll_tick
  poll_tick-bus s a m = refresh_display-bus _ s ∙ poll_scopes-sets (scopes x.cfg) s _ m
