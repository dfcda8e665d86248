-- ===== src/Ha/Discovery/Announced.antt =====
-- The topics that the discovery payload names: those that Home Assistant reads are retained topics
-- of the daemon, and those that it writes are subscribed to and recognised.
use systemd2mqtt.Base.{
  ◌≡◌, refl, ap, Bool, true, false, ◌||◌, inr, Option, List, [], ◌∷◌, ◌++◌, map, All, All-append,
  In, here, there, In-append_left, In-append_right, if◌then◌else◌, All-with_In, All-self,
}
use systemd2mqtt.Base.Text.{Text, text, text_eq}
use systemd2mqtt.Config.Data.{UnitConfig, Scope, TemplateSelect, Config}
use systemd2mqtt.Config.Unit.{
  object_id, wants_problem_sensor, wants_restart_button, display_enabled, expose_mode_select,
}
use systemd2mqtt.Config.Query.{scopes}
use systemd2mqtt.Config.Load.{Env}
use systemd2mqtt.Config.Validate.{Url, parse}
use systemd2mqtt.Config.Validate.Used.{IsUsed, units-IsUsed, selects-IsUsed}
use systemd2mqtt.Ha.Topics.{
  Topics, availability, bus_availability, unit_state, unit_attributes, template_state,
  display_state, display_mode_state, display_attributes, display_availability, daemon_state,
  bus_topics, unit_topics, template_topics, retained_topics,
}
use systemd2mqtt.Ha.Discovery.{
  Fields, Value, str, strs, avty, when, unit_entries, template_entry, display_entries, bus_entry,
  daemon_entries, units_entries, component_entries,
}

-- The topics that a field has Home Assistant read, and the one that it has it write.
abbrev pub read_field : Text × Value → List Text
read_field (k, str v) =
    if text_eq k (text "stat_t") || text_eq k (text "json_attr_t") then v ∷ [] else []
read_field (k, strs vs) = []
read_field (k, avty vs) = if text_eq k (text "avty") then vs else []

abbrev pub read_topics : Fields → List Text
read_topics [] = []
read_topics (f ∷ fs) = read_field f ++ read_topics fs

abbrev pub written_field : Text × Value → List Text
written_field (k, str v) = if text_eq k (text "cmd_t") then v ∷ [] else []
written_field (k, strs vs) = []
written_field (k, avty vs) = []

abbrev pub written_topics : Fields → List Text
written_topics [] = []
written_topics (f ∷ fs) = written_field f ++ written_topics fs

module _ (t : Topics) (c : Config) where
  abbrev pub IsRetained : Text → Type 0
  IsRetained topic = In topic (retained_topics t c)

  abbrev pub ReadsRetained : Text × Fields → Type 0
  ReadsRetained e = All IsRetained (read_topics e.1)

  In-bus : {s : Scope} (ss : List Scope) → In s ss → In (bus_availability t s) (bus_topics t ss)
  unfolding bus_topics
  In-bus [] m = elim m [ ]
  In-bus (x ∷ ss) (here e) = here (ap (bus_availability t) e)
  In-bus (x ∷ ss) (there m) = there (In-bus ss m)

  In-unit :
      {u : UnitConfig} (us : List UnitConfig)
      → In u us
      → In (unit_state t (object_id u)) (unit_topics t us)
        × In (unit_attributes t (object_id u)) (unit_topics t us)
  unfolding unit_topics
  In-unit [] m = elim m [ ]
  In-unit (x ∷ us) (here e) = (
    here (ap (λ v. unit_state t (object_id v)) e),
    there (here (ap (λ v. unit_attributes t (object_id v)) e)),
  )
  In-unit (x ∷ us) (there m) = let (a, b) = In-unit us m in (there (there a), there (there b))

  In-template :
      {s : TemplateSelect} (ss : List TemplateSelect)
      → In s ss
      → In (template_state t s.id) (template_topics t ss)
  unfolding template_topics
  In-template [] m = elim m [ ]
  In-template (x ∷ ss) (here e) = here (ap (λ s. template_state t s.id) e)
  In-template (x ∷ ss) (there m) = there (In-template ss m)

  bus-IsRetained : {s : Scope} → IsUsed c s → IsRetained (bus_availability t s)
  unfolding retained_topics
  bus-IsRetained m =
      there (there (there (In-append_left (bus_topics t (scopes c)) _ (In-bus (scopes c) m))))

  unit-IsRetained :
      {u : UnitConfig}
      → In u c.all
      → IsRetained (unit_state t (object_id u)) × IsRetained (unit_attributes t (object_id u))
  unfolding retained_topics
  unit-IsRetained {u} m =
      let (a, b) = In-unit c.all m in
      (
        there (
            there (
              there (
                In-append_right (bus_topics t (scopes c)) _
                  (In-append_left (unit_topics t c.all) _ a)))),
        there (
            there (
              there (
                In-append_right (bus_topics t (scopes c)) _
                  (In-append_left (unit_topics t c.all) _ b)))),
      )

  template-IsRetained : {s : TemplateSelect} → In s c.selects → IsRetained (template_state t s.id)
  unfolding retained_topics
  template-IsRetained m = there (
      there (
        there (
          In-append_right (bus_topics t (scopes c)) _ (
            In-append_right (unit_topics t c.all) _
              (In-append_left (template_topics t c.selects) _ (In-template c.selects m))))))

  last-IsRetained :
      {x : Text}
      → In x (
          display_state t
          ∷ display_mode_state t
          ∷ display_attributes t
          ∷ display_availability t
          ∷ [])
      → IsRetained x
  unfolding retained_topics
  last-IsRetained m = there (
      there (
        there (
          In-append_right (bus_topics t (scopes c)) _ (
            In-append_right (unit_topics t c.all) _
              (In-append_right (template_topics t c.selects) _ m)))))

  available : IsRetained (availability t)
  unfolding retained_topics
  available = there (here refl)

  daemon-IsRetained : IsRetained (daemon_state t)
  unfolding retained_topics
  daemon-IsRetained = there (there (here refl))

  All-when :
      (es : List (Text × Fields)) (b : Bool) → All ReadsRetained es → All ReadsRetained (when b es)
  All-when es true h = h
  All-when es false h = tt

  unit_entries-ReadsRetained :
      (u : UnitConfig) → In u c.all → IsUsed c u.scope → All ReadsRetained (unit_entries t u)
  unfolding unit_entries text_eq
  unit_entries-ReadsRetained u m s =
      let (state, attributes) = unit-IsRetained m in
      let bus = bus-IsRetained s in
      (
        (state, (attributes, (available, (bus, tt)))),
        (
          (attributes, (attributes, (available, (bus, tt)))),
          All-append ReadsRetained _ _
              (All-when _ (wants_problem_sensor u) ((attributes, (available, (bus, tt))), tt))
              (All-when _ (wants_restart_button u) ((available, (bus, tt)), tt)),
        ),
      )

  units-ReadsRetained :
      (us : List UnitConfig)
      → All (λ u. In u c.all × IsUsed c u.scope) us
      → All ReadsRetained (units_entries t us)
  unfolding units_entries
  units-ReadsRetained [] h = tt
  units-ReadsRetained (u ∷ us) h =
      All-append ReadsRetained (unit_entries t u) (units_entries t us)
        (unit_entries-ReadsRetained u h.0.0 h.0.1) (units-ReadsRetained us h.1)

  templates-ReadsRetained :
      (ss : List TemplateSelect)
      → All (λ s. In s c.selects × IsUsed c s.scope) ss
      → All ReadsRetained (map (template_entry t) ss)
  unfolding text_eq
  templates-ReadsRetained [] h = tt
  templates-ReadsRetained (s ∷ ss) h = (
    (template-IsRetained h.0.0, (available, (bus-IsRetained h.0.1, tt))),
    templates-ReadsRetained ss h.1,
  )

  display-ReadsRetained : All ReadsRetained (display_entries t c)
  unfolding display_entries text_eq
  display-ReadsRetained =
      let state = last-IsRetained (here refl) in
      let mode = last-IsRetained (there (here refl)) in
      let attributes = last-IsRetained (there (there (here refl))) in
      let display = last-IsRetained (there (there (there (here refl)))) in
      All-when _ (display_enabled c) (
        (state, (attributes, (available, (display, tt)))),
        All-when _ (expose_mode_select c) ((mode, (available, (display, tt))), tt),
      )

  buses-ReadsRetained :
      (ss : List Scope) → All (IsUsed c) ss → All ReadsRetained (map (bus_entry t) ss)
  unfolding text_eq
  buses-ReadsRetained [] h = tt
  buses-ReadsRetained (s ∷ ss) h = ((bus-IsRetained h.0, tt), buses-ReadsRetained ss h.1)

  daemon-ReadsRetained : All ReadsRetained (daemon_entries t)
  unfolding daemon_entries text_eq
  daemon-ReadsRetained =
      ((daemon-IsRetained, (daemon-IsRetained, tt)), ((daemon-IsRetained, tt), (tt, tt)))

  component_entries-ReadsRetained :
      All (λ u. IsUsed c u.scope) c.all
      → All (λ s. IsUsed c s.scope) c.selects
      → All ReadsRetained (component_entries t c)
  unfolding component_entries
  component_entries-ReadsRetained us ss =
      All-append ReadsRetained (units_entries t c.all) _
        (units-ReadsRetained c.all (All-with_In _ c.all us))
        (All-append ReadsRetained (map (template_entry t) c.selects) _
          (templates-ReadsRetained c.selects (All-with_In _ c.selects ss))
          (All-append ReadsRetained (display_entries t c) _ display-ReadsRetained (
            All-append ReadsRetained (map (bus_entry t) (scopes c)) _
              (buses-ReadsRetained (scopes c) (All-self (scopes c))) daemon-ReadsRetained)))

module _ (parse_url : Text → Option Url) (env : Env) (c c' : Config)
    (parsed : parse parse_url env c ≡ inr c') where
  -- In a configuration that `Parse` accepts, every topic that the discovery payload has Home
  -- Assistant read, as a state, as attributes or as an entity's availability, is one of the
  -- daemon's retained topics: so `--clear-discovery` also clears it.
  pub discovery-ReadsRetained : (t : Topics) → All (ReadsRetained t c') (component_entries t c')
  discovery-ReadsRetained t =
      component_entries-ReadsRetained t c' (units-IsUsed parse_url env c c' parsed)
        (selects-IsUsed parse_url env c c' parsed)
