-- ===== src/Ha/Discovery/Commands.antt =====
-- The topics that the discovery payload has Home Assistant write are subscribed to and recognised.
use systemd2mqtt.Base.{
  ◌≡◌, refl, sym, Bool, true, false, ◌&&◌, Bool-cases, ◌⊎◌, inl, inr, Option, some, List, [], ◌∷◌,
  map, arith, leb, all, length, &&-true, All, All-append, All-mono, In, here, there, All-In, subst,
}
use systemd2mqtt.Base.Text.{Text, text, text_eq, text_eq_iff, text_ne}
use systemd2mqtt.Base.Text.Search.{lacks}
use systemd2mqtt.Config.Data.{UnitConfig, TemplateSelect, Config, Scope}
use systemd2mqtt.Config.Unit.{
  object_id, wants_problem_sensor, wants_restart_button, display_enabled, expose_mode_select,
}
use systemd2mqtt.Config.Names.{node_id_re, is_node_char}
use systemd2mqtt.Config.Load.{Env, entries, apply_defaults, apply_env}
use systemd2mqtt.Config.Query.{scopes}
use systemd2mqtt.Config.Expand.Selects.{expand_selects}
use systemd2mqtt.Config.Validate.{Url}
use systemd2mqtt.Config.Validate
use systemd2mqtt.Config.Validate.Accepted.{IsWellShaped, parse-IsWellShaped, parse_inv}
use systemd2mqtt.Config.Validate.Templates.{IsTemplate, parse-IsTemplate}
use systemd2mqtt.Ha.Topics.{
  Topics, root, unit_set_wildcard, template_set_wildcard, daemon_restart, display_set,
  display_mode_set, Inbound, plain, in_unit_set, in_template_set, in_display_set,
  in_display_mode_set, in_daemon_restart, parse, subscriptions,
}
use systemd2mqtt.Ha.Topics.Parse.{topic_of, IsLevel, IsMeaning, parse-topic_of}
use systemd2mqtt.Mqtt.Match.{topic_matches}
use systemd2mqtt.Mqtt.Match.Subscribed.{set_topics_subscribed, topic_matches_self}
use systemd2mqtt.Ha.Discovery.{
  Fields, when, unit_entries, template_entry, display_entries, bus_entry, daemon_entries,
  units_entries, component_entries,
}
use systemd2mqtt.Ha.Discovery.Announced.{written_topics}

all-lacks : (s : Text) → all is_node_char s ≡ true → lacks b'/' s ≡ true
all-lacks [] h = refl
all-lacks (c ∷ s) h = ground (arith, all-lacks s)

node_id_re-IsLevel : (s : Text) → node_id_re s ≡ true → IsLevel s
unfolding node_id_re
node_id_re-IsLevel [] h = cc
node_id_re-IsLevel (c ∷ s) h = (
  (λ e. cc),
  all-lacks (c ∷ s) (&&-true (leb 1 (length (c ∷ s)) && leb (length (c ∷ s)) 64) _ h).1,
)

module _ (t : Topics) (c : Config) where
  -- The topic stands for one meaning, and is recognised as that unless it is the status topic too;
  -- and a filter that the daemon subscribes to matches it.
  abbrev pub IsWired : Text → Type 0
  IsWired x =
      (i : Inbound) × (x ≡ topic_of t i)
      × ((x ≡ t.status_topic) ⊎ (parse t x ≡ some i))
      × (f : Text) × In f (subscriptions t c)
      × (topic_matches f x ≡ true)

  abbrev pub WritesWired : Text × Fields → Type 0
  WritesWired e = All IsWired (written_topics e.1)

  wired :
      (i : Inbound) (f : Text)
      → IsMeaning i
      → In f (subscriptions t c)
      → topic_matches f (topic_of t i) ≡ true
      → IsWired (topic_of t i)
  wired i f m s h = elim (Bool-cases (text_eq (topic_of t i) t.status_topic)) [
    | inl same ↦ (i, refl, inl ((text_eq_iff (topic_of t i) t.status_topic).0 same), f, s, h)
    | inr other ↦ (
      i,
      refl,
      inr (parse-topic_of t i m (inr (text_ne (topic_of t i) t.status_topic other))),
      f,
      s,
      h,
    )
  ]

  unit-IsWired :
      (u : UnitConfig)
      → IsWellShaped u
      → IsWired (topic_of t (record { kind = in_unit_set; id = object_id u }))
  unfolding subscriptions
  unit-IsWired u w =
      let level = node_id_re-IsLevel (object_id u) w.0 in
      wired (record { kind = in_unit_set; id = object_id u }) (unit_set_wildcard t) level
        (here refl) (set_topics_subscribed t (object_id u) level).0

  template-IsWired :
      (s : TemplateSelect)
      → node_id_re s.id ≡ true
      → IsWired (topic_of t (record { kind = in_template_set; id = s.id }))
  unfolding subscriptions
  template-IsWired s w =
      let level = node_id_re-IsLevel s.id w in
      wired (record { kind = in_template_set; id = s.id }) (template_set_wildcard t) level
        (there (here refl)) (set_topics_subscribed t s.id level).1

  restart-IsWired : IsWired (topic_of t (plain in_daemon_restart))
  unfolding subscriptions
  restart-IsWired =
      wired (plain in_daemon_restart) (daemon_restart t) refl (there (there (here refl)))
        (topic_matches_self (root t) (text "/daemon/restart") refl)

  display-IsWired :
      display_enabled c ≡ true
      → IsWired (topic_of t (plain in_display_set))
        × IsWired (topic_of t (plain in_display_mode_set))
  unfolding subscriptions
  display-IsWired e = (
    wired (plain in_display_set) (display_set t) refl (there (there (there (rw e (here refl)))))
        (topic_matches_self (root t) (text "/display/set") refl),
    wired (plain in_display_mode_set) (display_mode_set t) refl
        (there (there (there (rw e (there (here refl))))))
        (topic_matches_self (root t) (text "/display/mode/set") refl),
  )

  All-when :
      (es : List (Text × Fields)) (b : Bool)
      → (b ≡ true → All WritesWired es)
      → All WritesWired (when b es)
  All-when es true h = h refl
  All-when es false h = tt

  units-WritesWired :
      (us : List UnitConfig) → All IsWellShaped us → All WritesWired (units_entries t us)
  unfolding units_entries unit_entries text_eq
  units-WritesWired [] h = tt
  units-WritesWired (u ∷ us) h =
      let w = unit-IsWired u h.0 in
      All-append WritesWired (unit_entries t u) (units_entries t us)
        (
          (w, tt),
          (
            tt,
            All-append WritesWired _ _ (All-when _ (wants_problem_sensor u) (λ e. (tt, tt)))
                (All-when _ (wants_restart_button u) (λ e. ((w, tt), tt))),
          ),
        )
        (units-WritesWired us h.1)

  templates-WritesWired :
      (ss : List TemplateSelect)
      → All (λ s. node_id_re s.id ≡ true) ss
      → All WritesWired (map (template_entry t) ss)
  unfolding text_eq
  templates-WritesWired [] h = tt
  templates-WritesWired (s ∷ ss) h = ((template-IsWired s h.0, tt), templates-WritesWired ss h.1)

  display-WritesWired : All WritesWired (display_entries t c)
  unfolding display_entries text_eq
  display-WritesWired = All-when _ (display_enabled c) (λ e.
      let (switch, mode) = display-IsWired e in
      ((switch, tt), All-when _ (expose_mode_select c) (λ k. ((mode, tt), tt))))

  buses-WritesWired : (ss : List Scope) → All WritesWired (map (bus_entry t) ss)
  unfolding text_eq
  buses-WritesWired [] = tt
  buses-WritesWired (s ∷ ss) = (tt, buses-WritesWired ss)

  daemon-WritesWired : All WritesWired (daemon_entries t)
  unfolding daemon_entries text_eq
  daemon-WritesWired = (tt, (tt, ((restart-IsWired, tt), tt)))

  component_entries-WritesWired :
      All IsWellShaped c.all
      → All (λ s. node_id_re s.id ≡ true) c.selects
      → All WritesWired (component_entries t c)
  unfolding component_entries
  component_entries-WritesWired us ss =
      All-append WritesWired (units_entries t c.all) _ (units-WritesWired c.all us) (
        All-append WritesWired (map (template_entry t) c.selects) _
          (templates-WritesWired c.selects ss)
          (All-append WritesWired (display_entries t c) _ display-WritesWired (
            All-append WritesWired (map (bus_entry t) (scopes c)) _ (buses-WritesWired (scopes c))
              daemon-WritesWired)))

module _ (parse_url : Text → Option Url) (env : Env) (c c' : Config)
    (parsed : Validate.parse parse_url env c ≡ inr c') where
  select-ids : All (λ s. node_id_re s.id ≡ true) c'.selects
  select-ids =
      let ex = (parse_inv parse_url env c c' parsed).0 in
      All-mono
        (λ s k.
          subst (λ x. node_id_re x ≡ true) (sym k.2)
            (All-In IsTemplate (entries c'.templates) (parse-IsTemplate parse_url env c c' parsed)
              k.1).0)
        c'.selects (expand_selects (apply_env env (apply_defaults env c)) c' ex).1

  -- In a configuration that `Parse` accepts, every topic that the discovery payload has Home
  -- Assistant write is matched by a filter that the daemon subscribes to, and is the command topic
  -- of one meaning, which `Parse` of the topics returns for it unless it is the status topic too.
  pub discovery-WritesWired : (t : Topics) → All (WritesWired t c') (component_entries t c')
  discovery-WritesWired t =
      component_entries-WritesWired t c' (parse-IsWellShaped parse_url env c c' parsed) select-ids
