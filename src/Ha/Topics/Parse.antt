-- ===== src/Ha/Topics/Parse.antt =====
-- `Parse` inverts the builders of command topics.
use systemd2mqtt.Base.{
  ◌≡◌, ◌≢◌, refl, sym, ap, ◌∙◌, true, false, Bool-cases, Option, none, some, List, [], ◌∷◌, ◌++◌,
  append_assoc, arith, ◌⊎◌, inl, inr,
}
use systemd2mqtt.Base.Text.{Text, text, text_eq, text_eq_iff, text_eq_refl, text_eq-append}
use systemd2mqtt.Base.Text.Search.{
  cut_prefix, cut_prefix-append, cut_prefix_sound, split, lacks, split-lacks, split-append, join,
  join-split,
}
use systemd2mqtt.Ha.Topics.{
  Topics, root, unit_set, template_set, display_set, display_mode_set, daemon_restart, Kind,
  in_unit_set, in_template_set, in_display_set, in_display_mode_set, in_daemon_restart,
  in_ha_status, Inbound, parse_levels, parse_below, parse,
}

abbrev kind_topic : Topics → Kind → Text → Text
kind_topic t in_unit_set id = unit_set t id
kind_topic t in_template_set id = template_set t id
kind_topic t in_display_set id = display_set t
kind_topic t in_display_mode_set id = display_mode_set t
kind_topic t in_daemon_restart id = daemon_restart t
kind_topic t in_ha_status id = t.status_topic

-- The topic that a meaning stands for.
abbrev pub topic_of : Topics → Inbound → Text
topic_of t i = kind_topic t i.kind i.id

parse_levels_sound :
    (ws : List Text) (i : Inbound)
    → parse_levels ws ≡ some i
    → (kind : Text) × (ws ≡ kind ∷ i.id ∷ text "set" ∷ [])
      × (((i.kind ≡ in_unit_set) × (kind ≡ text "unit"))
          ⊎ ((i.kind ≡ in_template_set) × (kind ≡ text "template")))
unfolding parse_levels
parse_levels_sound [] i h = cc
parse_levels_sound (a ∷ []) i h = cc
parse_levels_sound (a ∷ b ∷ []) i h = cc
parse_levels_sound (a ∷ b ∷ c ∷ d ∷ ws) i h = cc
parse_levels_sound (a ∷ b ∷ c ∷ []) i h = (
  a,
  ground (arith, text_eq_iff c (text "set")),
  ground (arith, text_eq_iff a (text "unit"), text_eq_iff a (text "template")),
)

unit_join :
    (t : Topics) (rest kind id : Text)
    → kind ≡ text "unit"
    → rest ≡ join b'/' (kind ∷ id ∷ text "set" ∷ [])
    → (root t ++ text "/") ++ rest ≡ unit_set t id
unit_join t rest kind id e r =
    rw (r, e) (append_assoc (root t) (text "/") (text "unit/" ++ (id ++ text "/set")))

template_join :
    (t : Topics) (rest kind id : Text)
    → kind ≡ text "template"
    → rest ≡ join b'/' (kind ∷ id ∷ text "set" ∷ [])
    → (root t ++ text "/") ++ rest ≡ template_set t id
template_join t rest kind id e r =
    rw (r, e) (append_assoc (root t) (text "/") (text "template/" ++ (id ++ text "/set")))

levels_sound :
    (t : Topics) (rest : Text) (i : Inbound)
    → parse_levels (split b'/' rest) ≡ some i
    → (root t ++ text "/") ++ rest ≡ topic_of t i
levels_sound t rest i h =
    let (kind, ws, k) = parse_levels_sound (split b'/' rest) i h in
    let whole : rest ≡ join b'/' (kind ∷ i.id ∷ text "set" ∷ []) =
      sym (join-split b'/' rest) ∙ ap (join b'/') ws in
    elim k [
      | inl (unit, e) ↦ rw (ap (λ q. kind_topic t q i.id) unit) (unit_join t rest kind i.id e whole)
      | inr (template, e) ↦
          rw (ap (λ q. kind_topic t q i.id) template) (template_join t rest kind i.id e whole)
    ]

below_sound :
    (t : Topics) (topic : Text) (o : Option Text) (i : Inbound)
    → cut_prefix (root t ++ text "/") topic ≡ o
    → parse_below o ≡ some i
    → topic ≡ topic_of t i
below_sound t topic none i e h = cc
below_sound t topic (some rest) i e h =
    cut_prefix_sound (root t ++ text "/") topic rest e ∙ levels_sound t rest i h

-- A topic that `Parse` accepts is the topic that its result stands for: the set topic of the
-- unit or template with the id returned, a display or restart topic, or the status topic.
pub parse_sound :
    (t : Topics) (topic : Text) (i : Inbound) → parse t topic ≡ some i → topic ≡ topic_of t i
unfolding parse
parse_sound t topic i h = ground (
  arith,
  text_eq_iff topic t.status_topic,
  text_eq_iff topic (display_set t),
  text_eq_iff topic (display_mode_set t),
  text_eq_iff topic (daemon_restart t),
  below_sound t topic (cut_prefix (root t ++ text "/") topic) i refl,
)

-- The ids that a command can name: not empty, and with no slash.
abbrev pub IsLevel : Text → Type 0
IsLevel id = (id ≢ []) × (lacks b'/' id ≡ true)

abbrev MeaningOf : Kind → Text → Type 0
MeaningOf in_unit_set id = IsLevel id
MeaningOf in_template_set id = IsLevel id
MeaningOf _ id = id ≡ []

-- The meanings that a topic can have: a unit or a template has an id, the others have none.
abbrev pub IsMeaning : Inbound → Type 0
IsMeaning i = MeaningOf i.kind i.id

-- The three levels below the root of a set topic.
pub split_set :
    (word id : Text)
    → lacks b'/' word ≡ true
    → lacks b'/' id ≡ true
    → split b'/' (word ++ (b'/' ∷ (id ++ text "/set"))) ≡ word ∷ id ∷ text "set" ∷ []
split_set word id h k =
    split-append b'/' word (id ++ text "/set") h
    ∙ ap (◌∷◌ word)
        (split-append b'/' id (text "set") k ∙ ap (◌∷◌ id) (split-lacks b'/' (text "set") refl))

levels_unit :
    (id : Text)
    → id ≢ []
    → parse_levels (text "unit" ∷ id ∷ text "set" ∷ [])
      ≡ some (record { kind = in_unit_set; id = id })
unfolding parse_levels text_eq
levels_unit [] h = absurd (h refl)
levels_unit (c ∷ id) h = refl

levels_template :
    (id : Text)
    → id ≢ []
    → parse_levels (text "template" ∷ id ∷ text "set" ∷ [])
      ≡ some (record { kind = in_template_set; id = id })
unfolding parse_levels text_eq
levels_template [] h = absurd (h refl)
levels_template (c ∷ id) h = refl

below_unit :
    (t : Topics) (id : Text)
    → IsLevel id
    → parse_below (cut_prefix (root t ++ text "/") (unit_set t id))
      ≡ some (record { kind = in_unit_set; id = id })
below_unit t id h =
    let rest : Text = text "unit/" ++ (id ++ text "/set") in
    ap (λ s. parse_below (cut_prefix (root t ++ text "/") s))
      (sym (append_assoc (root t) (text "/") rest))
    ∙ (ap parse_below (cut_prefix-append (root t ++ text "/") rest)
        ∙ (ap parse_levels (split_set (text "unit") id refl h.1) ∙ levels_unit id h.0))

below_template :
    (t : Topics) (id : Text)
    → IsLevel id
    → parse_below (cut_prefix (root t ++ text "/") (template_set t id))
      ≡ some (record { kind = in_template_set; id = id })
below_template t id h =
    let rest : Text = text "template/" ++ (id ++ text "/set") in
    ap (λ s. parse_below (cut_prefix (root t ++ text "/") s))
      (sym (append_assoc (root t) (text "/") rest))
    ∙ (ap parse_below (cut_prefix-append (root t ++ text "/") rest)
        ∙ (ap parse_levels (split_set (text "template") id refl h.1) ∙ levels_template id h.0))

-- Two topics below the root are told apart by what follows the root.
apart :
    (t : Topics) (a b : Text) → text_eq a b ≡ false → text_eq (root t ++ a) (root t ++ b) ≡ false
apart t a b h = text_eq-append (root t) a b ∙ h

parse_kind :
    (t : Topics) (k : Kind) (id : Text)
    → MeaningOf k id
    → (k ≡ in_ha_status) ⊎ (text_eq (kind_topic t k id) t.status_topic ≡ false)
    → parse t (kind_topic t k id) ≡ some (record { kind = k; id = id })
unfolding parse text_eq
parse_kind t in_unit_set id m (inl e) = cc
parse_kind t in_unit_set id m (inr e) =
    let x : Text = text "/unit/" ++ (id ++ text "/set") in
    rw
      (
        e,
        apart t x (text "/display/set") refl,
        apart t x (text "/display/mode/set") refl,
        apart t x (text "/daemon/restart") refl,
      )
      (below_unit t id m)
parse_kind t in_template_set id m (inl e) = cc
parse_kind t in_template_set id m (inr e) =
    let x : Text = text "/template/" ++ (id ++ text "/set") in
    rw
      (
        e,
        apart t x (text "/display/set") refl,
        apart t x (text "/display/mode/set") refl,
        apart t x (text "/daemon/restart") refl,
      )
      (below_template t id m)
parse_kind t in_display_set id m (inl e) = cc
parse_kind t in_display_set id m (inr e) =
    rw (e, text_eq_refl) (ap (λ i. some (record { kind = in_display_set; id = i })) (sym m))
parse_kind t in_display_mode_set id m (inl e) = cc
parse_kind t in_display_mode_set id m (inr e) =
    rw (e, apart t (text "/display/mode/set") (text "/display/set") refl, text_eq_refl)
      (ap (λ i. some (record { kind = in_display_mode_set; id = i })) (sym m))
parse_kind t in_daemon_restart id m (inl e) = cc
parse_kind t in_daemon_restart id m (inr e) =
    rw
      (
        e,
        apart t (text "/daemon/restart") (text "/display/set") refl,
        apart t (text "/daemon/restart") (text "/display/mode/set") refl,
        text_eq_refl,
      )
      (ap (λ i. some (record { kind = in_daemon_restart; id = i })) (sym m))
parse_kind t in_ha_status id m _ =
    rw text_eq_refl (ap (λ i. some (record { kind = in_ha_status; id = i })) (sym m))

differs :
    (t : Topics) (i : Inbound)
    → (i.kind ≡ in_ha_status) ⊎ (topic_of t i ≢ t.status_topic)
    → (i.kind ≡ in_ha_status) ⊎ (text_eq (topic_of t i) t.status_topic ≡ false)
differs t i (inl e) = inl e
differs t i (inr n) = elim (Bool-cases (text_eq (topic_of t i) t.status_topic)) [
  | inl same ↦ absurd (n ((text_eq_iff (topic_of t i) t.status_topic).0 same))
  | inr other ↦ inr other
]

-- Every command topic is recognised, with the id it was built from, unless it is configured to be
-- the status topic too; and the status topic is recognised. The ids are nonempty and hold no
-- slash.
pub parse-topic_of :
    (t : Topics) (i : Inbound)
    → IsMeaning i
    → (i.kind ≡ in_ha_status) ⊎ (topic_of t i ≢ t.status_topic)
    → parse t (topic_of t i) ≡ some i
parse-topic_of t i m d = parse_kind t i.kind i.id m (differs t i d)
