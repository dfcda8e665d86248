-- ===== src/Ha/Topics.antt =====
-- internal/ha/topics.go: the MQTT topics, and what a received topic means.
pub mod Parse
use systemd2mqtt.Base.{
  ℕ, Bool, true, false, not, ◌||◌, Option, none, some, List, [], ◌∷◌, ◌++◌, if◌then◌else◌,
}
use systemd2mqtt.Base.Text.{Text, text, text_eq}
use systemd2mqtt.Base.Text.Search.{cut_prefix, split}
use systemd2mqtt.Config.Data.{Scope, UnitConfig, TemplateSelect, Config}
use systemd2mqtt.Config.Unit.{object_id, display_enabled, ha_enabled}
use systemd2mqtt.Config.Query.{scopes}

pub record Topics : Type 0 where
  pub base : Text
  pub node_id : Text
  pub discovery_prefix : Text
  pub status_topic : Text

-- `NewTopics`
unfoldable pub new_topics : Config → Topics
new_topics c = record {
  base = c.mqtt.base_topic;
  node_id = c.node_id;
  discovery_prefix = c.home_assistant.discovery_prefix;
  status_topic = c.home_assistant.status_topic;
}

-- `root`
unfoldable pub root : Topics → Text
root t = t.base ++ (text "/" ++ t.node_id)

module _ (t : Topics) where
  abbrev pub availability : Text
  availability = root t ++ text "/availability"

  abbrev pub bus_availability : Scope → Text
  bus_availability s = root t ++ (text "/bus/" ++ (s ++ text "/availability"))

  abbrev pub unit_state : Text → Text
  unit_state id = root t ++ (text "/unit/" ++ (id ++ text "/state"))

  abbrev pub unit_set : Text → Text
  unit_set id = root t ++ (text "/unit/" ++ (id ++ text "/set"))

  abbrev pub unit_attributes : Text → Text
  unit_attributes id = root t ++ (text "/unit/" ++ (id ++ text "/attributes"))

  abbrev pub unit_set_wildcard : Text
  unit_set_wildcard = root t ++ text "/unit/+/set"

  abbrev pub template_state : Text → Text
  template_state id = root t ++ (text "/template/" ++ (id ++ text "/state"))

  abbrev pub template_set : Text → Text
  template_set id = root t ++ (text "/template/" ++ (id ++ text "/set"))

  abbrev pub template_set_wildcard : Text
  template_set_wildcard = root t ++ text "/template/+/set"

  abbrev pub display_state : Text
  display_state = root t ++ text "/display/state"

  abbrev pub display_set : Text
  display_set = root t ++ text "/display/set"

  abbrev pub display_mode_state : Text
  display_mode_state = root t ++ text "/display/mode/state"

  abbrev pub display_mode_set : Text
  display_mode_set = root t ++ text "/display/mode/set"

  abbrev pub display_attributes : Text
  display_attributes = root t ++ text "/display/attributes"

  abbrev pub display_availability : Text
  display_availability = root t ++ text "/display/availability"

  abbrev pub daemon_state : Text
  daemon_state = root t ++ text "/daemon/state"

  abbrev pub daemon_restart : Text
  daemon_restart = root t ++ text "/daemon/restart"

  abbrev pub discovery_config : Text
  discovery_config = t.discovery_prefix ++ (text "/device/" ++ (t.node_id ++ text "/config"))

-- `InboundKind`
pub data Kind : Type 0 where
  in_unit_set in_template_set in_display_set in_display_mode_set in_daemon_restart in_ha_status :
      Kind

pub record Inbound : Type 0 where
  pub kind : Kind
  pub id : Text

abbrev pub plain : Kind → Inbound
plain k = record { kind = k; id = [] }

abbrev pub is_empty : Text → Bool
is_empty [] = true
is_empty (c ∷ s) = false

-- The last part of `Parse`, on the levels below the root.
unfoldable pub parse_levels : List Text → Option Inbound
parse_levels (kind ∷ id ∷ verb ∷ []) =
    if not (text_eq verb (text "set")) || is_empty id
    then none
    else if text_eq kind (text "unit")
    then some (record { kind = in_unit_set; id = id })
    else if text_eq kind (text "template")
    then some (record { kind = in_template_set; id = id })
    else none
parse_levels _ = none

abbrev pub parse_below : Option Text → Option Inbound
parse_below none = none
parse_below (some rest) = parse_levels (split b'/' rest)

-- `Parse`
unfoldable pub parse : Topics → Text → Option Inbound
parse t topic =
    if text_eq topic t.status_topic
    then some (plain in_ha_status)
    else if text_eq topic (display_set t)
    then some (plain in_display_set)
    else if text_eq topic (display_mode_set t)
    then some (plain in_display_mode_set)
    else if text_eq topic (daemon_restart t)
    then some (plain in_daemon_restart)
    else parse_below (cut_prefix (root t ++ text "/") topic)

-- `Subscriptions`
unfoldable pub subscriptions : Topics → Config → List Text
unfolding root
subscriptions t c =
    (unit_set_wildcard t ∷ template_set_wildcard t ∷ daemon_restart t ∷ [])
    ++ ((if display_enabled c then display_set t ∷ display_mode_set t ∷ [] else [])
        ++ (if ha_enabled c then t.status_topic ∷ [] else []))

-- The loops of `RetainedTopics`.
unfoldable pub bus_topics : Topics → List Scope → List Text
bus_topics t [] = []
bus_topics t (s ∷ ss) = bus_availability t s ∷ bus_topics t ss

unfoldable pub unit_topics : Topics → List UnitConfig → List Text
unit_topics t [] = []
unit_topics t (u ∷ us) =
    unit_state t (object_id u) ∷ unit_attributes t (object_id u) ∷ unit_topics t us

unfoldable pub template_topics : Topics → List TemplateSelect → List Text
template_topics t [] = []
template_topics t (s ∷ ss) = template_state t s.id ∷ template_topics t ss

-- `RetainedTopics`
unfoldable pub retained_topics : Topics → Config → List Text
unfolding scopes bus_topics unit_topics template_topics root
retained_topics t c =
    (discovery_config t ∷ availability t ∷ daemon_state t ∷ [])
    ++ (bus_topics t (scopes c)
        ++ (unit_topics t c.all
            ++ (template_topics t c.selects
                ++ (display_state t
                    ∷ display_mode_state t
                    ∷ display_attributes t
                    ∷ display_availability t
                    ∷ []))))
