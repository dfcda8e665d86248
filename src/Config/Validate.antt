-- ===== src/Config/Validate.antt =====
-- internal/config/config.go: `Validate` and `Parse`. `url.Parse` is a parameter: it gives the
-- scheme and the host of a URL, or nothing where it fails.
pub mod Units
pub mod Unique
pub mod Components
pub mod Accepted
pub mod Templates
pub mod Used
use systemd2mqtt.Base.{
  ℕ, suc, ◌*◌, Bool, true, false, not, ◌&&◌, ◌||◌, Option, none, some, List, [], ◌∷◌, ◌++◌, ◌⊎◌,
  inl, inr, if◌then◌else◌, ltb, ◌==◌, any,
}
use systemd2mqtt.Base.Text.{Text, text, text_eq, contains}
use systemd2mqtt.Base.Text.Search.{contains_any}
use systemd2mqtt.Base.Assoc.{lookup, insert}
use systemd2mqtt.Base.Int.{lt_pos}
use systemd2mqtt.Config.Data.{InstanceConfig, TemplateConfig, Config, second}
use systemd2mqtt.Config.Names.{node_id_re}
use systemd2mqtt.Config.Load.{entries, Env, apply_defaults, apply_env}
use systemd2mqtt.Config.Expand.{expand}
use Units.{Error, Where, check, is_empty, bad_unit_char, validate_units, no_units}
use Units

-- What the check reads of a parsed URL.
pub record Url : Type 0 where
  pub scheme : Text
  pub host : Text

abbrev schemes : List Text
schemes =
    text "tcp" ∷ text "mqtt" ∷ text "ssl" ∷ text "tls" ∷ text "mqtts" ∷ text "ws" ∷ text "wss" ∷ []

abbrev tls_schemes : List Text
tls_schemes = text "ssl" ∷ text "tls" ∷ text "mqtts" ∷ text "wss" ∷ []

abbrev is_wildcard : ℕ → Bool
is_wildcard c = c == b'+' || c == b'#'

-- The characters that an instance name may not hold.
abbrev bad_instance_char : ℕ → Bool
bad_instance_char c = bad_unit_char c || c == b'@'

unfoldable pub check_url : Option Url → List Error
unfolding contains
check_url none = Error.broker_invalid ∷ []
check_url (some u) =
    if is_empty u.host
    then Error.broker_invalid ∷ []
    else check (not (contains schemes u.scheme)) (Error.broker_scheme u.scheme)

module _ (parse_url : Text → Option Url) where
  unfoldable pub check_broker : Text → List Error
  unfolding check_url
  check_broker [] = Error.broker_missing ∷ []
  check_broker (c ∷ s) = check_url (parse_url (c ∷ s))

unfoldable pub check_instances : ℕ → List InstanceConfig → List Error
check_instances i [] = []
check_instances i (inst ∷ insts) =
    check (is_empty inst.name || contains_any bad_instance_char inst.name)
      (Error.bad_instance i inst.name)
    ++ check_instances i insts

-- The loop over the templates; `seen` maps an id to the index that has it.
unfoldable pub validate_templates : ℕ → List TemplateConfig → List (Text × ℕ) → List Error
unfolding check_instances node_id_re lookup insert
validate_templates i [] seen = []
validate_templates i (t ∷ ts) seen =
    Units.check_used (lookup t.id seen) (Error.template_id_used i t.id)
    ++ (check (Units.is_nil t.instances) (Error.no_instances i)
        ++ (check_instances i t.instances
            ++ (check (not (node_id_re t.id)) (Error.template_id_invalid i t.id)
                ++ validate_templates (suc i) ts (insert t.id i seen))))

module _ (parse_url : Text → Option Url) where
  -- The checks ahead of the loops.
  unfoldable pub validate_mqtt : Config → List Error
  unfolding check_broker node_id_re
  validate_mqtt c =
      check (not (node_id_re c.node_id)) (Error.node_id_invalid c.node_id)
      ++ (check_broker parse_url c.mqtt.broker
          ++ (check (ltb 2 c.mqtt.qos) (Error.qos_invalid c.mqtt.qos)
              ++ (check
                    (Units.differ (is_empty c.mqtt.tls.cert_file) (is_empty c.mqtt.tls.key_file))
                    Error.cert_without_key
                  ++ check
                      (is_empty c.mqtt.base_topic || contains_any is_wildcard c.mqtt.base_topic)
                      (Error.base_topic_invalid c.mqtt.base_topic))))

-- The checks behind the loops.
unfoldable pub validate_rest : Config → List Error
unfolding contains
validate_rest c =
    check (not (contains (text "standby" ∷ text "suspend" ∷ text "off" ∷ []) c.display.off_mode))
      (Error.off_mode_invalid c.display.off_mode)
    ++ (check (not (contains (text "replace" ∷ text "fail" ∷ []) c.systemd.job_mode))
          (Error.job_mode_invalid c.systemd.job_mode)
        ++ (check (lt_pos c.systemd.poll_interval (5 * second)) Error.poll_interval_short
            ++ (check (lt_pos c.systemd.job_timeout (5 * second)) Error.job_timeout_short
                ++ check
                    (not (
                      contains (text "debug" ∷ text "info" ∷ text "warn" ∷ text "error" ∷ [])
                        c.log_level))
                    (Error.log_level_invalid c.log_level))))

module _ (parse_url : Text → Option Url) where
  -- `Validate`; the configuration is accepted if the list is empty.
  unfoldable pub validate : Config → List Error
  unfolding validate_mqtt validate_units validate_templates validate_rest
  validate c =
      validate_mqtt parse_url c
      ++ (validate_units 0 c.all no_units
          ++ (validate_templates 0 (entries c.templates) [] ++ validate_rest c))

  abbrev accept : Config → List Error → (List Error) ⊎ Config
  accept c [] = inr c
  accept c (e ∷ es) = inl (e ∷ es)

  abbrev validated : (ℕ × Text) ⊎ Config → (List Error) ⊎ Config
  validated (inl (i, name)) = inl (Error.template_name i name ∷ [])
  validated (inr c) = accept c (validate c)

  -- `Parse`, from the configuration that the YAML decoder gives.
  unfoldable pub parse : Env → Config → (List Error) ⊎ Config
  unfolding apply_defaults apply_env expand validate
  parse env c = validated (expand (apply_env env (apply_defaults env c)))

  -- `UsesTLS`
  unfoldable pub uses_tls : Text → Bool
  unfolding contains
  uses_tls broker = elim (parse_url broker) [
    | none ↦ false
    | some u ↦ contains tls_schemes u.scheme
  ]
